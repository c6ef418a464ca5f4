-- ===== src/ArgParser/Narrow.antt =====
-- What becomes of a number that `parse_network_settings_field` accepts and the settings cannot hold.
use wireless_vr_bridge.Base.{
  ℕ, ◌%◌, ◌^◌, ◌<◌, ◌≤◌, ◌≡◌, refl, arith, true, false, ◌||◌, List, [], ◌∷◌, ◌++◌, ltb, length, u32,
}
use wireless_vr_bridge.Base.Text.{codes, all_digits, number_from}
use wireless_vr_bridge.Settings.{NetworkSettings}
use wireless_vr_bridge.ArgParser.{
  parsed, parse_numerical_field, parse_network_settings_field, is_empty, u32_max,
}

parse_numerical_field-in_range :
    (ulong_max : ℕ) (val : List ℕ) (lo : ℕ)
    → all_digits val ≡ true
    → 0 < length val
    → number_from 0 val ≤ ulong_max
    → number_from 0 val < 2 ^ 32
    → lo ≤ number_from 0 val
    → parse_numerical_field ulong_max val lo u32_max ≡ parsed (number_from 0 val)
unfolding parse_numerical_field is_empty
parse_numerical_field-in_range ulong_max [] lo d h a b c = absurd (omega arith)
parse_numerical_field-in_range ulong_max (x ∷ xs) lo d h a b c =
    let same : u32 (number_from 0 (x ∷ xs)) ≡ number_from 0 (x ∷ xs) = omega (arith, b) in
    let no_throw : ltb ulong_max (number_from 0 (x ∷ xs)) ≡ false = ground (arith, a) in
    let in_range : (ltb (number_from 0 (x ∷ xs)) lo || ltb u32_max (number_from 0 (x ∷ xs)))
        ≡ false =
      ground (arith, b, c) in
    rw (d, same, no_throw, in_range) refl

-- A ping count from 1 to 2 ^ 32 - 1 is accepted, and its lowest eight bits are what is set: `pc=256`
-- sets no pings at all, although the smallest count that is accepted is 1.
pub ping_count_cut :
    (ulong_max : ℕ) (val : List ℕ) (settings : NetworkSettings) (i : ℕ)
    → all_digits val ≡ true
    → 0 < length val
    → number_from 0 val ≤ ulong_max
    → number_from 0 val < 2 ^ 32
    → 1 ≤ number_from 0 val
    → parse_network_settings_field ulong_max (codes "pc=" ++ val) i settings
      ≡ parsed (record settings { ping_count = number_from 0 val % 256 })
unfolding parse_network_settings_field is_empty
ping_count_cut ulong_max val settings i d h a b c =
    rw (parse_numerical_field-in_range ulong_max val 1 d h a b c) refl
