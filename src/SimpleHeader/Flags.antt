-- ===== src/SimpleHeader/Flags.antt =====
-- Setting flags with `|` and testing them with `&`, over the eight values of `SimpleHeaderFlags`.
use wireless_vr_bridge.Base.{
  ℕ, ◌<◌, ◌≡◌, refl, arith, Bool, true, false, ◌&&◌, ◌||◌, not, if◌then◌else◌, ◌|||◌, table,
  table_entry, ltb, ltb→lt,
}
use wireless_vr_bridge.SimpleHeader.{has_flag, end_of_frame, save_frame, end_of_stream}

-- What `add_frame_data` does to the flags.
abbrev pub raise : Bool → Bool → Bool → ℕ → ℕ
raise last save eos flags =
    let f1 = if last then flags ||| end_of_frame else flags in
    let f2 = if save then f1 ||| save_frame else f1 in if eos then f2 ||| end_of_stream else f2

same : Bool → Bool → Bool
same true b = b
same false b = not b

same→eq : (a b : Bool) → same a b ≡ true → a ≡ b
unfolding same
same→eq a b h = ground arith

check : Bool → Bool → Bool → ℕ → Bool
check last save eos f =
    same (has_flag (raise last save eos f) end_of_frame) (has_flag f end_of_frame || last)
    && same (has_flag (raise last save eos f) save_frame) (has_flag f save_frame || save)
    && same (has_flag (raise last save eos f) end_of_stream) (has_flag f end_of_stream || eos)
    && ltb (raise last save eos f) 8

check-table : (last save eos : Bool) → table (check last save eos) 8 ≡ true
unfolding table check same has_flag
check-table true true true = refl
check-table true true false = refl
check-table true false true = refl
check-table true false false = refl
check-table false true true = refl
check-table false true false = refl
check-table false false true = refl
check-table false false false = refl

both : (a b : Bool) → (a && b) ≡ true → (a ≡ true) × (b ≡ true)
both a b h = ground arith

-- Each flag is set exactly if it was set before or is asked for, and no other bit is.
pub has_flag-raise :
    (last save eos : Bool) (f : ℕ)
    → f < 8
    → (has_flag (raise last save eos f) end_of_frame ≡ (has_flag f end_of_frame || last))
      × (has_flag (raise last save eos f) save_frame ≡ (has_flag f save_frame || save))
      × (has_flag (raise last save eos f) end_of_stream ≡ (has_flag f end_of_stream || eos))
      × (raise last save eos f < 8)
unfolding check
has_flag-raise last save eos f h =
    let all = table_entry (check last save eos) 8 f h (check-table last save eos) in
    let (rest, bound) = both _ _ all in
    let (rest', c) = both _ _ rest in
    let (a, b) = both _ _ rest' in (same→eq _ _ a, same→eq _ _ b, same→eq _ _ c, ltb→lt _ 8 bound)
