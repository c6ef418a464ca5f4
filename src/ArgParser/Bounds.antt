-- ===== src/ArgParser/Bounds.antt =====
-- What wvb_server/src/arg_parser.cpp guarantees of the settings that it accepts.
use wireless_vr_bridge.Base.{
  ℕ, ◌+◌, ◌^◌, ◌<◌, ◌≤◌, ◌≡◌, refl, arith, Bool, true, false, ◌||◌, List, [], ◌∷◌, if◌then◌else◌,
  ◌==◌, ltb, length, u8, u16, u32, Bool-cases, inl, inr,
}
use wireless_vr_bridge.Base.Int.{pos, negsuc}
use wireless_vr_bridge.Base.Text.{same_text, codes, all_digits, number_from}
use wireless_vr_bridge.Settings.{BenchmarkPass, NetworkSettings}
use wireless_vr_bridge.ArgParser.{
  Parsed, parsed, rejected, thrown, stuck, ◌>>=◌, on_value, parse_numerical_field,
  parse_pass_option, parse_benchmark_pass_field, parse_network_settings_field, parse_multi_arg,
  is_empty, split_value, u32_max, u8_max,
}
use wireless_vr_bridge.ArgParser.Fields.{parse_multi_arg-fields, parse_fields, split_fields}

-- The code comes to an end, and what it accepts has the property.
unfoldable pub Accepts : {A : Type 0} → (A → Type 0) → Parsed A → Type 0
Accepts P (parsed a) = P a
Accepts P rejected = Unit
Accepts P thrown = Unit
Accepts P stuck = ⊥

pub Accepts-bind :
    {A B : Type 0} (P : A → Type 0) (Q : B → Type 0) (r : Parsed A) (f : A → Parsed B)
    → Accepts P r
    → ((a : A) → P a → Accepts Q (f a))
    → Accepts Q (r >>= f)
unfolding Accepts
Accepts-bind P Q (parsed a) f h g = g a h
Accepts-bind P Q rejected f h g = h
Accepts-bind P Q thrown f h g = h
Accepts-bind P Q stuck f h g = h

pub Accepts-on_value :
    {A B : Type 0} (P : A → Type 0) (Q : B → Type 0) (r : Parsed A) (f : A → B)
    → Accepts P r
    → ((a : A) → P a → Q (f a))
    → Accepts Q (on_value r f)
unfolding Accepts
Accepts-on_value P Q r f h g = Accepts-bind P Q r (λ a. parsed (f a)) h g

pub Accepts-rejected : {A : Type 0} (P : A → Type 0) → Accepts P rejected
unfolding Accepts
Accepts-rejected P = tt

pub Accepts-parsed : {A : Type 0} (P : A → Type 0) (a : A) → P a → Accepts P (parsed a)
unfolding Accepts
Accepts-parsed P a h = h

pub Accepts-if :
    {A : Type 0} (P : A → Type 0) (b : Bool) (x y : Parsed A)
    → Accepts P x
    → Accepts P y
    → Accepts P (if b then x else y)
Accepts-if P true x y h k = h
Accepts-if P false x y h k = k

-- A value that a field is given: the number that its digits stand for, cut to 32 bits, in range.
pub record IsNumber (val : List ℕ) (min_value max_value v : ℕ) : Type 0 where
  pub digits : all_digits val ≡ true
  pub given : 0 < length val
  pub value : v ≡ u32 (number_from 0 val)
  pub at_least : min_value ≤ v
  pub at_most : v ≤ max_value

in_range :
    (val : List ℕ) (min_value max_value : ℕ)
    → all_digits val ≡ true
    → 0 < length val
    → Accepts (IsNumber val min_value max_value) (
        if ltb (u32 (number_from 0 val)) min_value || ltb max_value (u32 (number_from 0 val))
        then rejected
        else parsed (u32 (number_from 0 val)))
unfolding Accepts
in_range val min_value max_value e h =
    elim (Bool-cases
      (ltb (u32 (number_from 0 val)) min_value || ltb max_value (u32 (number_from 0 val)))) [
        | inl o ↦ rw o tt
        | inr o ↦ rw o (record {
          digits = e;
          given = h;
          value = refl;
          at_least = ground (arith, o);
          at_most = ground (arith, o);
        })
      ]

-- An accepted value is a number in range; the code ends in any case.
pub parse_numerical_field-IsNumber :
    (ulong_max : ℕ) (val : List ℕ) (min_value max_value : ℕ)
    → Accepts
        (IsNumber val min_value max_value)
        (parse_numerical_field ulong_max val min_value max_value)
unfolding parse_numerical_field is_empty Accepts
parse_numerical_field-IsNumber ulong_max [] min_value max_value = tt
parse_numerical_field-IsNumber ulong_max (c ∷ cs) min_value max_value =
    elim (Bool-cases (all_digits (c ∷ cs))) [
      | inl e ↦ rw e (
          Accepts-if (IsNumber (c ∷ cs) min_value max_value)
            (ltb ulong_max (number_from 0 (c ∷ cs))) thrown _ tt
            (in_range (c ∷ cs) min_value max_value e (omega arith)))
      | inr e ↦ rw e tt
    ]

-- The parts of the settings.
pub record PassBounds (p : BenchmarkPass) : Type 0 where
  pub repeated : (1 ≤ p.num_repetitions) × (p.num_repetitions < 2 ^ 32)
  pub depth : (1 ≤ p.codec_settings.bpp) × (p.codec_settings.bpp < 2 ^ 8)
  pub rate : p.codec_settings.bitrate < 2 ^ 32
  pub durations :
      (p.duration_startup_phase_ms < 2 ^ 32)
      × (p.duration_timing_phase_ms < 2 ^ 32)
      × (p.duration_frame_quality_phase_ms < 2 ^ 32)
      × (p.duration_end_margin_ms < 2 ^ 32)

pub record NetworkBounds (n : NetworkSettings) : Type 0 where
  pub ping_count_u8 : n.ping_count < 2 ^ 8
  pub ping_interval_u16 : n.ping_interval_ms < 2 ^ 16
  pub ping_timeout_u16 : n.ping_timeout_ms < 2 ^ 16

module _ (ulong_max : ℕ) where
  parse_pass_option-bounds :
      (field str_val : List ℕ) (p : BenchmarkPass)
      → PassBounds p
      → Accepts PassBounds (parse_pass_option ulong_max field str_val p)
  parse_pass_option-bounds field str_val p h =
      Accepts-if PassBounds (same_text field (codes "n")) _ _
        (Accepts-on_value (IsNumber str_val 1 u32_max) PassBounds
          (parse_numerical_field ulong_max str_val 1 u32_max)
          (λ v. record p { num_repetitions = v })
          (parse_numerical_field-IsNumber ulong_max str_val 1 u32_max)
          (λ v m. record {
            repeated = (m.at_least, omega (arith, m.at_most));
            depth = h.depth;
            rate = h.rate;
            durations = h.durations;
          }))
        (Accepts-if PassBounds (same_text field (codes "ds")) _ _
          (Accepts-on_value (IsNumber str_val 0 u32_max) PassBounds
            (parse_numerical_field ulong_max str_val 0 u32_max)
            (λ v. record p { duration_startup_phase_ms = v })
            (parse_numerical_field-IsNumber ulong_max str_val 0 u32_max)
            (λ v m. record {
              repeated = h.repeated;
              depth = h.depth;
              rate = h.rate;
              durations = (omega (arith, m.at_most), h.durations.1, h.durations.2, h.durations.3);
            }))
          (Accepts-if PassBounds (same_text field (codes "dt")) _ _
            (Accepts-on_value (IsNumber str_val 0 u32_max) PassBounds
              (parse_numerical_field ulong_max str_val 0 u32_max)
              (λ v. record p { duration_timing_phase_ms = v })
              (parse_numerical_field-IsNumber ulong_max str_val 0 u32_max)
              (λ v m. record {
                repeated = h.repeated;
                depth = h.depth;
                rate = h.rate;
                durations = (h.durations.0, omega (arith, m.at_most), h.durations.2, h.durations.3);
              }))
            (Accepts-if PassBounds (same_text field (codes "dq")) _ _
              (Accepts-on_value (IsNumber str_val 0 u32_max) PassBounds
                (parse_numerical_field ulong_max str_val 0 u32_max)
                (λ v. record p { duration_frame_quality_phase_ms = v })
                (parse_numerical_field-IsNumber ulong_max str_val 0 u32_max)
                (λ v m. record {
                  repeated = h.repeated;
                  depth = h.depth;
                  rate = h.rate;
                  durations =
                      (h.durations.0, h.durations.1, omega (arith, m.at_most), h.durations.3);
                }))
              (Accepts-if PassBounds (same_text field (codes "de")) _ _
                (Accepts-on_value (IsNumber str_val 0 u32_max) PassBounds
                  (parse_numerical_field ulong_max str_val 0 u32_max)
                  (λ v. record p { duration_end_margin_ms = v })
                  (parse_numerical_field-IsNumber ulong_max str_val 0 u32_max)
                  (λ v m. record {
                    repeated = h.repeated;
                    depth = h.depth;
                    rate = h.rate;
                    durations =
                        (h.durations.0, h.durations.1, h.durations.2, omega (arith, m.at_most));
                  }))
                (Accepts-if PassBounds (same_text field (codes "delay")) _ _
                  (Accepts-if PassBounds (same_text str_val (codes "auto")) _ _
                    (Accepts-parsed PassBounds
                      (record p { codec_settings = record p.codec_settings { delay = negsuc 0 } })
                      (record {
                        repeated = h.repeated;
                        depth = h.depth;
                        rate = h.rate;
                        durations = h.durations;
                      }))
                    (Accepts-on_value (IsNumber str_val 0 u8_max) PassBounds
                      (parse_numerical_field ulong_max str_val 0 u8_max)
                      (λ v. record p {
                        codec_settings = record p.codec_settings { delay = pos (u8 v) };
                      })
                      (parse_numerical_field-IsNumber ulong_max str_val 0 u8_max)
                      (λ v m. record {
                        repeated = h.repeated;
                        depth = h.depth;
                        rate = h.rate;
                        durations = h.durations;
                      })))
                  (Accepts-if PassBounds (same_text field (codes "bpp")) _ _
                    (Accepts-on_value (IsNumber str_val 1 u8_max) PassBounds
                      (parse_numerical_field ulong_max str_val 1 u8_max)
                      (λ v. record p { codec_settings = record p.codec_settings { bpp = u8 v } })
                      (parse_numerical_field-IsNumber ulong_max str_val 1 u8_max)
                      (λ v m. record {
                        repeated = h.repeated;
                        depth = (omega (arith, m.at_least, m.at_most), omega arith);
                        rate = h.rate;
                        durations = h.durations;
                      }))
                    (Accepts-if PassBounds (same_text field (codes "bitrate")) _ _
                      (Accepts-on_value (IsNumber str_val 0 u32_max) PassBounds
                        (parse_numerical_field ulong_max str_val 0 u32_max)
                        (λ v. record p { codec_settings = record p.codec_settings { bitrate = v } })
                        (parse_numerical_field-IsNumber ulong_max str_val 0 u32_max)
                        (λ v m. record {
                          repeated = h.repeated;
                          depth = h.depth;
                          rate = omega (arith, m.at_most);
                          durations = h.durations;
                        }))
                      (Accepts-rejected PassBounds))))))))

  pub parse_benchmark_pass_field-bounds :
      (field : List ℕ) (i : ℕ) (p : BenchmarkPass)
      → PassBounds p
      → Accepts PassBounds (parse_benchmark_pass_field ulong_max field i p)
  unfolding parse_benchmark_pass_field is_empty
  parse_benchmark_pass_field-bounds field i p h =
      Accepts-if PassBounds (i == 0) _ _
        (Accepts-if PassBounds (is_empty field) _ _ (Accepts-rejected PassBounds) (
          Accepts-parsed PassBounds (record p { codec_id = field })
            (record {
              repeated = h.repeated;
              depth = h.depth;
              rate = h.rate;
              durations = h.durations;
            })))
        (Accepts-if PassBounds (is_empty field) _ _ (Accepts-parsed PassBounds p h)
          (parse_pass_option-bounds (split_value field).0 (split_value field).1 p h))

  pub parse_network_settings_field-bounds :
      (field : List ℕ) (i : ℕ) (n : NetworkSettings)
      → NetworkBounds n
      → Accepts NetworkBounds (parse_network_settings_field ulong_max field i n)
  unfolding parse_network_settings_field is_empty
  parse_network_settings_field-bounds field i n h =
      Accepts-if NetworkBounds _ _ _ (Accepts-parsed NetworkBounds n h) (
        Accepts-if NetworkBounds _ _ _
          (Accepts-on_value (IsNumber (split_value field).1 1 u32_max) NetworkBounds
            (parse_numerical_field ulong_max (split_value field).1 1 u32_max)
            (λ v. record n { ping_count = u8 v })
            (parse_numerical_field-IsNumber ulong_max (split_value field).1 1 u32_max)
            (λ v m. record {
              ping_count_u8 = omega arith;
              ping_interval_u16 = h.ping_interval_u16;
              ping_timeout_u16 = h.ping_timeout_u16;
            }))
          (Accepts-if NetworkBounds _ _ _
            (Accepts-on_value (IsNumber (split_value field).1 0 u32_max) NetworkBounds
              (parse_numerical_field ulong_max (split_value field).1 0 u32_max)
              (λ v. record n { ping_interval_ms = u16 v })
              (parse_numerical_field-IsNumber ulong_max (split_value field).1 0 u32_max)
              (λ v m. record {
                ping_count_u8 = h.ping_count_u8;
                ping_interval_u16 = omega arith;
                ping_timeout_u16 = h.ping_timeout_u16;
              }))
            (Accepts-if NetworkBounds _ _ _
              (Accepts-on_value (IsNumber (split_value field).1 1 u32_max) NetworkBounds
                (parse_numerical_field ulong_max (split_value field).1 1 u32_max)
                (λ v. record n { ping_timeout_ms = u16 v })
                (parse_numerical_field-IsNumber ulong_max (split_value field).1 1 u32_max)
                (λ v m. record {
                  ping_count_u8 = h.ping_count_u8;
                  ping_interval_u16 = h.ping_interval_u16;
                  ping_timeout_u16 = omega arith;
                }))
              (Accepts-rejected NetworkBounds))))

  module _ {S : Type 0} (Q : S → Type 0) (parse_field : List ℕ → ℕ → S → Parsed S)
      (keeps : (field : List ℕ) (i : ℕ) (s : S) → Q s → Accepts Q (parse_field field i s)) where
    parse_fields-Accepts :
        (fields : List (List ℕ)) (i : ℕ) (s : S)
        → Q s
        → Accepts (λ (r : ℕ × S). Q r.1) (parse_fields parse_field fields i s)
    parse_fields-Accepts [] i s h = Accepts-parsed (λ (r : ℕ × S). Q r.1) (i, s) h
    parse_fields-Accepts (field ∷ fields) i s h =
        Accepts-bind Q (λ (r : ℕ × S). Q r.1) (parse_field field i s) _ (keeps field i s h)
          (λ s' k. parse_fields-Accepts fields (u32 (i + 1)) s' k)

    pub parse_multi_arg-Accepts :
        (arg : List ℕ) (s : S)
        → Q s
        → Accepts (λ (r : ℕ × S). Q r.1) (parse_multi_arg parse_field arg s)
    parse_multi_arg-Accepts arg s h =
        rw (parse_multi_arg-fields parse_field arg s)
          (parse_fields-Accepts (split_fields arg) 0 s h)
