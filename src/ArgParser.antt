-- ===== src/ArgParser.antt =====
-- wvb_server/src/arg_parser.cpp: the command line of the server. Messages are not modelled. A field is
-- parsed in the state that it writes to, a pass of the benchmark or the network settings.
-- `ulong_max` is the largest `unsigned long`, which is a matter of the platform: `std::stoul` throws
-- above it, and nothing catches that.
pub mod Fields
pub mod Bounds
pub mod Accepted
pub mod Narrow
mod Tests
use wireless_vr_bridge.Base.{
  ℕ, zero, suc, ◌+◌, ◌-◌, ◌^◌, ◌<◌, Bool, true, false, not, ◌||◌, ◌&&◌, List, [], ◌∷◌, ◌++◌, Option,
  none, some, if◌then◌else◌, ltb, leb, ◌==◌, length, get_or, take, drop, u8, u16, u32,
}
use wireless_vr_bridge.Base.Int.{pos, negsuc}
use wireless_vr_bridge.Base.Text.{codes, same_text, split_at, all_digits, number_from}
use wireless_vr_bridge.Settings.{
  AppMode, normal, benchmark, unknown_mode, CodecSettings, BenchmarkPass, default_pass,
  BenchmarkSettings, NetworkSettings, AppSettings, default_settings,
}

-- A value, the failure that the code returns, an exception; `stuck` is no result of the code: the fuel
-- of a loop ran out.
pub data Parsed (A : Type 0) : Type 0 where
  parsed : A → Parsed A
  rejected thrown stuck : Parsed A

infixl 1 ◌>>=◌
abbrev pub ◌>>=◌ : {A B : Type 0} → Parsed A → (A → Parsed B) → Parsed B
parsed a >>= f = f a
rejected >>= f = rejected
thrown >>= f = thrown
stuck >>= f = stuck

abbrev pub on_value : {A B : Type 0} → Parsed A → (A → B) → Parsed B
on_value p f = p >>= λ v. parsed (f v)

abbrev pub u32_max : ℕ
u32_max = 0xFFFFFFFF

abbrev pub u8_max : ℕ
u8_max = 0xFF

is_empty : List ℕ → Bool
is_empty [] = true
is_empty (c ∷ cs) = false

-- The part before the first '=', and the part after it, which is empty if there is no '='.
abbrev pub split_value : List ℕ → List ℕ × List ℕ
split_value field = elim (split_at b'=' field) [ none ↦ (field, []) | some parts ↦ parts ]

module _ (ulong_max : ℕ) where
  unfoldable pub parse_numerical_field : List ℕ → ℕ → ℕ → Parsed ℕ
  unfolding is_empty
  parse_numerical_field val min_value max_value =
      let value = u32 (number_from 0 val) in
      if is_empty val || not (all_digits val)
      then rejected
      else if ltb ulong_max (number_from 0 val)
      then thrown
      else if ltb value min_value || ltb max_value value
      then rejected
      else parsed value

  -- The options of a benchmark pass; `field` and `str_val` are what stands before and after '='.
  abbrev parse_pass_option : List ℕ → List ℕ → BenchmarkPass → Parsed BenchmarkPass
  parse_pass_option field str_val pass =
      if same_text field (codes "n")
      then on_value (parse_numerical_field str_val 1 u32_max)
          (λ v. record pass { num_repetitions = v })
      else if same_text field (codes "ds")
      then on_value (parse_numerical_field str_val 0 u32_max)
          (λ v. record pass { duration_startup_phase_ms = v })
      else if same_text field (codes "dt")
      then on_value (parse_numerical_field str_val 0 u32_max)
          (λ v. record pass { duration_timing_phase_ms = v })
      else if same_text field (codes "dq")
      then on_value (parse_numerical_field str_val 0 u32_max)
          (λ v. record pass { duration_frame_quality_phase_ms = v })
      else if same_text field (codes "de")
      then on_value (parse_numerical_field str_val 0 u32_max)
          (λ v. record pass { duration_end_margin_ms = v })
      else if same_text field (codes "delay")
      then (if same_text str_val (codes "auto")
          then parsed
              (record pass { codec_settings = record pass.codec_settings { delay = negsuc 0 } })
          else on_value (parse_numerical_field str_val 0 u8_max) (λ v. record pass {
            codec_settings = record pass.codec_settings { delay = pos (u8 v) };
          }))
      else if same_text field (codes "bpp")
      then on_value (parse_numerical_field str_val 1 u8_max)
          (λ v. record pass { codec_settings = record pass.codec_settings { bpp = u8 v } })
      else if same_text field (codes "bitrate")
      then on_value (parse_numerical_field str_val 0 u32_max)
          (λ v. record pass { codec_settings = record pass.codec_settings { bitrate = v } })
      else rejected

  unfoldable pub parse_benchmark_pass_field : List ℕ → ℕ → BenchmarkPass → Parsed BenchmarkPass
  unfolding is_empty
  parse_benchmark_pass_field field field_index pass =
      let (name, str_val) = split_value field in
      if field_index == 0
      then (if is_empty field then rejected else parsed (record pass { codec_id = field }))
      else if is_empty field
      then parsed pass
      else parse_pass_option name str_val pass

  -- The fields of the settings are narrower than the values that are parsed.
  unfoldable pub parse_network_settings_field :
      List ℕ → ℕ → NetworkSettings → Parsed NetworkSettings
  unfolding is_empty
  parse_network_settings_field field field_index settings =
      let (name, str_val) = split_value field in
      if is_empty field
      then parsed settings
      else if same_text name (codes "pc")
      then on_value (parse_numerical_field str_val 1 u32_max)
          (λ v. record settings { ping_count = u8 v })
      else if same_text name (codes "pi")
      then on_value (parse_numerical_field str_val 0 u32_max)
          (λ v. record settings { ping_interval_ms = u16 v })
      else if same_text name (codes "pt")
      then on_value (parse_numerical_field str_val 1 u32_max)
          (λ v. record settings { ping_timeout_ms = u16 v })
      else rejected

-- The two cases of `find`.
abbrev pub on_split : {A : Type 0} → Option (List ℕ × List ℕ) → A → (List ℕ → List ℕ → A) → A
on_split none absent present = absent
on_split (some parts) absent present = present parts.0 parts.1

-- The loop of `parse_multi_arg` over what is left of the argument and the index of the next field; the
-- result is the number of fields and what `user_data` points to.
multi_arg_loop : {S : Type 0} → (List ℕ → ℕ → S → Parsed S) → ℕ → List ℕ → ℕ → S → Parsed (ℕ × S)
multi_arg_loop parse_field zero arg field_index s = stuck
multi_arg_loop parse_field (suc fuel) arg field_index s =
    on_split (split_at b';' arg)
      (parse_field arg field_index s >>= λ s'. parsed (u32 (field_index + 1), s'))
      (λ field rest. parse_field field field_index s >>= λ s'.
        multi_arg_loop parse_field fuel rest (u32 (field_index + 1)) s')

-- Each round consumes a ';'.
pub parse_multi_arg : {S : Type 0} → (List ℕ → ℕ → S → Parsed S) → List ℕ → S → Parsed (ℕ × S)
parse_multi_arg parse_field arg s = multi_arg_loop parse_field (suc (length arg)) arg 0 s

pub data MultiArgType : Type 0 where
  no_multi_arg benchmark_passes network_settings_arg : MultiArgType

-- The variables of `parse_arguments`.
pub record ArgState : Type 0 where
  pub settings : AppSettings
  pub prev_arg_type : MultiArgType
  pub multi_arg_index : ℕ

abbrev pub first_state : ArgState
first_state = record {
  settings = default_settings;
  prev_arg_type = no_multi_arg;
  multi_arg_index = 0;
}

is_quoted : List ℕ → Bool
is_quoted s = ltb 2 (length s) && (get_or s 0 0 == b'"') && (get_or s (length s - 1) 0 == b'"')

-- The end of `parse_arguments`: a benchmark needs a pass.
check_settings : AppSettings → Parsed AppSettings
check_settings settings = elim settings.app_mode [
  | benchmark ↦ if length settings.benchmark_settings.passes == 0 then rejected else parsed settings
  | normal ↦ parsed settings
  | unknown_mode ↦ parsed settings
]

module _ (ulong_max : ℕ) where
  -- An argument that starts with '-', in the state with `prev_arg_type` and `multi_arg_index` reset.
  parse_option : List ℕ → List ℕ → ArgState → Parsed ArgState
  unfolding is_empty is_quoted
  parse_option name str_val st =
      let settings = st.settings in
      if same_text name (codes "-h") || same_text name (codes "--help")
      then rejected
      else if same_text name (codes "-b") || same_text name (codes "--benchmark")
      then parsed (record st {
        settings = record settings { app_mode = benchmark };
        prev_arg_type = benchmark_passes;
      })
      else if same_text name (codes "-n") || same_text name (codes "--network")
      then parsed (record st { prev_arg_type = network_settings_arg })
      else if same_text name (codes "-ri") || same_text name (codes "--run-interval")
      then on_value (parse_numerical_field ulong_max str_val 0 u32_max) (λ v. record st {
        settings = record settings {
          benchmark_settings = record settings.benchmark_settings {
            duration_inter_run_interval_ms = v;
          };
        };
      })
      else if same_text name (codes "-sp") || same_text name (codes "--steamvr-path")
      then (if is_quoted str_val
          then parsed (record st {
            settings = record settings {
              steamvr_path = take (length str_val - 2) (drop 1 str_val);
            };
          })
          else rejected)
      else if same_text name (codes "-c") || same_text name (codes "--codec")
      then (if is_empty str_val
          then rejected
          else parsed (record st { settings = record settings { preferred_codec = str_val } }))
      else rejected

  -- An argument that does not start with '-'.
  parse_multi : MultiArgType → List ℕ → ArgState → Parsed ArgState
  unfolding is_empty
  parse_multi no_multi_arg str_arg st = rejected
  parse_multi benchmark_passes str_arg st =
      let settings = st.settings in
      parse_multi_arg (parse_benchmark_pass_field ulong_max) str_arg
        (record default_pass { pass_index = st.multi_arg_index })
      >>= λ r.
          if is_empty r.1.codec_id
          then rejected
          else parsed (record st {
            multi_arg_index = u8 (st.multi_arg_index + 1);
            settings = record settings {
              benchmark_settings = record settings.benchmark_settings {
                passes = settings.benchmark_settings.passes ++ r.1 ∷ [];
              };
            };
          })
  parse_multi network_settings_arg str_arg st =
      let settings = st.settings in
      parse_multi_arg (parse_network_settings_field ulong_max) str_arg settings.network_settings
      >>= λ r. parsed (record st {
        prev_arg_type = no_multi_arg;
        settings = record settings { network_settings = r.1 };
      })

  parse_argument : List ℕ → ArgState → Parsed ArgState
  parse_argument str_arg st =
      let (name, str_val) = split_value str_arg in
      if (ltb 0 (length str_arg)) && (get_or str_arg 0 0 == b'-')
      then parse_option name str_val
          (record st { prev_arg_type = no_multi_arg; multi_arg_index = 0 })
      else parse_multi st.prev_arg_type str_arg st

  -- `none` is an argument that is a null pointer.
  arguments_loop : List (Option (List ℕ)) → ArgState → Parsed AppSettings
  arguments_loop [] st = check_settings st.settings
  arguments_loop (none ∷ argv) st = arguments_loop argv st
  arguments_loop (some arg ∷ argv) st = parse_argument arg st >>= arguments_loop argv

  -- `argv` without the name of the program.
  pub parse_arguments : List (Option (List ℕ)) → Parsed AppSettings
  parse_arguments argv = arguments_loop argv first_state
