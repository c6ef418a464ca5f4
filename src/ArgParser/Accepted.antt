-- ===== src/ArgParser/Accepted.antt =====
-- What `parse_arguments` of wvb_server/src/arg_parser.cpp guarantees of the settings that it accepts.
use wireless_vr_bridge.Base.{
  ℕ, ◌+◌, ◌-◌, ◌^◌, ◌<◌, ◌≡◌, refl, arith, false, ◌||◌, ◌&&◌, List, [], ◌∷◌, ◌++◌, Option, none,
  some, if◌then◌else◌, ◌==◌, ltb, length, take, drop, get_or, u8, Bool-cases, inl, inr, All, ◌⊎◌,
}
use wireless_vr_bridge.Base.Text.{same_text, codes}
use wireless_vr_bridge.Settings.{
  normal, benchmark, BenchmarkPass, default_pass, NetworkSettings, AppSettings, default_settings,
}
use wireless_vr_bridge.ArgParser.{
  parsed, rejected, parse_numerical_field, parse_benchmark_pass_field, parse_network_settings_field,
  ArgState, parse_option, parse_multi, parse_argument, check_settings, arguments_loop,
  parse_arguments, is_empty, is_quoted, no_multi_arg, benchmark_passes, network_settings_arg,
  MultiArgType, first_state, split_value, u32_max,
}
use wireless_vr_bridge.ArgParser.Bounds.{
  Accepts, Accepts-bind, Accepts-on_value, Accepts-if, Accepts-rejected, Accepts-parsed, IsNumber,
  parse_numerical_field-IsNumber, PassBounds, NetworkBounds, parse_benchmark_pass_field-bounds,
  parse_network_settings_field-bounds, parse_multi_arg-Accepts,
}

-- Every field of the settings is one that the program can use: each pass names a codec, repeats at
-- least once and fits its types, the network settings fit theirs, and a benchmark has a pass.
pub record PassOk (p : BenchmarkPass) : Type 0 where
  pub codec : 0 < length p.codec_id
  pub bounds : PassBounds p

pub record SettingsOk (s : AppSettings) : Type 0 where
  pub network : NetworkBounds s.network_settings
  pub all_passes : All PassOk s.benchmark_settings.passes
  pub mode : (s.app_mode ≡ normal) ⊎ (s.app_mode ≡ benchmark)
  pub interval : s.benchmark_settings.duration_inter_run_interval_ms < 2 ^ 32

default-SettingsOk : SettingsOk default_settings
default-SettingsOk = record {
  network = record {
    ping_count_u8 = omega arith;
    ping_interval_u16 = omega arith;
    ping_timeout_u16 = omega arith;
  };
  all_passes = tt;
  mode = inl refl;
  interval = omega arith;
}

default-PassBounds : (i : ℕ) → PassBounds (record default_pass { pass_index = i })
default-PassBounds i = record {
  repeated = (omega arith, omega arith);
  depth = (omega arith, omega arith);
  rate = omega arith;
  durations = (omega arith, omega arith, omega arith, omega arith);
}

abbrev StateOk : ArgState → Type 0
StateOk st = SettingsOk st.settings

-- The settings at the end.
pub record FinalOk (s : AppSettings) : Type 0 where
  pub fields_ok : SettingsOk s
  pub has_pass :
      (s.app_mode ≡ normal) ⊎ ((s.app_mode ≡ benchmark) × (0 < length s.benchmark_settings.passes))

given : (text : List ℕ) → is_empty text ≡ false → 0 < length text
unfolding is_empty
given [] e = cc
given (c ∷ cs) e = omega arith

All-snoc :
    {A : Type 0} (P : A → Type 0) (xs : List A) (x : A) → All P xs → P x → All P (xs ++ x ∷ [])
All-snoc P [] x h k = (k, tt)
All-snoc P (y ∷ ys) x h k = (h.0, All-snoc P ys x h.1 k)

pass_added :
    (st : ArgState) (p : BenchmarkPass)
    → StateOk st
    → PassBounds p
    → Accepts StateOk (
        if is_empty p.codec_id
        then rejected
        else parsed (record st {
          multi_arg_index = u8 (st.multi_arg_index + 1);
          settings = record st.settings {
            benchmark_settings = record st.settings.benchmark_settings {
              passes = st.settings.benchmark_settings.passes ++ p ∷ [];
            };
          };
        }))
unfolding is_empty Accepts
pass_added st p h b = elim (Bool-cases (is_empty p.codec_id)) [
  | inl e ↦ rw e tt
  | inr e ↦ rw e (record {
    network = h.network;
    all_passes =
        All-snoc PassOk st.settings.benchmark_settings.passes p h.all_passes
          (record { codec = given p.codec_id e; bounds = b });
    interval = h.interval;
    mode = h.mode;
  })
]

check_settings-ok : (s : AppSettings) → SettingsOk s → Accepts FinalOk (check_settings s)
unfolding check_settings Accepts
check_settings-ok s h = elim h.mode [
  | inl e ↦ rw e (record {
    fields_ok = record {
      network = h.network;
      all_passes = h.all_passes;
      mode = inl refl;
      interval = h.interval;
    };
    has_pass = inl refl;
  })
  | inr e ↦ elim (Bool-cases (length s.benchmark_settings.passes == 0)) [
    | inl z ↦ rw (e, z) tt
    | inr z ↦
        rw (e, z)
          (record {
            fields_ok = record {
              network = h.network;
              all_passes = h.all_passes;
              mode = inr refl;
              interval = h.interval;
            };
            has_pass = inr (refl, ground (arith, z));
          })
  ]
]

module _ (ulong_max : ℕ) where
  parse_option-ok :
      (name str_val : List ℕ) (st : ArgState)
      → StateOk st
      → Accepts StateOk (parse_option ulong_max name str_val st)
  unfolding parse_option is_empty is_quoted
  parse_option-ok name str_val st h =
      Accepts-if StateOk (same_text name (codes "-h") || same_text name (codes "--help")) _ _
        (Accepts-rejected StateOk)
        (Accepts-if StateOk (same_text name (codes "-b") || same_text name (codes "--benchmark")) _
          _
          (Accepts-parsed StateOk
            (record st {
              settings = record st.settings { app_mode = benchmark };
              prev_arg_type = benchmark_passes;
            })
            (record {
              network = h.network;
              all_passes = h.all_passes;
              interval = h.interval;
              mode = inr refl;
            }))
          (Accepts-if StateOk (same_text name (codes "-n") || same_text name (codes "--network")) _
            _
            (Accepts-parsed StateOk (record st { prev_arg_type = network_settings_arg })
              (record {
                network = h.network;
                all_passes = h.all_passes;
                interval = h.interval;
                mode = h.mode;
              }))
            (Accepts-if StateOk
              (same_text name (codes "-ri") || same_text name (codes "--run-interval")) _ _
              (Accepts-on_value (IsNumber str_val 0 u32_max) StateOk
                (parse_numerical_field ulong_max str_val 0 u32_max)
                (λ v. record st {
                  settings = record st.settings {
                    benchmark_settings = record st.settings.benchmark_settings {
                      duration_inter_run_interval_ms = v;
                    };
                  };
                })
                (parse_numerical_field-IsNumber ulong_max str_val 0 u32_max)
                (λ v m. record {
                  network = h.network;
                  all_passes = h.all_passes;
                  interval = omega (arith, m.at_most);
                  mode = h.mode;
                }))
              (Accepts-if StateOk
                (same_text name (codes "-sp") || same_text name (codes "--steamvr-path")) _ _
                (Accepts-if StateOk (is_quoted str_val) _ _
                  (Accepts-parsed StateOk
                    (record st {
                      settings = record st.settings {
                        steamvr_path = take (length str_val - 2) (drop 1 str_val);
                      };
                    })
                    (record {
                      network = h.network;
                      all_passes = h.all_passes;
                      interval = h.interval;
                      mode = h.mode;
                    }))
                  (Accepts-rejected StateOk))
                (Accepts-if StateOk
                  (same_text name (codes "-c") || same_text name (codes "--codec")) _ _
                  (Accepts-if StateOk (is_empty str_val) _ _ (Accepts-rejected StateOk) (
                    Accepts-parsed StateOk
                      (record st { settings = record st.settings { preferred_codec = str_val } })
                      (record {
                        network = h.network;
                        all_passes = h.all_passes;
                        interval = h.interval;
                        mode = h.mode;
                      })))
                  (Accepts-rejected StateOk))))))

  parse_multi-ok :
      (t : MultiArgType) (arg : List ℕ) (st : ArgState)
      → StateOk st
      → Accepts StateOk (parse_multi ulong_max t arg st)
  unfolding parse_multi
  parse_multi-ok no_multi_arg arg st h = Accepts-rejected StateOk
  parse_multi-ok benchmark_passes arg st h =
      Accepts-bind (λ (r : ℕ × BenchmarkPass). PassBounds r.1) StateOk _ _
        (parse_multi_arg-Accepts ulong_max PassBounds (parse_benchmark_pass_field ulong_max)
          (parse_benchmark_pass_field-bounds ulong_max) arg
          (record default_pass { pass_index = st.multi_arg_index })
          (default-PassBounds st.multi_arg_index))
        (λ r b. pass_added st r.1 h b)
  parse_multi-ok network_settings_arg arg st h =
      Accepts-bind (λ (r : ℕ × NetworkSettings). NetworkBounds r.1) StateOk _ _
        (parse_multi_arg-Accepts ulong_max NetworkBounds (parse_network_settings_field ulong_max)
          (parse_network_settings_field-bounds ulong_max) arg st.settings.network_settings
          h.network)
        (λ r b.
          Accepts-parsed StateOk
            (record st {
              prev_arg_type = no_multi_arg;
              settings = record st.settings { network_settings = r.1 };
            })
            (record {
              network = b;
              all_passes = h.all_passes;
              interval = h.interval;
              mode = h.mode;
            }))

  parse_argument-ok :
      (arg : List ℕ) (st : ArgState)
      → StateOk st
      → Accepts StateOk (parse_argument ulong_max arg st)
  unfolding parse_argument
  parse_argument-ok arg st h =
      Accepts-if StateOk (ltb 0 (length arg) && (get_or arg 0 0 == b'-')) _ _
        (parse_option-ok (split_value arg).0 (split_value arg).1 _ h)
        (parse_multi-ok st.prev_arg_type arg st h)

  arguments_loop-ok :
      (argv : List (Option (List ℕ))) (st : ArgState)
      → StateOk st
      → Accepts FinalOk (arguments_loop ulong_max argv st)
  unfolding arguments_loop
  arguments_loop-ok [] st h = check_settings-ok st.settings h
  arguments_loop-ok (none ∷ argv) st h = arguments_loop-ok argv st h
  arguments_loop-ok (some arg ∷ argv) st h =
      Accepts-bind StateOk FinalOk (parse_argument ulong_max arg st) (arguments_loop ulong_max argv)
        (parse_argument-ok arg st h) (arguments_loop-ok argv)

  -- `parse_arguments` ends on every command line, by a value, a failure or an exception. Settings that
  -- it accepts are within the bounds of their types, each pass names a codec and repeats at least
  -- once, and there is a pass if they ask for a benchmark.
  pub parse_arguments-ok :
      (argv : List (Option (List ℕ))) → Accepts FinalOk (parse_arguments ulong_max argv)
  unfolding parse_arguments
  parse_arguments-ok argv = arguments_loop-ok argv first_state default-SettingsOk
