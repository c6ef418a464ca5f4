-- ===== src/ArgParser/Tests.antt =====
-- Command lines, and the theorems about the parser at concrete inputs.
use wireless_vr_bridge.Base.{ℕ, ◌%◌, ◌≡◌, refl, arith, [], ◌∷◌, ◌++◌, some}
use wireless_vr_bridge.Base.Text.{codes, number_from}
use wireless_vr_bridge.Settings.{default_network_settings, default_pass}
use wireless_vr_bridge.ArgParser.{
  parsed, rejected, parse_numerical_field, parse_benchmark_pass_field, parse_network_settings_field,
  parse_multi_arg, parse_arguments,
}
use wireless_vr_bridge.ArgParser.Accepted.{FinalOk, parse_arguments-ok}
use wireless_vr_bridge.ArgParser.Bounds.{Accepts}
use wireless_vr_bridge.ArgParser.Fields.{parse_fields, split_fields, parse_multi_arg-fields}
use wireless_vr_bridge.ArgParser.Narrow.{ping_count_cut}

abbrev ulong_64 : ℕ
ulong_64 = 0xFFFFFFFFFFFFFFFF

parse_arguments-ok_example : Accepts FinalOk (
    parse_arguments ulong_64 (
      some (codes "-b")
      ∷ some (codes "h264;n=10;dt=2000")
      ∷ some (codes "-n")
      ∷ some (codes "pc=10")
      ∷ []))
parse_arguments-ok_example = parse_arguments-ok ulong_64 (
    some (codes "-b")
    ∷ some (codes "h264;n=10;dt=2000")
    ∷ some (codes "-n")
    ∷ some (codes "pc=10")
    ∷ [])

parse_multi_arg-fields_example :
    parse_multi_arg
      (parse_network_settings_field ulong_64)
      (codes "pc=10;pt=100")
      default_network_settings
    ≡ parse_fields
        (parse_network_settings_field ulong_64)
        (split_fields (codes "pc=10;pt=100"))
        0
        default_network_settings
parse_multi_arg-fields_example =
    parse_multi_arg-fields (parse_network_settings_field ulong_64) (codes "pc=10;pt=100")
      default_network_settings

ping_count_cut_example :
    parse_network_settings_field ulong_64 (codes "pc=" ++ codes "256") 0 default_network_settings
    ≡ parsed (record default_network_settings { ping_count = number_from 0 (codes "256") % 256 })
ping_count_cut_example =
    ping_count_cut ulong_64 (codes "256") default_network_settings 0 refl (omega arith)
      (omega arith) (omega arith) (omega arith)

bpp_zero_refused : parse_benchmark_pass_field ulong_64 (codes "bpp=0") 1 default_pass ≡ rejected
unfolding parse_benchmark_pass_field parse_numerical_field
bpp_zero_refused = refl
