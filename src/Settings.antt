-- ===== src/Settings.antt =====
-- common/include/wvb_common/settings.h: the settings of the server application, with the values that the
-- structs start with. A `std::string` is the list of its bytes.
use wireless_vr_bridge.Base.{ℕ, List, []}
use wireless_vr_bridge.Base.Int.{ℤ, pos}
use wireless_vr_bridge.Base.Text.{codes}

pub data AppMode : Type 0 where
  unknown_mode normal benchmark : AppMode

pub record CodecSettings : Type 0 where
  pub bpp : ℕ
  pub delay : ℤ
  pub bitrate : ℕ

pub record BenchmarkPass : Type 0 where
  pub pass_index : ℕ
  pub codec_id : List ℕ
  pub codec_settings : CodecSettings
  pub num_repetitions : ℕ
  pub duration_startup_phase_ms : ℕ
  pub duration_timing_phase_ms : ℕ
  pub duration_frame_quality_phase_ms : ℕ
  pub duration_end_margin_ms : ℕ

abbrev pub default_pass : BenchmarkPass
default_pass = record {
  pass_index = 0;
  codec_id = [];
  codec_settings = record { bpp = 3; delay = pos 0; bitrate = 0 };
  num_repetitions = 10;
  duration_startup_phase_ms = 15000;
  duration_timing_phase_ms = 4000;
  duration_frame_quality_phase_ms = 200;
  duration_end_margin_ms = 4000;
}

pub record BenchmarkSettings : Type 0 where
  pub passes : List BenchmarkPass
  pub duration_inter_run_interval_ms : ℕ

pub record NetworkSettings : Type 0 where
  pub ping_count : ℕ
  pub ping_interval_ms : ℕ
  pub ping_timeout_ms : ℕ

abbrev pub default_network_settings : NetworkSettings
default_network_settings = record { ping_count = 20; ping_interval_ms = 200; ping_timeout_ms = 500 }

pub record AppSettings : Type 0 where
  pub app_mode : AppMode
  pub preferred_codec : List ℕ
  pub steamvr_path : List ℕ
  pub network_settings : NetworkSettings
  pub benchmark_settings : BenchmarkSettings

abbrev pub default_settings : AppSettings
default_settings = record {
  app_mode = normal;
  preferred_codec = codes "h265";
  steamvr_path = codes "C:\\Program Files (x86)\\Steam\\steamapps\\common\\SteamVR";
  network_settings = default_network_settings;
  benchmark_settings = record { passes = []; duration_inter_run_interval_ms = 5000 };
}
