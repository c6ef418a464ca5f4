-- ===== src/Measurements.antt =====
-- common/include/wvb_common/benchmark.h and vr_structs.h: the measurements and the tracking state that
-- the client and the server exchange. A `float` is its 32-bit pattern and an `int32_t` its two's
-- complement.
use wireless_vr_bridge.Base.{ℕ}

pub record Quaternion : Type 0 where
  pub x : ℕ
  pub y : ℕ
  pub z : ℕ
  pub w : ℕ

pub record Vector3 : Type 0 where
  pub x : ℕ
  pub y : ℕ
  pub z : ℕ

pub record Pose : Type 0 where
  pub orientation : Quaternion
  pub position : Vector3

pub record Fov : Type 0 where
  pub left : ℕ
  pub right : ℕ
  pub up : ℕ
  pub down : ℕ

pub record TrackingState : Type 0 where
  pub sample_timestamp : ℕ
  pub pose_timestamp : ℕ
  pub pose : Pose
  pub fov_left : Fov
  pub fov_right : Fov

pub record ClientFrameTimeMeasurements : Type 0 where
  pub frame_index : ℕ
  pub frame_id : ℕ
  pub tracking_timestamp : ℕ
  pub last_packet_received_timestamp : ℕ
  pub pushed_to_decoder_timestamp : ℕ
  pub begin_wait_frame_timestamp : ℕ
  pub begin_frame_timestamp : ℕ
  pub after_wait_swapchain_timestamp : ℕ
  pub after_render_timestamp : ℕ
  pub end_frame_timestamp : ℕ
  pub predicted_present_timestamp : ℕ
  pub pose_timestamp : ℕ
  pub frame_delay : ℕ

pub record TrackingTimeMeasurements : Type 0 where
  pub pose_timestamp : ℕ
  pub tracking_received_timestamp : ℕ
  pub tracking_processed_timestamp : ℕ

pub record ImageQualityMeasurements : Type 0 where
  pub frame_id : ℕ
  pub codestream_size : ℕ
  pub raw_size : ℕ
  pub psnr : ℕ

pub record NetworkMeasurements : Type 0 where
  pub rtt_us : ℕ
  pub clock_error_us : ℕ

-- The codes of `SocketId` and `SocketType`, which are casts of the codes on the wire.
abbrev pub unknown_socket : ℕ
unknown_socket = 0

abbrev pub video_socket : ℕ
video_socket = 1

abbrev pub vrcp_tcp_socket : ℕ
vrcp_tcp_socket = 2

abbrev pub vrcp_udp_socket : ℕ
vrcp_udp_socket = 3

abbrev pub vrcp_bcast_socket : ℕ
vrcp_bcast_socket = 4

abbrev pub socket_type_invalid : ℕ
socket_type_invalid = 0

abbrev pub socket_type_tcp : ℕ
socket_type_tcp = 1

abbrev pub socket_type_udp : ℕ
socket_type_udp = 2

pub record SocketMeasurements : Type 0 where
  pub socket_id : ℕ
  pub socket_type : ℕ
  pub bytes_sent : ℕ
  pub bytes_received : ℕ
  pub packets_sent : ℕ
  pub packets_received : ℕ

-- Time points are ticks of the 90 kHz clock since its epoch.
pub record MeasurementWindow : Type 0 where
  pub start_timing_phase : ℕ
  pub start_image_quality_phase : ℕ
  pub end_measurements : ℕ
  pub end : ℕ
