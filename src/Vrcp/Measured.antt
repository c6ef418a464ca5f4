-- ===== src/Vrcp/Measured.antt =====
-- common/include/wvb_common/vrcp.h: the packets that carry the tracking state and measurements, as
-- packed structs.
use wireless_vr_bridge.Base.{ℕ, List, [], ◌∷◌, ◌++◌}
use wireless_vr_bridge.Network.Wire.{bytes16, bytes32}
use wireless_vr_bridge.Vrcp.{
  to_u8, tracking_data, frame_time_measurement, image_quality_measurement,
  tracking_time_measurement, network_measurement, socket_measurement, benchmark_info,
}

pub record VrcpTrackingData : Type 0 where
  pub ftype : ℕ
  pub n_rows : ℕ
  pub reserved : ℕ
  pub sample_timestamp : ℕ
  pub pose_timestamp : ℕ
  pub left_eye_orientation_x : ℕ
  pub left_eye_orientation_y : ℕ
  pub left_eye_orientation_z : ℕ
  pub left_eye_orientation_w : ℕ
  pub left_eye_position_x : ℕ
  pub left_eye_position_y : ℕ
  pub left_eye_position_z : ℕ
  pub left_eye_fov_left : ℕ
  pub left_eye_fov_right : ℕ
  pub left_eye_fov_up : ℕ
  pub left_eye_fov_down : ℕ
  pub right_eye_fov_left : ℕ
  pub right_eye_fov_right : ℕ
  pub right_eye_fov_up : ℕ
  pub right_eye_fov_down : ℕ

abbrev pub default_vrcp_tracking_data : VrcpTrackingData
default_vrcp_tracking_data = record {
  ftype = to_u8 tracking_data;
  n_rows = 18;
  reserved = 0;
  sample_timestamp = 0;
  pose_timestamp = 0;
  left_eye_orientation_x = 0;
  left_eye_orientation_y = 0;
  left_eye_orientation_z = 0;
  left_eye_orientation_w = 0;
  left_eye_position_x = 0;
  left_eye_position_y = 0;
  left_eye_position_z = 0;
  left_eye_fov_left = 0;
  left_eye_fov_right = 0;
  left_eye_fov_up = 0;
  left_eye_fov_down = 0;
  right_eye_fov_left = 0;
  right_eye_fov_right = 0;
  right_eye_fov_up = 0;
  right_eye_fov_down = 0;
}

abbrev pub vrcp_tracking_data_bytes : VrcpTrackingData → List ℕ
vrcp_tracking_data_bytes p =
    p.ftype ∷ p.n_rows ∷ bytes16 p.reserved
    ++ bytes32 p.sample_timestamp
    ++ bytes32 p.pose_timestamp
    ++ bytes32 p.left_eye_orientation_x
    ++ bytes32 p.left_eye_orientation_y
    ++ bytes32 p.left_eye_orientation_z
    ++ bytes32 p.left_eye_orientation_w
    ++ bytes32 p.left_eye_position_x
    ++ bytes32 p.left_eye_position_y
    ++ bytes32 p.left_eye_position_z
    ++ bytes32 p.left_eye_fov_left
    ++ bytes32 p.left_eye_fov_right
    ++ bytes32 p.left_eye_fov_up
    ++ bytes32 p.left_eye_fov_down
    ++ bytes32 p.right_eye_fov_left
    ++ bytes32 p.right_eye_fov_right
    ++ bytes32 p.right_eye_fov_up
    ++ bytes32 p.right_eye_fov_down
    ++ []

pub record VrcpFrameTimeMeasurement : Type 0 where
  pub ftype : ℕ
  pub n_rows : ℕ
  pub reserved : ℕ
  pub frame_index : ℕ
  pub frame_id : ℕ
  pub frame_delay : ℕ
  pub tracking_timestamp : ℕ
  pub last_packet_received_timestamp : ℕ
  pub pushed_to_decoder_timestamp : ℕ
  pub begin_wait_frame_timestamp : ℕ
  pub begin_frame_timestamp : ℕ
  pub after_wait_swapchain_timestamp : ℕ
  pub after_render_timestamp : ℕ
  pub end_frame_timestamp : ℕ
  pub predicted_present_timestamp : ℕ
  pub pose_timestamp : ℕ

abbrev pub default_vrcp_frame_time_measurement : VrcpFrameTimeMeasurement
default_vrcp_frame_time_measurement = record {
  ftype = to_u8 frame_time_measurement;
  n_rows = 14;
  reserved = 0;
  frame_index = 0;
  frame_id = 0;
  frame_delay = 0;
  tracking_timestamp = 0;
  last_packet_received_timestamp = 0;
  pushed_to_decoder_timestamp = 0;
  begin_wait_frame_timestamp = 0;
  begin_frame_timestamp = 0;
  after_wait_swapchain_timestamp = 0;
  after_render_timestamp = 0;
  end_frame_timestamp = 0;
  predicted_present_timestamp = 0;
  pose_timestamp = 0;
}

abbrev pub vrcp_frame_time_measurement_bytes : VrcpFrameTimeMeasurement → List ℕ
vrcp_frame_time_measurement_bytes p =
    p.ftype ∷ p.n_rows ∷ bytes16 p.reserved
    ++ bytes32 p.frame_index
    ++ bytes32 p.frame_id
    ++ bytes32 p.frame_delay
    ++ bytes32 p.tracking_timestamp
    ++ bytes32 p.last_packet_received_timestamp
    ++ bytes32 p.pushed_to_decoder_timestamp
    ++ bytes32 p.begin_wait_frame_timestamp
    ++ bytes32 p.begin_frame_timestamp
    ++ bytes32 p.after_wait_swapchain_timestamp
    ++ bytes32 p.after_render_timestamp
    ++ bytes32 p.end_frame_timestamp
    ++ bytes32 p.predicted_present_timestamp
    ++ bytes32 p.pose_timestamp
    ++ []

pub record VrcpImageQualityMeasurement : Type 0 where
  pub ftype : ℕ
  pub n_rows : ℕ
  pub reserved : ℕ
  pub frame_id : ℕ
  pub codestream_size : ℕ
  pub raw_size : ℕ
  pub psnr : ℕ

abbrev pub default_vrcp_image_quality_measurement : VrcpImageQualityMeasurement
default_vrcp_image_quality_measurement = record {
  ftype = to_u8 image_quality_measurement;
  n_rows = 5;
  reserved = 0;
  frame_id = 0;
  codestream_size = 0;
  raw_size = 0;
  psnr = 0;
}

abbrev pub vrcp_image_quality_measurement_bytes : VrcpImageQualityMeasurement → List ℕ
vrcp_image_quality_measurement_bytes p =
    p.ftype ∷ p.n_rows ∷ bytes16 p.reserved
    ++ bytes32 p.frame_id
    ++ bytes32 p.codestream_size
    ++ bytes32 p.raw_size
    ++ bytes32 p.psnr
    ++ []

pub record VrcpTrackingTimeMeasurement : Type 0 where
  pub ftype : ℕ
  pub n_rows : ℕ
  pub reserved : ℕ
  pub pose_timestamp : ℕ
  pub tracking_received_timestamp : ℕ
  pub tracking_processed_timestamp : ℕ

abbrev pub default_vrcp_tracking_time_measurement : VrcpTrackingTimeMeasurement
default_vrcp_tracking_time_measurement = record {
  ftype = to_u8 tracking_time_measurement;
  n_rows = 4;
  reserved = 0;
  pose_timestamp = 0;
  tracking_received_timestamp = 0;
  tracking_processed_timestamp = 0;
}

abbrev pub vrcp_tracking_time_measurement_bytes : VrcpTrackingTimeMeasurement → List ℕ
vrcp_tracking_time_measurement_bytes p =
    p.ftype ∷ p.n_rows ∷ bytes16 p.reserved
    ++ bytes32 p.pose_timestamp
    ++ bytes32 p.tracking_received_timestamp
    ++ bytes32 p.tracking_processed_timestamp
    ++ []

pub record VrcpNetworkMeasurement : Type 0 where
  pub ftype : ℕ
  pub n_rows : ℕ
  pub reserved : ℕ
  pub rtt : ℕ
  pub clock_error : ℕ

abbrev pub default_vrcp_network_measurement : VrcpNetworkMeasurement
default_vrcp_network_measurement = record {
  ftype = to_u8 network_measurement;
  n_rows = 3;
  reserved = 0;
  rtt = 0;
  clock_error = 0;
}

abbrev pub vrcp_network_measurement_bytes : VrcpNetworkMeasurement → List ℕ
vrcp_network_measurement_bytes p =
    p.ftype ∷ p.n_rows ∷ bytes16 p.reserved ++ bytes32 p.rtt ++ bytes32 p.clock_error ++ []

pub record VrcpSocketMeasurement : Type 0 where
  pub ftype : ℕ
  pub n_rows : ℕ
  pub socket_id : ℕ
  pub socket_type : ℕ
  pub bytes_sent : ℕ
  pub bytes_received : ℕ
  pub packets_sent : ℕ
  pub packets_received : ℕ

abbrev pub default_vrcp_socket_measurement : VrcpSocketMeasurement
default_vrcp_socket_measurement = record {
  ftype = to_u8 socket_measurement;
  n_rows = 5;
  socket_id = 0;
  socket_type = 0;
  bytes_sent = 0;
  bytes_received = 0;
  packets_sent = 0;
  packets_received = 0;
}

abbrev pub vrcp_socket_measurement_bytes : VrcpSocketMeasurement → List ℕ
vrcp_socket_measurement_bytes p =
    p.ftype ∷ p.n_rows ∷ p.socket_id ∷ p.socket_type ∷ bytes32 p.bytes_sent
    ++ bytes32 p.bytes_received
    ++ bytes32 p.packets_sent
    ++ bytes32 p.packets_received
    ++ []

pub record VrcpBenchmarkInfo : Type 0 where
  pub ftype : ℕ
  pub n_rows : ℕ
  pub reserved : ℕ
  pub start_timing_phase_timestamp : ℕ
  pub start_image_quality_phase_timestamp : ℕ
  pub end_measurements_timestamp : ℕ
  pub end_timestamp : ℕ

abbrev pub default_vrcp_benchmark_info : VrcpBenchmarkInfo
default_vrcp_benchmark_info = record {
  ftype = to_u8 benchmark_info;
  n_rows = 5;
  reserved = 0;
  start_timing_phase_timestamp = 0;
  start_image_quality_phase_timestamp = 0;
  end_measurements_timestamp = 0;
  end_timestamp = 0;
}

abbrev pub vrcp_benchmark_info_bytes : VrcpBenchmarkInfo → List ℕ
vrcp_benchmark_info_bytes p =
    p.ftype ∷ p.n_rows ∷ bytes16 p.reserved
    ++ bytes32 p.start_timing_phase_timestamp
    ++ bytes32 p.start_image_quality_phase_timestamp
    ++ bytes32 p.end_measurements_timestamp
    ++ bytes32 p.end_timestamp
    ++ []
