-- ===== src/Vrcp/Encode.antt =====
-- common/src/vrcp.cpp: each measurement is put into a packet by a constructor and read back by a `to_…`
-- function. A bucket of measurements is passed by reference and overwritten whole, so that the result
-- of `to_…` does not depend on what it held.
use wireless_vr_bridge.Network.{htonl, ntohl, htonf, ntohf}
use wireless_vr_bridge.Measurements.{
  TrackingState, ClientFrameTimeMeasurements, TrackingTimeMeasurements, ImageQualityMeasurements,
  NetworkMeasurements, SocketMeasurements, MeasurementWindow,
}
use wireless_vr_bridge.RtpClock.{RtpClock, to_rtp_timestamp, from_rtp_timestamp}
use wireless_vr_bridge.Vrcp.Measured.{
  VrcpTrackingData, default_vrcp_tracking_data, VrcpFrameTimeMeasurement,
  default_vrcp_frame_time_measurement, VrcpBenchmarkInfo, default_vrcp_benchmark_info,
  VrcpImageQualityMeasurement, default_vrcp_image_quality_measurement, VrcpTrackingTimeMeasurement,
  default_vrcp_tracking_time_measurement, VrcpNetworkMeasurement, default_vrcp_network_measurement,
  VrcpSocketMeasurement, default_vrcp_socket_measurement,
}

unfoldable pub vrcp_tracking_data : TrackingState → VrcpTrackingData
vrcp_tracking_data state = record default_vrcp_tracking_data {
  sample_timestamp = htonl state.sample_timestamp;
  pose_timestamp = htonl state.pose_timestamp;
  left_eye_orientation_x = htonf state.pose.orientation.x;
  left_eye_orientation_y = htonf state.pose.orientation.y;
  left_eye_orientation_z = htonf state.pose.orientation.z;
  left_eye_orientation_w = htonf state.pose.orientation.w;
  left_eye_position_x = htonf state.pose.position.x;
  left_eye_position_y = htonf state.pose.position.y;
  left_eye_position_z = htonf state.pose.position.z;
  left_eye_fov_left = htonf state.fov_left.left;
  left_eye_fov_right = htonf state.fov_left.right;
  left_eye_fov_up = htonf state.fov_left.up;
  left_eye_fov_down = htonf state.fov_left.down;
  right_eye_fov_left = htonf state.fov_right.left;
  right_eye_fov_right = htonf state.fov_right.right;
  right_eye_fov_up = htonf state.fov_right.up;
  right_eye_fov_down = htonf state.fov_right.down;
}

unfoldable pub to_tracking_state : VrcpTrackingData → TrackingState
to_tracking_state p = record {
  sample_timestamp = ntohl p.sample_timestamp;
  pose_timestamp = ntohl p.pose_timestamp;
  pose = record {
    orientation = record {
      x = ntohf p.left_eye_orientation_x;
      y = ntohf p.left_eye_orientation_y;
      z = ntohf p.left_eye_orientation_z;
      w = ntohf p.left_eye_orientation_w;
    };
    position = record {
      x = ntohf p.left_eye_position_x;
      y = ntohf p.left_eye_position_y;
      z = ntohf p.left_eye_position_z;
    };
  };
  fov_left = record {
    left = ntohf p.left_eye_fov_left;
    right = ntohf p.left_eye_fov_right;
    up = ntohf p.left_eye_fov_up;
    down = ntohf p.left_eye_fov_down;
  };
  fov_right = record {
    left = ntohf p.right_eye_fov_left;
    right = ntohf p.right_eye_fov_right;
    up = ntohf p.right_eye_fov_up;
    down = ntohf p.right_eye_fov_down;
  };
}

unfoldable pub vrcp_frame_time_measurement : ClientFrameTimeMeasurements → VrcpFrameTimeMeasurement
vrcp_frame_time_measurement state = record default_vrcp_frame_time_measurement {
  frame_index = htonl state.frame_index;
  frame_id = htonl state.frame_id;
  frame_delay = htonl state.frame_delay;
  tracking_timestamp = htonl state.tracking_timestamp;
  last_packet_received_timestamp = htonl state.last_packet_received_timestamp;
  pushed_to_decoder_timestamp = htonl state.pushed_to_decoder_timestamp;
  begin_wait_frame_timestamp = htonl state.begin_wait_frame_timestamp;
  begin_frame_timestamp = htonl state.begin_frame_timestamp;
  after_wait_swapchain_timestamp = htonl state.after_wait_swapchain_timestamp;
  after_render_timestamp = htonl state.after_render_timestamp;
  end_frame_timestamp = htonl state.end_frame_timestamp;
  predicted_present_timestamp = htonl state.predicted_present_timestamp;
  pose_timestamp = htonl state.pose_timestamp;
}

unfoldable pub to_frame_time_measurements : VrcpFrameTimeMeasurement → ClientFrameTimeMeasurements
to_frame_time_measurements p = record {
  frame_index = ntohl p.frame_index;
  frame_id = ntohl p.frame_id;
  frame_delay = ntohl p.frame_delay;
  tracking_timestamp = ntohl p.tracking_timestamp;
  last_packet_received_timestamp = ntohl p.last_packet_received_timestamp;
  pushed_to_decoder_timestamp = ntohl p.pushed_to_decoder_timestamp;
  begin_wait_frame_timestamp = ntohl p.begin_wait_frame_timestamp;
  begin_frame_timestamp = ntohl p.begin_frame_timestamp;
  after_wait_swapchain_timestamp = ntohl p.after_wait_swapchain_timestamp;
  after_render_timestamp = ntohl p.after_render_timestamp;
  end_frame_timestamp = ntohl p.end_frame_timestamp;
  predicted_present_timestamp = ntohl p.predicted_present_timestamp;
  pose_timestamp = ntohl p.pose_timestamp;
}

unfoldable pub vrcp_image_quality_measurement :
    ImageQualityMeasurements → VrcpImageQualityMeasurement
vrcp_image_quality_measurement state = record default_vrcp_image_quality_measurement {
  frame_id = htonl state.frame_id;
  codestream_size = htonl state.codestream_size;
  raw_size = htonl state.raw_size;
  psnr = htonf state.psnr;
}

unfoldable pub to_image_quality_measurements :
    VrcpImageQualityMeasurement → ImageQualityMeasurements
to_image_quality_measurements p = record {
  frame_id = ntohl p.frame_id;
  codestream_size = ntohl p.codestream_size;
  raw_size = ntohl p.raw_size;
  psnr = ntohf p.psnr;
}

unfoldable pub vrcp_tracking_time_measurement :
    TrackingTimeMeasurements → VrcpTrackingTimeMeasurement
vrcp_tracking_time_measurement state = record default_vrcp_tracking_time_measurement {
  pose_timestamp = htonl state.pose_timestamp;
  tracking_received_timestamp = htonl state.tracking_received_timestamp;
  tracking_processed_timestamp = htonl state.tracking_processed_timestamp;
}

unfoldable pub to_tracking_time_measurements :
    VrcpTrackingTimeMeasurement → TrackingTimeMeasurements
to_tracking_time_measurements p = record {
  pose_timestamp = ntohl p.pose_timestamp;
  tracking_received_timestamp = ntohl p.tracking_received_timestamp;
  tracking_processed_timestamp = ntohl p.tracking_processed_timestamp;
}

unfoldable pub vrcp_network_measurement : NetworkMeasurements → VrcpNetworkMeasurement
vrcp_network_measurement state = record default_vrcp_network_measurement {
  rtt = htonl state.rtt_us;
  clock_error = htonl state.clock_error_us;
}

unfoldable pub to_network_measurements : VrcpNetworkMeasurement → NetworkMeasurements
to_network_measurements p = record { rtt_us = ntohl p.rtt; clock_error_us = ntohl p.clock_error }

unfoldable pub vrcp_benchmark_info : MeasurementWindow → RtpClock → VrcpBenchmarkInfo
vrcp_benchmark_info window clock = record default_vrcp_benchmark_info {
  start_timing_phase_timestamp = htonl (to_rtp_timestamp clock window.start_timing_phase);
  start_image_quality_phase_timestamp =
      htonl (to_rtp_timestamp clock window.start_image_quality_phase);
  end_measurements_timestamp = htonl (to_rtp_timestamp clock window.end_measurements);
  end_timestamp = htonl (to_rtp_timestamp clock window.end);
}

unfoldable pub to_measurement_window : VrcpBenchmarkInfo → RtpClock → MeasurementWindow
to_measurement_window p clock = record {
  start_timing_phase = from_rtp_timestamp clock (ntohl p.start_timing_phase_timestamp);
  start_image_quality_phase =
      from_rtp_timestamp clock (ntohl p.start_image_quality_phase_timestamp);
  end_measurements = from_rtp_timestamp clock (ntohl p.end_measurements_timestamp);
  end = from_rtp_timestamp clock (ntohl p.end_timestamp);
}

unfoldable pub vrcp_socket_measurement : SocketMeasurements → VrcpSocketMeasurement
vrcp_socket_measurement state = record default_vrcp_socket_measurement {
  socket_id = state.socket_id;
  socket_type = state.socket_type;
  bytes_sent = htonl state.bytes_sent;
  bytes_received = htonl state.bytes_received;
  packets_sent = htonl state.packets_sent;
  packets_received = htonl state.packets_received;
}

unfoldable pub to_socket_measurements : VrcpSocketMeasurement → SocketMeasurements
to_socket_measurements p = record {
  socket_id = p.socket_id;
  socket_type = p.socket_type;
  bytes_sent = ntohl p.bytes_sent;
  bytes_received = ntohl p.bytes_received;
  packets_sent = ntohl p.packets_sent;
  packets_received = ntohl p.packets_received;
}
