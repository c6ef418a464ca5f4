-- ===== src/Vrcp/RoundTrip.antt =====
-- What common/src/vrcp.cpp puts into a packet, the receiver reads back.
use wireless_vr_bridge.Base.{ℕ, ◌+◌, ◌%◌, ◌^◌, ◌<◌, ◌≡◌, ap, ◌∙◌, List, [], ◌∷◌, All}
use wireless_vr_bridge.Network.{htonl, ntohl, htonf, ntohf}
use wireless_vr_bridge.Network.ByteOrder.{ntohl-htonl}
use wireless_vr_bridge.Measurements.{
  TrackingState, ClientFrameTimeMeasurements, TrackingTimeMeasurements, ImageQualityMeasurements,
  NetworkMeasurements, SocketMeasurements, MeasurementWindow,
}
use wireless_vr_bridge.Vrcp.Encode.{
  vrcp_tracking_data, to_tracking_state, vrcp_frame_time_measurement, to_frame_time_measurements,
  vrcp_image_quality_measurement, to_image_quality_measurements, vrcp_tracking_time_measurement,
  to_tracking_time_measurements, vrcp_network_measurement, to_network_measurements,
  vrcp_socket_measurement, to_socket_measurements, vrcp_benchmark_info, to_measurement_window,
}
use wireless_vr_bridge.RtpClock.{RtpClock, from_rtp_timestamp, to_rtp_timestamp}
use wireless_vr_bridge.RtpClock.Convert.{time_point_round_trip, to_rtp_timestamp-lt}

abbrev pub IsU32 : ℕ → Type 0
IsU32 x = x < 2 ^ 32

pub ntohf-htonf : (x : ℕ) → IsU32 x → ntohf (htonf x) ≡ x
unfolding ntohf htonf
ntohf-htonf x h = ntohl-htonl x h

-- The 32-bit fields.
abbrev pub tracking_fields : TrackingState → List ℕ
tracking_fields s =
    s.sample_timestamp ∷ s.pose_timestamp ∷ s.pose.orientation.x ∷ s.pose.orientation.y
    ∷ s.pose.orientation.z ∷ s.pose.orientation.w ∷ s.pose.position.x ∷ s.pose.position.y
    ∷ s.pose.position.z ∷ s.fov_left.left ∷ s.fov_left.right ∷ s.fov_left.up ∷ s.fov_left.down
    ∷ s.fov_right.left ∷ s.fov_right.right ∷ s.fov_right.up ∷ s.fov_right.down ∷ []

-- A tracking state whose fields have 32 bits, that is put into a packet and read back, is the same to
-- the last bit.
tracking_round_trip :
    (s : TrackingState)
    → All IsU32 (tracking_fields s)
    → to_tracking_state (vrcp_tracking_data s) ≡ s
unfolding vrcp_tracking_data to_tracking_state
tracking_round_trip s h = λ k. record {
  sample_timestamp = ntohl-htonl s.sample_timestamp h.0 k;
  pose_timestamp = ntohl-htonl s.pose_timestamp h.1.0 k;
  pose = record {
    orientation = record {
      x = ntohf-htonf s.pose.orientation.x h.1.1.0 k;
      y = ntohf-htonf s.pose.orientation.y h.1.1.1.0 k;
      z = ntohf-htonf s.pose.orientation.z h.1.1.1.1.0 k;
      w = ntohf-htonf s.pose.orientation.w h.1.1.1.1.1.0 k;
    };
    position = record {
      x = ntohf-htonf s.pose.position.x h.1.1.1.1.1.1.0 k;
      y = ntohf-htonf s.pose.position.y h.1.1.1.1.1.1.1.0 k;
      z = ntohf-htonf s.pose.position.z h.1.1.1.1.1.1.1.1.0 k;
    };
  };
  fov_left = record {
    left = ntohf-htonf s.fov_left.left h.1.1.1.1.1.1.1.1.1.0 k;
    right = ntohf-htonf s.fov_left.right h.1.1.1.1.1.1.1.1.1.1.0 k;
    up = ntohf-htonf s.fov_left.up h.1.1.1.1.1.1.1.1.1.1.1.0 k;
    down = ntohf-htonf s.fov_left.down h.1.1.1.1.1.1.1.1.1.1.1.1.0 k;
  };
  fov_right = record {
    left = ntohf-htonf s.fov_right.left h.1.1.1.1.1.1.1.1.1.1.1.1.1.0 k;
    right = ntohf-htonf s.fov_right.right h.1.1.1.1.1.1.1.1.1.1.1.1.1.1.0 k;
    up = ntohf-htonf s.fov_right.up h.1.1.1.1.1.1.1.1.1.1.1.1.1.1.1.0 k;
    down = ntohf-htonf s.fov_right.down h.1.1.1.1.1.1.1.1.1.1.1.1.1.1.1.1.0 k;
  };
}

-- The 32-bit fields.
abbrev pub frame_time_fields : ClientFrameTimeMeasurements → List ℕ
frame_time_fields s =
    s.frame_index ∷ s.frame_id ∷ s.frame_delay ∷ s.tracking_timestamp
    ∷ s.last_packet_received_timestamp ∷ s.pushed_to_decoder_timestamp
    ∷ s.begin_wait_frame_timestamp ∷ s.begin_frame_timestamp ∷ s.after_wait_swapchain_timestamp
    ∷ s.after_render_timestamp ∷ s.end_frame_timestamp ∷ s.predicted_present_timestamp
    ∷ s.pose_timestamp ∷ []

-- The frame times of the client, of 32 bits each, that are put into a packet and read back, are the
-- same.
frame_time_round_trip :
    (s : ClientFrameTimeMeasurements)
    → All IsU32 (frame_time_fields s)
    → to_frame_time_measurements (vrcp_frame_time_measurement s) ≡ s
unfolding vrcp_frame_time_measurement to_frame_time_measurements
frame_time_round_trip s h = λ k. record {
  frame_index = ntohl-htonl s.frame_index h.0 k;
  frame_id = ntohl-htonl s.frame_id h.1.0 k;
  frame_delay = ntohl-htonl s.frame_delay h.1.1.0 k;
  tracking_timestamp = ntohl-htonl s.tracking_timestamp h.1.1.1.0 k;
  last_packet_received_timestamp = ntohl-htonl s.last_packet_received_timestamp h.1.1.1.1.0 k;
  pushed_to_decoder_timestamp = ntohl-htonl s.pushed_to_decoder_timestamp h.1.1.1.1.1.0 k;
  begin_wait_frame_timestamp = ntohl-htonl s.begin_wait_frame_timestamp h.1.1.1.1.1.1.0 k;
  begin_frame_timestamp = ntohl-htonl s.begin_frame_timestamp h.1.1.1.1.1.1.1.0 k;
  after_wait_swapchain_timestamp =
      ntohl-htonl s.after_wait_swapchain_timestamp h.1.1.1.1.1.1.1.1.0 k;
  after_render_timestamp = ntohl-htonl s.after_render_timestamp h.1.1.1.1.1.1.1.1.1.0 k;
  end_frame_timestamp = ntohl-htonl s.end_frame_timestamp h.1.1.1.1.1.1.1.1.1.1.0 k;
  predicted_present_timestamp =
      ntohl-htonl s.predicted_present_timestamp h.1.1.1.1.1.1.1.1.1.1.1.0 k;
  pose_timestamp = ntohl-htonl s.pose_timestamp h.1.1.1.1.1.1.1.1.1.1.1.1.0 k;
}

-- The 32-bit fields.
abbrev pub image_quality_fields : ImageQualityMeasurements → List ℕ
image_quality_fields s = s.frame_id ∷ s.codestream_size ∷ s.raw_size ∷ s.psnr ∷ []

-- An image quality measurement whose fields have 32 bits, that is put into a packet and read back, is
-- the same.
image_quality_round_trip :
    (s : ImageQualityMeasurements)
    → All IsU32 (image_quality_fields s)
    → to_image_quality_measurements (vrcp_image_quality_measurement s) ≡ s
unfolding vrcp_image_quality_measurement to_image_quality_measurements
image_quality_round_trip s h = λ k. record {
  frame_id = ntohl-htonl s.frame_id h.0 k;
  codestream_size = ntohl-htonl s.codestream_size h.1.0 k;
  raw_size = ntohl-htonl s.raw_size h.1.1.0 k;
  psnr = ntohf-htonf s.psnr h.1.1.1.0 k;
}

-- The 32-bit fields.
abbrev pub tracking_time_fields : TrackingTimeMeasurements → List ℕ
tracking_time_fields s =
    s.pose_timestamp ∷ s.tracking_received_timestamp ∷ s.tracking_processed_timestamp ∷ []

-- A tracking time measurement whose fields have 32 bits, that is put into a packet and read back, is
-- the same.
tracking_time_round_trip :
    (s : TrackingTimeMeasurements)
    → All IsU32 (tracking_time_fields s)
    → to_tracking_time_measurements (vrcp_tracking_time_measurement s) ≡ s
unfolding vrcp_tracking_time_measurement to_tracking_time_measurements
tracking_time_round_trip s h = λ k. record {
  pose_timestamp = ntohl-htonl s.pose_timestamp h.0 k;
  tracking_received_timestamp = ntohl-htonl s.tracking_received_timestamp h.1.0 k;
  tracking_processed_timestamp = ntohl-htonl s.tracking_processed_timestamp h.1.1.0 k;
}

-- The 32-bit fields.
abbrev pub network_fields : NetworkMeasurements → List ℕ
network_fields s = s.rtt_us ∷ s.clock_error_us ∷ []

-- A network measurement whose fields have 32 bits, that is put into a packet and read back, is the
-- same, with the sign of its clock error.
network_round_trip :
    (s : NetworkMeasurements)
    → All IsU32 (network_fields s)
    → to_network_measurements (vrcp_network_measurement s) ≡ s
unfolding vrcp_network_measurement to_network_measurements
network_round_trip s h = λ k. record {
  rtt_us = ntohl-htonl s.rtt_us h.0 k;
  clock_error_us = ntohl-htonl s.clock_error_us h.1.0 k;
}

-- The 32-bit fields.
abbrev pub socket_fields : SocketMeasurements → List ℕ
socket_fields s = s.bytes_sent ∷ s.bytes_received ∷ s.packets_sent ∷ s.packets_received ∷ []

-- The measurements of a socket, with counts of 32 bits, that are put into a packet and read back, are
-- the same.
socket_round_trip :
    (s : SocketMeasurements)
    → All IsU32 (socket_fields s)
    → to_socket_measurements (vrcp_socket_measurement s) ≡ s
unfolding vrcp_socket_measurement to_socket_measurements
socket_round_trip s h = λ k. record {
  socket_id = s.socket_id;
  socket_type = s.socket_type;
  bytes_sent = ntohl-htonl s.bytes_sent h.0 k;
  bytes_received = ntohl-htonl s.bytes_received h.1.0 k;
  packets_sent = ntohl-htonl s.packets_sent h.1.1.0 k;
  packets_received = ntohl-htonl s.packets_received h.1.1.1.0 k;
}

abbrev pub window_points : MeasurementWindow → List ℕ
window_points w =
    w.start_timing_phase ∷ w.start_image_quality_phase ∷ w.end_measurements ∷ w.end ∷ []

-- A time point that a timestamp of the clock can stand for.
abbrev pub IsNear : RtpClock → ℕ → Type 0
IsNear clock tp = (tp < 2 ^ 64) × ((tp + clock.offset) % 2 ^ 64 < 2 ^ 32)

time_point_sent :
    (clock : RtpClock) (tp : ℕ)
    → clock.offset < 2 ^ 64
    → IsNear clock tp
    → from_rtp_timestamp clock (ntohl (htonl (to_rtp_timestamp clock tp))) ≡ tp
time_point_sent clock tp ho near =
    ap (from_rtp_timestamp clock)
      (ntohl-htonl (to_rtp_timestamp clock tp) (to_rtp_timestamp-lt clock tp))
    ∙ time_point_round_trip clock tp ho near.0 near.1

-- A measurement window that is sent as timestamps and read with a clock of the same offset is the
-- window, if the offset has 64 bits and the time points lie less than 2 ^ 32 ticks after its negative.
pub window_round_trip :
    (w : MeasurementWindow) (clock : RtpClock)
    → clock.offset < 2 ^ 64
    → All (IsNear clock) (window_points w)
    → to_measurement_window (vrcp_benchmark_info w clock) clock ≡ w
unfolding vrcp_benchmark_info to_measurement_window
window_round_trip w clock ho h = λ k. record {
  start_timing_phase = time_point_sent clock w.start_timing_phase ho h.0 k;
  start_image_quality_phase = time_point_sent clock w.start_image_quality_phase ho h.1.0 k;
  end_measurements = time_point_sent clock w.end_measurements ho h.1.1.0 k;
  end = time_point_sent clock w.end ho h.1.1.1.0 k;
}

-- The tracking state and each of the five measurements of the client, whose fields have 32 bits, that is
-- put into its packet and read back, is the same to the last bit.
pub packets_round_trip :
    (state : TrackingState) (frame_time : ClientFrameTimeMeasurements)
    (image_quality : ImageQualityMeasurements) (tracking_time : TrackingTimeMeasurements)
    (network : NetworkMeasurements) (socket : SocketMeasurements)
    → All IsU32 (tracking_fields state)
    → All IsU32 (frame_time_fields frame_time)
    → All IsU32 (image_quality_fields image_quality)
    → All IsU32 (tracking_time_fields tracking_time)
    → All IsU32 (network_fields network)
    → All IsU32 (socket_fields socket)
    → (to_tracking_state (vrcp_tracking_data state) ≡ state)
      × (to_frame_time_measurements (vrcp_frame_time_measurement frame_time) ≡ frame_time)
      × (to_image_quality_measurements (vrcp_image_quality_measurement image_quality)
          ≡ image_quality)
      × (to_tracking_time_measurements (vrcp_tracking_time_measurement tracking_time)
          ≡ tracking_time)
      × (to_network_measurements (vrcp_network_measurement network) ≡ network)
      × (to_socket_measurements (vrcp_socket_measurement socket) ≡ socket)
packets_round_trip state frame_time image_quality tracking_time network socket h f i t n k = (
  tracking_round_trip state h,
  frame_time_round_trip frame_time f,
  image_quality_round_trip image_quality i,
  tracking_time_round_trip tracking_time t,
  network_round_trip network n,
  socket_round_trip socket k,
)
