-- ===== src/Vrcp/Tests.antt =====
-- The theorems about the control protocol at concrete inputs.
use wireless_vr_bridge.Base.{All, ◌≡◌, arith}
use wireless_vr_bridge.Measurements.{
  TrackingState, ClientFrameTimeMeasurements, TrackingTimeMeasurements, ImageQualityMeasurements,
  NetworkMeasurements, SocketMeasurements, MeasurementWindow, video_socket, socket_type_tcp,
}
use wireless_vr_bridge.RtpClock.{RtpClock, to_rtp_timestamp, from_rtp_timestamp}
use wireless_vr_bridge.RtpClock.Convert.{timestamp_round_trip}
use wireless_vr_bridge.Vrcp.Encode.{
  vrcp_tracking_data, to_tracking_state, vrcp_frame_time_measurement, to_frame_time_measurements,
  vrcp_image_quality_measurement, to_image_quality_measurements, vrcp_tracking_time_measurement,
  to_tracking_time_measurements, vrcp_network_measurement, to_network_measurements,
  vrcp_socket_measurement, to_socket_measurements, vrcp_benchmark_info, to_measurement_window,
}
use wireless_vr_bridge.Vrcp.RoundTrip.{
  packets_round_trip, window_round_trip, IsU32, tracking_fields, frame_time_fields,
  image_quality_fields, tracking_time_fields, network_fields, socket_fields,
}

-- Floats by their patterns: 1.0 is 0x3F800000.
abbrev tracking : TrackingState
tracking = record {
  sample_timestamp = 1000;
  pose_timestamp = 2000;
  pose = record {
    orientation = record { x = 0; y = 0; z = 0; w = 0x3F800000 };
    position = record { x = 0x3F800000; y = 0xBF800000; z = 0 };
  };
  fov_left = record { left = 0xBF490FDB; right = 0x3F490FDB; up = 0x3F490FDB; down = 0xBF490FDB };
  fov_right = record { left = 0xBF490FDB; right = 0x3F490FDB; up = 0x3F490FDB; down = 0xBF490FDB };
}

abbrev frame_time : ClientFrameTimeMeasurements
frame_time = record {
  frame_index = 1;
  frame_id = 2;
  tracking_timestamp = 3;
  last_packet_received_timestamp = 4;
  pushed_to_decoder_timestamp = 5;
  begin_wait_frame_timestamp = 6;
  begin_frame_timestamp = 7;
  after_wait_swapchain_timestamp = 8;
  after_render_timestamp = 9;
  end_frame_timestamp = 10;
  predicted_present_timestamp = 11;
  pose_timestamp = 12;
  frame_delay = 13;
}

abbrev image_quality : ImageQualityMeasurements
image_quality = record {
  frame_id = 2;
  codestream_size = 50000;
  raw_size = 12000000;
  psnr = 0x42200000;
}

abbrev tracking_time : TrackingTimeMeasurements
tracking_time = record {
  pose_timestamp = 1;
  tracking_received_timestamp = 2;
  tracking_processed_timestamp = 3;
}

-- A clock error of -1 us.
abbrev network : NetworkMeasurements
network = record { rtt_us = 3000; clock_error_us = 0xFFFFFFFF }

abbrev socket : SocketMeasurements
socket = record {
  socket_id = video_socket;
  socket_type = socket_type_tcp;
  bytes_sent = 70000;
  bytes_received = 0;
  packets_sent = 50;
  packets_received = 0;
}

abbrev window : MeasurementWindow
window = record {
  start_timing_phase = 162000000;
  start_image_quality_phase = 162360000;
  end_measurements = 162378000;
  end = 162738000;
}

abbrev clock : RtpClock
clock = record { offset = 5 }

tracking-width : All IsU32 (tracking_fields tracking)
tracking-width = (
  omega arith,
  (
    omega arith,
    (
      omega arith,
      (
        omega arith,
        (
          omega arith,
          (
            omega arith,
            (
              omega arith,
              (
                omega arith,
                (
                  omega arith,
                  (
                    omega arith,
                    (
                      omega arith,
                      (
                        omega arith,
                        (
                          omega arith,
                          (omega arith, (omega arith, (omega arith, (omega arith, tt)))),
                        ),
                      ),
                    ),
                  ),
                ),
              ),
            ),
          ),
        ),
      ),
    ),
  ),
)

frame_time-width : All IsU32 (frame_time_fields frame_time)
frame_time-width = (
  omega arith,
  (
    omega arith,
    (
      omega arith,
      (
        omega arith,
        (
          omega arith,
          (
            omega arith,
            (
              omega arith,
              (
                omega arith,
                (omega arith, (omega arith, (omega arith, (omega arith, (omega arith, tt))))),
              ),
            ),
          ),
        ),
      ),
    ),
  ),
)

image_quality-width : All IsU32 (image_quality_fields image_quality)
image_quality-width = (omega arith, (omega arith, (omega arith, (omega arith, tt))))

tracking_time-width : All IsU32 (tracking_time_fields tracking_time)
tracking_time-width = (omega arith, (omega arith, (omega arith, tt)))

network-width : All IsU32 (network_fields network)
network-width = (omega arith, (omega arith, tt))

socket-width : All IsU32 (socket_fields socket)
socket-width = (omega arith, (omega arith, (omega arith, (omega arith, tt))))

packets_round_trip_example :
    (to_tracking_state (vrcp_tracking_data tracking) ≡ tracking)
    × (to_frame_time_measurements (vrcp_frame_time_measurement frame_time) ≡ frame_time)
    × (to_image_quality_measurements (vrcp_image_quality_measurement image_quality) ≡ image_quality)
    × (to_tracking_time_measurements (vrcp_tracking_time_measurement tracking_time) ≡ tracking_time)
    × (to_network_measurements (vrcp_network_measurement network) ≡ network)
    × (to_socket_measurements (vrcp_socket_measurement socket) ≡ socket)
packets_round_trip_example =
    packets_round_trip tracking frame_time image_quality tracking_time network socket tracking-width
      frame_time-width image_quality-width tracking_time-width network-width socket-width

window_round_trip_example : to_measurement_window (vrcp_benchmark_info window clock) clock ≡ window
window_round_trip_example = window_round_trip window clock (omega arith) (
  (omega arith, omega arith),
  ((omega arith, omega arith), ((omega arith, omega arith), ((omega arith, omega arith), tt))),
)

timestamp_round_trip_example : to_rtp_timestamp clock (from_rtp_timestamp clock 3) ≡ 3
timestamp_round_trip_example = timestamp_round_trip clock 3 (omega arith) (omega arith)
