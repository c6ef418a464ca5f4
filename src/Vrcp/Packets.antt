-- ===== src/Vrcp/Packets.antt =====
-- The packets of common/include/wvb_common/vrcp.h together: what is sent of each, and the header that
-- they share.
use wireless_vr_bridge.Base.{ℕ, ◌*◌, ◌<◌, ◌≡◌, arith, refl, List, length, get_or}
use wireless_vr_bridge.Network.Wire.{load16}
use wireless_vr_bridge.Vrcp.{vrcp_row_size}
use wireless_vr_bridge.Vrcp.Control.{
  VrcpConnectionRequest, vrcp_connection_request_bytes, default_vrcp_connection_request,
  VrcpConnectionAccept, vrcp_connection_accept_bytes, default_vrcp_connection_accept,
  VrcpConnectionReject, vrcp_connection_reject_bytes, default_vrcp_connection_reject, VrcpInputData,
  vrcp_input_data_bytes, default_vrcp_input_data, VrcpServerAdvertisement,
  vrcp_server_advertisement_bytes, default_vrcp_server_advertisement, VrcpUserDataHeader,
  vrcp_user_data_header_bytes, default_vrcp_user_data_header, VrcpPing, vrcp_ping_bytes,
  default_vrcp_ping, VrcpPingReply, vrcp_ping_reply_bytes, default_vrcp_ping_reply,
  VrcpSyncFinished, vrcp_sync_finished_bytes, default_vrcp_sync_finished,
  VrcpMeasurementTransferFinished, vrcp_measurement_transfer_finished_bytes,
  default_vrcp_measurement_transfer_finished, VrcpNextPass, vrcp_next_pass_bytes,
  default_vrcp_next_pass, VrcpFrameCaptureFragment, vrcp_frame_capture_fragment_bytes,
  default_vrcp_frame_capture_fragment,
}
use wireless_vr_bridge.Vrcp.Measured.{
  VrcpTrackingData, vrcp_tracking_data_bytes, default_vrcp_tracking_data, VrcpFrameTimeMeasurement,
  vrcp_frame_time_measurement_bytes, default_vrcp_frame_time_measurement,
  VrcpImageQualityMeasurement, vrcp_image_quality_measurement_bytes,
  default_vrcp_image_quality_measurement, VrcpTrackingTimeMeasurement,
  vrcp_tracking_time_measurement_bytes, default_vrcp_tracking_time_measurement,
  VrcpNetworkMeasurement, vrcp_network_measurement_bytes, default_vrcp_network_measurement,
  VrcpSocketMeasurement, vrcp_socket_measurement_bytes, default_vrcp_socket_measurement,
  VrcpBenchmarkInfo, vrcp_benchmark_info_bytes, default_vrcp_benchmark_info,
}

pub data Packet : Type 0 where
  connection_request : VrcpConnectionRequest → Packet
  connection_accept : VrcpConnectionAccept → Packet
  connection_reject : VrcpConnectionReject → Packet
  input_data : VrcpInputData → Packet
  server_advertisement : VrcpServerAdvertisement → Packet
  user_data_header : VrcpUserDataHeader → Packet
  ping : VrcpPing → Packet
  ping_reply : VrcpPingReply → Packet
  sync_finished : VrcpSyncFinished → Packet
  measurement_transfer_finished : VrcpMeasurementTransferFinished → Packet
  next_pass : VrcpNextPass → Packet
  frame_capture_fragment : VrcpFrameCaptureFragment → Packet
  tracking_data : VrcpTrackingData → Packet
  frame_time_measurement : VrcpFrameTimeMeasurement → Packet
  image_quality_measurement : VrcpImageQualityMeasurement → Packet
  tracking_time_measurement : VrcpTrackingTimeMeasurement → Packet
  network_measurement : VrcpNetworkMeasurement → Packet
  socket_measurement : VrcpSocketMeasurement → Packet
  benchmark_info : VrcpBenchmarkInfo → Packet

abbrev pub packet_bytes : Packet → List ℕ
packet_bytes (connection_request p) = vrcp_connection_request_bytes p
packet_bytes (connection_accept p) = vrcp_connection_accept_bytes p
packet_bytes (connection_reject p) = vrcp_connection_reject_bytes p
packet_bytes (input_data p) = vrcp_input_data_bytes p
packet_bytes (server_advertisement p) = vrcp_server_advertisement_bytes p
packet_bytes (user_data_header p) = vrcp_user_data_header_bytes p
packet_bytes (ping p) = vrcp_ping_bytes p
packet_bytes (ping_reply p) = vrcp_ping_reply_bytes p
packet_bytes (sync_finished p) = vrcp_sync_finished_bytes p
packet_bytes (measurement_transfer_finished p) = vrcp_measurement_transfer_finished_bytes p
packet_bytes (next_pass p) = vrcp_next_pass_bytes p
packet_bytes (frame_capture_fragment p) = vrcp_frame_capture_fragment_bytes p
packet_bytes (tracking_data p) = vrcp_tracking_data_bytes p
packet_bytes (frame_time_measurement p) = vrcp_frame_time_measurement_bytes p
packet_bytes (image_quality_measurement p) = vrcp_image_quality_measurement_bytes p
packet_bytes (tracking_time_measurement p) = vrcp_tracking_time_measurement_bytes p
packet_bytes (network_measurement p) = vrcp_network_measurement_bytes p
packet_bytes (socket_measurement p) = vrcp_socket_measurement_bytes p
packet_bytes (benchmark_info p) = vrcp_benchmark_info_bytes p

-- The header of a packet, which `VRCPBaseHeader` can be cast on.
pub record VrcpBaseHeader : Type 0 where
  pub ftype : ℕ
  pub n_rows : ℕ
  pub reserved : ℕ

abbrev pub base_header_at : List ℕ → VrcpBaseHeader
base_header_at bytes = record {
  ftype = get_or bytes 0 0;
  n_rows = get_or bytes 1 0;
  reserved = load16 bytes 2;
}

abbrev pub ftype_of : Packet → ℕ
ftype_of (connection_request p) = p.ftype
ftype_of (connection_accept p) = p.ftype
ftype_of (connection_reject p) = p.ftype
ftype_of (input_data p) = p.ftype
ftype_of (server_advertisement p) = p.ftype
ftype_of (user_data_header p) = p.ftype
ftype_of (ping p) = p.ftype
ftype_of (ping_reply p) = p.ftype
ftype_of (sync_finished p) = p.ftype
ftype_of (measurement_transfer_finished p) = p.ftype
ftype_of (next_pass p) = p.ftype
ftype_of (frame_capture_fragment p) = p.ftype
ftype_of (tracking_data p) = p.ftype
ftype_of (frame_time_measurement p) = p.ftype
ftype_of (image_quality_measurement p) = p.ftype
ftype_of (tracking_time_measurement p) = p.ftype
ftype_of (network_measurement p) = p.ftype
ftype_of (socket_measurement p) = p.ftype
ftype_of (benchmark_info p) = p.ftype

abbrev pub n_rows_of : Packet → ℕ
n_rows_of (connection_request p) = p.n_rows
n_rows_of (connection_accept p) = p.n_rows
n_rows_of (connection_reject p) = p.n_rows
n_rows_of (input_data p) = p.n_rows
n_rows_of (server_advertisement p) = p.n_rows
n_rows_of (user_data_header p) = p.n_rows
n_rows_of (ping p) = p.n_rows
n_rows_of (ping_reply p) = p.n_rows
n_rows_of (sync_finished p) = p.n_rows
n_rows_of (measurement_transfer_finished p) = p.n_rows
n_rows_of (next_pass p) = p.n_rows
n_rows_of (frame_capture_fragment p) = p.n_rows
n_rows_of (tracking_data p) = p.n_rows
n_rows_of (frame_time_measurement p) = p.n_rows
n_rows_of (image_quality_measurement p) = p.n_rows
n_rows_of (tracking_time_measurement p) = p.n_rows
n_rows_of (network_measurement p) = p.n_rows
n_rows_of (socket_measurement p) = p.n_rows
n_rows_of (benchmark_info p) = p.n_rows

-- The number of rows that the struct of a packet starts with.
abbrev pub default_n_rows : Packet → ℕ
default_n_rows (connection_request p) = default_vrcp_connection_request.n_rows
default_n_rows (connection_accept p) = default_vrcp_connection_accept.n_rows
default_n_rows (connection_reject p) = default_vrcp_connection_reject.n_rows
default_n_rows (input_data p) = default_vrcp_input_data.n_rows
default_n_rows (server_advertisement p) = default_vrcp_server_advertisement.n_rows
default_n_rows (user_data_header p) = default_vrcp_user_data_header.n_rows
default_n_rows (ping p) = default_vrcp_ping.n_rows
default_n_rows (ping_reply p) = default_vrcp_ping_reply.n_rows
default_n_rows (sync_finished p) = default_vrcp_sync_finished.n_rows
default_n_rows (measurement_transfer_finished p) = default_vrcp_measurement_transfer_finished.n_rows
default_n_rows (next_pass p) = default_vrcp_next_pass.n_rows
default_n_rows (frame_capture_fragment p) = default_vrcp_frame_capture_fragment.n_rows
default_n_rows (tracking_data p) = default_vrcp_tracking_data.n_rows
default_n_rows (frame_time_measurement p) = default_vrcp_frame_time_measurement.n_rows
default_n_rows (image_quality_measurement p) = default_vrcp_image_quality_measurement.n_rows
default_n_rows (tracking_time_measurement p) = default_vrcp_tracking_time_measurement.n_rows
default_n_rows (network_measurement p) = default_vrcp_network_measurement.n_rows
default_n_rows (socket_measurement p) = default_vrcp_socket_measurement.n_rows
default_n_rows (benchmark_info p) = default_vrcp_benchmark_info.n_rows

-- Whatever its fields hold, a packet is as long as the rows that its struct starts with, and its first
-- two bytes are its type and its number of rows, which is what a cast to the base header reads.
pub packet_layout :
    (p : Packet)
    → (length (packet_bytes p) ≡ vrcp_row_size * default_n_rows p)
      × ((base_header_at (packet_bytes p)).ftype ≡ ftype_of p)
      × ((base_header_at (packet_bytes p)).n_rows ≡ n_rows_of p)
packet_layout (connection_request p) = (refl, refl, refl)
packet_layout (connection_accept p) = (refl, refl, refl)
packet_layout (connection_reject p) = (refl, refl, refl)
packet_layout (input_data p) = (refl, refl, refl)
packet_layout (server_advertisement p) = (refl, refl, refl)
packet_layout (user_data_header p) = (refl, refl, refl)
packet_layout (ping p) = (refl, refl, refl)
packet_layout (ping_reply p) = (refl, refl, refl)
packet_layout (sync_finished p) = (refl, refl, refl)
packet_layout (measurement_transfer_finished p) = (refl, refl, refl)
packet_layout (next_pass p) = (refl, refl, refl)
packet_layout (frame_capture_fragment p) = (refl, refl, refl)
packet_layout (tracking_data p) = (refl, refl, refl)
packet_layout (frame_time_measurement p) = (refl, refl, refl)
packet_layout (image_quality_measurement p) = (refl, refl, refl)
packet_layout (tracking_time_measurement p) = (refl, refl, refl)
packet_layout (network_measurement p) = (refl, refl, refl)
packet_layout (socket_measurement p) = (refl, refl, refl)
packet_layout (benchmark_info p) = (refl, refl, refl)

-- No packet is without rows.
pub has_rows : (p : Packet) → 0 < default_n_rows p
has_rows (connection_request p) = omega arith
has_rows (connection_accept p) = omega arith
has_rows (connection_reject p) = omega arith
has_rows (input_data p) = omega arith
has_rows (server_advertisement p) = omega arith
has_rows (user_data_header p) = omega arith
has_rows (ping p) = omega arith
has_rows (ping_reply p) = omega arith
has_rows (sync_finished p) = omega arith
has_rows (measurement_transfer_finished p) = omega arith
has_rows (next_pass p) = omega arith
has_rows (frame_capture_fragment p) = omega arith
has_rows (tracking_data p) = omega arith
has_rows (frame_time_measurement p) = omega arith
has_rows (image_quality_measurement p) = omega arith
has_rows (tracking_time_measurement p) = omega arith
has_rows (network_measurement p) = omega arith
has_rows (socket_measurement p) = omega arith
has_rows (benchmark_info p) = omega arith
