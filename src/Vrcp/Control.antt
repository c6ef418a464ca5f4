-- ===== src/Vrcp/Control.antt =====
-- common/include/wvb_common/vrcp.h: the packets that open, keep and end a session, as packed structs.
-- `default_…` is the struct as `{}` makes it, `…_bytes` what is sent of it.
use wireless_vr_bridge.Base.{ℕ, List, [], ◌∷◌, ◌++◌}
use wireless_vr_bridge.Network.Wire.{bytes16, bytes32, bytes64}
use wireless_vr_bridge.Vrcp.{
  to_u8, to_u8_mode, reject_code, vrcp_version, vrcp_magic, udp, no_reason, conn_req, conn_accept,
  conn_reject, input_data, server_advertisement, user_data, ping, ping_reply, sync_finished,
  measurement_transfer_finished, next_pass, frame_capture_fragment,
}

pub record VrcpConnectionRequest : Type 0 where
  pub ftype : ℕ
  pub n_rows : ℕ
  pub version : ℕ
  pub video_mode : ℕ
  pub udp_vrcp_port : ℕ
  pub video_port : ℕ
  pub eye_width : ℕ
  pub eye_height : ℕ
  pub refresh_rate_numerator : ℕ
  pub refresh_rate_denominator : ℕ
  pub ipd : ℕ
  pub eye_to_head_distance : ℕ
  pub world_bounds_width : ℕ
  pub world_bounds_height : ℕ
  pub ntp_timestamp : ℕ

abbrev pub default_vrcp_connection_request : VrcpConnectionRequest
default_vrcp_connection_request = record {
  ftype = to_u8 conn_req;
  n_rows = 10;
  version = vrcp_version;
  video_mode = to_u8_mode udp;
  udp_vrcp_port = 0;
  video_port = 0;
  eye_width = 0;
  eye_height = 0;
  refresh_rate_numerator = 0;
  refresh_rate_denominator = 0;
  ipd = 0;
  eye_to_head_distance = 0;
  world_bounds_width = 0;
  world_bounds_height = 0;
  ntp_timestamp = 0;
}

abbrev pub vrcp_connection_request_bytes : VrcpConnectionRequest → List ℕ
vrcp_connection_request_bytes p =
    p.ftype ∷ p.n_rows ∷ p.version ∷ p.video_mode ∷ bytes16 p.udp_vrcp_port
    ++ bytes16 p.video_port
    ++ bytes16 p.eye_width
    ++ bytes16 p.eye_height
    ++ bytes16 p.refresh_rate_numerator
    ++ bytes16 p.refresh_rate_denominator
    ++ bytes32 p.ipd
    ++ bytes32 p.eye_to_head_distance
    ++ bytes32 p.world_bounds_width
    ++ bytes32 p.world_bounds_height
    ++ bytes64 p.ntp_timestamp
    ++ []

pub record VrcpConnectionAccept : Type 0 where
  pub ftype : ℕ
  pub n_rows : ℕ
  pub reserved : ℕ
  pub udp_vrcp_port : ℕ
  pub video_port : ℕ

abbrev pub default_vrcp_connection_accept : VrcpConnectionAccept
default_vrcp_connection_accept = record {
  ftype = to_u8 conn_accept;
  n_rows = 2;
  reserved = 0;
  udp_vrcp_port = 0;
  video_port = 0;
}

abbrev pub vrcp_connection_accept_bytes : VrcpConnectionAccept → List ℕ
vrcp_connection_accept_bytes p =
    p.ftype ∷ p.n_rows ∷ bytes16 p.reserved ++ bytes16 p.udp_vrcp_port ++ bytes16 p.video_port ++ []

pub record VrcpConnectionReject : Type 0 where
  pub ftype : ℕ
  pub n_rows : ℕ
  pub reason : ℕ
  pub reject_data : ℕ

abbrev pub default_vrcp_connection_reject : VrcpConnectionReject
default_vrcp_connection_reject = record {
  ftype = to_u8 conn_reject;
  n_rows = 1;
  reason = reject_code no_reason;
  reject_data = 0;
}

abbrev pub vrcp_connection_reject_bytes : VrcpConnectionReject → List ℕ
vrcp_connection_reject_bytes p = p.ftype ∷ p.n_rows ∷ p.reason ∷ p.reject_data ∷ []

pub record VrcpInputData : Type 0 where
  pub ftype : ℕ
  pub n_rows : ℕ
  pub id : ℕ
  pub reserved : ℕ
  pub timestamp : ℕ

abbrev pub default_vrcp_input_data : VrcpInputData
default_vrcp_input_data = record {
  ftype = to_u8 input_data;
  n_rows = 2;
  id = 0;
  reserved = 0;
  timestamp = 0;
}

abbrev pub vrcp_input_data_bytes : VrcpInputData → List ℕ
vrcp_input_data_bytes p = p.ftype ∷ p.n_rows ∷ p.id ∷ p.reserved ∷ bytes32 p.timestamp ++ []

pub record VrcpServerAdvertisement : Type 0 where
  pub ftype : ℕ
  pub n_rows : ℕ
  pub magic : ℕ
  pub version : ℕ
  pub tcp_port : ℕ
  pub interval : ℕ
  pub reserved : ℕ
  pub timestamp : ℕ

abbrev pub default_vrcp_server_advertisement : VrcpServerAdvertisement
default_vrcp_server_advertisement = record {
  ftype = to_u8 server_advertisement;
  n_rows = 3;
  magic = vrcp_magic;
  version = vrcp_version;
  tcp_port = 0;
  interval = 0;
  reserved = 0;
  timestamp = 0;
}

abbrev pub vrcp_server_advertisement_bytes : VrcpServerAdvertisement → List ℕ
vrcp_server_advertisement_bytes p =
    p.ftype ∷ p.n_rows ∷ p.magic ∷ p.version ∷ bytes16 p.tcp_port
    ++ p.interval ∷ p.reserved ∷ bytes32 p.timestamp
    ++ []

pub record VrcpUserDataHeader : Type 0 where
  pub ftype : ℕ
  pub n_rows : ℕ
  pub size : ℕ

abbrev pub default_vrcp_user_data_header : VrcpUserDataHeader
default_vrcp_user_data_header = record { ftype = to_u8 user_data; n_rows = 1; size = 0 }

abbrev pub vrcp_user_data_header_bytes : VrcpUserDataHeader → List ℕ
vrcp_user_data_header_bytes p = p.ftype ∷ p.n_rows ∷ bytes16 p.size ++ []

pub record VrcpPing : Type 0 where
  pub ftype : ℕ
  pub n_rows : ℕ
  pub ping_id : ℕ

abbrev pub default_vrcp_ping : VrcpPing
default_vrcp_ping = record { ftype = to_u8 ping; n_rows = 1; ping_id = 0 }

abbrev pub vrcp_ping_bytes : VrcpPing → List ℕ
vrcp_ping_bytes p = p.ftype ∷ p.n_rows ∷ bytes16 p.ping_id ++ []

pub record VrcpPingReply : Type 0 where
  pub ftype : ℕ
  pub n_rows : ℕ
  pub ping_id : ℕ
  pub reply_timestamp : ℕ

abbrev pub default_vrcp_ping_reply : VrcpPingReply
default_vrcp_ping_reply = record {
  ftype = to_u8 ping_reply;
  n_rows = 2;
  ping_id = 0;
  reply_timestamp = 0;
}

abbrev pub vrcp_ping_reply_bytes : VrcpPingReply → List ℕ
vrcp_ping_reply_bytes p = p.ftype ∷ p.n_rows ∷ bytes16 p.ping_id ++ bytes32 p.reply_timestamp ++ []

pub record VrcpSyncFinished : Type 0 where
  pub ftype : ℕ
  pub n_rows : ℕ
  pub reserved : ℕ

abbrev pub default_vrcp_sync_finished : VrcpSyncFinished
default_vrcp_sync_finished = record { ftype = to_u8 sync_finished; n_rows = 1; reserved = 0 }

abbrev pub vrcp_sync_finished_bytes : VrcpSyncFinished → List ℕ
vrcp_sync_finished_bytes p = p.ftype ∷ p.n_rows ∷ bytes16 p.reserved ++ []

pub record VrcpMeasurementTransferFinished : Type 0 where
  pub ftype : ℕ
  pub n_rows : ℕ
  pub decoder_frame_delay : ℕ
  pub reserved : ℕ
  pub nb_dropped_frames : ℕ
  pub nb_catched_up_frames : ℕ

abbrev pub default_vrcp_measurement_transfer_finished : VrcpMeasurementTransferFinished
default_vrcp_measurement_transfer_finished = record {
  ftype = to_u8 measurement_transfer_finished;
  n_rows = 3;
  decoder_frame_delay = 0;
  reserved = 0;
  nb_dropped_frames = 0;
  nb_catched_up_frames = 0;
}

abbrev pub vrcp_measurement_transfer_finished_bytes : VrcpMeasurementTransferFinished → List ℕ
vrcp_measurement_transfer_finished_bytes p =
    p.ftype ∷ p.n_rows ∷ p.decoder_frame_delay ∷ p.reserved ∷ bytes32 p.nb_dropped_frames
    ++ bytes32 p.nb_catched_up_frames
    ++ []

pub record VrcpNextPass : Type 0 where
  pub ftype : ℕ
  pub n_rows : ℕ
  pub pass : ℕ
  pub run : ℕ

abbrev pub default_vrcp_next_pass : VrcpNextPass
default_vrcp_next_pass = record { ftype = to_u8 next_pass; n_rows = 1; pass = 0; run = 0 }

abbrev pub vrcp_next_pass_bytes : VrcpNextPass → List ℕ
vrcp_next_pass_bytes p = p.ftype ∷ p.n_rows ∷ p.pass ∷ p.run ∷ []

pub record VrcpFrameCaptureFragment : Type 0 where
  pub ftype : ℕ
  pub n_rows : ℕ
  pub last : ℕ
  pub reserved : ℕ
  pub full_size : ℕ
  pub offset : ℕ
  pub size : ℕ

abbrev pub default_vrcp_frame_capture_fragment : VrcpFrameCaptureFragment
default_vrcp_frame_capture_fragment = record {
  ftype = to_u8 frame_capture_fragment;
  n_rows = 4;
  last = 0;
  reserved = 0;
  full_size = 0;
  offset = 0;
  size = 0;
}

abbrev pub vrcp_frame_capture_fragment_bytes : VrcpFrameCaptureFragment → List ℕ
vrcp_frame_capture_fragment_bytes p =
    p.ftype ∷ p.n_rows ∷ p.last ∷ p.reserved ∷ bytes32 p.full_size
    ++ bytes32 p.offset
    ++ bytes32 p.size
    ++ []
