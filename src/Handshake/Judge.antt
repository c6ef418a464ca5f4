-- ===== src/Handshake/Judge.antt =====
-- common/src/vrcp_socket.cpp: what `listen_for_conn_req` makes of a CONN_REQ, and `listen_for_conn_resp`
-- of a CONN_ACCEPT. `WVB_VIDEO_SOCKET_USE_UDP` is not defined: the video mode is TCP.
use wireless_vr_bridge.Base.{
  ℕ, Bool, false, not, ◌||◌, List, [], ◌∷◌, Option, none, some, if◌then◌else◌, ltb, ◌==◌, length,
  drop, sub64,
}
use wireless_vr_bridge.Base.Text.{same_text}
use wireless_vr_bridge.Network.{ntohs, ntohll, ntohf}
use wireless_vr_bridge.Network.Wire.{load16}
use wireless_vr_bridge.Vrcp.{
  VrcpRejectReason, to_u8_mode, tcp, vrcp_version, version_mismatch, invalid_vrcp_port,
  invalid_video_port, invalid_eye_size, invalid_refresh_rate, no_supported_video_codec,
  video_mode_mismatch, invalid_ntp_timestamp,
}
use wireless_vr_bridge.Vrcp.Control.{VrcpConnectionRequest}
use wireless_vr_bridge.Handshake.{VrcpClientParams, VrcpServerParams, VrcpConnectResp}
use wireless_vr_bridge.Handshake.Fields.{
  RequestFields, no_fields, FieldsRead, fields_read, bad_field, overrun, read_fields,
  find_chosen_codec,
}
use wireless_vr_bridge.Handshake.Request.{conn_req_at}

-- `UNIX_EPOCH_NTP`: the seconds from 1900 to 1970.
abbrev pub unix_epoch_ntp : ℕ
unix_epoch_ntp = 2208988800

abbrev pub max_eye_size : ℕ
max_eye_size = 4000

-- The checks of the struct, in the code's order: the first that fails, with its data.
unfoldable pub check_request : VrcpConnectionRequest → Option (VrcpRejectReason × ℕ)
check_request r =
    if not (r.version == vrcp_version)
    then some (version_mismatch, vrcp_version)
    else if not (r.video_mode == to_u8_mode tcp)
    then some (video_mode_mismatch, to_u8_mode tcp)
    else if ntohs r.udp_vrcp_port == 0
    then some (invalid_vrcp_port, 0)
    else if ntohs r.video_port == 0
    then some (invalid_video_port, 0)
    else if ltb max_eye_size (ntohs r.eye_width) || ltb max_eye_size (ntohs r.eye_height)
    then some (invalid_eye_size, 0)
    else if (ntohs r.refresh_rate_denominator == 0) || (ntohs r.refresh_rate_numerator == 0)
    then some (invalid_refresh_rate, 0)
    else if ltb (ntohll r.ntp_timestamp) unix_epoch_ntp
    then some (invalid_ntp_timestamp, 0)
    else none

abbrev pub is_among : List ℕ → List (List ℕ) → Bool
is_among codec [] = false
is_among codec (c ∷ cs) = same_text c codec || is_among codec cs

-- The server's first codec that the client has too; the empty text if there is none.
unfoldable pub choose_codec : List (List ℕ) → List (List ℕ) → List ℕ
choose_codec [] client_codecs = []
choose_codec (codec ∷ codecs) client_codecs =
    if is_among codec client_codecs then codec else choose_codec codecs client_codecs

pub data Judgement : Type 0 where
  accept : RequestFields → List ℕ → Judgement
  reject : VrcpRejectReason → ℕ → Judgement
  out_of_memory : Judgement

abbrev pub accept_codec : RequestFields → List ℕ → Judgement
accept_codec f [] = reject no_supported_video_codec 0
accept_codec f (c ∷ cs) = accept f (c ∷ cs)

abbrev pub judge_fields : VrcpServerParams → FieldsRead → Judgement
judge_fields params (fields_read f) =
    accept_codec f (choose_codec params.supported_video_codecs f.supported_video_codecs)
judge_fields params (bad_field reason) = reject reason 0
judge_fields params overrun = out_of_memory

abbrev pub judge_checked : VrcpServerParams → List ℕ → ℕ → Option (VrcpRejectReason × ℕ) → Judgement
judge_checked params memory size (some (reason, err_data)) = reject reason err_data
judge_checked params memory size none =
    let fields = drop 40 memory in
    judge_fields params (read_fields (length fields) fields (sub64 size 40) no_fields)

-- `memory` is what stands from the header on: the packet of `size` bytes, and what follows it.
unfoldable pub judge_request : VrcpServerParams → List ℕ → ℕ → Judgement
judge_request params memory size =
    judge_checked params memory size (check_request (conn_req_at memory))

-- What the server gives its caller: `client_params` and `resp`. The client's time stamp is not stored in
-- `client_params`: it stays as it was.
abbrev pub client_params_of :
    VrcpConnectionRequest → RequestFields → VrcpClientParams → VrcpClientParams
client_params_of r f before = record {
  video_port = ntohs r.video_port;
  specs = record {
    system_name = f.system_name;
    manufacturer_name = f.manufacturer_name;
    eye_resolution = record { width = ntohs r.eye_width; height = ntohs r.eye_height };
    refresh_rate = record {
      numerator = ntohs r.refresh_rate_numerator;
      denominator = ntohs r.refresh_rate_denominator;
    };
    ipd = ntohf r.ipd;
    eye_to_head_distance = ntohf r.eye_to_head_distance;
    world_bounds = record {
      width = ntohf r.world_bounds_width;
      height = ntohf r.world_bounds_height;
    };
  };
  supported_video_codecs = f.supported_video_codecs;
  ntp_timestamp = before.ntp_timestamp;
}

abbrev pub server_response : VrcpConnectionRequest → List ℕ → VrcpConnectResp
server_response r video_codec = record {
  peer_video_port = ntohs r.video_port;
  chosen_video_codec = video_codec;
  ntp_timestamp = ntohll r.ntp_timestamp;
}

-- What the client reads from a CONN_ACCEPT; `none` where it throws for want of a codec.
abbrev pub with_codec : VrcpClientParams → ℕ → List ℕ → Option VrcpConnectResp
with_codec params port [] = none
with_codec params port (c ∷ cs) = some (record {
  peer_video_port = port;
  chosen_video_codec = c ∷ cs;
  ntp_timestamp = params.ntp_timestamp;
})

unfoldable pub read_accept : VrcpClientParams → List ℕ → Option VrcpConnectResp
read_accept params packet =
    let fields = drop 8 packet in
    with_codec params (ntohs (load16 packet 6)) (find_chosen_codec (length fields) fields)
