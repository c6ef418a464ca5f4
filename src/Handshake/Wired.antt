-- ===== src/Handshake/Wired.antt =====
-- The CONN_REQ struct in memory, and on the wire.
use wireless_vr_bridge.Base.{
  ℕ, ◌+◌, ◌*◌, ◌/◌, ◌%◌, ◌^◌, ◌<◌, ◌≡◌, arith, List, ◌++◌, length, u16, All,
}
use wireless_vr_bridge.Network.{htonf}
use wireless_vr_bridge.Network.Wire.{load16, load32, load64}
use wireless_vr_bridge.Network.ByteOrder.{htons-lt, htonl-lt}
use wireless_vr_bridge.Network.ByteOrder64.{htonll-lt}
use wireless_vr_bridge.Vrcp.Control.{VrcpConnectionRequest, vrcp_connection_request_bytes}
use wireless_vr_bridge.Handshake.{VrcpClientParams}
use wireless_vr_bridge.Handshake.Request.{conn_req_at, conn_req_header}
use wireless_vr_bridge.Handshake.Texts.{IsCodec, joined}

abbrev pub IsU16 : ℕ → Type 0
IsU16 x = x < 2 ^ 16

-- The fields of a request have the widths of the struct.
pub record HasWidths (r : VrcpConnectionRequest) : Type 0 where
  pub udp_vrcp_port : IsU16 r.udp_vrcp_port
  pub video_port : IsU16 r.video_port
  pub eye_width : IsU16 r.eye_width
  pub eye_height : IsU16 r.eye_height
  pub refresh_rate_numerator : IsU16 r.refresh_rate_numerator
  pub refresh_rate_denominator : IsU16 r.refresh_rate_denominator
  pub ipd : r.ipd < 2 ^ 32
  pub eye_to_head_distance : r.eye_to_head_distance < 2 ^ 32
  pub world_bounds_width : r.world_bounds_width < 2 ^ 32
  pub world_bounds_height : r.world_bounds_height < 2 ^ 32
  pub ntp_timestamp : r.ntp_timestamp < 2 ^ 64

bytes16_joined : (w : ℕ) → IsU16 w → w % 256 + w / 2 ^ 8 % 256 * 2 ^ 8 ≡ w
bytes16_joined w h = omega arith

bytes32_joined :
    (w : ℕ)
    → w < 2 ^ 32
    → w % 256 + w / 2 ^ 8 % 256 * 2 ^ 8 + w / 2 ^ 16 % 256 * 2 ^ 16 + w / 2 ^ 24 % 256 * 2 ^ 24 ≡ w
bytes32_joined w h = omega arith

bytes64_joined :
    (w low high : ℕ) → w < 2 ^ 64 → low ≡ w % 2 ^ 32 → high ≡ w / 2 ^ 32 → low + high * 2 ^ 32 ≡ w
bytes64_joined w low high h e e' = omega arith

-- The struct that is written is the struct that is read, whatever follows it.
pub conn_req_at-bytes :
    (r : VrcpConnectionRequest) (rest : List ℕ)
    → HasWidths r
    → conn_req_at (vrcp_connection_request_bytes r ++ rest) ≡ r
unfolding conn_req_at load16 load32 load64
conn_req_at-bytes r rest h = λ k. record {
  ftype = r.ftype;
  n_rows = r.n_rows;
  version = r.version;
  video_mode = r.video_mode;
  udp_vrcp_port = bytes16_joined r.udp_vrcp_port h.udp_vrcp_port k;
  video_port = bytes16_joined r.video_port h.video_port k;
  eye_width = bytes16_joined r.eye_width h.eye_width k;
  eye_height = bytes16_joined r.eye_height h.eye_height k;
  refresh_rate_numerator = bytes16_joined r.refresh_rate_numerator h.refresh_rate_numerator k;
  refresh_rate_denominator = bytes16_joined r.refresh_rate_denominator h.refresh_rate_denominator k;
  ipd = bytes32_joined r.ipd h.ipd k;
  eye_to_head_distance = bytes32_joined r.eye_to_head_distance h.eye_to_head_distance k;
  world_bounds_width = bytes32_joined r.world_bounds_width h.world_bounds_width k;
  world_bounds_height = bytes32_joined r.world_bounds_height h.world_bounds_height k;
  ntp_timestamp =
      bytes64_joined r.ntp_timestamp _ _ h.ntp_timestamp
        (bytes32_joined (r.ntp_timestamp % 2 ^ 32) (omega arith))
        (bytes32_joined (r.ntp_timestamp / 2 ^ 32) (omega (arith, h.ntp_timestamp))) k;
}

-- What a client can ask with: its numbers have the widths of the packet's fields, both names and the
-- list of codecs are not empty, and the codecs fit into one field.
pub record CanAsk (udp_port : ℕ) (params : VrcpClientParams) : Type 0 where
  pub udp_port_width : IsU16 udp_port
  pub video_port : IsU16 params.video_port
  pub eye_width : IsU16 params.specs.eye_resolution.width
  pub eye_height : IsU16 params.specs.eye_resolution.height
  pub numerator : IsU16 params.specs.refresh_rate.numerator
  pub denominator : IsU16 params.specs.refresh_rate.denominator
  pub ipd : params.specs.ipd < 2 ^ 32
  pub eye_to_head_distance : params.specs.eye_to_head_distance < 2 ^ 32
  pub world_width : params.specs.world_bounds.width < 2 ^ 32
  pub world_height : params.specs.world_bounds.height < 2 ^ 32
  pub ntp_timestamp : params.ntp_timestamp < 2 ^ 64
  pub manufacturer_name : 0 < length params.specs.manufacturer_name
  pub system_name : 0 < length params.specs.system_name
  pub codecs : All IsCodec params.supported_video_codecs
  pub some_codecs : 0 < length params.supported_video_codecs
  pub codecs_fit : length (joined params.supported_video_codecs) < 256

htonf-lt : (x : ℕ) → x < 2 ^ 32 → htonf x < 2 ^ 32
unfolding htonf
htonf-lt x h = htonl-lt x h

pub conn_req_header-HasWidths :
    (rows udp_port : ℕ) (params : VrcpClientParams)
    → CanAsk udp_port params
    → HasWidths (conn_req_header rows udp_port params)
conn_req_header-HasWidths rows udp_port params h = record {
  udp_vrcp_port = htons-lt udp_port h.udp_port_width;
  video_port = htons-lt params.video_port h.video_port;
  eye_width = htons-lt (u16 params.specs.eye_resolution.width) (omega arith);
  eye_height = htons-lt (u16 params.specs.eye_resolution.height) (omega arith);
  refresh_rate_numerator = htons-lt (u16 params.specs.refresh_rate.numerator) (omega arith);
  refresh_rate_denominator = htons-lt (u16 params.specs.refresh_rate.denominator) (omega arith);
  ipd = htonf-lt params.specs.ipd h.ipd;
  eye_to_head_distance = htonf-lt params.specs.eye_to_head_distance h.eye_to_head_distance;
  world_bounds_width = htonf-lt params.specs.world_bounds.width h.world_width;
  world_bounds_height = htonf-lt params.specs.world_bounds.height h.world_height;
  ntp_timestamp = htonll-lt params.ntp_timestamp h.ntp_timestamp;
}
