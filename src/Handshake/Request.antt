-- ===== src/Handshake/Request.antt =====
-- common/src/vrcp_socket.cpp: the packets of the negotiation, as `connect` and `listen_for_conn_req` put
-- them together, and a CONN_REQ as the server sees it in memory. `udp_port` is the local port of the
-- sender's own UDP socket.
use wireless_vr_bridge.Base.{
  ℕ, ◌+◌, ◌-◌, ◌*◌, ◌/◌, List, [], ◌∷◌, ◌++◌, if◌then◌else◌, ltb, length, take, replicate, get_or,
  min, u8, u16,
}
use wireless_vr_bridge.Network.{htons, htonf, htonll}
use wireless_vr_bridge.Network.Wire.{load16, load32, load64}
use wireless_vr_bridge.Vrcp.{
  to_u8, to_u8_mode, tcp, manufacturer_name_tlv, system_name_tlv, supported_video_codecs_tlv,
  chosen_video_codec_tlv, vrcp_row_size,
}
use wireless_vr_bridge.Vrcp.Control.{
  VrcpConnectionRequest, default_vrcp_connection_request, vrcp_connection_request_bytes,
  default_vrcp_connection_accept, vrcp_connection_accept_bytes,
}
use wireless_vr_bridge.Handshake.{VrcpClientParams}
use wireless_vr_bridge.Handshake.Fields.{additional_field}

-- `(packet_size + 3) & ~3`
abbrev pub padded : ℕ → ℕ
padded packet_size = (packet_size + 3) / 4 * 4

abbrev pub max_text_size : ℕ
max_text_size = 32

-- The value of the codecs' field, as the loop of `connect` writes it: a comma follows a codec unless the
-- field, whose length has one byte, is full. `field_length` is that length, `offset` what is written.
abbrev pub written_codecs : ℕ → ℕ → List (List ℕ) → List ℕ
written_codecs field_length offset [] = []
written_codecs field_length offset (codec ∷ codecs) =
    let end_of_codec = offset + min (length codec) max_text_size in
    if ltb end_of_codec field_length
    then take max_text_size codec ++ b',' ∷ written_codecs field_length (end_of_codec + 1) codecs
    else take max_text_size codec ++ written_codecs field_length end_of_codec codecs

-- `video_codecs_size`, from the size so far.
abbrev pub codecs_size : ℕ → List (List ℕ) → ℕ
codecs_size size [] = size
codecs_size size (codec ∷ codecs) =
    if ltb 2 size
    then codecs_size (size + 1 + min (length codec) max_text_size) codecs
    else codecs_size (size + min (length codec) max_text_size) codecs

-- The struct in front of it.
abbrev pub conn_req_header : ℕ → ℕ → VrcpClientParams → VrcpConnectionRequest
conn_req_header rows udp_port params =
    let specs = params.specs in
    record default_vrcp_connection_request {
      n_rows = u8 rows;
      video_mode = to_u8_mode tcp;
      udp_vrcp_port = htons udp_port;
      video_port = htons params.video_port;
      eye_width = htons (u16 specs.eye_resolution.width);
      eye_height = htons (u16 specs.eye_resolution.height);
      refresh_rate_numerator = htons (u16 specs.refresh_rate.numerator);
      refresh_rate_denominator = htons (u16 specs.refresh_rate.denominator);
      ipd = htonf specs.ipd;
      eye_to_head_distance = htonf specs.eye_to_head_distance;
      world_bounds_width = htonf specs.world_bounds.width;
      world_bounds_height = htonf specs.world_bounds.height;
      ntp_timestamp = htonll params.ntp_timestamp;
    }

-- `packet_size`: the struct and three fields.
abbrev pub request_size : VrcpClientParams → ℕ
request_size params =
    40
    + (min (length params.specs.manufacturer_name) max_text_size + 2)
    + (min (length params.specs.system_name) max_text_size + 2)
    + codecs_size 2 params.supported_video_codecs

-- The value of the codecs' field. Where the codecs do not fill it, it keeps what the allocated memory
-- holds, `fresh`.
abbrev pub codecs_value : VrcpClientParams → List ℕ → List ℕ
codecs_value params fresh =
    let size = codecs_size 2 params.supported_video_codecs - 2 in
    take size (written_codecs (u8 size) 0 params.supported_video_codecs ++ fresh)

-- The CONN_REQ of `connect`.
unfoldable pub conn_req_packet : ℕ → VrcpClientParams → List ℕ → List ℕ
conn_req_packet udp_port params fresh =
    let packet_size = request_size params in
    vrcp_connection_request_bytes
      (conn_req_header (padded packet_size / vrcp_row_size) udp_port params)
    ++ (additional_field (to_u8 manufacturer_name_tlv)
          (take max_text_size params.specs.manufacturer_name)
        ++ (additional_field (to_u8 system_name_tlv) (take max_text_size params.specs.system_name)
            ++ (to_u8 supported_video_codecs_tlv
                  ∷ u8 (codecs_size 2 params.supported_video_codecs - 2)
                  ∷ codecs_value params fresh
                ++ replicate (padded packet_size - packet_size) 0)))

-- The struct that the server's pointer to the header shows.
unfoldable pub conn_req_at : List ℕ → VrcpConnectionRequest
conn_req_at memory = record {
  ftype = get_or memory 0 0;
  n_rows = get_or memory 1 0;
  version = get_or memory 2 0;
  video_mode = get_or memory 3 0;
  udp_vrcp_port = load16 memory 4;
  video_port = load16 memory 6;
  eye_width = load16 memory 8;
  eye_height = load16 memory 10;
  refresh_rate_numerator = load16 memory 12;
  refresh_rate_denominator = load16 memory 14;
  ipd = load32 memory 16;
  eye_to_head_distance = load32 memory 20;
  world_bounds_width = load32 memory 24;
  world_bounds_height = load32 memory 28;
  ntp_timestamp = load64 memory 32;
}

-- The CONN_ACCEPT of `listen_for_conn_req`.
unfoldable pub conn_accept_packet : ℕ → ℕ → List ℕ → List ℕ
conn_accept_packet udp_port video_port video_codec =
    let codec = take max_text_size video_codec in
    let packet_size = 8 + (length codec + 2) in
    vrcp_connection_accept_bytes (record default_vrcp_connection_accept {
      n_rows = u8 (padded packet_size / vrcp_row_size);
      udp_vrcp_port = htons udp_port;
      video_port = htons video_port;
    })
    ++ additional_field (to_u8 chosen_video_codec_tlv) codec
    ++ replicate (padded packet_size - packet_size) 0
