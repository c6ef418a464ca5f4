-- ===== src/Handshake/Tests.antt =====
-- A negotiation between a client and a server, and the theorems at it.
use wireless_vr_bridge.Base.{ℕ, ◌≡◌, refl, arith, List, [], ◌∷◌, ◌++◌, length}
use wireless_vr_bridge.Base.Text.{codes}
use mathlib.Core.List.Memᴰ
use wireless_vr_bridge.Network.{htons, htonl, htonll, htonf, ntohs, ntohll}
use wireless_vr_bridge.Network.Wire.{load16, load32, load64}
use wireless_vr_bridge.Vrcp.{invalid_manufacturer_name}
use wireless_vr_bridge.Handshake.{VrcpClientParams, VrcpServerParams}
use wireless_vr_bridge.Handshake.Fields.{
  bad_field, overrun, read_fields, read_field, no_fields, split_by_comma,
}
use wireless_vr_bridge.Handshake.Request.{conn_req_packet, conn_accept_packet, conn_req_at}
use wireless_vr_bridge.Handshake.Judge.{accept, judge_request, choose_codec, check_request}
use wireless_vr_bridge.Handshake.Wired.{CanAsk}
use wireless_vr_bridge.Handshake.Exchange.{
  answer_to, refusal_of, sent_fields, judge_request-conn_req_packet,
}
use wireless_vr_bridge.Handshake.Answer.{Accepted, judge_request-Accepted}
use wireless_vr_bridge.Handshake.Agree.{Agreed, accepted-Agreed, common_codec-accepted}

abbrev h264 : List ℕ
h264 = codes "h264"

abbrev h265 : List ℕ
h265 = codes "h265"

abbrev pub av1 : List ℕ
av1 = codes "av1"

abbrev pub headset : VrcpClientParams
headset = record {
  video_port = 4000;
  specs = record {
    system_name = codes "Quest 2";
    manufacturer_name = codes "Oculus";
    eye_resolution = record { width = 1832; height = 1920 };
    refresh_rate = record { numerator = 90; denominator = 1 };
    ipd = 0x3D810625;
    eye_to_head_distance = 0;
    world_bounds = record { width = 0x40000000; height = 0x40000000 };
  };
  supported_video_codecs = h264 ∷ av1 ∷ [];
  ntp_timestamp = 3800000000;
}

abbrev pub server : VrcpServerParams
server = record { video_port = 5000; supported_video_codecs = h265 ∷ av1 ∷ h264 ∷ [] }

headset-CanAsk : CanAsk 7000 headset
headset-CanAsk = record {
  udp_port_width = omega arith;
  video_port = omega arith;
  eye_width = omega arith;
  eye_height = omega arith;
  numerator = omega arith;
  denominator = omega arith;
  ipd = omega arith;
  eye_to_head_distance = omega arith;
  world_width = omega arith;
  world_height = omega arith;
  ntp_timestamp = omega arith;
  manufacturer_name = omega arith;
  system_name = omega arith;
  codecs = ground arith;
  some_codecs = omega arith;
  codecs_fit = omega arith;
}

headset_is_accepted :
    judge_request server
      (conn_req_packet 7000 headset [] ++ 1 ∷ 2 ∷ [])
      (length (conn_req_packet 7000 headset []))
    ≡ accept (sent_fields headset) av1
unfolding judge_request check_request conn_req_at conn_req_packet read_fields read_field
    choose_codec htons htonll htonf htonl ntohs ntohll load16 load32 load64
headset_is_accepted = refl

judge_request-conn_req_packet_example :
    judge_request server
      (conn_req_packet 7000 headset [] ++ 1 ∷ 2 ∷ [])
      (length (conn_req_packet 7000 headset []))
    ≡ answer_to server headset (refusal_of 7000 headset)
judge_request-conn_req_packet_example =
    judge_request-conn_req_packet server 7000 headset [] (1 ∷ 2 ∷ []) headset-CanAsk

judge_request-Accepted_example :
    Accepted server
      (conn_req_packet 7000 headset [] ++ 1 ∷ 2 ∷ [])
      (length (conn_req_packet 7000 headset []))
      (sent_fields headset)
      av1
judge_request-Accepted_example =
    judge_request-Accepted server (conn_req_packet 7000 headset [] ++ 1 ∷ 2 ∷ [])
      (length (conn_req_packet 7000 headset [])) (sent_fields headset) av1 headset_is_accepted

accepted-Agreed_example :
    Agreed server headset (conn_accept_packet 7001 5000 av1) (sent_fields headset) av1
accepted-Agreed_example =
    accepted-Agreed server 7000 7001 headset [] (1 ∷ 2 ∷ []) (sent_fields headset) av1
      headset-CanAsk (omega arith) headset_is_accepted

common_codec-accepted_example :
    judge_request server
      (conn_req_packet 7000 headset [] ++ 1 ∷ 2 ∷ [])
      (length (conn_req_packet 7000 headset []))
    ≡ accept
        (sent_fields headset)
        (choose_codec server.supported_video_codecs headset.supported_video_codecs)
unfolding refusal_of
common_codec-accepted_example =
    common_codec-accepted server 7000 headset [] (1 ∷ 2 ∷ []) h264 headset-CanAsk refl
      (Memᴰ.tail (Memᴰ.tail (Memᴰ.head refl))) (Memᴰ.head refl)

-- A field that claims more than the packet holds is refused, if its type is known.
long_name_is_refused :
    read_fields 6 (9 ∷ 3 ∷ 104 ∷ 105 ∷ 7 ∷ 7 ∷ []) 4 no_fields ≡ bad_field invalid_manufacturer_name
unfolding read_fields read_field
long_name_is_refused = refl

-- One of an unknown type is not: the size that is left wraps, and the loop leaves the packet.
unknown_field_leaves_packet : read_fields 6 (99 ∷ 3 ∷ 0 ∷ 0 ∷ 7 ∷ 7 ∷ []) 4 no_fields ≡ overrun
unfolding read_fields read_field
unknown_field_leaves_packet = refl

no_text_after_last_comma : split_by_comma (codes "h264,,av1,") ≡ h264 ∷ [] ∷ av1 ∷ []
no_text_after_last_comma = refl
