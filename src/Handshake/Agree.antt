-- ===== src/Handshake/Agree.antt =====
-- Client and server agree: a request that `connect` makes, the server's answer to it, and what
-- `listen_for_conn_resp` reads from that.
use wireless_vr_bridge.Base.{
  ℕ, ◌+◌, ◌*◌, ◌/◌, ◌%◌, ◌^◌, ◌≤◌, ◌<◌, ◌≡◌, refl, sym, ap, ◌∙◌, arith, true, List, [], ◌∷◌, ◌++◌,
  Option, none, some, leb, length, u8, All, length-append, take-length-append, take-all,
}
use mathlib.Core.Path.{subst}
use mathlib.Core.Logic.{inl, inr}
use mathlib.Core.List.{Memᴰ}
use mathlib.Core.List.Memᴰ
use wireless_vr_bridge.Network.{htons}
use wireless_vr_bridge.Vrcp.{VrcpRejectReason}
use wireless_vr_bridge.Network.ByteOrder.{ntohs-htons, htons-lt}
use wireless_vr_bridge.Network.Wire.{load16}
use wireless_vr_bridge.Handshake.{VrcpClientParams, VrcpServerParams, VrcpConnectResp}
use wireless_vr_bridge.Handshake.Fields.{RequestFields, find_chosen_codec}
use wireless_vr_bridge.Handshake.Request.{conn_req_packet, conn_accept_packet}
use wireless_vr_bridge.Handshake.Judge.{
  accept, judge_request, read_accept, with_codec, accept_codec, choose_codec,
}
use wireless_vr_bridge.Handshake.Texts.{IsCodec}
use wireless_vr_bridge.Handshake.Wired.{CanAsk, IsU16}
use wireless_vr_bridge.Handshake.Exchange.{
  answer_to, refusal_of, sent_fields, judge_request-conn_req_packet,
}
use wireless_vr_bridge.Handshake.Answer.{
  IsFirstCommon, judge_request-Accepted, accept_codec-accept, choose_codec-cases,
}

-- What the server tells the client.
abbrev pub told : VrcpClientParams → ℕ → List ℕ → VrcpConnectResp
told params port codec = record {
  peer_video_port = port;
  chosen_video_codec = codec;
  ntp_timestamp = params.ntp_timestamp;
}

find_chosen_codec-field :
    (codec rest : List ℕ)
    → find_chosen_codec
        (length (12 ∷ length codec ∷ codec ++ rest))
        (12 ∷ length codec ∷ codec ++ rest)
      ≡ codec
unfolding find_chosen_codec
find_chosen_codec-field codec rest =
    let whole : leb (length codec) (length (codec ++ rest)) ≡ true =
      ground (arith, length-append codec rest) in
    rw (whole, take-length-append (length codec) codec rest refl) refl

with_codec-some :
    (params : VrcpClientParams) (port : ℕ) (codec : List ℕ)
    → 0 < length codec
    → with_codec params port codec ≡ some (told params port codec)
with_codec-some params port [] h = absurd (omega arith)
with_codec-some params port (c ∷ cs) h = refl

-- The client reads in a CONN_ACCEPT the video port and the codec that the server put there, where the
-- codec has 1 to 32 bytes, and keeps its own time stamp.
pub read_accept-conn_accept_packet :
    (params : VrcpClientParams) (udp_port video_port : ℕ) (codec : List ℕ)
    → IsU16 video_port
    → 0 < length codec
    → length codec ≤ 32
    → read_accept params (conn_accept_packet udp_port video_port codec)
      ≡ some (told params video_port codec)
unfolding read_accept conn_accept_packet load16
read_accept-conn_accept_packet params udp_port video_port codec w l h =
    let joined_port : htons video_port % 256 + htons video_port / 2 ^ 8 % 256 * 2 ^ 8
        ≡ htons video_port =
      omega (arith, htons-lt video_port w) in
    let size : u8 (length codec) ≡ length codec = omega arith in
    rw (take-all 32 codec h, joined_port, ntohs-htons video_port w, size, find_chosen_codec-field)
      (with_codec-some params video_port codec l)

short_codec :
    (codec : List ℕ) (codecs : List (List ℕ))
    → Memᴰ codec codecs
    → All IsCodec codecs
    → length codec ≤ 32
short_codec codec [] m h = absurd (Memᴰ.not-nil m)
short_codec codec (c ∷ cs) (Memᴰ.head e) h = rw e h.0.1
short_codec codec (c ∷ cs) (Memᴰ.tail m) h = short_codec codec cs m h.1

answer_to-accept :
    (server : VrcpServerParams) (params : VrcpClientParams) (f : RequestFields) (codec : List ℕ)
    → (refusal : Option (VrcpRejectReason × ℕ)) → answer_to server params refusal ≡ accept f codec
    → sent_fields params ≡ f
answer_to-accept server params f codec (some (because, err_data)) h = cc
answer_to-accept server params f codec none h =
    (accept_codec-accept (sent_fields params) f
      (choose_codec server.supported_video_codecs params.supported_video_codecs) codec h).0

-- What both sides hold after a request was accepted.
pub record Agreed (server : VrcpServerParams) (params : VrcpClientParams) (answer : List ℕ)
    (f : RequestFields) (codec : List ℕ) : Type 0 where
  pub names : f ≡ sent_fields params
  pub preferred : IsFirstCommon server.supported_video_codecs params.supported_video_codecs codec
  pub client_reads : read_accept params answer ≡ some (told params server.video_port codec)

-- If a server accepts the request of a client, it has the client's own names, cut to 32 bytes, and its
-- list of codecs; the codec is the first in the server's list that the client supports; and the client,
-- when it reads the server's CONN_ACCEPT, has that codec and the server's video port.
pub accepted-Agreed :
    (server : VrcpServerParams) (udp_port server_udp_port : ℕ) (params : VrcpClientParams)
    (fresh beyond : List ℕ) (f : RequestFields) (codec : List ℕ)
    → CanAsk udp_port params
    → IsU16 server.video_port
    → judge_request server
        (conn_req_packet udp_port params fresh ++ beyond)
        (length (conn_req_packet udp_port params fresh))
      ≡ accept f codec
    → Agreed server params (conn_accept_packet server_udp_port server.video_port codec) f codec
accepted-Agreed server udp_port server_udp_port params fresh beyond f codec h w e =
    let a = judge_request-Accepted server _ _ f codec e in
    let names =
      answer_to-accept server params f codec (refusal_of udp_port params)
        (sym (judge_request-conn_req_packet server udp_port params fresh beyond h) ∙ e) in
    let common : IsFirstCommon server.supported_video_codecs params.supported_video_codecs codec =
      subst (λ g. IsFirstCommon server.supported_video_codecs g.supported_video_codecs codec)
        (sym names) a.common in
    record {
      names = sym names;
      preferred = common;
      client_reads =
          read_accept-conn_accept_packet params server_udp_port server.video_port codec w a.has_name
            (short_codec codec params.supported_video_codecs common.supported h.codecs);
    }

accept_codec-some :
    (f : RequestFields) (codec : List ℕ) → 0 < length codec → accept_codec f codec ≡ accept f codec
accept_codec-some f [] h = absurd (omega arith)
accept_codec-some f (c ∷ cs) h = refl

named_codec :
    (codec : List ℕ) (codecs : List (List ℕ))
    → Memᴰ codec codecs
    → All IsCodec codecs
    → 0 < length codec
named_codec codec [] m h = absurd (Memᴰ.not-nil m)
named_codec codec (c ∷ cs) (Memᴰ.head e) h = rw e h.0.0
named_codec codec (c ∷ cs) (Memᴰ.tail m) h = named_codec codec cs m h.1

-- A client whose numbers are all good, and that has some codec in common with the server, is accepted,
-- with the codec that the server prefers.
pub common_codec-accepted :
    (server : VrcpServerParams) (udp_port : ℕ) (params : VrcpClientParams) (fresh beyond : List ℕ)
    (codec : List ℕ)
    → CanAsk udp_port params
    → refusal_of udp_port params ≡ none
    → Memᴰ codec server.supported_video_codecs
    → Memᴰ codec params.supported_video_codecs
    → judge_request server
        (conn_req_packet udp_port params fresh ++ beyond)
        (length (conn_req_packet udp_port params fresh))
      ≡ accept
          (sent_fields params)
          (choose_codec server.supported_video_codecs params.supported_video_codecs)
common_codec-accepted server udp_port params fresh beyond codec h good m m' =
    judge_request-conn_req_packet server udp_port params fresh beyond h
    ∙ ap (answer_to server params) good
    ∙ elim (choose_codec-cases server.supported_video_codecs params.supported_video_codecs) [
      | inl first ↦
          accept_codec-some (sent_fields params)
            (choose_codec server.supported_video_codecs params.supported_video_codecs)
            (named_codec (choose_codec server.supported_video_codecs params.supported_video_codecs)
              params.supported_video_codecs first.supported h.codecs)
      | inr nothing ↦ absurd (nothing.1 codec m m')
    ]
