-- ===== src/Handshake/Exchange.antt =====
-- The server reads what a client asked: `conn_req_packet` against `judge_request`.
use wireless_vr_bridge.Base.{
  ℕ, ◌+◌, ◌-◌, ◌/◌, ◌≤◌, ◌<◌, ◌≡◌, refl, ap, ap₂, ◌∙◌, arith, List, [], ◌∷◌, ◌++◌, append_assoc,
  Option, none, some, if◌then◌else◌, ltb, ◌==◌, ◌||◌, length, take, drop, replicate, u8, u16, sub64,
  All, length-append, length-take, length-replicate, take-length-append,
}
use wireless_vr_bridge.Network.ByteOrder.{ntohs-htons}
use wireless_vr_bridge.Network.ByteOrder64.{ntohll-htonll}
use wireless_vr_bridge.Vrcp.{
  VrcpRejectReason, to_u8, manufacturer_name_tlv, system_name_tlv, supported_video_codecs_tlv,
  invalid_vrcp_port, invalid_video_port, invalid_eye_size, invalid_refresh_rate,
  invalid_ntp_timestamp,
}
use wireless_vr_bridge.Vrcp.Control.{vrcp_connection_request_bytes}
use wireless_vr_bridge.Handshake.{VrcpClientParams, VrcpServerParams}
use wireless_vr_bridge.Handshake.Fields.{RequestFields, no_fields, additional_field, fields_read}
use wireless_vr_bridge.Handshake.Request.{
  conn_req_packet, conn_req_header, request_size, padded, codecs_value, codecs_size,
}
use wireless_vr_bridge.Handshake.Texts.{
  IsCodec, joined, length-joined_pos, written_codecs-joined, codecs_size-joined,
  split_by_comma-joined,
}
use wireless_vr_bridge.Handshake.Reading.{
  read_from, read_from-padding, read_from-manufacturer, read_from-system, read_from-codecs,
}
use wireless_vr_bridge.Handshake.Wired.{CanAsk, IsU16, conn_req_at-bytes, conn_req_header-HasWidths}
use wireless_vr_bridge.Handshake.Judge.{
  Judgement, judge_request, judge_checked, judge_fields, check_request, accept_codec, choose_codec,
  reject,
}

-- The texts as they are sent: the names are cut to 32 bytes.
abbrev pub sent_fields : VrcpClientParams → RequestFields
sent_fields params = record {
  manufacturer_name = take 32 params.specs.manufacturer_name;
  system_name = take 32 params.specs.system_name;
  supported_video_codecs = params.supported_video_codecs;
}

some_left : (text : List ℕ) → 0 < length text → 0 < length (take 32 text)
some_left text h = omega (arith, length-take 32 text)

some_joined :
    (codecs : List (List ℕ)) → 0 < length codecs → All IsCodec codecs → 0 < length (joined codecs)
some_joined [] l h = absurd (omega arith)
some_joined (c ∷ cs) l h = length-joined_pos c cs h

module _ (udp_port : ℕ) (params : VrcpClientParams) (fresh beyond : List ℕ)
    (h : CanAsk udp_port params) where
  all : ℕ
  all = request_size params

  value : List ℕ
  value = joined params.supported_video_codecs

  value_size : codecs_size 2 params.supported_video_codecs ≡ 2 + length value
  unfolding value
  value_size = codecs_size-joined params.supported_video_codecs h.codecs

  codecs_value-joined : codecs_value params fresh ≡ value
  unfolding value
  codecs_value-joined =
      let size : codecs_size 2 params.supported_video_codecs - 2 ≡ length value =
        omega (arith, value_size) in
      let fits : u8 (length value) ≡ length value = omega (arith, h.codecs_fit) in
      rw
        (
          size,
          fits,
          written_codecs-joined (length value) 0 params.supported_video_codecs h.codecs
              (omega arith),
        )
        (take-length-append (length value) value fresh refl)

  manufacturer : List ℕ
  manufacturer = take 32 params.specs.manufacturer_name

  system : List ℕ
  system = take 32 params.specs.system_name

  padding : ℕ
  padding = padded all - all

  padding-lt : padding < 4
  unfolding padding all
  padding-lt = omega arith

  -- What the packet holds after the struct.
  additional_fields : List ℕ
  additional_fields =
      additional_field (to_u8 manufacturer_name_tlv) manufacturer
      ++ (additional_field (to_u8 system_name_tlv) system
          ++ (additional_field (to_u8 supported_video_codecs_tlv) value ++ replicate padding 0))

  packet_rows : ℕ
  packet_rows = padded all / 4

  conn_req_packet-fields :
      conn_req_packet udp_port params fresh
      ≡ vrcp_connection_request_bytes (conn_req_header packet_rows udp_port params)
        ++ additional_fields
  unfolding conn_req_packet additional_fields packet_rows padding all manufacturer system value
  conn_req_packet-fields =
      let size : codecs_size 2 params.supported_video_codecs - 2 ≡ length value =
        omega (arith, value_size) in
      ap₂
        (λ n v.
          vrcp_connection_request_bytes (conn_req_header packet_rows udp_port params)
          ++ (additional_field (to_u8 manufacturer_name_tlv) manufacturer
              ++ (additional_field (to_u8 system_name_tlv) system
                  ++ (to_u8 supported_video_codecs_tlv ∷ u8 n ∷ v ++ replicate padding 0))))
        size codecs_value-joined

  fields_size : ℕ
  fields_size = length manufacturer + 2 + (length system + 2 + (length value + 2 + padding))

  length-additional_fields : length additional_fields ≡ fields_size
  unfolding additional_fields fields_size
  length-additional_fields = omega (
    arith,
    length-append manufacturer (
        additional_field (to_u8 system_name_tlv) system
        ++ (additional_field (to_u8 supported_video_codecs_tlv) value ++ replicate padding 0)),
    length-append system
        (additional_field (to_u8 supported_video_codecs_tlv) value ++ replicate padding 0),
    length-append value (replicate padding 0),
    length-replicate {A = ℕ} padding 0,
  )

  -- Each text is short, and so is all that follows the struct.
  text_sizes :
      (length manufacturer ≤ 32)
      × (length system ≤ 32)
      × (length value < 256)
      × (fields_size < 1000)
  unfolding fields_size manufacturer system value
  text_sizes =
      let manufacturer_size = length-take 32 params.specs.manufacturer_name in
      let system_size = length-take 32 params.specs.system_name in
      (omega arith, omega arith, h.codecs_fit, omega (arith, padding-lt, h.codecs_fit))

  read_from-additional_fields :
      read_from (additional_fields ++ beyond) fields_size no_fields
      ≡ fields_read (sent_fields params)
  unfolding additional_fields fields_size manufacturer system value
  read_from-additional_fields =
      let sizes = text_sizes in
      let pad = padding-lt in
      rw
        (
          append_assoc manufacturer
              (additional_field (to_u8 system_name_tlv) system
                ++ (additional_field (to_u8 supported_video_codecs_tlv) value
                    ++ replicate padding 0))
              beyond,
          append_assoc system
              (additional_field (to_u8 supported_video_codecs_tlv) value ++ replicate padding 0)
              beyond,
          append_assoc value (replicate padding 0) beyond,
        )
        (read_from-manufacturer manufacturer _ _ no_fields
            (some_left params.specs.manufacturer_name h.manufacturer_name) (omega (arith, sizes))
            (omega (arith, sizes, pad))
          ∙ read_from-system system _ _ _ (some_left params.specs.system_name h.system_name)
              (omega (arith, sizes)) (omega (arith, sizes, pad))
          ∙ read_from-codecs value _ _ _
              (some_joined params.supported_video_codecs h.some_codecs h.codecs)
              (omega (arith, sizes)) (omega (arith, sizes, pad))
          ∙ read_from-padding padding beyond _ padding-lt
          ∙ ap
              (λ codecs.
                fields_read (record (sent_fields params) { supported_video_codecs = codecs }))
              (split_by_comma-joined params.supported_video_codecs h.codecs))

-- What the server refuses in the numbers that the client asks with, the first of them.
unfoldable pub refusal_of : ℕ → VrcpClientParams → Option (VrcpRejectReason × ℕ)
refusal_of udp_port params =
    let specs = params.specs in
    if udp_port == 0
    then some (invalid_vrcp_port, 0)
    else if params.video_port == 0
    then some (invalid_video_port, 0)
    else if ltb 4000 specs.eye_resolution.width || ltb 4000 specs.eye_resolution.height
    then some (invalid_eye_size, 0)
    else if (specs.refresh_rate.denominator == 0) || (specs.refresh_rate.numerator == 0)
    then some (invalid_refresh_rate, 0)
    else if ltb params.ntp_timestamp 2208988800
    then some (invalid_ntp_timestamp, 0)
    else none

-- The answer that a client is due: a refusal of its numbers, or else of its codecs.
abbrev pub answer_to :
    VrcpServerParams → VrcpClientParams → Option (VrcpRejectReason × ℕ) → Judgement
answer_to server params (some (because, err_data)) = reject because err_data
answer_to server params none =
    accept_codec (sent_fields params)
      (choose_codec server.supported_video_codecs params.supported_video_codecs)

u16_of : (x : ℕ) → IsU16 x → u16 x ≡ x
u16_of x h = omega arith

check_request-header :
    (rows udp_port : ℕ) (params : VrcpClientParams)
    → CanAsk udp_port params
    → check_request (conn_req_header rows udp_port params) ≡ refusal_of udp_port params
unfolding check_request refusal_of
check_request-header rows udp_port params h =
    rw
      (
        u16_of params.specs.eye_resolution.width h.eye_width,
        u16_of params.specs.eye_resolution.height h.eye_height,
        u16_of params.specs.refresh_rate.numerator h.numerator,
        u16_of params.specs.refresh_rate.denominator h.denominator,
        ntohs-htons udp_port h.udp_port_width,
        ntohs-htons params.video_port h.video_port,
        ntohs-htons params.specs.eye_resolution.width h.eye_width,
        ntohs-htons params.specs.eye_resolution.height h.eye_height,
        ntohs-htons params.specs.refresh_rate.numerator h.numerator,
        ntohs-htons params.specs.refresh_rate.denominator h.denominator,
        ntohll-htonll params.ntp_timestamp h.ntp_timestamp,
      )
      refl

judge_checked-answers :
    (server : VrcpServerParams) (params : VrcpClientParams) (memory : List ℕ) (size : ℕ)
    → read_from (drop 40 memory) (sub64 size 40) no_fields ≡ fields_read (sent_fields params)
    → (refusal : Option (VrcpRejectReason × ℕ))
    → judge_checked server memory size refusal ≡ answer_to server params refusal
judge_checked-answers server params memory size e (some (because, err_data)) = refl
judge_checked-answers server params memory size e none = ap (judge_fields server) e

-- A server that reads a request as `connect` makes it, whatever stands behind it in memory, answers what
-- the client is due: the reason why one of the client's numbers is refused, the first in the order of
-- the checks, and otherwise the names, cut to 32 bytes, with the client's list of codecs, and the codec
-- that is chosen from it, or the refusal for want of one.
pub judge_request-conn_req_packet :
    (server : VrcpServerParams) (udp_port : ℕ) (params : VrcpClientParams) (fresh beyond : List ℕ)
    → CanAsk udp_port params
    → judge_request server
        (conn_req_packet udp_port params fresh ++ beyond)
        (length (conn_req_packet udp_port params fresh))
      ≡ answer_to server params (refusal_of udp_port params)
unfolding judge_request
judge_request-conn_req_packet server udp_port params fresh beyond h =
    let header = conn_req_header (packet_rows udp_port params fresh beyond h) udp_port params in
    let fields = additional_fields udp_port params fresh beyond h in
    let size : sub64 (length (vrcp_connection_request_bytes header ++ fields)) 40
        ≡ fields_size udp_port params fresh beyond h =
      omega (
        arith,
        length-additional_fields udp_port params fresh beyond h,
        (text_sizes udp_port params fresh beyond h).3,
      ) in
    rw
      (
        conn_req_packet-fields udp_port params fresh beyond h,
        append_assoc (vrcp_connection_request_bytes header) fields beyond,
        conn_req_at-bytes header (fields ++ beyond) (
            conn_req_header-HasWidths (packet_rows udp_port params fresh beyond h) udp_port params
              h),
        check_request-header (packet_rows udp_port params fresh beyond h) udp_port params h,
      )
      (judge_checked-answers server params
        (vrcp_connection_request_bytes header ++ (fields ++ beyond))
        (length (vrcp_connection_request_bytes header ++ fields))
        (ap (λ n. read_from (fields ++ beyond) n no_fields) size
          ∙ read_from-additional_fields udp_port params fresh beyond h)
        (refusal_of udp_port params))
