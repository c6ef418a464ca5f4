-- ===== src/RtpDepacketizer/Process.antt =====
-- common/src/formats/h264/h264_rtp_depacketizer.cpp: what a packet adds to the frame.
use wireless_vr_bridge.Base.{
  ℕ, ◌-◌, Bool, true, false, not, List, [], ◌∷◌, ◌++◌, Option, none, some, if◌then◌else◌, ◌==◌,
  length, get_or, set, take, drop, ◌&&&◌, ◌|||◌, ◌&&◌,
}
use wireless_vr_bridge.Network.{ntohl, ntohs}
use wireless_vr_bridge.Rtp.{RtpHeader, is_marker, sizeof_rtp_header}
use wireless_vr_bridge.Rtp.Bytes.{rtp_header_at}
use wireless_vr_bridge.RtpDepacketizer.{RtpDepacketizer, finish_frame, finish_packet}

abbrev pub fu_a_type : ℕ
fu_a_type = 28

abbrev pub nalu_type : ℕ → ℕ
nalu_type nalu_header = nalu_header &&& 0x1F

abbrev pub fu_reassemble_header : ℕ → ℕ → ℕ
fu_reassemble_header fu_indicator fu_header =
    (fu_indicator &&& 0b11100000) ||| (fu_header &&& 0b00011111)

abbrev pub fu_header_start_bit : ℕ
fu_header_start_bit = 0b10000000

abbrev pub fu_header_end_bit : ℕ
fu_header_end_bit = 0b01000000

abbrev pub nalu_header_f_bit : ℕ
nalu_header_f_bit = 0b10000000

abbrev pub has_bit : ℕ → ℕ → Bool
has_bit byte bit = not ((byte &&& bit) == 0)

-- What `add_start_code` appends.
abbrev pub start_code_for : List ℕ → List ℕ
start_code_for [] = 0 ∷ 0 ∷ 0 ∷ 1 ∷ []
start_code_for (b ∷ frame) = 0 ∷ 0 ∷ 1 ∷ []

abbrev pub add_start_code : RtpDepacketizer → RtpDepacketizer
add_start_code d = record d { m_frame_data = d.m_frame_data ++ start_code_for d.m_frame_data }

abbrev pub append_data : List ℕ → RtpDepacketizer → RtpDepacketizer
append_data bytes d = record d { m_frame_data = d.m_frame_data ++ bytes }

abbrev pub start_new_fu : List ℕ → RtpDepacketizer → RtpDepacketizer
start_new_fu payload d =
    let coded = add_start_code d in
    record coded {
      m_frame_data =
          coded.m_frame_data
          ++ fu_reassemble_header (get_or payload 0 0) (get_or payload 1 0) ∷ drop 2 payload;
      m_fu_header = some (length coded.m_frame_data);
      m_should_drop_fragmented_unit = false;
    }

-- `*m_fu_header |= NALU_HEADER_F_BIT`, if a fragmented unit is open.
abbrev pub mark_incorrect : Option ℕ → List ℕ → List ℕ
mark_incorrect none frame = frame
mark_incorrect (some i) frame = set frame i (get_or frame i 0 ||| nalu_header_f_bit)

abbrev pub mark_fu : RtpDepacketizer → RtpDepacketizer
mark_fu d = record d { m_frame_data = mark_incorrect d.m_fu_header d.m_frame_data }

abbrev pub in_fragmented_unit : RtpDepacketizer → Bool
in_fragmented_unit d = elim d.m_fu_header [ none ↦ false | some i ↦ true ]

-- `m_last_processed_seq_id != ntohs(data->sequence_number) - 1`, where the right side is an `int` and
-- the left one is promoted to one: nothing is -1.
abbrev pub is_next_seq : ℕ → ℕ → Bool
is_next_seq last_processed sequence_number =
    not (sequence_number == 0) && (last_processed == (sequence_number - 1))

-- A packet between this fragment and the last one was lost.
abbrev pub check_sequence : ℕ → RtpDepacketizer → RtpDepacketizer
check_sequence sequence_number d =
    if is_next_seq d.m_last_processed_seq_id sequence_number
    then d
    else record (mark_fu d) { m_should_drop_fragmented_unit = true }

abbrev pub copy_fragment : List ℕ → RtpDepacketizer → RtpDepacketizer
copy_fragment payload d =
    if d.m_should_drop_fragmented_unit then d else append_data (drop 2 payload) d

abbrev pub end_fragment : List ℕ → RtpDepacketizer → RtpDepacketizer
end_fragment payload d =
    if has_bit (get_or payload 1 0) fu_header_end_bit
    then record d { m_fu_header = none; m_should_drop_fragmented_unit = false }
    else d

-- A fragment that continues the open unit.
abbrev pub continue_fu : List ℕ → ℕ → RtpDepacketizer → RtpDepacketizer
continue_fu payload sequence_number d =
    end_fragment payload (copy_fragment payload (check_sequence sequence_number d))

abbrev pub add_fragment : List ℕ → ℕ → RtpDepacketizer → RtpDepacketizer
add_fragment payload sequence_number d =
    let starts = has_bit (get_or payload 1 0) fu_header_start_bit in
    if not (in_fragmented_unit d)
    then (if starts
        then start_new_fu payload d
        else record d { m_should_drop_fragmented_unit = true })
    else if starts
    then start_new_fu payload (mark_fu d)
    else continue_fu payload sequence_number d

-- A unit that is a packet of its own.
abbrev pub add_unit : List ℕ → RtpDepacketizer → RtpDepacketizer
add_unit payload d = append_data payload (
    add_start_code
      (record (mark_fu d) { m_fu_header = none; m_should_drop_fragmented_unit = false }))

abbrev pub add_payload : List ℕ → ℕ → RtpDepacketizer → RtpDepacketizer
add_payload payload sequence_number d =
    if nalu_type (get_or payload 0 0) == fu_a_type
    then add_fragment payload sequence_number d
    else add_unit payload d

abbrev pub is_empty : List ℕ → Bool
is_empty [] = true
is_empty (b ∷ frame) = false

-- A packet of a frame with another timestamp begins it.
abbrev pub enter_frame : RtpHeader → RtpDepacketizer → RtpDepacketizer
enter_frame h d = if d.m_current_rtp_timestamp == ntohl h.timestamp then d else record d {
  m_current_rtp_timestamp = ntohl h.timestamp;
  m_current_rtp_pose_timestamp = ntohl h.pose_timestamp_ext;
  m_current_frame_id = ntohl h.frame_id_ext;
}

abbrev pub payload_of : List ℕ → ℕ → List ℕ
payload_of packet size = drop sizeof_rtp_header (take size packet)

unfoldable pub process_packet : List ℕ → ℕ → RtpDepacketizer → RtpDepacketizer
process_packet packet size d =
    let h = rtp_header_at packet in
    let sequence_number = ntohs h.sequence_number in
    if not (d.m_current_rtp_timestamp == ntohl h.timestamp) && not (is_empty d.m_frame_data)
    then finish_frame (mark_fu d)
    else finish_packet sequence_number (is_marker h)
        (add_payload (payload_of packet size) sequence_number (enter_frame h d))
