-- ===== src/H264Packetizer.antt =====
-- common/src/formats/h264/h264_rtp_packetizer.cpp: the RTP packetizer for H.264. A frame is a sequence of
-- NAL units, each behind a start code; a unit that is too long for a packet is sent as fragments (FU-A).
pub mod Units
pub mod Next
pub mod Payloads
pub mod Frames
pub mod Sent
pub mod Bounded
pub mod Ends
pub mod Lost
mod Tests
use wireless_vr_bridge.Base.{
  ℕ, zero, suc, ◌+◌, ◌-◌, Bool, true, false, not, ◌&&◌, ◌||◌, List, [], ◌∷◌, ◌++◌, Option, none,
  some, if◌then◌else◌, ltb, ◌==◌, length, take, drop, u16, ◌&&&◌, ◌|||◌,
}
use wireless_vr_bridge.Network.{htonl, htons}
use wireless_vr_bridge.Rtp.{
  RtpHeader, rtp_first_byte_base, sizeof_rtp_header, h264, set_payload, set_marker,
}
use wireless_vr_bridge.Rtp.Bytes.{rtp_header_bytes}
use wireless_vr_bridge.Packetizer.{Out, no_packet, IPacketizer}

-- `WVB_RTP_MTU - RTP_MARGIN`: how much of a unit one packet takes.
abbrev pub max_nal_size : ℕ
max_nal_size = 1400

abbrev pub nalu_type : ℕ → ℕ
nalu_type nalu_header = nalu_header &&& 0x1F

abbrev pub fu_indicator : ℕ → ℕ
fu_indicator nalu_header = nalu_header &&& 0b11100000 ||| 28

abbrev pub fu_header_start_bit : ℕ
fu_header_start_bit = 0b10000000

abbrev pub fu_header_end_bit : ℕ
fu_header_end_bit = 0b01000000

-- `header` is the front of `m_rtp_data`, `m_h264_head` the bytes from the head to the tail, `none` where
-- the pointers are null.
pub record H264RtpPacketizer : Type 0 where
  pub header : RtpHeader
  pub m_sequence_number : ℕ
  pub m_h264_head : Option (List ℕ)
  pub m_last : Bool
  pub m_current_nalu_header : ℕ

-- The constructor; the first sequence number is random.
unfoldable pub create_h264_rtp_packetizer : ℕ → ℕ → H264RtpPacketizer
create_h264_rtp_packetizer ssrc sequence_number = record {
  header = set_payload h264 false (record {
    first_byte = rtp_first_byte_base;
    profile_byte = 0;
    sequence_number = htons sequence_number;
    timestamp = 0;
    ssrc = htonl ssrc;
    pose_timestamp_ext = 0;
    frame_id_ext = 0;
  });
  m_sequence_number = sequence_number;
  m_h264_head = none;
  m_last = false;
  m_current_nalu_header = 0;
}

-- The bytes from the pointer to the one `size` bytes behind it.
abbrev pub head_to_tail : ℕ → Option (List ℕ) → Option (List ℕ)
head_to_tail size none = none
head_to_tail size (some bytes) = some (take size bytes)

-- The parameters as this class names them: `last` stands before `save_frame`, which the interface has
-- the other way round.
unfoldable pub add_frame_data :
    Option (List ℕ) → ℕ → ℕ → Bool → ℕ → ℕ → Bool → Bool → H264RtpPacketizer → H264RtpPacketizer
add_frame_data h264_data h264_size frame_id end_of_stream rtp_timestamp rtp_pose_timestamp last
      save_frame p =
    record p {
      m_h264_head = head_to_tail h264_size h264_data;
      m_current_nalu_header = 0;
      m_last = last;
      header = record p.header {
        timestamp = htonl rtp_timestamp;
        pose_timestamp_ext = htonl rtp_pose_timestamp;
        frame_id_ext = htonl frame_id;
      };
    }

-- The variables of the loop that looks for the end of a unit: `current` is what stands from the pointer
-- on, and so is `nal_start`, which is null until a unit has begun.
pub record Scan : Type 0 where
  pub is_nalu_start : Bool
  pub nal_size : ℕ
  pub current : List ℕ
  pub nal_start : Option (List ℕ)
  pub nalu_header : ℕ

abbrev pub fourth_is_one : List ℕ → Bool
fourth_is_one [] = false
fourth_is_one (d ∷ rest) = d == 1

-- The length of the start code at the front, 0 if there is none.
abbrev pub start_code : List ℕ → ℕ
start_code [] = 0
start_code (a ∷ []) = 0
start_code (a ∷ b ∷ []) = 0
start_code (a ∷ b ∷ c ∷ rest) =
    if (a == 0) && (b == 0)
    then (if c == 1 then 3 else if (c == 0) && fourth_is_one rest then 4 else 0)
    else 0

pub data Step : Type 0 where
  break_at : Scan → Step
  continue_at : Scan → Step

abbrev pub at_start_code : ℕ → Scan → Step
at_start_code size s = elim s.nal_start [
  | some start ↦ break_at (record s { is_nalu_start = true })
  | none ↦ continue_at (record s { is_nalu_start = true; current = drop size s.current })
]

-- A byte that begins no start code; the first after one is the header of a unit.
abbrev pub at_byte : ℕ → List ℕ → Scan → Scan
at_byte b rest s =
    if s.is_nalu_start
    then record s {
      nalu_header = b;
      nal_start = some (b ∷ rest);
      is_nalu_start = false;
      current = rest;
      nal_size = s.nal_size + 1;
    }
    else record s { current = rest; nal_size = s.nal_size + 1 }

-- The body of the loop, at what stands from `current` on.
abbrev pub scan_step : List ℕ → Scan → Step
scan_step [] s = break_at s
scan_step (b ∷ rest) s =
    if start_code (b ∷ rest) == 0
    then continue_at (at_byte b rest s)
    else at_start_code (start_code (b ∷ rest)) s

abbrev pub after_step : (Scan → Scan) → Step → Scan
after_step next (break_at s) = s
after_step next (continue_at s) = next s

-- The loop. A round that continues moves `current` forward, so one round more than its length is enough.
unfoldable pub scan : ℕ → Scan → Scan
scan zero s = s
scan (suc fuel) s =
    let next = scan fuel in
    if ltb s.nal_size max_nal_size then after_step next (scan_step s.current s) else s

abbrev pub scan_from : ℕ → List ℕ → Scan
scan_from nalu_header head = scan (suc (length head)) (record {
  is_nalu_start = false;
  nal_size = 0;
  current = head;
  nal_start = if nalu_header == 0 then none else some head;
  nalu_header = nalu_header;
})

abbrev pub is_at_end : List ℕ → Bool
is_at_end [] = true
is_at_end (b ∷ rest) = false

-- The payload for a unit from `nal_start` on, and whether its end is reached with it.
abbrev pub payload_of : Bool → Bool → Scan → List ℕ → List ℕ
payload_of in_fragmented_nal end_of_nal_reached s nal_start =
    if not in_fragmented_nal && end_of_nal_reached
    then take s.nal_size nal_start
    else if not in_fragmented_nal
    then fu_indicator s.nalu_header
      ∷ (nalu_type s.nalu_header ||| fu_header_start_bit)
      ∷ take (s.nal_size - 1) (drop 1 nal_start)
    else fu_indicator s.nalu_header
      ∷ (if end_of_nal_reached
          then nalu_type s.nalu_header ||| fu_header_end_bit
          else nalu_type s.nalu_header)
      ∷ take s.nal_size nal_start

abbrev pub payload_size_of : Bool → Bool → Scan → ℕ
payload_size_of in_fragmented_nal end_of_nal_reached s =
    if not in_fragmented_nal && end_of_nal_reached
    then s.nal_size
    else if not in_fragmented_nal
    then 1 + s.nal_size
    else 2 + s.nal_size

-- The end of `create_next_packet`: the header is filled in, and the head moves on.
abbrev pub finalize : Bool → Scan → List ℕ → H264RtpPacketizer → Bool × Out × H264RtpPacketizer
finalize in_fragmented_nal s nal_start p =
    let end_of_nal_reached = s.is_nalu_start || is_at_end s.current in
    let header =
      set_marker (is_at_end s.current && p.m_last)
        (record p.header { sequence_number = htons p.m_sequence_number }) in
    (
      not (is_at_end s.current),
      record {
        packet_data = some (
            rtp_header_bytes header ++ payload_of in_fragmented_nal end_of_nal_reached s nal_start);
        size = sizeof_rtp_header + payload_size_of in_fragmented_nal end_of_nal_reached s;
      },
      record p {
        header = header;
        m_sequence_number = u16 (p.m_sequence_number + 1);
        m_h264_head = if is_at_end s.current then none else some s.current;
        m_current_nalu_header = if end_of_nal_reached then 0 else s.nalu_header;
      },
    )

abbrev pub packetize :
    Bool → Scan → Option (List ℕ) → H264RtpPacketizer → Bool × Out × H264RtpPacketizer
packetize in_fragmented_nal s none p =
    (false, no_packet, record p { m_current_nalu_header = s.nalu_header })
packetize in_fragmented_nal s (some nal_start) p =
    if s.nal_size == 0
    then (false, no_packet, record p { m_current_nalu_header = s.nalu_header })
    else finalize in_fragmented_nal s nal_start p

abbrev pub next_packet_from :
    Option (List ℕ) → H264RtpPacketizer → Out → Bool × Out × H264RtpPacketizer
next_packet_from none p out = (false, record out { size = 0 }, p)
next_packet_from (some head) p out =
    let s = scan_from p.m_current_nalu_header head in
    packetize (not (p.m_current_nalu_header == 0)) s s.nal_start p

-- Bytes that the code would copy from behind the end of the data are missing in the packet here.
unfoldable pub create_next_packet : H264RtpPacketizer → Out → Bool × Out × H264RtpPacketizer
create_next_packet p out = next_packet_from p.m_h264_head p out

-- The class behind the interface, whose arguments come in the interface's order.
abbrev pub h264_packetizer : IPacketizer H264RtpPacketizer
h264_packetizer = record {
  add_frame_data = λ f p.
      add_frame_data f.bytes f.size f.frame_id f.end_of_stream f.rtp_sampling_timestamp
        f.rtp_pose_timestamp f.save_frame f.last_of_frame p;
  create_next_packet = create_next_packet;
}
