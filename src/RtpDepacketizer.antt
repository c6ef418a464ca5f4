-- ===== src/RtpDepacketizer.antt =====
-- common/include/wvb_common/formats/rtp_packetizer.h and common/src/formats/rtp_packetizer.cpp: the
-- state of an RTP depacketizer, with the two fields that the one for H.264 adds, and its jitter buffer.
pub mod Process
pub mod Receive
pub mod Arrival
pub mod Stuck
pub mod Kept
pub mod Ready
pub mod Reassembly
pub mod Arrived
pub mod Wired
pub mod Received
pub mod Delivered
pub mod Wrap
mod Tests
use wireless_vr_bridge.Base.{
  ℕ, zero, suc, ◌+◌, ◌-◌, ◌%◌, Bool, true, false, not, List, [], ◌∷◌, ◌++◌, Option, none, some,
  if◌then◌else◌, ◌==◌, length, get_or, set, replicate, u16,
}

-- `WVB_EARLY_FRAME_TOLERANCE`
abbrev pub early_frame_tolerance : ℕ
early_frame_tolerance = 128

-- `WVB_RTP_MTU`
abbrev pub rtp_mtu : ℕ
rtp_mtu = 1500

pub record RtpPacket : Type 0 where
  pub valid : Bool
  pub packet_data : List ℕ

abbrev pub empty_packet : RtpPacket
empty_packet = record { valid = false; packet_data = [] }

pub record RtpPacketView : Type 0 where
  pub index : ℕ
  pub size : ℕ

abbrev pub empty_view : RtpPacketView
empty_view = record { index = 0; size = 0 }

abbrev pub is_valid : RtpPacketView → Bool
is_valid view = not (view.size == 0)

-- `m_fu_header` is the index in `m_frame_data` of the byte that the pointer was taken of.
pub record RtpDepacketizer : Type 0 where
  pub m_first_packet : Bool
  pub m_has_frame : Bool
  pub m_desired_seq_id : ℕ
  pub m_last_processed_seq_id : ℕ
  pub m_packet_views : List RtpPacketView
  pub m_packet_view_head : ℕ
  pub m_jitter_count : ℕ
  pub m_jitter_buffer : List RtpPacket
  pub m_current_rtp_timestamp : ℕ
  pub m_current_rtp_pose_timestamp : ℕ
  pub m_current_frame_id : ℕ
  pub m_last_packet_received_time : ℕ
  pub m_frame_data : List ℕ
  pub m_fu_header : Option ℕ
  pub m_should_drop_fragmented_unit : Bool

abbrev pub create_h264_rtp_depacketizer : RtpDepacketizer
create_h264_rtp_depacketizer = record {
  m_first_packet = true;
  m_has_frame = false;
  m_desired_seq_id = 0;
  m_last_processed_seq_id = 0;
  m_packet_views = replicate early_frame_tolerance empty_view;
  m_packet_view_head = 0;
  m_jitter_count = 0;
  m_jitter_buffer = [];
  m_current_rtp_timestamp = 0;
  m_current_rtp_pose_timestamp = 0;
  m_current_frame_id = 0;
  m_last_packet_received_time = 0;
  m_frame_data = [];
  m_fu_header = none;
  m_should_drop_fragmented_unit = false;
}

abbrev pub view_at : RtpDepacketizer → ℕ → RtpPacketView
view_at d i = get_or d.m_packet_views i empty_view

abbrev pub packet_at : RtpDepacketizer → ℕ → RtpPacket
packet_at d i = get_or d.m_jitter_buffer i empty_packet

abbrev pub first_free : List RtpPacket → ℕ → Option ℕ
first_free [] i = none
first_free (packet ∷ packets) i = if packet.valid then first_free packets (i + 1) else some i

-- The slot `i` is taken for a packet.
abbrev pub take_slot : Option ℕ → RtpDepacketizer → Option ℕ × RtpDepacketizer
take_slot none d = (none, d)
take_slot (some i) d = (
  some i,
  record d {
    m_jitter_buffer = set d.m_jitter_buffer i (record (packet_at d i) { valid = true });
    m_jitter_count = u16 (d.m_jitter_count + 1);
  },
)

unfoldable pub alloc_jitter_slot : RtpDepacketizer → Option ℕ × RtpDepacketizer
alloc_jitter_slot d =
    if d.m_jitter_count == length d.m_jitter_buffer
    then take_slot (some d.m_jitter_count)
        (record d { m_jitter_buffer = d.m_jitter_buffer ++ replicate 5 empty_packet })
    else take_slot (first_free d.m_jitter_buffer 0) d

-- The middle of `finish_packet`: the slot behind a view is free again, and the view empty.
abbrev pub release_view : RtpPacketView → RtpDepacketizer → RtpDepacketizer
release_view view d =
    let packet = packet_at d view.index in
    let freed =
      if packet.valid
      then record d {
        m_jitter_buffer = set d.m_jitter_buffer view.index (record packet { valid = false });
        m_jitter_count = u16 (d.m_jitter_count + 0xFFFF);
      }
      else d in
    if is_valid view
    then record freed { m_packet_views = set d.m_packet_views d.m_packet_view_head empty_view }
    else d

-- `finish_frame`
abbrev pub finish_frame : RtpDepacketizer → RtpDepacketizer
finish_frame d = record d { m_has_frame = true }

unfoldable pub finish_packet : ℕ → Bool → RtpDepacketizer → RtpDepacketizer
finish_packet sequence_number is_marker d =
    let released = release_view (view_at d d.m_packet_view_head) (record d {
      m_last_processed_seq_id = sequence_number;
      m_desired_seq_id = u16 (d.m_desired_seq_id + 1);
    }) in
    let moved = record released {
      m_packet_view_head = u16 ((d.m_packet_view_head + 1) % early_frame_tolerance);
    } in
    if is_marker then finish_frame moved else moved

-- `reset_frame`
abbrev pub reset_frame : RtpDepacketizer → RtpDepacketizer
reset_frame d = record d { m_fu_header = none; m_should_drop_fragmented_unit = false }
