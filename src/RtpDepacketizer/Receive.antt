-- ===== src/RtpDepacketizer/Receive.antt =====
-- common/src/formats/rtp_packetizer.cpp: `add_packet` and `receive_frame_data`, with the H.264 packets.
use wireless_vr_bridge.Base.{
  ℕ, zero, suc, ◌+◌, ◌%◌, false, not, List, [], Option, none, some, if◌then◌else◌, ltb, leb, ◌==◌,
  ◌||◌, length, set, take, u16,
}
use wireless_vr_bridge.Network.{ntohl, ntohs}
use wireless_vr_bridge.Rtp.{
  rtp_first_byte_base, sizeof_rtp_header, compare_rtp_seq, compare_rtp_timestamps, rtp_seq_distance,
}
use wireless_vr_bridge.Rtp.Bytes.{rtp_header_at}
use wireless_vr_bridge.RtpDepacketizer.{
  RtpDepacketizer, early_frame_tolerance, rtp_mtu, is_valid, view_at, packet_at, alloc_jitter_slot,
  reset_frame,
}
use wireless_vr_bridge.RtpDepacketizer.Process.{process_packet}

-- `while (head.is_valid())`, where `head` is a reference to the view `i`: the assignment at the end of a
-- round writes the view of the desired packet into it. `none` means that the fuel ran out.
unfoldable pub process_held : ℕ → ℕ → RtpDepacketizer → Option RtpDepacketizer
process_held zero i d = none
process_held (suc fuel) i d =
    let view = view_at d i in
    let processed = process_packet (packet_at d view.index).packet_data view.size d in
    let next = process_held fuel i (record processed {
      m_packet_views =
          set processed.m_packet_views i (view_at processed processed.m_packet_view_head);
    }) in
    if is_valid view then next else some d

-- `head` in the loop over the distance: if the desired packet is not there, it is dropped.
abbrev pub drop_desired : RtpDepacketizer → RtpDepacketizer
drop_desired d = if is_valid (view_at d d.m_packet_view_head) then d else record d {
  m_desired_seq_id = u16 (d.m_desired_seq_id + 1);
  m_packet_view_head = u16 ((d.m_packet_view_head + 1) % early_frame_tolerance);
}

abbrev pub after_held :
    (RtpDepacketizer → Option RtpDepacketizer) → Option RtpDepacketizer → Option RtpDepacketizer
after_held next none = none
after_held next (some held) = next held

-- `while (distance >= WVB_EARLY_FRAME_TOLERANCE)`
unfoldable pub close_distance : ℕ → ℕ → RtpDepacketizer → Option RtpDepacketizer
close_distance zero seq d = none
close_distance (suc fuel) seq d =
    let next =
      after_held (close_distance fuel seq)
        (process_held (suc fuel) d.m_packet_view_head (drop_desired d)) in
    if leb early_frame_tolerance (rtp_seq_distance d.m_desired_seq_id seq) then next else some d

-- The slot gets the packet, and the view in front of which `distance` packets are missing the slot.
abbrev pub store_packet : List ℕ → ℕ → ℕ → Option ℕ → RtpDepacketizer → RtpDepacketizer
store_packet packet size distance none d = d
store_packet packet size distance (some i) d = record d {
  m_jitter_buffer = set d.m_jitter_buffer i (record (packet_at d i) { packet_data = packet });
  m_packet_views =
      set d.m_packet_views ((d.m_packet_view_head + distance) % early_frame_tolerance)
        (record { index = i; size = size });
}

-- The packet is kept for later.
abbrev pub keep_packet : List ℕ → ℕ → ℕ → RtpDepacketizer → RtpDepacketizer
keep_packet packet size distance d =
    store_packet packet size distance (alloc_jitter_slot d).0 (alloc_jitter_slot d).1

-- The end of `add_packet`, once the packet is near enough.
unfoldable pub take_packet : ℕ → List ℕ → ℕ → ℕ → RtpDepacketizer → Option RtpDepacketizer
take_packet fuel packet size seq d =
    let processed = process_packet packet size d in
    if rtp_seq_distance d.m_desired_seq_id seq == 0
    then process_held fuel processed.m_packet_view_head processed
    else some (keep_packet packet size (rtp_seq_distance d.m_desired_seq_id seq) d)

-- A frame that is ready was used by now.
abbrev pub forget_frame : RtpDepacketizer → RtpDepacketizer
forget_frame d = if d.m_has_frame then record (reset_frame d) { m_frame_data = [] } else d

abbrev pub begin_at : ℕ → ℕ → RtpDepacketizer → RtpDepacketizer
begin_at seq timestamp d =
    if d.m_first_packet
    then record d {
      m_desired_seq_id = seq;
      m_current_rtp_timestamp = timestamp;
      m_first_packet = false;
    }
    else d

-- A late packet is dropped, and room is made for one that is too far ahead.
unfoldable pub accept_packet : ℕ → List ℕ → ℕ → ℕ → ℕ → RtpDepacketizer → Option RtpDepacketizer
accept_packet fuel packet size seq timestamp d =
    if compare_rtp_seq seq d.m_desired_seq_id
      || compare_rtp_timestamps timestamp d.m_current_rtp_timestamp
    then some d
    else after_held (take_packet fuel packet size seq) (close_distance fuel seq d)

unfoldable pub add_valid_packet : ℕ → List ℕ → ℕ → RtpDepacketizer → Option RtpDepacketizer
add_valid_packet fuel packet size d =
    let h = rtp_header_at packet in
    let timestamp = ntohl h.timestamp in
    let seq = ntohs h.sequence_number in
    accept_packet fuel packet size seq timestamp (begin_at seq timestamp (forget_frame d))

unfoldable pub add_packet : ℕ → Option (List ℕ) → ℕ → RtpDepacketizer → Option RtpDepacketizer
add_packet fuel none packet_size d = some d
add_packet fuel (some bytes) packet_size d =
    let packet = take packet_size bytes in
    if ltb packet_size (sizeof_rtp_header + 2)
      || leb rtp_mtu packet_size
      || not ((rtp_header_at packet).first_byte == rtp_first_byte_base)
    then some d
    else add_valid_packet fuel packet packet_size d

-- The out parameters of `receive_frame_data` that it writes.
pub record ReceivedFrame : Type 0 where
  pub frame_data : List ℕ
  pub frame_size : ℕ
  pub rtp_timestamp : ℕ
  pub rtp_pose_timestamp : ℕ
  pub last_packet_received_time : ℕ

unfoldable pub receive_frame_data : RtpDepacketizer → Option ReceivedFrame
receive_frame_data d =
    if not d.m_has_frame
    then none
    else some (record {
      frame_data = d.m_frame_data;
      frame_size = length d.m_frame_data;
      rtp_timestamp = d.m_current_rtp_timestamp;
      rtp_pose_timestamp = d.m_current_rtp_pose_timestamp;
      last_packet_received_time = d.m_last_packet_received_time;
    })
