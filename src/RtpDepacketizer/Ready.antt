-- ===== src/RtpDepacketizer/Ready.antt =====
-- `m_has_frame`: `finish_frame` sets it, and nothing takes it back.
use wireless_vr_bridge.Base.{
  ℕ, zero, suc, ◌≡◌, refl, ◌∙◌, Bool, true, not, List, Option, none, some, if_both, ◌==◌, ◌||◌,
  ◌&&◌, ltb, leb, length, take,
}
use wireless_vr_bridge.Network.{ntohl, ntohs}
use wireless_vr_bridge.Rtp.{is_marker, compare_rtp_seq, compare_rtp_timestamps, rtp_seq_distance}
use wireless_vr_bridge.Rtp.Bytes.{rtp_header_at}
use wireless_vr_bridge.RtpDepacketizer.{
  RtpDepacketizer, is_valid, finish_packet, alloc_jitter_slot, take_slot, first_free, view_at,
  packet_at,
}
use wireless_vr_bridge.RtpDepacketizer.Process.{
  enter_frame, payload_of, process_packet, add_payload, is_empty,
}
use wireless_vr_bridge.RtpDepacketizer.Kept.{add_payload-keeps}
use wireless_vr_bridge.RtpDepacketizer.Receive.{
  store_packet, process_held, close_distance, after_held, take_packet, accept_packet,
  add_valid_packet, add_packet, begin_at, forget_frame,
}

abbrev pub IsReady : RtpDepacketizer → Type 0
IsReady d = d.m_has_frame ≡ true

finish_packet-IsReady :
    (sequence_number : ℕ) (marker : Bool) (d : RtpDepacketizer)
    → IsReady d
    → IsReady (finish_packet sequence_number marker d)
unfolding finish_packet
finish_packet-IsReady sequence_number marker d v =
    if_both IsReady marker _ _ (λ last. refl)
      (λ more.
        if_both IsReady (is_valid (view_at d d.m_packet_view_head)) _ _
          (λ held.
            if_both IsReady (packet_at d (view_at d d.m_packet_view_head).index).valid _ _
              (λ valid. v) (λ free. v))
          (λ none_held. v))

process_packet-IsReady :
    (packet : List ℕ) (size : ℕ) (d : RtpDepacketizer)
    → IsReady d
    → IsReady (process_packet packet size d)
unfolding process_packet
process_packet-IsReady packet size d v =
    if_both IsReady
      (not (d.m_current_rtp_timestamp == ntohl (rtp_header_at packet).timestamp)
        && not (is_empty d.m_frame_data))
      _ _ (λ other. refl)
      (λ same.
        let h = rtp_header_at packet in
        let entered =
          if_both IsReady (d.m_current_rtp_timestamp == ntohl h.timestamp) d _ (λ known. v)
            (λ new. v) in
        finish_packet-IsReady (ntohs h.sequence_number) (is_marker h)
          (add_payload (payload_of packet size) (ntohs h.sequence_number) (enter_frame h d))
          (add_payload-keeps (λ e. e.m_has_frame) (λ e frame fu_header should_drop. refl)
              (payload_of packet size) (ntohs h.sequence_number) (enter_frame h d)
            ∙ entered))

-- If it ends, a frame is ready.
abbrev pub EndsReady : Option RtpDepacketizer → Type 0
EndsReady none = Unit
EndsReady (some d) = IsReady d

process_held-EndsReady :
    (fuel i : ℕ) (d : RtpDepacketizer) → IsReady d → EndsReady (process_held fuel i d)
unfolding process_held
process_held-EndsReady zero i d v = _
process_held-EndsReady (suc fuel) i d v =
    if_both EndsReady (is_valid (view_at d i)) _ _
      (λ held. process_held-EndsReady fuel i _ (process_packet-IsReady _ _ d v)) (λ none_held. v)

after_held-EndsReady :
    (next : RtpDepacketizer → Option RtpDepacketizer) (o : Option RtpDepacketizer)
    → ((d : RtpDepacketizer) → IsReady d → EndsReady (next d))
    → EndsReady o
    → EndsReady (after_held next o)
after_held-EndsReady next none keeps v = _
after_held-EndsReady next (some d) keeps v = keeps d v

close_distance-EndsReady :
    (fuel seq : ℕ) (d : RtpDepacketizer) → IsReady d → EndsReady (close_distance fuel seq d)
unfolding close_distance
close_distance-EndsReady zero seq d v = _
close_distance-EndsReady (suc fuel) seq d v =
    if_both EndsReady (leb 128 (rtp_seq_distance d.m_desired_seq_id seq)) _ _
      (λ far. after_held-EndsReady (close_distance fuel seq) _ (close_distance-EndsReady fuel seq) (
        process_held-EndsReady (suc fuel) d.m_packet_view_head _ (
          if_both IsReady (is_valid (view_at d d.m_packet_view_head)) d _ (λ held. v) (λ lost. v))))
      (λ near. v)

take_slot-IsReady :
    (slot : Option ℕ) (d : RtpDepacketizer) → IsReady d → IsReady (take_slot slot d).1
take_slot-IsReady none d v = v
take_slot-IsReady (some i) d v = v

alloc_jitter_slot-IsReady : (d : RtpDepacketizer) → IsReady d → IsReady (alloc_jitter_slot d).1
unfolding alloc_jitter_slot
alloc_jitter_slot-IsReady d v =
    if_both (λ (r : Option ℕ × RtpDepacketizer). IsReady r.1)
      (d.m_jitter_count == length d.m_jitter_buffer) _ _ (λ full. v)
      (λ room. take_slot-IsReady (first_free d.m_jitter_buffer 0) d v)

store_packet-IsReady :
    (packet : List ℕ) (size distance : ℕ) (slot : Option ℕ) (d : RtpDepacketizer)
    → IsReady d
    → IsReady (store_packet packet size distance slot d)
store_packet-IsReady packet size distance none d v = v
store_packet-IsReady packet size distance (some i) d v = v

take_packet-EndsReady :
    (fuel : ℕ) (packet : List ℕ) (size seq : ℕ) (d : RtpDepacketizer)
    → IsReady d
    → EndsReady (take_packet fuel packet size seq d)
unfolding take_packet
take_packet-EndsReady fuel packet size seq d v =
    if_both EndsReady (rtp_seq_distance d.m_desired_seq_id seq == 0) _ _
      (λ desired.
        process_held-EndsReady fuel _ (process_packet packet size d)
          (process_packet-IsReady packet size d v))
      (λ early.
        store_packet-IsReady packet size _ (alloc_jitter_slot d).0 (alloc_jitter_slot d).1
          (alloc_jitter_slot-IsReady d v))

accept_packet-EndsReady :
    (fuel : ℕ) (packet : List ℕ) (size seq timestamp : ℕ) (d : RtpDepacketizer)
    → IsReady d
    → EndsReady (accept_packet fuel packet size seq timestamp d)
unfolding accept_packet
accept_packet-EndsReady fuel packet size seq timestamp d v =
    if_both EndsReady
      (compare_rtp_seq seq d.m_desired_seq_id
        || compare_rtp_timestamps timestamp d.m_current_rtp_timestamp)
      _ _ (λ late. v)
      (λ in_time.
        after_held-EndsReady (take_packet fuel packet size seq) (close_distance fuel seq d)
          (take_packet-EndsReady fuel packet size seq) (close_distance-EndsReady fuel seq d v))

begin_at-IsReady :
    (seq timestamp : ℕ) (d : RtpDepacketizer)
    → IsReady d
    → IsReady (begin_at seq timestamp (forget_frame d))
begin_at-IsReady seq timestamp d v =
    let forgotten = if_both IsReady d.m_has_frame _ d (λ ready. v) (λ none_ready. v) in
    if_both IsReady (forget_frame d).m_first_packet _ _ (λ first. forgotten) (λ later. forgotten)

-- Once a frame is ready, every state that `add_packet` returns has a frame that is ready, whatever the
-- packet is: `receive_frame_data` gives a frame after every packet from then on.
pub add_packet-EndsReady :
    (fuel : ℕ) (packet : Option (List ℕ)) (size : ℕ) (d : RtpDepacketizer)
    → IsReady d
    → EndsReady (add_packet fuel packet size d)
unfolding add_packet add_valid_packet
add_packet-EndsReady fuel none size d v = v
add_packet-EndsReady fuel (some bytes) size d v =
    if_both EndsReady
      (ltb size 22
        || leb 1500 size
        || not ((rtp_header_at (take size bytes)).first_byte == 0b10000000))
      _ _ (λ invalid. v)
      (λ valid.
        accept_packet-EndsReady fuel (take size bytes) size _ _ _ (begin_at-IsReady _ _ d v))
