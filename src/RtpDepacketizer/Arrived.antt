-- ===== src/RtpDepacketizer/Arrived.antt =====
-- The arrival of a packet when no packet is held.
use wireless_vr_bridge.Base.{
  ℕ, zero, suc, ◌+◌, ◌%◌, ◌≡◌, refl, ap, ◌∙◌, Bool, true, false, ◌||◌, List, some, if_both, ◌==◌,
  ==_iff, length, get_or, replicate, u16,
}
use wireless_vr_bridge.Network.{ntohl, ntohs}
use wireless_vr_bridge.Rtp.{is_marker}
use wireless_vr_bridge.Rtp.Bytes.{rtp_header_at}
use wireless_vr_bridge.RtpDepacketizer.{RtpDepacketizer, empty_view, view_at, finish_packet}
use wireless_vr_bridge.RtpDepacketizer.Process.{process_packet, payload_of}
use wireless_vr_bridge.RtpDepacketizer.Receive.{process_held, add_packet}
use wireless_vr_bridge.RtpDepacketizer.Arrival.{begun, IsNext, add_packet-IsNext}
use wireless_vr_bridge.RtpDepacketizer.Kept.{add_payload-keeps}
use wireless_vr_bridge.RtpDepacketizer.Reassembly.{arrived}

-- No packet is held.
abbrev pub IsResting : RtpDepacketizer → Type 0
IsResting d = d.m_packet_views ≡ replicate 128 empty_view

get_or-replicate : (n i : ℕ) → get_or (replicate n empty_view) i empty_view ≡ empty_view
get_or-replicate zero i = refl
get_or-replicate (suc n) zero = refl
get_or-replicate (suc n) (suc i) = get_or-replicate n i

view-IsResting : (d : RtpDepacketizer) (i : ℕ) → IsResting d → view_at d i ≡ empty_view
view-IsResting d i v = ap (λ views. get_or views i empty_view) v ∙ get_or-replicate 128 i

-- What `finish_packet` does then.
abbrev finished : ℕ → Bool → RtpDepacketizer → RtpDepacketizer
finished seq marker d = record d {
  m_last_processed_seq_id = seq;
  m_desired_seq_id = u16 (d.m_desired_seq_id + 1);
  m_packet_view_head = u16 ((d.m_packet_view_head + 1) % 128);
  m_has_frame = marker || d.m_has_frame;
}

finish_packet-IsResting :
    (seq : ℕ) (marker : Bool) (d : RtpDepacketizer)
    → IsResting d
    → finish_packet seq marker d ≡ finished seq marker d
unfolding finish_packet
finish_packet-IsResting seq true d v = rw (view-IsResting d d.m_packet_view_head v) refl
finish_packet-IsResting seq false d v = rw (view-IsResting d d.m_packet_view_head v) refl

same : (a : ℕ) → (a == a) ≡ true
same a = (==_iff a a).1 refl

process_packet-IsResting :
    (packet : List ℕ) (size : ℕ) (d : RtpDepacketizer)
    → ntohl (rtp_header_at packet).timestamp ≡ d.m_current_rtp_timestamp
    → IsResting d
    → process_packet packet size d
      ≡ arrived
          (ntohs (rtp_header_at packet).sequence_number)
          (is_marker (rtp_header_at packet))
          (payload_of packet size)
          d
unfolding process_packet
process_packet-IsResting packet size d e v =
    rw (e, same d.m_current_rtp_timestamp)
      (finish_packet-IsResting (ntohs (rtp_header_at packet).sequence_number)
        (is_marker (rtp_header_at packet)) _
        (add_payload-keeps (λ e. e.m_packet_views) (λ e frame fu_header should_drop. refl)
            (payload_of packet size) (ntohs (rtp_header_at packet).sequence_number) d
          ∙ v))

process_held-IsResting :
    (fuel i : ℕ) (d : RtpDepacketizer) → IsResting d → process_held (suc fuel) i d ≡ some d
unfolding process_held
process_held-IsResting fuel i d v = rw (view-IsResting d i v) refl

-- The state after the packet.
abbrev pub after : List ℕ → RtpDepacketizer → RtpDepacketizer
after packet d =
    arrived (ntohs (rtp_header_at packet).sequence_number) (is_marker (rtp_header_at packet))
      (payload_of packet (length packet)) (begun packet d)

begun-IsResting : (packet : List ℕ) (d : RtpDepacketizer) → IsResting d → IsResting (begun packet d)
begun-IsResting packet d v = if_both IsResting d.m_first_packet _ d (λ first. v) (λ later. v)

-- When the desired packet of the frame at hand arrives and no packet is held, `add_packet` returns in one
-- round: the payload is added to the frame, the next packet is the desired one, a marker makes the frame
-- ready, and still no packet is held.
pub add_packet-IsResting :
    (fuel : ℕ) (packet : List ℕ) (d : RtpDepacketizer)
    → IsNext packet d
    → IsResting d
    → (add_packet (suc fuel) (some packet) (length packet) d ≡ some (after packet d))
      × IsResting (after packet d)
add_packet-IsResting fuel packet d next v =
    let b = begun packet d in
    let rest = begun-IsResting packet d v in
    let rest' =
      add_payload-keeps (λ e. e.m_packet_views) (λ e frame fu_header should_drop. refl)
        (payload_of packet (length packet)) (ntohs (rtp_header_at packet).sequence_number) b
      ∙ rest in
    (
      add_packet-IsNext fuel packet d next
          ∙ ap (λ e. process_held (suc fuel) e.m_packet_view_head e)
              (process_packet-IsResting packet (length packet) b next.current rest)
          ∙ process_held-IsResting fuel _ (after packet d) rest',
      rest',
    )
