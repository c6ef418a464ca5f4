-- ===== src/RtpDepacketizer/Stuck.antt =====
-- Where `IRtpDepacketizer::add_packet` does not return: a packet of the next frame is held.
use wireless_vr_bridge.Base.{
  ℕ, zero, suc, ◌≡◌, refl, ◌∙◌, true, false, List, [], ◌∷◌, Option, none, some, length, ◌==◌, set,
  set-get_or,
}
use wireless_vr_bridge.Network.{ntohl}
use wireless_vr_bridge.Rtp.Bytes.{rtp_header_at}
use wireless_vr_bridge.RtpDepacketizer.{
  RtpDepacketizer, is_valid, view_at, packet_at, finish_frame, empty_view,
}
use wireless_vr_bridge.RtpDepacketizer.Process.{process_packet, mark_fu, mark_incorrect, is_empty}
use wireless_vr_bridge.RtpDepacketizer.Receive.{process_held, add_packet}
use wireless_vr_bridge.RtpDepacketizer.Arrival.{begun, IsNext, add_packet-IsNext}

-- The packet that is held for the desired sequence number.
abbrev pub held_packet : RtpDepacketizer → List ℕ
held_packet d = (packet_at d (view_at d d.m_packet_view_head).index).packet_data

-- The desired packet is held, it is of another frame, and the frame has begun.
pub record IsBlocked (d : RtpDepacketizer) : Type 0 where
  pub held : is_valid (view_at d d.m_packet_view_head) ≡ true
  pub other_frame :
      (d.m_current_rtp_timestamp == ntohl (rtp_header_at (held_packet d)).timestamp) ≡ false
  pub begun : is_empty d.m_frame_data ≡ false

is_empty-set : (frame : List ℕ) (i b : ℕ) → is_empty (set frame i b) ≡ is_empty frame
is_empty-set [] i b = refl
is_empty-set (x ∷ frame) zero b = refl
is_empty-set (x ∷ frame) (suc i) b = refl

is_empty-mark_incorrect :
    (o : Option ℕ) (frame : List ℕ) → is_empty (mark_incorrect o frame) ≡ is_empty frame
is_empty-mark_incorrect none frame = refl
is_empty-mark_incorrect (some i) frame = is_empty-set frame i _

process_blocked :
    (d : RtpDepacketizer) (size : ℕ)
    → IsBlocked d
    → process_packet (held_packet d) size d ≡ finish_frame (mark_fu d)
unfolding process_packet
process_blocked d size v = rw (v.other_frame, v.begun) refl

-- The state after a round: the view is written over with itself.
abbrev round : RtpDepacketizer → RtpDepacketizer
round d = record (finish_frame (mark_fu d)) {
  m_packet_views = set d.m_packet_views d.m_packet_view_head (view_at d d.m_packet_view_head);
}

round-IsBlocked : (d : RtpDepacketizer) → IsBlocked d → IsBlocked (round d)
round-IsBlocked d v =
    let same = set-get_or d.m_packet_views d.m_packet_view_head empty_view in
    record {
      held = rw same v.held;
      other_frame = rw same v.other_frame;
      begun = is_empty-mark_incorrect d.m_fu_header d.m_frame_data ∙ v.begun;
    }

process_held-IsBlocked :
    (fuel : ℕ) (d : RtpDepacketizer) → IsBlocked d → process_held fuel d.m_packet_view_head d ≡ none
unfolding process_held
process_held-IsBlocked zero d v = refl
process_held-IsBlocked (suc fuel) d v =
    rw (v.held, process_blocked d (view_at d d.m_packet_view_head).size v)
      (process_held-IsBlocked fuel (round d) (round-IsBlocked d v))

-- When the packet that is desired arrives, and after it the packet that follows is held already and is of
-- another frame, while the frame at hand has data, `add_packet` does not return, however long it runs.
pub add_packet-IsBlocked :
    (fuel : ℕ) (packet : List ℕ) (d : RtpDepacketizer)
    → IsNext packet d
    → IsBlocked (process_packet packet (length packet) (begun packet d))
    → add_packet (suc fuel) (some packet) (length packet) d ≡ none
add_packet-IsBlocked fuel packet d next v =
    add_packet-IsNext fuel packet d next
    ∙ process_held-IsBlocked (suc fuel) (process_packet packet (length packet) (begun packet d)) v
