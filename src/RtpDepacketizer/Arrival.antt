-- ===== src/RtpDepacketizer/Arrival.antt =====
-- A packet that arrives when it is the desired one.
use wireless_vr_bridge.Base.{
  ℕ, suc, ◌≤◌, ◌<◌, ◌≡◌, refl, ap, if◌then◌else◌, [], ◌∙◌, arith, false, List, some, leb, length,
  take-all, leb→ltb_false,
}
use wireless_vr_bridge.Network.{ntohl, ntohs}
use wireless_vr_bridge.Rtp.{rtp_seq_distance, compare_rtp_seq, compare_rtp_timestamps}
use wireless_vr_bridge.Rtp.Bytes.{rtp_header_at}
use wireless_vr_bridge.RtpDepacketizer.{RtpDepacketizer, reset_frame}
use wireless_vr_bridge.RtpDepacketizer.Process.{process_packet}
use wireless_vr_bridge.RtpDepacketizer.Receive.{
  process_held, take_packet, close_distance, accept_packet, add_valid_packet, forget_frame,
  begin_at, add_packet,
}

-- The state once the first packet of all is seen.
abbrev pub begun : List ℕ → RtpDepacketizer → RtpDepacketizer
begun packet d =
    begin_at (ntohs (rtp_header_at packet).sequence_number) (ntohl (rtp_header_at packet).timestamp)
      d

-- A packet of the right form that is the desired one, and of the frame at hand, with no frame ready.
pub record IsNext (packet : List ℕ) (d : RtpDepacketizer) : Type 0 where
  pub sized : 22 ≤ length packet
  pub fits : length packet < 1500
  pub versioned : (rtp_header_at packet).first_byte ≡ 0b10000000
  pub no_frame : d.m_has_frame ≡ false
  pub desired : ntohs (rtp_header_at packet).sequence_number ≡ (begun packet d).m_desired_seq_id
  pub current : ntohl (rtp_header_at packet).timestamp ≡ (begun packet d).m_current_rtp_timestamp

same_seq : (a : ℕ) → compare_rtp_seq a a ≡ false
unfolding compare_rtp_seq
same_seq a = ground arith

same_timestamp : (a : ℕ) → compare_rtp_timestamps a a ≡ false
unfolding compare_rtp_timestamps
same_timestamp a = ground arith

no_distance : (a : ℕ) → rtp_seq_distance a a ≡ 0
unfolding rtp_seq_distance
no_distance a = ground arith

too_long : (n : ℕ) → n < 1500 → leb 1500 n ≡ false
too_long n l = ground arith

pub take_packet-desired :
    (fuel : ℕ) (packet : List ℕ) (size seq : ℕ) (d : RtpDepacketizer)
    → seq ≡ d.m_desired_seq_id
    → take_packet fuel packet size seq d
      ≡ process_held fuel
          (process_packet packet size d).m_packet_view_head
          (process_packet packet size d)
unfolding take_packet
take_packet-desired fuel packet size seq d e = rw (e, no_distance d.m_desired_seq_id) refl

accept_packet-desired :
    (fuel : ℕ) (packet : List ℕ) (size seq timestamp : ℕ) (d : RtpDepacketizer)
    → seq ≡ d.m_desired_seq_id
    → timestamp ≡ d.m_current_rtp_timestamp
    → accept_packet (suc fuel) packet size seq timestamp d
      ≡ process_held
          (suc fuel)
          (process_packet packet size d).m_packet_view_head
          (process_packet packet size d)
unfolding accept_packet close_distance
accept_packet-desired fuel packet size seq timestamp d e e' =
    rw
      (
        e,
        e',
        same_seq d.m_desired_seq_id,
        same_timestamp d.m_current_rtp_timestamp,
        no_distance d.m_desired_seq_id,
      )
      (take_packet-desired (suc fuel) packet size d.m_desired_seq_id d refl)

forget_none : (d : RtpDepacketizer) → d.m_has_frame ≡ false → forget_frame d ≡ d
forget_none d e = ap (λ b. if b then record (reset_frame d) { m_frame_data = [] } else d) e

-- The packet is processed, and then those that are held behind it.
pub add_packet-IsNext :
    (fuel : ℕ) (packet : List ℕ) (d : RtpDepacketizer)
    → IsNext packet d
    → add_packet (suc fuel) (some packet) (length packet) d
      ≡ process_held
          (suc fuel)
          (process_packet packet (length packet) (begun packet d)).m_packet_view_head
          (process_packet packet (length packet) (begun packet d))
unfolding add_packet add_valid_packet
add_packet-IsNext fuel packet d v =
    rw
      (
        take-all (length packet) packet (omega arith),
        leb→ltb_false (length packet) 22 v.sized,
        too_long (length packet) v.fits,
        v.versioned,
      )
      (ap
          (λ b.
            accept_packet (suc fuel) packet (length packet)
              (ntohs (rtp_header_at packet).sequence_number)
              (ntohl (rtp_header_at packet).timestamp) (begun packet b))
          (forget_none d v.no_frame)
        ∙ accept_packet-desired fuel packet (length packet) _ _ (begun packet d) v.desired
            v.current)
