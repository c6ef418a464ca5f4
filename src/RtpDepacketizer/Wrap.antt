-- ===== src/RtpDepacketizer/Wrap.antt =====
-- common/src/formats/h264/h264_rtp_depacketizer.cpp: a fragmented unit where the sequence numbers start
-- again at 0.
use wireless_vr_bridge.Base.{
  if_both, sym, u16, ℕ, suc, ◌+◌, ◌≤◌, ◌<◌, ◌≡◌, refl, ◌∙◌, ap, arith, Bool, List, some, length,
  get_or, set, bit_and, bit_or,
}
use wireless_vr_bridge.Network.{ntohl}
use wireless_vr_bridge.Rtp.{RtpHeader}
use wireless_vr_bridge.H264Packetizer.Next.{rtp_packet}
use wireless_vr_bridge.RtpDepacketizer.{RtpDepacketizer}
use wireless_vr_bridge.RtpDepacketizer.Process.{has_bit, fu_header_end_bit}
use wireless_vr_bridge.RtpDepacketizer.Receive.{add_packet, begin_at}
use wireless_vr_bridge.RtpDepacketizer.Reassembly.{arrived}
use wireless_vr_bridge.RtpDepacketizer.Kept.{add_payload-keeps}
use wireless_vr_bridge.RtpDepacketizer.Wired.{IsSent, Awaits, add_packet-Awaits}

-- A fragment that continues a unit.
pub record Continues (payload : List ℕ) : Type 0 where
  pub is_fragment : bit_and (get_or payload 0 0) 31 ≡ 28
  pub no_start : bit_and (get_or payload 1 0) 128 ≡ 0
  pub low : 2 ≤ length payload
  pub high : length payload < 1480

-- The bytes of the frame with the unit at an index marked as incorrect.
abbrev pub marked : ℕ → List ℕ → List ℕ
marked i frame = set frame i (bit_or (get_or frame i 0) 0b10000000)

begin_at_frame :
    (seq timestamp : ℕ) (d : RtpDepacketizer)
    → ((begin_at seq timestamp d).m_frame_data ≡ d.m_frame_data)
      × ((begin_at seq timestamp d).m_fu_header ≡ d.m_fu_header)
begin_at_frame seq timestamp d = ground arith

arrived-wrapped :
    (payload : List ℕ) (marker : Bool) (i : ℕ) (d : RtpDepacketizer)
    → Continues payload
    → d.m_fu_header ≡ some i
    → (arrived 0 marker payload d).m_frame_data ≡ marked i d.m_frame_data
arrived-wrapped payload marker i d c in_unit =
    rw (c.is_fragment, in_unit, c.no_start)
      (if_both (λ (e : RtpDepacketizer). e.m_frame_data ≡ marked i d.m_frame_data)
        (has_bit (get_or payload 1 0) fu_header_end_bit) _ _ (λ _. refl) (λ _. refl))

-- A fragment that continues the open unit and has the sequence number 0, for which the depacketizer
-- waits, is not added to the frame: `add_packet` returns, and the frame has the bytes that it had, with
-- the unit marked as incorrect. So a unit of several fragments loses its rest when the numbers wrap,
-- even though no packet was lost.
pub add_packet-wrapped :
    (fuel : ℕ) (header : RtpHeader) (marker : Bool) (payload : List ℕ) (i : ℕ) (d : RtpDepacketizer)
    → IsSent header
    → Awaits header 0 d
    → Continues payload
    → d.m_fu_header ≡ some i
    → (e : RtpDepacketizer) × (add_packet
          (suc fuel)
          (some (rtp_packet header 0 marker payload))
          (length (rtp_packet header 0 marker payload))
          d
        ≡ some e)
      × (e.m_frame_data ≡ marked i d.m_frame_data)
      × (e.m_desired_seq_id ≡ 1)
add_packet-wrapped fuel header marker payload i d sent v c in_unit =
    let begun = begin_at 0 (ntohl header.timestamp) d in
    let (frame_same, unit_same) = begin_at_frame 0 (ntohl header.timestamp) d in
    (
      arrived 0 marker payload begun,
      (add_packet-Awaits header 0 (omega arith) marker payload sent d fuel v c.low c.high).0,
      arrived-wrapped payload marker i begun c (unit_same ∙ in_unit) ∙ ap (marked i) frame_same,
      ap (λ n. u16 (n + 1))
          (add_payload-keeps (λ e. e.m_desired_seq_id) (λ e frame fu_header should_drop. refl)
              payload 0 begun
            ∙ sym v.desired),
    )
