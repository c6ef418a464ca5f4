-- ===== src/H264Packetizer/Lost.antt =====
-- Where `H264RtpPacketizer` loses the rest of a frame: behind a unit of exactly 1400 bytes.
use wireless_vr_bridge.Base.{
  ℕ, suc, ◌+◌, ◌≡◌, ◌≢◌, refl, ap, ◌∙◌, arith, Bool, true, false, List, [], ◌∷◌, ◌++◌, some, length,
  ==_of_ne, u16,
}
use wireless_vr_bridge.Packetizer.{Out, FrameData, no_packet}
use wireless_vr_bridge.Rtp.{RtpHeader}
use wireless_vr_bridge.VideoSocket.{send_packet, send_loop}
use wireless_vr_bridge.VideoSocket.Rounds.{send_loop_round}
use wireless_vr_bridge.H264Packetizer.{H264RtpPacketizer, h264_packetizer, create_next_packet, scan}
use wireless_vr_bridge.H264Packetizer.Units.{IsClean, code_bytes}
use wireless_vr_bridge.H264Packetizer.Next.{
  numbered, at_head, rtp_packet, first_fragment, next_first, has_head,
}
use wireless_vr_bridge.H264Packetizer.Payloads.{packet_whole}
use wireless_vr_bridge.H264Packetizer.Sent.{stamped, added}

-- In a unit, with a start code at the head: no byte is counted, and no packet made.
next_stuck :
    (header : RtpHeader) (seq : ℕ) (last code : Bool) (h : ℕ) (rest : List ℕ) (out : Out)
    → h ≢ 0
    → create_next_packet (at_head header seq last (code_bytes code ++ rest) h) out
      ≡ (false, no_packet, at_head header seq last (code_bytes code ++ rest) h)
unfolding create_next_packet scan
next_stuck header seq last true h rest out ne = rw (==_of_ne h 0 ne) refl
next_stuck header seq last false h rest out ne = rw (==_of_ne h 0 ne) refl

module _ (connected : ℕ → Bool) (stays : (n : ℕ) → connected n ≡ true) where
  -- A round without a packet, and without another one announced, is the last.
  empty_round :
      (fuel n : ℕ) (p : H264RtpPacketizer) (out : Out) (sent : List (List ℕ))
      → create_next_packet p out ≡ (false, no_packet, p)
      → send_loop h264_packetizer connected (suc (suc fuel)) n true out p sent ≡ some (sent, p)
  unfolding send_loop
  empty_round fuel n p out sent e = rw (e, stays n) refl

  cut_rounds :
      (header : RtpHeader) (seq : ℕ) (last code code' : Bool) (h : ℕ) (u rest : List ℕ) (fuel : ℕ)
      → h ≢ 0
      → IsClean (h ∷ u) (code_bytes code' ++ rest)
      → length (h ∷ u) ≡ 1400
      → (q : H264RtpPacketizer) × (send_loop h264_packetizer connected
            (suc (suc (suc fuel)))
            0
            true
            no_packet
            (at_head header seq last (code_bytes code ++ (h ∷ (u ++ (code_bytes code' ++ rest)))) 0)
            []
          ≡ some (rtp_packet header seq false (first_fragment h u) ∷ [], q))
  cut_rounds header seq last code true h u rest fuel ne c l =
      let after =
        at_head (numbered header seq false) (u16 (seq + 1)) last (code_bytes true ++ rest) h in
      (
        after,
        send_loop_round h264_packetizer connected stays (suc (suc fuel)) 0 _ _ no_packet _ _ []
              (next_first header seq last no_packet code h u 0 (0 ∷ 1 ∷ rest) c l) (omega arith)
            ∙ empty_round fuel 1 _ _ _ (next_stuck _ _ last true h rest _ ne)
            ∙ ap (λ packet. some (packet ∷ [], after))
                (packet_whole header seq false (first_fragment h u)),
      )
  cut_rounds header seq last code false h u rest fuel ne c l =
      let after =
        at_head (numbered header seq false) (u16 (seq + 1)) last (code_bytes false ++ rest) h in
      (
        after,
        send_loop_round h264_packetizer connected stays (suc (suc fuel)) 0 _ _ no_packet _ _ []
              (next_first header seq last no_packet code h u 0 (0 ∷ 0 ∷ 1 ∷ rest) c l) (omega arith)
            ∙ empty_round fuel 1 _ _ _ (next_stuck _ _ last false h rest _ ne)
            ∙ ap (λ packet. some (packet ∷ [], after))
                (packet_whole header seq false (first_fragment h u)),
      )

-- A unit of exactly 1400 bytes, without a start code in it or a header of 0, that another start code
-- follows stops a frame that begins with it: while the socket stays connected, `send_packet` gives its
-- first fragment to the socket, without the marker, and ends. Nothing that stands behind it is sent.
pub send_packet_cut :
    (connected : ℕ → Bool) (f : FrameData) (p : H264RtpPacketizer) (code code' : Bool) (h : ℕ)
    (u rest : List ℕ) (fuel : ℕ)
    → ((n : ℕ) → connected n ≡ true)
    → f.bytes ≡ some (code_bytes code ++ (h ∷ (u ++ (code_bytes code' ++ rest))))
    → f.size ≡ length (code_bytes code ++ (h ∷ (u ++ (code_bytes code' ++ rest))))
    → h ≢ 0
    → IsClean (h ∷ u) (code_bytes code' ++ rest)
    → length (h ∷ u) ≡ 1400
    → (q : H264RtpPacketizer) × (send_packet h264_packetizer connected (suc (suc (suc fuel))) f p
        ≡ some (
          rtp_packet (stamped f p.header) p.m_sequence_number false (first_fragment h u) ∷ [],
          q,
        ))
unfolding send_packet
send_packet_cut connected f p code code' h u rest fuel stays e measured ne c l =
    let (q, cut) =
      cut_rounds connected stays (stamped f p.header) p.m_sequence_number f.save_frame code code' h
        u rest fuel ne c l in
    (q, rw (added f p _ e measured (has_head code _)) cut)
