-- ===== src/H264Packetizer/Payloads.antt =====
-- The packets of a sequence of payloads, and the rounds of the sending loop that send one.
use wireless_vr_bridge.Base.{
  ℕ, zero, suc, ◌+◌, ◌/◌, ◌<◌, ◌≡◌, refl, ap, ◌∙◌, arith, Bool, true, false, ◌&&◌, List, [], ◌∷◌,
  ◌++◌, some, length, take, drop, if◌then◌else◌, ltb, u16, append_assoc, take-all,
}
use wireless_vr_bridge.Rtp.{RtpHeader}
use wireless_vr_bridge.Packetizer.{Out}
use wireless_vr_bridge.VideoSocket.{send_loop}
use wireless_vr_bridge.VideoSocket.Rounds.{send_loop_round, send_loop_end}
use wireless_vr_bridge.H264Packetizer.{
  H264RtpPacketizer, create_next_packet, is_at_end, h264_packetizer,
}
use wireless_vr_bridge.H264Packetizer.Next.{
  numbered, rtp_packet, at_head, sending, first_fragment, middle_fragment, last_fragment,
}

abbrev pub is_last : List (List ℕ) → Bool
is_last [] = true
is_last (x ∷ xs) = false

-- The packets of payloads that follow each other: the sequence numbers count up, and the last packet
-- alone has the marker, if the frame is to have one.
abbrev pub rtp_packets : RtpHeader → ℕ → Bool → List (List ℕ) → List (List ℕ)
rtp_packets header seq last [] = []
rtp_packets header seq last (x ∷ xs) =
    let marker = is_last xs && last in
    rtp_packet header seq marker x
    ∷ rtp_packets (numbered header seq marker) (u16 (seq + 1)) last xs

-- The payloads for what follows the first 1400 bytes of a unit.
abbrev pub fragments : ℕ → ℕ → List ℕ → List (List ℕ)
fragments zero h v = last_fragment h v ∷ []
fragments (suc k) h v = middle_fragment h (take 1400 v) ∷ fragments k h (drop 1400 v)

abbrev pub unit_payloads : ℕ → List ℕ → List (List ℕ)
unit_payloads h u =
    if ltb (length (h ∷ u)) 1400
    then (h ∷ u) ∷ []
    else first_fragment h (take 1399 u) ∷ fragments (length (drop 1399 u) / 1400) h (drop 1399 u)

pub packet_whole :
    (header : RtpHeader) (seq : ℕ) (marker : Bool) (x : List ℕ)
    → take (20 + length x) (rtp_packet header seq marker x) ≡ rtp_packet header seq marker x
packet_whole header seq marker x =
    take-all (20 + length x) (rtp_packet header seq marker x) (omega arith)

module _ (connected : ℕ → Bool) (stays : (n : ℕ) → connected n ≡ true) (last : Bool) where
  -- The loop, begun in this state, ends, and gives these packets to the socket.
  abbrev pub Sends : H264RtpPacketizer → List (List ℕ) → Type 0
  Sends p packets =
      (fuel n : ℕ) (out : Out) (sent : List (List ℕ))
      → length packets < fuel
      → (q : H264RtpPacketizer) × (send_loop h264_packetizer connected fuel n true out p sent
          ≡ some (sent ++ packets, q))

  -- What is left once a payload is sent, and the payloads that are left.
  abbrev pub Continues : List ℕ → ℕ → List (List ℕ) → Type 0
  Continues rest nalu xs =
      (is_at_end rest ≡ is_last xs)
      × (is_at_end rest ≡ false
          → (header : RtpHeader) (seq : ℕ)
          → Sends (at_head header seq last rest nalu) (rtp_packets header seq last xs))

  pub payload-Sends :
      (header : RtpHeader) (seq : ℕ) (head : List ℕ) (nalu : ℕ) (rest : List ℕ) (nalu' : ℕ)
      (x : List ℕ) (xs : List (List ℕ))
      → ((out : Out)
          → create_next_packet (at_head header seq last head nalu) out
            ≡ sending header seq last rest nalu' x)
      → Continues rest nalu' xs
      → Sends (at_head header seq last head nalu) (rtp_packets header seq last (x ∷ xs))
  payload-Sends header seq head nalu [] nalu' x [] step (e, k) zero n out sent l =
      absurd (omega arith)
  payload-Sends header seq head nalu [] nalu' x [] step (e, k) (suc zero) n out sent l =
      absurd (omega arith)
  payload-Sends header seq head nalu [] nalu' x [] step (e, k) (suc (suc fuel)) n out sent l =
      let after = at_head (numbered header seq last) (u16 (seq + 1)) last [] nalu' in
      (
        after,
        send_loop_round h264_packetizer connected stays (suc fuel) n _ _ out _ _ sent (step out)
              (omega arith)
            ∙ send_loop_end h264_packetizer connected stays fuel (n + 1) _ _ _
            ∙ ap (λ packet. some (sent ++ packet ∷ [], after)) (packet_whole header seq last x),
      )
  payload-Sends header seq head nalu [] nalu' x (y ∷ ys) step (e, k) fuel n out sent l = cc
  payload-Sends header seq head nalu (b ∷ rest) nalu' x [] step (e, k) fuel n out sent l = cc
  payload-Sends header seq head nalu (b ∷ rest) nalu' x (y ∷ ys) step (e, k) zero n out sent l =
      absurd (omega arith)
  payload-Sends header seq head nalu (b ∷ rest) nalu' x (y ∷ ys) step (e, k) (suc fuel) n out sent
        l =
      let (q, sends) =
        k refl (numbered header seq false) (u16 (seq + 1)) fuel (n + 1)
          (sending header seq last (b ∷ rest) nalu' x).1
          (sent ++ rtp_packet header seq false x ∷ []) (omega arith) in
      (
        q,
        send_loop_round h264_packetizer connected stays fuel n _ _ out _ _ sent (step out)
              (omega arith)
            ∙ rw (packet_whole header seq false x) sends
            ∙ ap (λ packets. some (packets, q))
                (append_assoc sent (rtp_packet header seq false x ∷ []) _),
      )
