-- ===== src/H264Packetizer/Sent.antt =====
-- `ServerVideoSocket::send_packet` with the H.264 packetizer: a whole frame, unit by unit.
use wireless_vr_bridge.Base.{
  ℕ, ◌%◌, ◌/◌, take, take-all, drop, if◌then◌else◌, ltb, ◌<◌, ◌≡◌, ◌≢◌, refl, ◌∙◌, arith, Bool,
  true, false, List, [], ◌∷◌, ◌++◌, some, length, inl, inr,
}
use wireless_vr_bridge.Network.{htonl}
use wireless_vr_bridge.Rtp.{RtpHeader}
use wireless_vr_bridge.Packetizer.{FrameData, no_packet}
use wireless_vr_bridge.VideoSocket.{send_packet}
use wireless_vr_bridge.H264Packetizer.{
  H264RtpPacketizer, h264_packetizer, is_at_end, add_frame_data,
}
use wireless_vr_bridge.H264Packetizer.Units.{IsClean, EndsUnit, code_bytes}
use wireless_vr_bridge.H264Packetizer.Next.{has_head, at_head, first_fragment}
use wireless_vr_bridge.H264Packetizer.Frames.{unit-Sends}
use wireless_vr_bridge.H264Packetizer.Payloads.{
  fragments, rtp_packets, unit_payloads, Sends, is_last,
}

-- A unit of a frame: whether its start code is the short one, its header, and the rest of it.
pub record Nal : Type 0 where
  pub short_code : Bool
  pub nal_header : ℕ
  pub body : List ℕ

abbrev pub frame_bytes : List Nal → List ℕ
frame_bytes [] = []
frame_bytes (n ∷ ns) = code_bytes n.short_code ++ (n.nal_header ∷ (n.body ++ frame_bytes ns))

abbrev pub frame_payloads : List Nal → List (List ℕ)
frame_payloads [] = []
frame_payloads (n ∷ ns) = unit_payloads n.nal_header n.body ++ frame_payloads ns

-- No unit has a start code in it, a header of 0, or a multiple of 1400 bytes.
abbrev pub IsSendable : List Nal → Type 0
IsSendable [] = Unit
IsSendable (n ∷ ns) =
    (n.nal_header ≢ 0)
    × IsClean (n.nal_header ∷ n.body) (frame_bytes ns)
    × (0 < length (n.nal_header ∷ n.body) % 1400)
    × IsSendable ns

-- The header of the packets of a frame, up to the sequence number and the marker.
abbrev pub stamped : FrameData → RtpHeader → RtpHeader
stamped f header = record header {
  timestamp = htonl f.rtp_sampling_timestamp;
  pose_timestamp_ext = htonl f.rtp_pose_timestamp;
  frame_id_ext = htonl f.frame_id;
}

abbrev pub frame_packets : FrameData → H264RtpPacketizer → List Nal → List (List ℕ)
frame_packets f p ns =
    rtp_packets (stamped f p.header) p.m_sequence_number f.save_frame (frame_payloads ns)

code-EndsUnit : (code : Bool) (u : List ℕ) → EndsUnit (code_bytes code ++ u)
code-EndsUnit true u = inr (λ e. omega (arith, e))
code-EndsUnit false u = inr (λ e. omega (arith, e))

frame_bytes-EndsUnit : (ns : List Nal) → EndsUnit (frame_bytes ns)
frame_bytes-EndsUnit [] = inl refl
frame_bytes-EndsUnit (n ∷ ns) = code-EndsUnit n.short_code _

more_units :
    (n : Nal) (ns : List Nal) → is_at_end (frame_bytes (n ∷ ns)) ≡ is_last (frame_payloads (n ∷ ns))
more_units n ns =
    has_head n.short_code _
    ∙ elim (ltb (length (n.nal_header ∷ n.body)) 1400)
        as (λ b.
          false
          ≡ is_last (
              (if b
                then (n.nal_header ∷ n.body) ∷ []
                else first_fragment n.nal_header (take 1399 n.body)
                  ∷ fragments (length (drop 1399 n.body) / 1400) n.nal_header (drop 1399 n.body))
              ++ frame_payloads ns)) [ true ↦ refl | false ↦ refl ]

module _ (connected : ℕ → Bool) (stays : (n : ℕ) → connected n ≡ true) (last : Bool) where
  pub frame-Sends :
      (n : Nal) (ns : List Nal)
      → IsSendable (n ∷ ns)
      → (header : RtpHeader) (seq : ℕ)
      → Sends connected stays last
          (at_head header seq last (frame_bytes (n ∷ ns)) 0)
          (rtp_packets header seq last (frame_payloads (n ∷ ns)))
  frame-Sends n [] (ne, c, l, v) header seq =
      unit-Sends connected stays last n.short_code n.nal_header n.body [] [] ne c (inl refl) l
        (refl, λ e. cc) header seq
  frame-Sends n (m ∷ ms) (ne, c, l, v) header seq =
      unit-Sends connected stays last n.short_code n.nal_header n.body (frame_bytes (m ∷ ms))
        (frame_payloads (m ∷ ms)) ne c (frame_bytes-EndsUnit (m ∷ ms)) l
        (more_units m ms, λ more. frame-Sends m ms v) header seq

-- The state in which `send_packet` begins its loop.
pub added :
    (f : FrameData) (p : H264RtpPacketizer) (head : List ℕ)
    → f.bytes ≡ some head
    → f.size ≡ length head
    → is_at_end head ≡ false
    → h264_packetizer.add_frame_data f p
      ≡ at_head (stamped f p.header) p.m_sequence_number f.save_frame head 0
unfolding add_frame_data
added f p head e measured present =
    rw (e, measured, take-all (length head) head (omega arith), present) refl

-- A frame of units that have no start code in them, no header of 0, and no multiple of 1400 bytes each,
-- handed over with its length, is sent whole while the socket stays connected: with fuel for every
-- packet and one round more, the loop ends, and what was given to the socket is, unit by unit and in
-- order, the unit in one packet if it is shorter than 1400 bytes, and else its fragments. The sequence
-- numbers count up from the packetizer's, and the marker is on the last packet alone, if the frame's
-- `save_frame` is set.
pub send_packet_units :
    (connected : ℕ → Bool) (f : FrameData) (p : H264RtpPacketizer) (n : Nal) (ns : List Nal)
    (fuel : ℕ)
    → ((k : ℕ) → connected k ≡ true)
    → f.bytes ≡ some (frame_bytes (n ∷ ns))
    → f.size ≡ length (frame_bytes (n ∷ ns))
    → IsSendable (n ∷ ns)
    → length (frame_packets f p (n ∷ ns)) < fuel
    → (q : H264RtpPacketizer) × (send_packet h264_packetizer connected fuel f p
        ≡ some (frame_packets f p (n ∷ ns), q))
unfolding send_packet
send_packet_units connected f p n ns fuel stays e measured v l =
    let (q, sends) =
      frame-Sends connected stays f.save_frame n ns v (stamped f p.header) p.m_sequence_number fuel
        0 no_packet [] l in
    (q, rw (added f p (frame_bytes (n ∷ ns)) e measured (has_head n.short_code _)) sends)
