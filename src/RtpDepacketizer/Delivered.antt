-- ===== src/RtpDepacketizer/Delivered.antt =====
-- A whole frame, from the units that the packetizer is given to the frame that the depacketizer has ready.
use wireless_vr_bridge.Base.{
  if_both, none, ℕ, zero, suc, ◌+◌, ◌*◌, ◌/◌, ◌%◌, ◌^◌, ◌≤◌, ◌<◌, ◌≡◌, refl, ◌∙◌, arith, List, [],
  ◌∷◌, ◌++◌, some, length, drop, length-take, length-drop, ltb, ltb→lt, Bool-cases, inl, inr, All,
}
use wireless_vr_bridge.Network.{ntohl, htonl}
use wireless_vr_bridge.Packetizer.{FrameData}
use wireless_vr_bridge.H264Packetizer.{H264RtpPacketizer}
use wireless_vr_bridge.H264Packetizer.Payloads.{fragments, unit_payloads, rtp_packets}
use wireless_vr_bridge.H264Packetizer.Frames.{ltb_false→le}
use wireless_vr_bridge.H264Packetizer.Sent.{Nal, frame_payloads, frame_packets, stamped}
use wireless_vr_bridge.RtpDepacketizer.{RtpDepacketizer, create_h264_rtp_depacketizer}
use wireless_vr_bridge.RtpDepacketizer.Receive.{begin_at}
use wireless_vr_bridge.RtpDepacketizer.Reassembly.{
  Holds, arrive_all, IsUnit, with_units, frame_payloads-Holds,
}
use wireless_vr_bridge.RtpDepacketizer.Wired.{IsSent, Awaits}
use wireless_vr_bridge.RtpDepacketizer.Received.{IsSized, receive_all, receive_all-rtp_packets}

fragments-IsSized :
    (k h : ℕ) (v : List ℕ) (r : ℕ)
    → length v ≡ k * 1400 + r
    → 0 < r
    → r < 1400
    → All IsSized (fragments k h v)
fragments-IsSized zero h v r e pos below = ((omega arith, omega arith), _)
fragments-IsSized (suc k) h v r e pos below = (
  (omega arith, omega (arith, length-take 1400 v)),
  fragments-IsSized k h (drop 1400 v) r (omega (arith, length-drop 1400 v)) pos below,
)

-- A unit of two bytes at least, and not of a multiple of 1400.
abbrev pub IsDeliverable : Nal → Type 0
IsDeliverable n = (2 ≤ length (n.nal_header ∷ n.body)) × (0 < length (n.nal_header ∷ n.body) % 1400)

unit-IsSized :
    (h : ℕ) (u : List ℕ)
    → 2 ≤ length (h ∷ u)
    → 0 < length (h ∷ u) % 1400
    → All IsSized (unit_payloads h u)
unit-IsSized h u low l = elim (Bool-cases (ltb (length (h ∷ u)) 1400)) [
  | inl short ↦ let below = ltb→lt (length (h ∷ u)) 1400 short in rw short ((low, omega arith), _)
  | inr long ↦
      let far = ltb_false→le (length (h ∷ u)) 1400 long in
      rw long (
        (omega arith, omega (arith, length-take 1399 u)),
        fragments-IsSized (length (drop 1399 u) / 1400) h (drop 1399 u)
            (length (drop 1399 u) % 1400) (omega arith) (omega (arith, length-drop 1399 u))
            (omega arith),
      )
]

All-append : (xs ys : List (List ℕ)) → All IsSized xs → All IsSized ys → All IsSized (xs ++ ys)
All-append [] ys a b = b
All-append (x ∷ xs) ys (s, a) b = (s, All-append xs ys a b)

frame_payloads-IsSized : (ns : List Nal) → All IsDeliverable ns → All IsSized (frame_payloads ns)
frame_payloads-IsSized [] a = _
frame_payloads-IsSized (n ∷ ns) ((low, l), a) =
    All-append (unit_payloads n.nal_header n.body) (frame_payloads ns)
      (unit-IsSized n.nal_header n.body low l) (frame_payloads-IsSized ns a)

fresh-Awaits :
    (f : FrameData) (p : H264RtpPacketizer)
    → Awaits (stamped f p.header) p.m_sequence_number create_h264_rtp_depacketizer
fresh-Awaits f p = record { no_frame = refl; desired = refl; current = refl; resting = refl }

begin_at-Holds :
    (seq timestamp : ℕ) (d : RtpDepacketizer)
    → Holds d.m_frame_data none d
    → Holds d.m_frame_data none (begin_at seq timestamp d)
begin_at-Holds seq timestamp d h =
    if_both (Holds d.m_frame_data none) d.m_first_packet _ d
      (λ _. record { data_is = refl; fu_is = h.fu_is; kept = h.kept }) (λ _. h)

payloads_received :
    (fuel : ℕ) (f : FrameData) (p : H264RtpPacketizer) (payloads : List (List ℕ))
    (d : RtpDepacketizer)
    → IsSent (stamped f p.header)
    → All IsSized payloads
    → 0 < length payloads
    → p.m_sequence_number + length payloads ≤ 2 ^ 16
    → Awaits (stamped f p.header) p.m_sequence_number d
    → (e : RtpDepacketizer) × (receive_all
          (suc fuel)
          (rtp_packets (stamped f p.header) p.m_sequence_number f.save_frame payloads)
          d
        ≡ some e)
      × (e.m_frame_data
          ≡ (arrive_all p.m_sequence_number payloads (
              begin_at p.m_sequence_number
                (ntohl (htonl f.rtp_sampling_timestamp))
                d)).m_frame_data)
      × (e.m_has_frame ≡ f.save_frame)
payloads_received fuel f p [] d sent sizes pos fits v = absurd (omega arith)
payloads_received fuel f p (x ∷ xs) d sent sizes pos fits v =
    receive_all-rtp_packets fuel xs x (stamped f p.header) p.m_sequence_number f.save_frame d sent
      sizes fits v

some_payload : (n : Nal) (ns : List Nal) → 0 < length (frame_payloads (n ∷ ns))
some_payload n ns = elim (Bool-cases (ltb (length (n.nal_header ∷ n.body)) 1400)) [
  | inl short ↦ rw short (omega arith)
  | inr long ↦ rw long (omega arith)
]

-- The packets that the packetizer makes of a frame, arriving in order with none lost at a depacketizer
-- that waits for the first of them, with no frame ready, nothing held and no fragmented unit open, are
-- all taken. The units of the frame, of whatever length, then stand in order and unchanged, each behind
-- a start code, after what the depacketizer had; the frame is ready exactly if its `save_frame` is set,
-- which the packetizer takes for the marker. Each unit has a byte as its header, another type than 28,
-- at least two bytes and not a multiple of 1400; the sequence numbers do not wrap in the frame.
pub frame_packets-appended :
    (fuel : ℕ) (f : FrameData) (p : H264RtpPacketizer) (n : Nal) (ns : List Nal)
    (d : RtpDepacketizer)
    → IsSent (stamped f p.header)
    → All IsUnit (n ∷ ns)
    → All IsDeliverable (n ∷ ns)
    → p.m_sequence_number + length (frame_payloads (n ∷ ns)) ≤ 2 ^ 16
    → Awaits (stamped f p.header) p.m_sequence_number d
    → Holds d.m_frame_data none d
    → (e : RtpDepacketizer) × (receive_all (suc fuel) (frame_packets f p (n ∷ ns)) d ≡ some e)
      × (e.m_frame_data ≡ with_units d.m_frame_data (n ∷ ns))
      × (e.m_has_frame ≡ f.save_frame)
frame_packets-appended fuel f p n ns d sent units sizes fits v h =
    let (e, taken, held, ready) =
      payloads_received fuel f p (frame_payloads (n ∷ ns)) d sent
        (frame_payloads-IsSized (n ∷ ns) sizes) (some_payload n ns) fits v in
    let whole =
      frame_payloads-Holds (n ∷ ns) p.m_sequence_number d.m_frame_data
        (begin_at p.m_sequence_number (ntohl (htonl f.rtp_sampling_timestamp)) d) units
        (begin_at-Holds p.m_sequence_number (ntohl (htonl f.rtp_sampling_timestamp)) d h) in
    (e, taken, held ∙ whole.data_is, ready)

-- The packets that the packetizer makes of the first frame, arriving in order at a new depacketizer with
-- none lost, are all taken, and the depacketizer then has the units of the frame, of whatever length, in
-- order and unchanged, each behind a start code; the frame is ready exactly if its `save_frame` is set,
-- which the packetizer takes for the marker. Each unit has a byte as its header, another type than 28, at
-- least two bytes and not a multiple of 1400; the sequence numbers do not wrap in the frame.
pub frame_packets-delivered :
    (fuel : ℕ) (f : FrameData) (p : H264RtpPacketizer) (n : Nal) (ns : List Nal)
    → IsSent (stamped f p.header)
    → All IsUnit (n ∷ ns)
    → All IsDeliverable (n ∷ ns)
    → p.m_sequence_number + length (frame_payloads (n ∷ ns)) ≤ 2 ^ 16
    → (e : RtpDepacketizer) × (receive_all
          (suc fuel)
          (frame_packets f p (n ∷ ns))
          create_h264_rtp_depacketizer
        ≡ some e)
      × (e.m_frame_data ≡ with_units [] (n ∷ ns))
      × (e.m_has_frame ≡ f.save_frame)
frame_packets-delivered fuel f p n ns sent units sizes fits =
    frame_packets-appended fuel f p n ns create_h264_rtp_depacketizer sent units sizes fits
      (fresh-Awaits f p) (record { data_is = refl; fu_is = refl; kept = refl })
