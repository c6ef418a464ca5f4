-- ===== src/SimplePacketizer/Frames.antt =====
-- What `ServerVideoSocket::send_packet` gives to the TCP socket for a frame, with the simple
-- packetizer, while the socket stays connected.
use wireless_vr_bridge.Base.{
  ℕ, suc, ◌+◌, ◌^◌, ◌<◌, ◌≡◌, refl, arith, Bool, true, false, not, List, [], ◌∷◌, ◌++◌, none, some,
  length, take, take-all, sub64, u32, ltb, lt→ltb, ap, ◌∙◌,
}
use wireless_vr_bridge.Network.{ntohl}
use wireless_vr_bridge.Network.ByteOrder.{ntohl-htonl}
use wireless_vr_bridge.Packetizer.{Out, no_packet, FrameData}
use wireless_vr_bridge.SimpleHeader.{SimpleHeader, header_bytes, has_flag, end_of_frame}
use wireless_vr_bridge.SimpleHeader.Layout.{length-header_bytes}
use wireless_vr_bridge.SimplePacketizer.{
  SimplePacketizer, add_frame_data, create_next_packet, simple_packetizer,
}
use wireless_vr_bridge.VideoSocket.{send_loop, send_packet}
use wireless_vr_bridge.VideoSocket.Rounds.{send_loop_round, send_loop_end}

-- A frame that `send_packet` is called with: `size` bytes of data, not too many for the header.
pub record IsFrame (f : FrameData) (data_bytes : List ℕ) : Type 0 where
  pub present : f.bytes ≡ some data_bytes
  pub measured : f.size ≡ length data_bytes
  pub fits : length data_bytes + 20 < 2 ^ 32

-- The header that is sent before the frame.
abbrev pub header_of : FrameData → SimplePacketizer → SimpleHeader
header_of f p = (add_frame_data f p).m_header

-- The packets of a frame: the header, and the data if there is any.
abbrev pub packets : SimpleHeader → List ℕ → List (List ℕ)
packets h [] = header_bytes h ∷ []
packets h (b ∷ bs) = header_bytes h ∷ (b ∷ bs) ∷ []

ntohl_size :
    (f : FrameData) (p : SimplePacketizer) (d : List ℕ)
    → IsFrame f d
    → ntohl (add_frame_data f p).m_header.size ≡ 20 + length d
unfolding add_frame_data
ntohl_size f p d v =
    rw v.measured (ntohl-htonl (u32 (20 + length d)) (omega arith) ∙ omega (arith, v.fits))

take-header_bytes :
    (h : SimpleHeader) → length h.padding ≡ 3 → take 20 (header_bytes h) ≡ header_bytes h
take-header_bytes h e = take-all 20 (header_bytes h) (omega (arith, length-header_bytes h e))

unsent :
    (p : SimplePacketizer) (out : Out)
    → p.m_header_sent ≡ false
    → create_next_packet p out ≡ (
      ltb 20 (ntohl p.m_header.size),
      record { packet_data = some (header_bytes p.m_header); size = 20 },
      record p { m_header_sent = true },
    )
unfolding create_next_packet
unsent p out e = ground arith

sent :
    (p : SimplePacketizer) (d : List ℕ) (out : Out)
    → p.m_header_sent ≡ true
    → p.m_data ≡ some d
    → create_next_packet p out ≡ (
      not (has_flag p.m_header.flags end_of_frame),
      record { packet_data = some d; size = sub64 (ntohl p.m_header.size) 20 },
      record p { m_data = none },
    )
unfolding create_next_packet
sent p d out e e' = ground arith

added_unsent : (f : FrameData) (p : SimplePacketizer) → (add_frame_data f p).m_header_sent ≡ false
unfolding add_frame_data
added_unsent f p = refl

added_data : (f : FrameData) (p : SimplePacketizer) → (add_frame_data f p).m_data ≡ f.bytes
unfolding add_frame_data
added_data f p = refl

header_step :
    (f : FrameData) (p : SimplePacketizer) (d : List ℕ) (out : Out)
    → IsFrame f d
    → create_next_packet (add_frame_data f p) out ≡ (
      ltb 0 (length d),
      record { packet_data = some (header_bytes (header_of f p)); size = 20 },
      record (add_frame_data f p) { m_header_sent = true },
    )
header_step f p d out v =
    let more : ltb 20 (20 + length d) ≡ ltb 0 (length d) = ground arith in
    unsent (add_frame_data f p) out (added_unsent f p) ∙ rw (ntohl_size f p d v, more)

data_step :
    (f : FrameData) (p : SimplePacketizer) (d : List ℕ) (out : Out)
    → IsFrame f d
    → create_next_packet (record (add_frame_data f p) { m_header_sent = true }) out ≡ (
      not (has_flag (header_of f p).flags end_of_frame),
      record { packet_data = some d; size = length d },
      record (add_frame_data f p) { m_header_sent = true; m_data = none },
    )
data_step f p d out v =
    let len : sub64 (20 + length d) 20 ≡ length d = omega (arith, v.fits) in
    sent (record (add_frame_data f p) { m_header_sent = true }) d out refl
      (added_data f p ∙ v.present)
    ∙ rw (ntohl_size f p d v, len)

padding_kept : (f : FrameData) (p : SimplePacketizer) → (header_of f p).padding ≡ p.m_header.padding
unfolding add_frame_data
padding_kept f p = refl

exhausted :
    (p : SimplePacketizer) (out : Out)
    → p.m_header_sent ≡ true
    → p.m_data ≡ none
    → create_next_packet p out ≡ (false, out, p)
unfolding create_next_packet
exhausted p out e e' = ground arith

module _ (connected : ℕ → Bool) (stays : (n : ℕ) → connected n ≡ true) (f : FrameData)
    (p : SimplePacketizer) {d : List ℕ} (v : IsFrame f d)
    (pad : length p.m_header.padding ≡ 3) where
  abbrev header_sent : SimplePacketizer
  header_sent = record (add_frame_data f p) { m_header_sent = true }

  abbrev data_sent : SimplePacketizer
  data_sent = record (add_frame_data f p) { m_header_sent = true; m_data = none }

  abbrev header_out : Out
  header_out = record { packet_data = some (header_bytes (header_of f p)); size = 20 }

  abbrev data_out : Out
  data_out = record { packet_data = some d; size = length d }

  send_header :
      (fuel : ℕ)
      → send_packet simple_packetizer connected (suc fuel) f p
        ≡ send_loop simple_packetizer connected fuel 1
            (ltb 0 (length d))
            header_out
            header_sent
            (header_bytes (header_of f p) ∷ [])
  unfolding send_packet simple_packetizer
  send_header fuel =
      send_loop_round simple_packetizer connected stays fuel 0 (add_frame_data f p) header_sent
        no_packet header_out (ltb 0 (length d)) [] (header_step f p d no_packet v) (omega arith)
      ∙ rw (take-header_bytes (header_of f p) (ap length (padding_kept f p) ∙ pad))

  send_data_round :
      (fuel n : ℕ) (sent : List (List ℕ))
      → 0 < length d
      → send_loop simple_packetizer connected
          (suc fuel)
          n
          (ltb 0 (length d))
          header_out
          header_sent
          sent
        ≡ send_loop simple_packetizer connected fuel
            (n + 1)
            (not (has_flag (header_of f p).flags end_of_frame))
            data_out
            data_sent
            (sent ++ d ∷ [])
  unfolding simple_packetizer
  send_data_round fuel n sent h = rw (lt→ltb 0 (length d) h) (
      send_loop_round simple_packetizer connected stays fuel n header_sent data_sent header_out
        data_out _ sent (data_step f p d header_out v) (omega arith)
      ∙ rw (take-all (length d) d (omega arith)))

  -- A round in which the packetizer has nothing left, although it announced more.
  send_data_again :
      (fuel n : ℕ) (sent : List (List ℕ))
      → 0 < length d
      → send_loop simple_packetizer connected (suc (suc fuel)) n true data_out data_sent sent
        ≡ some (sent ++ d ∷ [], data_sent)
  unfolding simple_packetizer
  send_data_again fuel n sent h =
      send_loop_round simple_packetizer connected stays (suc fuel) n data_sent data_sent data_out
        data_out false sent (exhausted data_sent data_out refl refl) (omega arith)
      ∙ send_loop_end simple_packetizer connected stays fuel (n + 1) data_sent data_out _
      ∙ rw (take-all (length d) d (omega arith))

-- A frame that is complete, or that comes after one that was, is sent once: the loop ends after three
-- rounds at most, and what was given to the socket is the header and then the data.
pub send_packet_complete :
    (connected : ℕ → Bool) (k : ℕ) (f : FrameData) (p : SimplePacketizer) (d : List ℕ)
    → ((n : ℕ) → connected n ≡ true)
    → IsFrame f d
    → length p.m_header.padding ≡ 3
    → has_flag (header_of f p).flags end_of_frame ≡ true
    → (q : SimplePacketizer) × (send_packet simple_packetizer connected (suc (suc (suc k))) f p
        ≡ some (packets (header_of f p) d, q))
      × (q.m_header ≡ header_of f p)
send_packet_complete connected k f p [] stays v pad flag = (
  record (add_frame_data f p) { m_header_sent = true },
  send_header connected stays f p v pad (suc (suc k))
      ∙ send_loop_end simple_packetizer connected stays (suc k) 1 _ _ _,
  refl,
)
send_packet_complete connected k f p (b ∷ bs) stays v pad flag = (
  record (add_frame_data f p) { m_header_sent = true; m_data = none },
  send_header connected stays f p v pad (suc (suc k))
      ∙ send_data_round connected stays f p v pad (suc k) 1 _ (omega arith)
      ∙ rw flag (send_loop_end simple_packetizer connected stays k 2 _ _ _),
  refl,
)

-- A part of a frame that is not its last, before any frame was complete, is sent twice: after the
-- data the packetizer announces more, and then leaves the caller's packet as it was.
pub send_packet_incomplete :
    (connected : ℕ → Bool) (k : ℕ) (f : FrameData) (p : SimplePacketizer) (d : List ℕ)
    → ((n : ℕ) → connected n ≡ true)
    → IsFrame f d
    → 0 < length d
    → length p.m_header.padding ≡ 3
    → has_flag (header_of f p).flags end_of_frame ≡ false
    → (q : SimplePacketizer) × (send_packet simple_packetizer connected
          (suc (suc (suc (suc k))))
          f
          p
        ≡ some (header_bytes (header_of f p) ∷ d ∷ d ∷ [], q))
unfolding simple_packetizer
send_packet_incomplete connected k f p (b ∷ bs) stays v pos pad flag = (
  record (add_frame_data f p) { m_header_sent = true; m_data = none },
  send_header connected stays f p v pad (suc (suc (suc k)))
      ∙ send_data_round connected stays f p v pad (suc (suc k)) 1 _ (omega arith)
      ∙ rw flag (send_data_again connected stays f p v pad k 2 _ (omega arith)),
)
send_packet_incomplete connected k f p [] stays v pos pad flag = absurd (omega arith)
