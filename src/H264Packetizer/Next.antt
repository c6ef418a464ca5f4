-- ===== src/H264Packetizer/Next.antt =====
-- What one call of `H264RtpPacketizer::create_next_packet` gives, by what stands at the head.
use wireless_vr_bridge.Base.{
  ℕ, suc, ◌+◌, ◌<◌, ◌≡◌, ◌≢◌, ◌==◌, ◌|||◌, refl, sym, ap, ◌∙◌, arith, Bool, true, false, not, ◌&&◌,
  ◌||◌, List, [], ◌∷◌, ◌++◌, Option, none, some, length, if◌then◌else◌, ==_of_ne,
  take-length-append, u16, length-append,
}
use wireless_vr_bridge.Network.{htons}
use wireless_vr_bridge.Rtp.{RtpHeader, set_marker}
use wireless_vr_bridge.Rtp.Bytes.{rtp_header_bytes}
use wireless_vr_bridge.Packetizer.{Out}
use wireless_vr_bridge.H264Packetizer.{
  H264RtpPacketizer, create_next_packet, is_at_end, scan_from, finalize, nalu_type, fu_indicator,
  fu_header_start_bit, fu_header_end_bit, Scan,
}
use wireless_vr_bridge.H264Packetizer.Units.{
  IsClean, EndsUnit, code_bytes, inside, ended, scan_header, scan_to_end, scan_to_cut,
}

-- The header of the packet with sequence number `seq`, and the packet.
abbrev pub numbered : RtpHeader → ℕ → Bool → RtpHeader
numbered header seq marker = set_marker marker (record header { sequence_number = htons seq })

abbrev pub rtp_packet : RtpHeader → ℕ → Bool → List ℕ → List ℕ
rtp_packet header seq marker payload = rtp_header_bytes (numbered header seq marker) ++ payload

-- A packetizer with `head` left to send, in a unit with the header `nalu`, or between units if that is 0.
abbrev pub at_head : RtpHeader → ℕ → Bool → List ℕ → ℕ → H264RtpPacketizer
at_head header seq last head nalu = record {
  header = header;
  m_sequence_number = seq;
  m_h264_head = if is_at_end head then none else some head;
  m_last = last;
  m_current_nalu_header = nalu;
}

-- A call that sends `payload`, and leaves `rest` to send.
abbrev pub sending : RtpHeader → ℕ → Bool → List ℕ → ℕ → List ℕ → Bool × Out × H264RtpPacketizer
sending header seq last rest nalu payload =
    let marker = is_at_end rest && last in
    (
      not (is_at_end rest),
      record {
        packet_data = some (rtp_packet header seq marker payload);
        size = 20 + length payload;
      },
      at_head (numbered header seq marker) (u16 (seq + 1)) last rest nalu,
    )

-- The fragments of the unit `h ∷ u`: the first one has the start of `u`, `h` itself is in its two bytes.
abbrev pub first_fragment : ℕ → List ℕ → List ℕ
first_fragment h v = fu_indicator h ∷ (nalu_type h ||| fu_header_start_bit) ∷ v

abbrev pub middle_fragment : ℕ → List ℕ → List ℕ
middle_fragment h v = fu_indicator h ∷ nalu_type h ∷ v

abbrev pub last_fragment : ℕ → List ℕ → List ℕ
last_fragment h v = fu_indicator h ∷ (nalu_type h ||| fu_header_end_bit) ∷ v

ended_or : (rest : List ℕ) → (not (is_at_end rest) || is_at_end rest) ≡ true
ended_or [] = refl
ended_or (b ∷ rest) = refl

in_unit : (h : ℕ) → h ≢ 0 → not (h == 0) ≡ true
in_unit h ne = rw (==_of_ne h 0 ne) refl

one_before : (u : List ℕ) → 1 + length u ≡ suc (length u)
one_before u = omega arith

scan_whole :
    (code : Bool) (h : ℕ) (u rest : List ℕ)
    → IsClean (h ∷ u) rest
    → EndsUnit rest
    → 1 + length u < 1400
    → scan_from 0 (code_bytes code ++ (h ∷ (u ++ rest)))
      ≡ ended (length (h ∷ u)) rest (h ∷ (u ++ rest)) h
scan_whole true h u rest (e, c) ends l =
    scan_header true h (u ++ rest) _ 0 e
    ∙ scan_to_end u rest _ (length rest + 2) 1 (h ∷ u ++ rest) h c ends l
        (omega (arith, length-append u rest))
    ∙ ap (λ n. ended n rest (h ∷ (u ++ rest)) h) (one_before u)
scan_whole false h u rest (e, c) ends l =
    scan_header false h (u ++ rest) _ 0 e
    ∙ scan_to_end u rest _ (length rest + 3) 1 (h ∷ u ++ rest) h c ends l
        (omega (arith, length-append u rest))
    ∙ ap (λ n. ended n rest (h ∷ (u ++ rest)) h) (one_before u)

scan_front :
    (code : Bool) (h : ℕ) (v rest : List ℕ)
    → IsClean (h ∷ v) rest
    → 1 + length v ≡ 1400
    → scan_from 0 (code_bytes code ++ (h ∷ (v ++ rest))) ≡ inside 1400 rest (h ∷ v ++ rest) h
scan_front true h v rest (e, c) l =
    scan_header true h (v ++ rest) _ 0 e
    ∙ scan_to_cut v rest _ (length rest + 3) 1 (h ∷ v ++ rest) h c l
        (omega (arith, length-append v rest))
scan_front false h v rest (e, c) l =
    scan_header false h (v ++ rest) _ 0 e
    ∙ scan_to_cut v rest _ (length rest + 4) 1 (h ∷ v ++ rest) h c l
        (omega (arith, length-append v rest))

scan_middle :
    (h : ℕ) (v rest : List ℕ)
    → h ≢ 0
    → IsClean v rest
    → length v ≡ 1400
    → scan_from h (v ++ rest) ≡ inside 1400 rest (v ++ rest) h
scan_middle h v rest ne c l = rw (==_of_ne h 0 ne) (
    scan_to_cut v rest _ (length rest + 1) 0 (v ++ rest) h c (omega arith)
      (omega (arith, length-append v rest)))

scan_tail :
    (h : ℕ) (v rest : List ℕ)
    → h ≢ 0
    → IsClean v rest
    → EndsUnit rest
    → length v < 1400
    → scan_from h (v ++ rest) ≡ ended (length v) rest (v ++ rest) h
scan_tail h v rest ne c ends l = rw (==_of_ne h 0 ne) (
    scan_to_end v rest _ (length rest) 0 (v ++ rest) h c ends (omega arith)
      (omega (arith, length-append v rest))
    ∙ ap (λ n. ended n rest (v ++ rest) h) none_before)
  where
    none_before : 0 + length v ≡ length v
    none_before = omega arith

sized :
    (more : Bool) (bytes : Option (List ℕ)) (p : H264RtpPacketizer) {m n : ℕ}
    → m ≡ n
    → Path
        (Bool × Out × H264RtpPacketizer)
        (more, record { packet_data = bytes; size = m }, p)
        (more, record { packet_data = bytes; size = n }, p)
sized more bytes p e = ap (λ k. (more, record { packet_data = bytes; size = k }, p)) e

pub has_head : (code : Bool) (u : List ℕ) → is_at_end (code_bytes code ++ u) ≡ false
has_head true u = refl
has_head false u = refl

module _ (header : RtpHeader) (seq : ℕ) (last : Bool) (out : Out) where
  packet_after_scan :
      (head : List ℕ) (nalu : ℕ) (s : Scan) (start : List ℕ)
      → is_at_end head ≡ false
      → scan_from nalu head ≡ s
      → s.nal_start ≡ some start
      → s.nal_size ≢ 0
      → create_next_packet (at_head header seq last head nalu) out
        ≡ finalize (not (nalu == 0)) s start (at_head header seq last head nalu)
  unfolding create_next_packet
  packet_after_scan [] nalu s start f e e' ne = cc
  packet_after_scan (b ∷ head) nalu s start f e e' ne = rw (e, e', ==_of_ne s.nal_size 0 ne) refl

  -- A unit that fits is sent as it is.
  pub next_single :
      (code : Bool) (h : ℕ) (u rest : List ℕ)
      → IsClean (h ∷ u) rest
      → EndsUnit rest
      → length (h ∷ u) < 1400
      → create_next_packet (at_head header seq last (code_bytes code ++ (h ∷ (u ++ rest))) 0) out
        ≡ sending header seq last rest 0 (h ∷ u)
  next_single code h u rest c ends l =
      packet_after_scan (code_bytes code ++ (h ∷ (u ++ rest))) 0
        (ended (length (h ∷ u)) rest (h ∷ (u ++ rest)) h) (h ∷ (u ++ rest))
        (has_head code (h ∷ (u ++ rest))) (scan_whole code h u rest c ends (omega arith)) refl
        (omega arith)
      ∙ rw (ended_or rest, take-length-append (length (h ∷ u)) (h ∷ u) rest refl) refl

  -- Of a unit that does not fit, the first 1400 bytes are sent.
  pub next_first :
      (code : Bool) (h : ℕ) (v : List ℕ) (b : ℕ) (rest : List ℕ)
      → IsClean (h ∷ v) (b ∷ rest)
      → length (h ∷ v) ≡ 1400
      → create_next_packet
          (at_head header seq last (code_bytes code ++ (h ∷ (v ++ b ∷ rest))) 0)
          out
        ≡ sending header seq last (b ∷ rest) h (first_fragment h v)
  next_first code h v b rest c l =
      packet_after_scan (code_bytes code ++ (h ∷ (v ++ b ∷ rest))) 0
        (inside 1400 (b ∷ rest) (h ∷ (v ++ b ∷ rest)) h) (h ∷ (v ++ b ∷ rest))
        (has_head code (h ∷ (v ++ b ∷ rest))) (scan_front code h v (b ∷ rest) c (omega arith)) refl
        (omega arith)
      ∙ rw (take-length-append 1399 v (b ∷ rest) (omega arith)) (sized _ _ _ (omega arith))

  -- In the middle of it, the next 1400.
  pub next_middle :
      (h x : ℕ) (v : List ℕ) (b : ℕ) (rest : List ℕ)
      → h ≢ 0
      → IsClean (x ∷ v) (b ∷ rest)
      → length (x ∷ v) ≡ 1400
      → create_next_packet (at_head header seq last (x ∷ (v ++ b ∷ rest)) h) out
        ≡ sending header seq last (b ∷ rest) h (middle_fragment h (x ∷ v))
  next_middle h x v b rest ne c l =
      packet_after_scan (x ∷ (v ++ b ∷ rest)) h (inside 1400 (b ∷ rest) (x ∷ (v ++ b ∷ rest)) h)
        (x ∷ (v ++ b ∷ rest)) refl (scan_middle h (x ∷ v) (b ∷ rest) ne c l) refl (omega arith)
      ∙ rw (in_unit h ne, take-length-append 1400 (x ∷ v) (b ∷ rest) (sym l))
          (sized _ _ _ (omega arith))

  -- The end of it: what is left, less than 1400 bytes.
  pub next_last :
      (h x : ℕ) (v : List ℕ) (rest : List ℕ)
      → h ≢ 0
      → IsClean (x ∷ v) rest
      → EndsUnit rest
      → length (x ∷ v) < 1400
      → create_next_packet (at_head header seq last (x ∷ (v ++ rest)) h) out
        ≡ sending header seq last rest 0 (last_fragment h (x ∷ v))
  next_last h x v rest ne c ends l =
      packet_after_scan (x ∷ (v ++ rest)) h (ended (length (x ∷ v)) rest (x ∷ (v ++ rest)) h)
        (x ∷ (v ++ rest)) refl (scan_tail h (x ∷ v) rest ne c ends l) refl (omega arith)
      ∙ rw (in_unit h ne, ended_or rest, take-length-append (length (x ∷ v)) (x ∷ v) rest refl)
          (sized _ _ _ (omega arith))
