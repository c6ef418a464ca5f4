-- ===== src/RtpDepacketizer/Reassembly.antt =====
-- What the depacketizer makes of the payloads of the packetizer, when they arrive in order.
use mathlib.Core.Path.{subst}
use wireless_vr_bridge.Base.{
  ℕ, zero, suc, ◌+◌, ◌/◌, ◌%◌, ◌<◌, ◌≡◌, ◌≢◌, refl, sym, ap, ◌∙◌, arith, Bool, true, false, ◌||◌,
  List, [], ◌∷◌, ◌++◌, Option, none, some, Bool-cases, All, inl, inr, ltb, ==_of_ne, length, take,
  drop, take-append-drop, append_assoc, u16, table, eq_by_table, bit_and, bit_or,
}
use wireless_vr_bridge.H264Packetizer.Next.{first_fragment, middle_fragment, last_fragment}
use wireless_vr_bridge.H264Packetizer.Payloads.{fragments, unit_payloads}
use wireless_vr_bridge.H264Packetizer.Sent.{Nal, frame_payloads}
use wireless_vr_bridge.RtpDepacketizer.{RtpDepacketizer}
use wireless_vr_bridge.RtpDepacketizer.Process.{add_payload, is_next_seq, start_code_for}

-- The state that a packet is proved to leave (in Arrived) when it is the desired one and no packet is
-- held; it describes the results of `add_packet` and stands for no code.
abbrev pub arrived : ℕ → Bool → List ℕ → RtpDepacketizer → RtpDepacketizer
arrived seq marker payload d =
    let added = add_payload payload seq d in
    record added {
      m_last_processed_seq_id = seq;
      m_desired_seq_id = u16 (added.m_desired_seq_id + 1);
      m_packet_view_head = u16 ((added.m_packet_view_head + 1) % 128);
      m_has_frame = marker || added.m_has_frame;
    }

-- The states of payloads that follow each other, none of them the last of a frame, as long as the
-- numbers do not wrap (Received).
abbrev pub arrive_all : ℕ → List (List ℕ) → RtpDepacketizer → RtpDepacketizer
arrive_all seq [] d = d
arrive_all seq (x ∷ xs) d = arrive_all (seq + 1) xs (arrived seq false x d)

fragment_type : (h : ℕ) → h < 256 → bit_and (bit_or (bit_and h 224) 28) 31 ≡ 28
unfolding table
fragment_type = eq_by_table 256 _ _ refl

starts : (h : ℕ) → h < 256 → bit_and (bit_or (bit_and h 31) 128) 128 ≡ 128
unfolding table
starts = eq_by_table 256 _ _ refl

middle_starts : (h : ℕ) → h < 256 → bit_and (bit_and h 31) 128 ≡ 0
unfolding table
middle_starts = eq_by_table 256 _ _ refl

middle_ends : (h : ℕ) → h < 256 → bit_and (bit_and h 31) 64 ≡ 0
unfolding table
middle_ends = eq_by_table 256 _ _ refl

last_starts : (h : ℕ) → h < 256 → bit_and (bit_or (bit_and h 31) 64) 128 ≡ 0
unfolding table
last_starts = eq_by_table 256 _ _ refl

last_ends : (h : ℕ) → h < 256 → bit_and (bit_or (bit_and h 31) 64) 64 ≡ 64
unfolding table
last_ends = eq_by_table 256 _ _ refl

reassembled_header :
    (h : ℕ)
    → h < 256
    → bit_or (bit_and (bit_or (bit_and h 224) 28) 224) (bit_and (bit_or (bit_and h 31) 128) 31) ≡ h
unfolding table
reassembled_header = eq_by_table 256 _ _ refl

next_seq : (last seq : ℕ) → last + 1 ≡ seq → is_next_seq last seq ≡ true
next_seq last seq e = ground arith

-- What is known of a state: the frame at hand, and the fragmented unit that is open, if one is.
pub record Holds (frame : List ℕ) (fu_header : Option ℕ) (d : RtpDepacketizer) : Type 0 where
  pub data_is : d.m_frame_data ≡ frame
  pub fu_is : d.m_fu_header ≡ fu_header
  pub kept : d.m_should_drop_fragmented_unit ≡ false

module _ (h : ℕ) (byte : h < 256) (seq : ℕ) (d : RtpDepacketizer) where
  arrived_unit :
      (frame u : List ℕ)
      → bit_and h 31 ≢ 28
      → Holds frame none d
      → Holds (frame ++ start_code_for frame ++ (h ∷ u)) none (arrived seq false (h ∷ u) d)
  arrived_unit frame u ne v =
      rw (==_of_ne (bit_and h 31) 28 ne)
        (record { data_is = rw (v.data_is, v.fu_is) refl; fu_is = refl; kept = refl })

  arrived_first :
      (frame v0 : List ℕ)
      → Holds frame none d
      → Holds
          (frame ++ start_code_for frame ++ (h ∷ v0))
          (some (length (frame ++ start_code_for frame)))
          (arrived seq false (first_fragment h v0) d)
  arrived_first frame v0 v =
      rw (fragment_type h byte, v.fu_is, starts h byte)
        (record {
          data_is = rw (v.data_is, reassembled_header h byte) refl;
          fu_is = rw v.data_is refl;
          kept = refl;
        })

  arrived_middle :
      (frame v1 : List ℕ) (i : ℕ)
      → d.m_last_processed_seq_id + 1 ≡ seq
      → Holds frame (some i) d
      → Holds (frame ++ v1) (some i) (arrived seq false (middle_fragment h v1) d)
  arrived_middle frame v1 i next v =
      rw
        (
          fragment_type h byte,
          v.fu_is,
          middle_starts h byte,
          next_seq d.m_last_processed_seq_id seq next,
          v.kept,
          middle_ends h byte,
        )
        (record { data_is = rw v.data_is refl; fu_is = refl; kept = refl })

  arrived_last :
      (frame v1 : List ℕ) (i : ℕ)
      → d.m_last_processed_seq_id + 1 ≡ seq
      → Holds frame (some i) d
      → Holds (frame ++ v1) none (arrived seq false (last_fragment h v1) d)
  arrived_last frame v1 i next v =
      rw
        (
          fragment_type h byte,
          v.fu_is,
          last_starts h byte,
          next_seq d.m_last_processed_seq_id seq next,
          v.kept,
          last_ends h byte,
        )
        (record { data_is = rw v.data_is refl; fu_is = refl; kept = refl })

module _ (h : ℕ) (byte : h < 256) where
  fragments-Holds :
      (k seq : ℕ) (v frame : List ℕ) (i : ℕ) (d : RtpDepacketizer)
      → d.m_last_processed_seq_id + 1 ≡ seq
      → Holds frame (some i) d
      → Holds (frame ++ v) none (arrive_all seq (fragments k h v) d)
  fragments-Holds zero seq v frame i d next held = arrived_last h byte seq d frame v i next held
  fragments-Holds (suc k) seq v frame i d next held =
      let middle = middle_fragment h (take 1400 v) in
      subst
        (λ t.
          Holds t none
            (arrive_all (seq + 1) (fragments k h (drop 1400 v)) (arrived seq false middle d)))
        (append_assoc frame (take 1400 v) (drop 1400 v)
          ∙ ap (λ t. frame ++ t) (take-append-drop 1400 v))
        (fragments-Holds k (seq + 1) (drop 1400 v) (frame ++ take 1400 v) i
          (arrived seq false middle d) refl
          (arrived_middle h byte seq d frame (take 1400 v) i next held))

  unit-Holds :
      (seq : ℕ) (u frame : List ℕ) (d : RtpDepacketizer)
      → bit_and h 31 ≢ 28
      → Holds frame none d
      → Holds (frame ++ start_code_for frame ++ (h ∷ u)) none (arrive_all seq (unit_payloads h u) d)
  unit-Holds seq u frame d ne held = elim (Bool-cases (ltb (length (h ∷ u)) 1400)) [
    | inl short ↦ rw short (arrived_unit h byte seq d frame u ne held)
    | inr long ↦
        let front = frame ++ start_code_for frame in
        let first = arrived seq false (first_fragment h (take 1399 u)) d in
        let k = length (drop 1399 u) / 1400 in
        rw long (
          subst (λ t. Holds t none (arrive_all (seq + 1) (fragments k h (drop 1399 u)) first))
            (append_assoc front (h ∷ take 1399 u) (drop 1399 u)
              ∙ ap (λ t. front ++ (h ∷ t)) (take-append-drop 1399 u))
            (fragments-Holds k (seq + 1) (drop 1399 u) (front ++ (h ∷ take 1399 u)) (length front)
              first refl (arrived_first h byte seq d frame (take 1399 u) held)))
  ]

arrive_all-append :
    (seq : ℕ) (xs ys : List (List ℕ)) (d : RtpDepacketizer)
    → arrive_all seq (xs ++ ys) d ≡ arrive_all (seq + length xs) ys (arrive_all seq xs d)
arrive_all-append seq [] ys d =
    let same : seq ≡ seq + 0 = omega arith in ap (λ n. arrive_all n ys d) same
arrive_all-append seq (x ∷ xs) ys d =
    let shift : seq + 1 + length xs ≡ seq + suc (length xs) = omega arith in
    arrive_all-append (seq + 1) xs ys (arrived seq false x d)
    ∙ ap (λ n. arrive_all n ys (arrive_all (seq + 1) xs (arrived seq false x d))) shift

-- A unit that can be told from a fragment, and the header of which is a byte.
abbrev pub IsUnit : Nal → Type 0
IsUnit n = (n.nal_header < 256) × (bit_and n.nal_header 31 ≢ 28)

-- The frame with more units: a start code of four bytes stands before the first one, and one of three
-- before any other.
abbrev pub with_units : List ℕ → List Nal → List ℕ
with_units frame [] = frame
with_units frame (n ∷ ns) = with_units (frame ++ start_code_for frame ++ (n.nal_header ∷ n.body)) ns

-- The payloads of the units of a frame bring the frame to hold the units, each behind a start code; a
-- unit's header has to be a byte, and its type another one than 28.
pub frame_payloads-Holds :
    (ns : List Nal) (seq : ℕ) (frame : List ℕ) (d : RtpDepacketizer)
    → All IsUnit ns
    → Holds frame none d
    → Holds (with_units frame ns) none (arrive_all seq (frame_payloads ns) d)
frame_payloads-Holds [] seq frame d units held = held
frame_payloads-Holds (n ∷ ns) seq frame d ((byte, ne), units) held =
    let xs = unit_payloads n.nal_header n.body in
    let first = arrive_all seq xs d in
    subst (Holds (with_units frame (n ∷ ns)) none)
      (sym (arrive_all-append seq xs (frame_payloads ns) d))
      (frame_payloads-Holds ns (seq + length xs)
        (frame ++ start_code_for frame ++ (n.nal_header ∷ n.body)) first units
        (unit-Holds n.nal_header byte seq n.body frame d ne held))
