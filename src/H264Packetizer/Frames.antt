-- ===== src/H264Packetizer/Frames.antt =====
-- The fragments of a unit, and the unit as a whole, in the sending loop.
use mathlib.Core.Path.{subst}
use wireless_vr_bridge.Base.{
  ℕ, zero, suc, ◌+◌, ◌*◌, ◌/◌, ◌%◌, ◌≤◌, ◌<◌, ◌≡◌, ◌≢◌, refl, sym, ◌∙◌, arith, Bool, true, false,
  List, [], ◌∷◌, ◌++◌, length, take, drop, ltb, append_assoc, length-take, length-drop,
  take-append-drop, inl, inr, Bool-cases, ltb→lt,
}
use wireless_vr_bridge.Rtp.{RtpHeader}
use wireless_vr_bridge.Packetizer.{Out}
use wireless_vr_bridge.H264Packetizer.{create_next_packet, is_at_end}
use wireless_vr_bridge.H264Packetizer.Units.{IsClean, EndsUnit, code_bytes, IsClean-append}
use wireless_vr_bridge.H264Packetizer.Next.{
  at_head, sending, first_fragment, middle_fragment, last_fragment, next_single, next_first,
  next_middle, next_last,
}
use wireless_vr_bridge.H264Packetizer.Payloads.{
  is_last, rtp_packets, fragments, unit_payloads, Sends, Continues, payload-Sends,
}

-- What `next_middle` and `next_first` say, of any two parts that are not empty.
middle_step :
    (header : RtpHeader) (seq : ℕ) (last : Bool) (h : ℕ) (a b rest : List ℕ)
    → h ≢ 0
    → IsClean a (b ++ rest)
    → length a ≡ 1400
    → 0 < length b
    → (out : Out)
    → create_next_packet (at_head header seq last ((a ++ b) ++ rest) h) out
      ≡ sending header seq last (b ++ rest) h (middle_fragment h a)
middle_step header seq last h [] b rest ne c l lb out = absurd (omega arith)
middle_step header seq last h (x ∷ a) [] rest ne c l lb out = absurd (omega arith)
middle_step header seq last h (x ∷ a) (y ∷ b) rest ne c l lb out =
    rw (append_assoc a (y ∷ b) rest) (next_middle header seq last out h x a y (b ++ rest) ne c l)

first_step :
    (header : RtpHeader) (seq : ℕ) (last code : Bool) (h : ℕ) (a b rest : List ℕ)
    → IsClean (h ∷ a) (b ++ rest)
    → length a ≡ 1399
    → 0 < length b
    → (out : Out)
    → create_next_packet
        (at_head header seq last (code_bytes code ++ (h ∷ ((a ++ b) ++ rest))) 0)
        out
      ≡ sending header seq last (b ++ rest) h (first_fragment h a)
first_step header seq last code h a [] rest c l lb out = absurd (omega arith)
first_step header seq last code h a (y ∷ b) rest c l lb out =
    rw (append_assoc a (y ∷ b) rest)
      (next_first header seq last out code h a y (b ++ rest) c (omega arith))

last_step :
    (header : RtpHeader) (seq : ℕ) (last : Bool) (h : ℕ) (v rest : List ℕ)
    → h ≢ 0
    → IsClean v rest
    → EndsUnit rest
    → 0 < length v
    → length v < 1400
    → (out : Out)
    → create_next_packet (at_head header seq last (v ++ rest) h) out
      ≡ sending header seq last rest 0 (last_fragment h v)
last_step header seq last h [] rest ne c ends pos l out = absurd (omega arith)
last_step header seq last h (x ∷ v) rest ne c ends pos l out =
    next_last header seq last out h x v rest ne c ends l

more_fragments :
    (k h : ℕ) (v : List ℕ) (xs : List (List ℕ)) → is_last (fragments k h v ++ xs) ≡ false
more_fragments zero h v xs = refl
more_fragments (suc k) h v xs = refl

more_bytes : (b rest : List ℕ) → 0 < length b → is_at_end (b ++ rest) ≡ false
more_bytes [] rest l = absurd (omega arith)
more_bytes (y ∷ b) rest l = refl

pub ltb_false→le : (a b : ℕ) → ltb a b ≡ false → b ≤ a
ltb_false→le a b h = ground arith

split-IsClean :
    (k : ℕ) (v rest : List ℕ)
    → IsClean v rest
    → IsClean (take k v) (drop k v ++ rest) × IsClean (drop k v) rest
split-IsClean k v rest c =
    IsClean-append (take k v) (drop k v) rest
      (subst (λ t. IsClean t rest) (sym (take-append-drop k v)) c)

module _ (connected : ℕ → Bool) (stays : (n : ℕ) → connected n ≡ true) (last : Bool) where
  fragments-Sends :
      (k h : ℕ) (v rest : List ℕ) (r : ℕ) (xs : List (List ℕ))
      → h ≢ 0
      → IsClean v rest
      → EndsUnit rest
      → length v ≡ k * 1400 + r
      → 0 < r
      → r < 1400
      → Continues connected stays last rest 0 xs
      → (header : RtpHeader) (seq : ℕ)
      → Sends connected stays last
          (at_head header seq last (v ++ rest) h)
          (rtp_packets header seq last (fragments k h v ++ xs))
  fragments-Sends zero h v rest r xs ne c ends l pos below go header seq =
      payload-Sends connected stays last header seq (v ++ rest) h rest 0 (last_fragment h v) xs
        (last_step header seq last h v rest ne c ends (omega arith) (omega arith)) go
  fragments-Sends (suc k) h v rest r xs ne c ends l pos below go header seq =
      let (clean_front, clean_back) = split-IsClean 1400 v rest c in
      let left : 0 < length (drop 1400 v) = omega (arith, length-drop 1400 v) in
      payload-Sends connected stays last header seq (v ++ rest) h (drop 1400 v ++ rest) h
        (middle_fragment h (take 1400 v)) (fragments k h (drop 1400 v) ++ xs)
        (subst
          (λ t.
            (out : Out)
            → create_next_packet (at_head header seq last (t ++ rest) h) out
              ≡ sending header seq last (drop 1400 v ++ rest) h (middle_fragment h (take 1400 v)))
          (take-append-drop 1400 v)
          (middle_step header seq last h (take 1400 v) (drop 1400 v) rest ne clean_front
            (omega (arith, length-take 1400 v)) left))
        (
          more_bytes (drop 1400 v) rest left ∙ sym (more_fragments k h (drop 1400 v) xs),
          λ more.
              fragments-Sends k h (drop 1400 v) rest r xs ne clean_back ends
                (omega (arith, length-drop 1400 v)) pos below go,
        )

  -- A unit that is longer than a packet.
  long-Sends :
      (code : Bool) (h : ℕ) (u rest : List ℕ) (xs : List (List ℕ))
      → h ≢ 0
      → IsClean (h ∷ u) rest
      → EndsUnit rest
      → 0 < length (drop 1399 u) % 1400
      → 1400 ≤ length u
      → Continues connected stays last rest 0 xs
      → (header : RtpHeader) (seq : ℕ)
      → Sends connected stays last
          (at_head header seq last (code_bytes code ++ (h ∷ (u ++ rest))) 0)
          (rtp_packets header seq last (
            first_fragment h (take 1399 u)
            ∷ (fragments (length (drop 1399 u) / 1400) h (drop 1399 u) ++ xs)))
  long-Sends code h u rest xs ne c ends pos l go header seq =
      let back = drop 1399 u in
      let k = length back / 1400 in
      let (clean_front, clean_back) = split-IsClean 1400 (h ∷ u) rest c in
      let left : 0 < length (drop 1399 u) = omega (arith, length-drop 1399 u) in
      payload-Sends connected stays last header seq (code_bytes code ++ (h ∷ (u ++ rest))) 0
        (back ++ rest) h (first_fragment h (take 1399 u)) (fragments k h back ++ xs)
        (subst
          (λ t.
            (out : Out)
            → create_next_packet (at_head header seq last (code_bytes code ++ (h ∷ (t ++ rest))) 0)
                out
              ≡ sending header seq last (back ++ rest) h (first_fragment h (take 1399 u)))
          (take-append-drop 1399 u)
          (first_step header seq last code h (take 1399 u) back rest clean_front
            (omega (arith, length-take 1399 u)) left))
        (
          more_bytes back rest left ∙ sym (more_fragments k h back xs),
          λ more.
              fragments-Sends k h back rest (length back % 1400) xs ne clean_back ends (omega arith)
                pos (omega arith) go,
        )

  pub unit-Sends :
      (code : Bool) (h : ℕ) (u rest : List ℕ) (xs : List (List ℕ))
      → h ≢ 0
      → IsClean (h ∷ u) rest
      → EndsUnit rest
      → 0 < length (h ∷ u) % 1400
      → Continues connected stays last rest 0 xs
      → (header : RtpHeader) (seq : ℕ)
      → Sends connected stays last
          (at_head header seq last (code_bytes code ++ (h ∷ (u ++ rest))) 0)
          (rtp_packets header seq last (unit_payloads h u ++ xs))
  unit-Sends code h u rest xs ne c ends l go header seq =
      elim (Bool-cases (ltb (length (h ∷ u)) 1400)) [
        | inl short ↦ rw short (
            payload-Sends connected stays last header seq (code_bytes code ++ (h ∷ (u ++ rest))) 0
              rest 0 (h ∷ u) xs
              (λ out.
                next_single header seq last out code h u rest c ends
                  (ltb→lt (length (h ∷ u)) 1400 short))
              go)
        | inr long ↦
            let far = ltb_false→le (length (h ∷ u)) 1400 long in
            rw long (
              long-Sends code h u rest xs ne c ends (omega (arith, length-drop 1399 u))
                (omega arith) go header seq)
      ]
