-- ===== src/H264Packetizer/Bounded.antt =====
-- The loop that looks for the end of a unit: it ends, and counts no more bytes than fit a packet.
use wireless_vr_bridge.Base.{
  ℕ, zero, suc, ◌+◌, ◌≤◌, ◌<◌, ◌≡◌, ◌≢◌, refl, ap, ◌∙◌, arith, false, List, [], ◌∷◌, length,
  if◌then◌else◌, if_both, Option-cases, ltb, ltb→lt, ◌==◌, length-drop, inl, inr,
}
use wireless_vr_bridge.H264Packetizer.{
  Scan, Step, break_at, continue_at, scan, scan_step, at_byte, at_start_code, after_step,
  start_code,
}

abbrev outcome : Step → Scan
outcome (break_at s) = s
outcome (continue_at s) = s

-- A packet holds 1400 bytes of a unit at most, and what is counted is taken from the `L` bytes at the head.
pub record IsBounded (L : ℕ) (s : Scan) : Type 0 where
  pub counted : s.nal_size ≤ 1400
  pub taken : length s.current + s.nal_size ≤ L

module _ (L : ℕ) where
  byte-IsBounded :
      (b : ℕ) (rest : List ℕ) (s : Scan)
      → s.current ≡ b ∷ rest
      → s.nal_size < 1400
      → IsBounded L s
      → IsBounded L (at_byte b rest s)
  byte-IsBounded b rest s e l v =
      if_both (IsBounded L) s.is_nalu_start _ _
        (λ start. record { counted = omega arith; taken = omega (arith, v.taken, ap length e) })
        (λ mid. record { counted = omega arith; taken = omega (arith, v.taken, ap length e) })

  code-IsBounded : (k : ℕ) (s : Scan) → IsBounded L s → IsBounded L (outcome (at_start_code k s))
  code-IsBounded k s v = elim (Option-cases s.nal_start) [
    | inl e ↦
        rw e
          (record { counted = v.counted; taken = omega (arith, v.taken, length-drop k s.current) })
    | inr (start, e) ↦ rw e (record { counted = v.counted; taken = v.taken })
  ]

  step-IsBounded :
      (current : List ℕ) (s : Scan)
      → s.current ≡ current
      → s.nal_size < 1400
      → IsBounded L s
      → IsBounded L (outcome (scan_step current s))
  step-IsBounded [] s e l v = v
  step-IsBounded (b ∷ rest) s e l v =
      if_both (λ st. IsBounded L (outcome st)) (start_code (b ∷ rest) == 0) _ _
        (λ byte. byte-IsBounded b rest s e l v) (λ code. code-IsBounded (start_code (b ∷ rest)) s v)

  after-IsBounded :
      (next : Scan → Scan) (st : Step)
      → ((t : Scan) → IsBounded L t → IsBounded L (next t))
      → IsBounded L (outcome st)
      → IsBounded L (after_step next st)
  after-IsBounded next (break_at t) keeps v = v
  after-IsBounded next (continue_at t) keeps v = keeps t v

  pub scan-IsBounded : (fuel : ℕ) (s : Scan) → IsBounded L s → IsBounded L (scan fuel s)
  unfolding scan
  scan-IsBounded zero s v = v
  scan-IsBounded (suc fuel) s v =
      if_both (IsBounded L) (ltb s.nal_size 1400) _ _
        (λ l.
          after-IsBounded (scan fuel) (scan_step s.current s) (scan-IsBounded fuel)
            (step-IsBounded s.current s refl (ltb→lt s.nal_size 1400 l) v))
        (λ full. v)

-- A round that goes on moves the pointer forward.
abbrev IsForward : ℕ → Step → Type 0
IsForward n (break_at s) = Unit
IsForward n (continue_at s) = length s.current < n

pub ==_false : (a : ℕ) → (a == 0) ≡ false → a ≢ 0
==_false a h = ground arith

code-IsForward :
    (k n : ℕ) (s : Scan) → length s.current ≡ suc n → k ≢ 0 → IsForward (suc n) (at_start_code k s)
code-IsForward k n s e ne = elim (Option-cases s.nal_start) [
  | inl o ↦ rw o (omega (arith, length-drop k s.current))
  | inr (start, o) ↦ rw o _
]

step-IsForward :
    (current : List ℕ) (s : Scan)
    → s.current ≡ current
    → IsForward (length current) (scan_step current s)
step-IsForward [] s e = _
step-IsForward (b ∷ rest) s e =
    if_both (IsForward (suc (length rest))) (start_code (b ∷ rest) == 0) _ _
      (λ byte.
        if_both (λ (t : Scan). length t.current < suc (length rest)) s.is_nalu_start _ _
          (λ start. omega arith) (λ mid. omega arith))
      (λ code.
        code-IsForward (start_code (b ∷ rest)) (length rest) s (ap length e)
          (==_false (start_code (b ∷ rest)) code))

after_congr :
    (n : ℕ) (next next' : Scan → Scan) (st : Step)
    → IsForward n st
    → ((t : Scan) → length t.current < n → next t ≡ next' t)
    → after_step next st ≡ after_step next' st
after_congr n next next' (break_at t) f same = refl
after_congr n next next' (continue_at t) f same = same t f

one_round_more : (fuel : ℕ) (s : Scan) → length s.current < fuel → scan (suc fuel) s ≡ scan fuel s
unfolding scan
one_round_more zero s l = absurd (omega arith)
one_round_more (suc fuel) s l =
    ap (λ t. if ltb s.nal_size 1400 then t else s)
      (after_congr (length s.current) (scan (suc fuel)) (scan fuel) (scan_step s.current s)
        (step-IsForward s.current s refl) (λ t shorter. one_round_more fuel t (omega arith)))

-- The loop that looks for the end of a unit ends: one round more than there are bytes is enough, and
-- any further fuel changes nothing.
pub scan_ends : (k fuel : ℕ) (s : Scan) → length s.current < fuel → scan (k + fuel) s ≡ scan fuel s
scan_ends zero fuel s l = let same : 0 + fuel ≡ fuel = omega arith in ap (λ n. scan n s) same
scan_ends (suc k) fuel s l =
    let one : suc k + fuel ≡ suc (k + fuel) = omega arith in
    ap (λ n. scan n s) one ∙ one_round_more (k + fuel) s (omega arith) ∙ scan_ends k fuel s l
