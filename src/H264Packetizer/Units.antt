-- ===== src/H264Packetizer/Units.antt =====
-- The loop of `H264RtpPacketizer::create_next_packet` that looks for the end of a unit.
use wireless_vr_bridge.Base.{
  ℕ, zero, suc, ◌+◌, ◌≤◌, ◌<◌, ◌≡◌, ◌≢◌, refl, ap, ap₂, ◌∙◌, arith, Bool, true, false, List, [],
  ◌∷◌, ◌++◌, none, some, length, if◌then◌else◌, ltb, lt→ltb, ==_of_ne, ◌⊎◌, inl, inr, not, sym,
  append_assoc,
}
use wireless_vr_bridge.H264Packetizer.{Scan, scan, start_code, is_at_end}

-- No start code begins at a byte of `u`, which stands before `rest`.
abbrev pub IsClean : List ℕ → List ℕ → Type 0
IsClean [] rest = Unit
IsClean (b ∷ u) rest = (start_code (b ∷ u ++ rest) ≡ 0) × IsClean u rest

if_same : {A : Type 0} (b : Bool) (a : A) → (if b then a else a) ≡ a
if_same true a = refl
if_same false a = refl

-- The variables inside of a unit, `n` bytes after its start.
abbrev pub inside : ℕ → List ℕ → List ℕ → ℕ → Scan
inside n current start h = record {
  is_nalu_start = false;
  nal_size = n;
  current = current;
  nal_start = some start;
  nalu_header = h;
}

pub scan_byte :
    (fuel n b : ℕ) (rest start : List ℕ) (h : ℕ)
    → n < 1400
    → start_code (b ∷ rest) ≡ 0
    → scan (suc fuel) (inside n (b ∷ rest) start h) ≡ scan fuel (inside (n + 1) rest start h)
unfolding scan
scan_byte fuel n b rest start h l e = rw (lt→ltb n 1400 l, e) refl

-- The loop passes over the bytes of a unit, and a round is spent on each.
pub scan_clean :
    (u rest : List ℕ) (fuel left n : ℕ) (start : List ℕ) (h : ℕ)
    → IsClean u rest
    → n + length u ≤ 1400
    → fuel ≡ length u + left
    → scan fuel (inside n (u ++ rest) start h) ≡ scan left (inside (n + length u) rest start h)
scan_clean [] rest fuel left n start h c l f =
    let none_spent : fuel ≡ left = omega arith in
    let none_added : n ≡ n + 0 = omega arith in
    ap₂ (λ k m. scan k (inside m rest start h)) none_spent none_added
scan_clean (b ∷ u) rest zero left n start h c l f = absurd (omega arith)
scan_clean (b ∷ u) rest (suc fuel) left n start h (e, c) l f =
    let shift : n + 1 + length u ≡ n + suc (length u) = omega arith in
    scan_byte fuel n b (u ++ rest) start h (omega arith) e
    ∙ scan_clean u rest fuel left (n + 1) start h c (omega arith) (omega arith)
    ∙ ap (λ m. scan left (inside m rest start h)) shift

pub scan_at_end :
    (fuel n : ℕ) (start : List ℕ) (h : ℕ) → scan fuel (inside n [] start h) ≡ inside n [] start h
unfolding scan
scan_at_end zero n start h = refl
scan_at_end (suc fuel) n start h = if_same (ltb n 1400) (inside n [] start h)

pub scan_full :
    (fuel : ℕ) (rest start : List ℕ) (h : ℕ)
    → scan fuel (inside 1400 rest start h) ≡ inside 1400 rest start h
unfolding scan
scan_full zero rest start h = refl
scan_full (suc fuel) rest start h = refl

pub scan_at_code :
    (fuel n : ℕ) (rest start : List ℕ) (h : ℕ)
    → n < 1400
    → start_code rest ≢ 0
    → scan (suc fuel) (inside n rest start h)
      ≡ record (inside n rest start h) { is_nalu_start = true }
unfolding scan
scan_at_code fuel n [] start h l ne = absurd (ne refl)
scan_at_code fuel n (b ∷ rest) start h l ne =
    rw (lt→ltb n 1400 l, ==_of_ne (start_code (b ∷ rest)) 0 ne) refl

-- What may stand behind a unit: nothing, or the next start code.
abbrev pub EndsUnit : List ℕ → Type 0
EndsUnit rest = (rest ≡ []) ⊎ (start_code rest ≢ 0)

-- The variables where the loop ends with the unit.
abbrev pub ended : ℕ → List ℕ → List ℕ → ℕ → Scan
ended n rest start h = record (inside n rest start h) { is_nalu_start = not (is_at_end rest) }

scan_at_rest :
    (rest : List ℕ) (fuel n : ℕ) (start : List ℕ) (h : ℕ)
    → EndsUnit rest
    → n < 1400
    → scan (suc fuel) (inside n rest start h) ≡ ended n rest start h
scan_at_rest [] fuel n start h e l = scan_at_end (suc fuel) n start h
scan_at_rest (b ∷ rest) fuel n start h (inl e) l = absurd (omega (arith, ap length e))
scan_at_rest (b ∷ rest) fuel n start h (inr ne) l = scan_at_code fuel n (b ∷ rest) start h l ne

pub scan_to_end :
    (u rest : List ℕ) (fuel left n : ℕ) (start : List ℕ) (h : ℕ)
    → IsClean u rest
    → EndsUnit rest
    → n + length u < 1400
    → fuel ≡ length u + suc left
    → scan fuel (inside n (u ++ rest) start h) ≡ ended (n + length u) rest start h
scan_to_end u rest fuel left n start h c e l f =
    scan_clean u rest fuel (suc left) n start h c (omega arith) f
    ∙ scan_at_rest rest left (n + length u) start h e l

pub scan_to_cut :
    (u rest : List ℕ) (fuel left n : ℕ) (start : List ℕ) (h : ℕ)
    → IsClean u rest
    → n + length u ≡ 1400
    → fuel ≡ length u + left
    → scan fuel (inside n (u ++ rest) start h) ≡ inside 1400 rest start h
scan_to_cut u rest fuel left n start h c l f =
    scan_clean u rest fuel left n start h c (omega arith) f
    ∙ ap (λ m. scan left (inside m rest start h)) l
    ∙ scan_full left rest start h

-- The two start codes.
abbrev pub code_bytes : Bool → List ℕ
code_bytes true = 0 ∷ 0 ∷ 1 ∷ []
code_bytes false = 0 ∷ 0 ∷ 0 ∷ 1 ∷ []

-- The first two rounds pass over the start code and the header of the unit.
pub scan_header :
    (code : Bool) (h : ℕ) (u : List ℕ) (fuel h0 : ℕ)
    → start_code (h ∷ u) ≡ 0
    → scan (suc (suc fuel)) (record {
      is_nalu_start = false;
      nal_size = 0;
      current = code_bytes code ++ h ∷ u;
      nal_start = none;
      nalu_header = h0;
    })
      ≡ scan fuel (inside 1 u (h ∷ u) h)
unfolding scan
scan_header true h u fuel h0 e = rw e refl
scan_header false h u fuel h0 e = rw e refl

pub IsClean-append :
    (u v rest : List ℕ) → IsClean (u ++ v) rest → IsClean u (v ++ rest) × IsClean v rest
IsClean-append [] v rest c = (_, c)
IsClean-append (b ∷ u) v rest (e, c) =
    let (cu, cv) = IsClean-append u v rest c in
    ((ap (λ t. start_code (b ∷ t)) (sym (append_assoc u v rest)) ∙ e, cu), cv)
