-- ===== src/ArgParser/Fields.antt =====
-- `parse_multi_arg` of wvb_server/src/arg_parser.cpp against the list of the fields of its argument.
use wireless_vr_bridge.Base.{
  ℕ, zero, suc, ◌+◌, ◌<◌, ◌≡◌, refl, arith, false, List, [], ◌∷◌, Option, none, some, if◌then◌else◌,
  ◌==◌, length, u32, Bool-cases, Option-cases, inl, inr,
}
use mathlib.Core.Path.{subst}
use wireless_vr_bridge.Base.Text.{split_at, prefix_with}
use wireless_vr_bridge.ArgParser.{
  Parsed, parsed, rejected, thrown, stuck, ◌>>=◌, multi_arg_loop, parse_multi_arg,
}

-- A character goes to the front of the first field.
abbrev pub in_first : ℕ → List (List ℕ) → List (List ℕ)
in_first c [] = []
in_first c (field ∷ fields) = (c ∷ field) ∷ fields

-- The fields between the ';'. There is always one.
abbrev pub split_fields : List ℕ → List (List ℕ)
split_fields [] = [] ∷ []
split_fields (c ∷ cs) = if c == b';' then [] ∷ split_fields cs else in_first c (split_fields cs)

-- Every field is parsed, with its index, in the state that the fields before it left.
abbrev pub parse_fields :
    {S : Type 0} → (List ℕ → ℕ → S → Parsed S) → List (List ℕ) → ℕ → S → Parsed (ℕ × S)
parse_fields parse_field [] i s = parsed (i, s)
parse_fields parse_field (field ∷ fields) i s =
    parse_field field i s >>= λ s'. parse_fields parse_field fields (u32 (i + 1)) s'

-- The first step of the code, on the list of fields.
abbrev Splits : List ℕ → Option (List ℕ × List ℕ) → Type 0
Splits arg none = split_fields arg ≡ arg ∷ []
Splits arg (some parts) =
    (split_fields arg ≡ parts.0 ∷ split_fields parts.1) × (length parts.1 < length arg)

Splits-after :
    (c : ℕ) (cs : List ℕ) (o : Option (List ℕ × List ℕ))
    → Splits cs o
    → (c == b';') ≡ false
    → Splits (c ∷ cs) (prefix_with c o)
Splits-after c cs none h e = rw (e, h) refl
Splits-after c cs (some parts) h e = rw (e, h.0) (refl, omega (arith, h.1))

split_at-Splits : (arg : List ℕ) → Splits arg (split_at b';' arg)
split_at-Splits [] = refl
split_at-Splits (c ∷ cs) = elim (Bool-cases (c == b';')) [
  | inl e ↦ rw e (rw e refl, omega arith)
  | inr e ↦ rw e (Splits-after c cs (split_at b';' cs) (split_at-Splits cs) e)
]

last_field :
    {S : Type 0} (parse_field : List ℕ → ℕ → S → Parsed S) (arg : List ℕ) (i : ℕ) (s : S)
    → (parse_field arg i s >>= λ s'. parsed (u32 (i + 1), s'))
      ≡ parse_fields parse_field (arg ∷ []) i s
last_field parse_field arg i s = refl

-- Ways to go on that agree everywhere agree after any first step.
same_after :
    {S T : Type 0} (next other : S → Parsed T) (first : Parsed S)
    → ((s : S) → next s ≡ other s)
    → (first >>= next) ≡ (first >>= other)
same_after next other (parsed s) agree = agree s
same_after next other rejected agree = refl
same_after next other thrown agree = refl
same_after next other stuck agree = refl

multi_arg_loop-fields :
    {S : Type 0} (parse_field : List ℕ → ℕ → S → Parsed S) (fuel : ℕ) (arg : List ℕ) (i : ℕ) (s : S)
    → length arg < fuel
    → multi_arg_loop parse_field fuel arg i s ≡ parse_fields parse_field (split_fields arg) i s
unfolding multi_arg_loop
multi_arg_loop-fields parse_field zero arg i s h = absurd (omega arith)
multi_arg_loop-fields parse_field (suc fuel) arg i s h = elim (Option-cases (split_at b';' arg)) [
  | inl e ↦ rw (e, subst (Splits arg) e (split_at-Splits arg)) refl
  | inr (parts, e) ↦
      let split : Splits arg (some parts) = subst (Splits arg) e (split_at-Splits arg) in
      rw (e, split.0)
        (same_after _ _ (parse_field parts.0 i s) (λ s'.
          multi_arg_loop-fields parse_field fuel parts.1 (u32 (i + 1)) s' (omega (arith, split.1))))
]

-- `parse_multi_arg` ends, and it parses the fields between the ';' in order, each with its index and in
-- the state that the fields before it left, up to the first that fails.
pub parse_multi_arg-fields :
    {S : Type 0} (parse_field : List ℕ → ℕ → S → Parsed S) (arg : List ℕ) (s : S)
    → parse_multi_arg parse_field arg s ≡ parse_fields parse_field (split_fields arg) 0 s
unfolding parse_multi_arg
parse_multi_arg-fields parse_field arg s =
    multi_arg_loop-fields parse_field (suc (length arg)) arg 0 s (omega arith)
