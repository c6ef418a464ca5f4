-- ===== src/Handshake/Texts.antt =====
-- The codecs' field of a CONN_REQ: what the loops of `connect` write, and what the server's loop reads
-- from it.
use wireless_vr_bridge.Base.{
  ℕ, ◌+◌, ◌≤◌, ◌<◌, ◌≡◌, ◌≢◌, refl, ap, ◌∙◌, arith, false, true, List, [], ◌∷◌, ◌++◌, append-nil,
  ltb, ==_of_ne, length, min, All, take-all, length-append, lt→ltb, leb→ltb_false,
}
use wireless_vr_bridge.Handshake.Fields.{split_by_comma}
use wireless_vr_bridge.Handshake.Request.{written_codecs, codecs_size}

-- A codec's name: some bytes, at most as many as are sent, and no comma.
abbrev pub IsCodec : List ℕ → Type 0
IsCodec codec = (0 < length codec) × (length codec ≤ 32) × All (λ b. b ≢ b',') codec

-- The names with a comma between any two of them.
abbrev pub joined : List (List ℕ) → List ℕ
joined [] = []
joined (c ∷ []) = c
joined (c ∷ d ∷ ds) = c ++ b',' ∷ joined (d ∷ ds)

split_by_comma-append :
    (c rest : List ℕ)
    → All (λ b. b ≢ b',') c
    → split_by_comma (c ++ b',' ∷ rest) ≡ c ∷ split_by_comma rest
split_by_comma-append [] rest h = refl
split_by_comma-append (b ∷ bs) rest h =
    rw (==_of_ne b b',' h.0, split_by_comma-append bs rest h.1) refl

split_by_comma-one :
    (b : ℕ) (bs : List ℕ) → All (λ b. b ≢ b',') (b ∷ bs) → split_by_comma (b ∷ bs) ≡ (b ∷ bs) ∷ []
split_by_comma-one b [] h = rw (==_of_ne b b',' h.0) refl
split_by_comma-one b (b' ∷ bs) h = rw (==_of_ne b b',' h.0, split_by_comma-one b' bs h.1) refl

pub split_by_comma-joined :
    (codecs : List (List ℕ)) → All IsCodec codecs → split_by_comma (joined codecs) ≡ codecs
split_by_comma-joined [] h = refl
split_by_comma-joined ([] ∷ []) h = absurd (omega (arith, h))
split_by_comma-joined ((b ∷ bs) ∷ []) h = split_by_comma-one b bs h.0.2
split_by_comma-joined (c ∷ d ∷ ds) h =
    split_by_comma-append c (joined (d ∷ ds)) h.0.2
    ∙ ap (λ t. c ∷ t) (split_by_comma-joined (d ∷ ds) h.1)

pub length-joined_pos :
    (c : List ℕ) (cs : List (List ℕ)) → All IsCodec (c ∷ cs) → 0 < length (joined (c ∷ cs))
length-joined_pos c [] h = h.0.0
length-joined_pos c (d ∷ ds) h = omega (arith, length-append c (b',' ∷ joined (d ∷ ds)), h.0.0)

pub written_codecs-joined :
    (field_length offset : ℕ) (codecs : List (List ℕ))
    → All IsCodec codecs
    → offset + length (joined codecs) ≡ field_length
    → written_codecs field_length offset codecs ≡ joined codecs
written_codecs-joined field_length offset [] h e = refl
written_codecs-joined field_length offset (c ∷ []) h e =
    let full : ltb (offset + min (length c) 32) field_length ≡ false =
      leb→ltb_false _ _ (omega (arith, h)) in
    rw (full, take-all 32 c h.0.1) (append-nil c)
written_codecs-joined field_length offset (c ∷ d ∷ ds) h e =
    let size = length-append c (b',' ∷ joined (d ∷ ds)) in
    let more : ltb (offset + min (length c) 32) field_length ≡ true =
      lt→ltb _ _ (omega (arith, h.0.1, size, e)) in
    let rest =
      written_codecs-joined field_length (offset + min (length c) 32 + 1) (d ∷ ds) h.1
        (omega (arith, h.0.1, size, e)) in
    rw (more, take-all 32 c h.0.1) (ap (λ t. c ++ b',' ∷ t) rest)

codecs_size-more :
    (size : ℕ) (c : List ℕ) (cs : List (List ℕ))
    → All IsCodec (c ∷ cs)
    → 2 < size
    → codecs_size size (c ∷ cs) ≡ size + 1 + length (joined (c ∷ cs))
codecs_size-more size c [] h l = rw (lt→ltb 2 size l) (omega (arith, h.0.1))
codecs_size-more size c (d ∷ ds) h l = rw (lt→ltb 2 size l) (
    codecs_size-more (size + 1 + min (length c) 32) d ds h.1 (omega arith)
    ∙ omega (arith, h.0.1, length-append c (b',' ∷ joined (d ∷ ds))))

pub codecs_size-joined :
    (codecs : List (List ℕ))
    → All IsCodec codecs
    → codecs_size 2 codecs ≡ 2 + length (joined codecs)
codecs_size-joined [] h = refl
codecs_size-joined (c ∷ []) h = omega (arith, h.0.1)
codecs_size-joined (c ∷ d ∷ ds) h =
    codecs_size-more (2 + min (length c) 32) d ds h.1 (omega (arith, h.0.0))
    ∙ omega (arith, h.0.1, length-append c (b',' ∷ joined (d ∷ ds)))
