-- ===== src/Handshake/Reading.antt =====
-- The loop over the additional fields, `read_fields`: its fuel, and one field at a time.
use wireless_vr_bridge.Base.{
  ℕ, zero, suc, ◌+◌, ◌^◌, ◌≤◌, ◌<◌, ◌≡◌, refl, ap, ◌∙◌, arith, false, List, [], ◌∷◌, ◌++◌, ltb,
  ◌==◌, length, drop, length-drop, length-append, take-length-append, drop-length-append, replicate,
  sub64, lt→ltb, leb→ltb_false, if_else_congr, u8,
}
use wireless_vr_bridge.Vrcp.{
  VrcpRejectReason, to_u8, manufacturer_name_tlv, system_name_tlv, supported_video_codecs_tlv,
}
use wireless_vr_bridge.Handshake.Fields.{
  RequestFields, FieldsRead, fields_read, additional_field, read_fields, read_field, read_text,
  after_field, split_by_comma,
}

-- Any fuel that is not below the length of the memory gives the same result.
pub read_fields-enough :
    (fuel fuel' : ℕ) (memory : List ℕ) (remaining_size : ℕ) (f : RequestFields)
    → length memory ≤ fuel
    → length memory ≤ fuel'
    → read_fields fuel memory remaining_size f ≡ read_fields fuel' memory remaining_size f
unfolding read_fields
read_fields-enough zero zero [] remaining_size f h h' = refl
read_fields-enough zero (suc fuel') [] remaining_size f h h' = refl
read_fields-enough (suc fuel) zero [] remaining_size f h h' = refl
read_fields-enough (suc fuel) (suc fuel') [] remaining_size f h h' = refl
read_fields-enough (suc fuel) (suc fuel') (type ∷ []) remaining_size f h h' = refl
read_fields-enough (suc fuel) (suc fuel') (type ∷ len ∷ value) remaining_size f h h' =
    if_else_congr (ltb remaining_size 2) (fields_read f) (λ e.
      ap (λ next. after_field next (read_field type len remaining_size value f))
        (λ i f'.
          read_fields-enough fuel fuel' (drop len value) (sub64 remaining_size (len + 2)) f'
            (omega (arith, length-drop len value)) (omega (arith, length-drop len value)) i))
read_fields-enough zero fuel' (b ∷ bs) remaining_size f h h' = absurd (omega arith)
read_fields-enough (suc fuel) zero (b ∷ bs) remaining_size f h h' = absurd (omega arith)

-- The loop with the fuel that the code's model gives it.
abbrev pub read_from : List ℕ → ℕ → RequestFields → FieldsRead
read_from memory remaining_size f = read_fields (length memory) memory remaining_size f

read_from-done :
    (memory : List ℕ) (remaining_size : ℕ) (f : RequestFields)
    → remaining_size < 2
    → read_from memory remaining_size f ≡ fields_read f
unfolding read_fields
read_from-done [] remaining_size f h = rw (lt→ltb remaining_size 2 h) refl
read_from-done (b ∷ []) remaining_size f h = rw (lt→ltb remaining_size 2 h) refl
read_from-done (b ∷ b' ∷ bs) remaining_size f h = rw (lt→ltb remaining_size 2 h) refl

read_from-field :
    (type : ℕ) (value rest : List ℕ) (remaining_size : ℕ) (f : RequestFields)
    → length value < 256
    → remaining_size + length value + 2 < 2 ^ 64
    → read_from (additional_field type value ++ rest) (length value + 2 + remaining_size) f
      ≡ after_field
          (read_from rest remaining_size)
          (read_field type (length value) (length value + 2 + remaining_size) (value ++ rest) f)
unfolding read_fields
read_from-field type value rest remaining_size f small fits =
    let size : u8 (length value) ≡ length value = omega arith in
    let more : ltb (length value + 2 + remaining_size) 2 ≡ false =
      leb→ltb_false _ _ (omega arith) in
    let left : sub64 (length value + 2 + remaining_size) (length value + 2) ≡ remaining_size =
      omega arith in
    rw (size, more, left, drop-length-append (length value) value rest refl)
      (ap
        (λ next.
          after_field next
            (read_field type (length value) (length value + 2 + remaining_size) (value ++ rest) f))
        (λ i f'.
          read_fields-enough (suc (length (value ++ rest))) (length rest) rest remaining_size f'
            (omega (arith, length-append value rest)) (omega arith) i))

-- The zeros that fill the last row are at most one field of an unknown type.
pub read_from-padding :
    (padding : ℕ) (rest : List ℕ) (f : RequestFields)
    → padding < 4
    → read_from (replicate padding 0 ++ rest) padding f ≡ fields_read f
unfolding read_field
read_from-padding zero rest f h = read_from-done rest 0 f (omega arith)
read_from-padding (suc zero) rest f h = read_from-done (0 ∷ rest) 1 f (omega arith)
read_from-padding (suc (suc padding)) rest f h =
    let size : suc (suc padding) ≡ 2 + padding = omega arith in
    ap (λ left. read_from (0 ∷ 0 ∷ replicate padding 0 ++ rest) left f) size
    ∙ read_from-field 0 [] (replicate padding 0 ++ rest) padding f (omega arith) (omega arith)
    ∙ read_from-done (replicate padding 0 ++ rest) padding f (omega arith)

-- A text that is not empty and lies in the packet is stored.
read_text-stores :
    (refusal : VrcpRejectReason) (store : List ℕ → RequestFields) (value rest : List ℕ) (left : ℕ)
    → 0 < length value
    → read_text refusal store (length value) (length value + 2 + left) (value ++ rest)
      ≡ fields_read (store value)
read_text-stores refusal store value rest left h =
    let some_bytes : (length value == 0) ≡ false = ground arith in
    let in_packet : ltb (length value + 2 + left) (length value + 2) ≡ false =
      leb→ltb_false _ _ (omega arith) in
    let in_memory : ltb (length (value ++ rest)) (length value) ≡ false =
      leb→ltb_false _ _ (omega (arith, length-append value rest)) in
    rw (some_bytes, in_packet, in_memory, take-length-append (length value) value rest refl) refl

module _ (value rest : List ℕ) (left : ℕ) (f : RequestFields) (some_bytes : 0 < length value)
    (small : length value < 256) (fits : left + length value + 2 < 2 ^ 64) where
  pub read_from-manufacturer :
      read_from
        (additional_field (to_u8 manufacturer_name_tlv) value ++ rest)
        (length value + 2 + left)
        f
      ≡ read_from rest left (record f { manufacturer_name = value })
  unfolding read_field
  read_from-manufacturer =
      read_from-field (to_u8 manufacturer_name_tlv) value rest left f small fits
      ∙ ap (after_field (read_from rest left)) (
          read_text-stores _ (λ text. record f { manufacturer_name = text }) value rest left
            some_bytes)

  pub read_from-system :
      read_from (additional_field (to_u8 system_name_tlv) value ++ rest) (length value + 2 + left) f
      ≡ read_from rest left (record f { system_name = value })
  unfolding read_field
  read_from-system =
      read_from-field (to_u8 system_name_tlv) value rest left f small fits
      ∙ ap (after_field (read_from rest left))
          (read_text-stores _ (λ text. record f { system_name = text }) value rest left some_bytes)

  pub read_from-codecs :
      read_from
        (additional_field (to_u8 supported_video_codecs_tlv) value ++ rest)
        (length value + 2 + left)
        f
      ≡ read_from rest left
          (record f { supported_video_codecs = f.supported_video_codecs ++ split_by_comma value })
  unfolding read_field
  read_from-codecs =
      read_from-field (to_u8 supported_video_codecs_tlv) value rest left f small fits
      ∙ ap (after_field (read_from rest left)) (
          read_text-stores _
            (λ text. record f {
              supported_video_codecs = f.supported_video_codecs ++ split_by_comma text;
            })
            value rest left some_bytes)
