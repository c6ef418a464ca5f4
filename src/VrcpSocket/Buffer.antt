-- ===== src/VrcpSocket/Buffer.antt =====
-- The bytes of a reception buffer between its indices, and how the operations on the buffer change them.
use wireless_vr_bridge.Base.{
  ℕ, zero, suc, ◌+◌, ◌-◌, ◌≤◌, ◌<◌, ◌≡◌, refl, sym, ap, ◌∙◌, arith, List, [], ◌∷◌, ◌++◌, length,
  get_or, take, drop, length-take, length-drop, length-append, take-length-append, ltb, if_both,
}
use wireless_vr_bridge.VrcpSocket.{Reception, write_at, move_to_front}

take-take : (n m : ℕ) (xs : List ℕ) → n ≤ m → take n (take m xs) ≡ take n xs
take-take zero m xs h = refl
take-take (suc n) zero xs h = absurd (omega arith)
take-take (suc n) (suc m) [] h = refl
take-take (suc n) (suc m) (x ∷ xs) h = ap (λ t. x ∷ t) (take-take n m xs (omega arith))

drop-nil : (n : ℕ) → drop {A = ℕ} n [] ≡ []
drop-nil zero = refl
drop-nil (suc n) = refl

take-nil : (n : ℕ) → take {A = ℕ} n [] ≡ []
take-nil zero = refl
take-nil (suc n) = refl

drop-take : (n m k : ℕ) (xs : List ℕ) → k ≡ m - n → drop n (take m xs) ≡ take k (drop n xs)
drop-take zero m k xs e = ap (λ t. take t xs) (omega (arith, e))
drop-take (suc n) zero zero xs e = refl
drop-take (suc n) zero (suc k) xs e = absurd (omega (arith, e))
drop-take (suc n) (suc m) k [] e = sym (take-nil k)
drop-take (suc n) (suc m) k (x ∷ xs) e = drop-take n m k xs (omega (arith, e))

drop-drop : (n m k : ℕ) (xs : List ℕ) → k ≡ m + n → drop n (drop m xs) ≡ drop k xs
drop-drop n zero k xs e = ap (λ t. drop t xs) (omega (arith, e))
drop-drop n (suc m) k [] e = drop-nil n ∙ sym (drop-nil k)
drop-drop n (suc m) zero (x ∷ xs) e = absurd (omega arith)
drop-drop n (suc m) (suc k) (x ∷ xs) e = drop-drop n m k xs (omega (arith, e))

pub get_or-take : (m : ℕ) (xs : List ℕ) (i : ℕ) → i < m → get_or (take m xs) i 0 ≡ get_or xs i 0
get_or-take zero xs i h = absurd (omega arith)
get_or-take (suc m) [] i h = refl
get_or-take (suc m) (x ∷ xs) zero h = refl
get_or-take (suc m) (x ∷ xs) (suc i) h = get_or-take m xs i (omega arith)

get_or-drop : (n i k : ℕ) (xs : List ℕ) → k ≡ n + i → get_or (drop n xs) i 0 ≡ get_or xs k 0
get_or-drop zero i k xs e = ap (λ t. get_or xs t 0) (omega (arith, e))
get_or-drop (suc n) i k [] e = refl
get_or-drop (suc n) i zero (x ∷ xs) e = absurd (omega arith)
get_or-drop (suc n) i (suc k) (x ∷ xs) e = get_or-drop n i k xs (omega (arith, e))

pub record IsReception (d : Reception) : Type 0 where
  pub capacity : length d.reception_buffer ≡ 4080
  pub in_order : d.head ≤ d.tail
  pub in_buffer : d.tail ≤ 4080

-- What was received and not yet read.
abbrev pub pending : Reception → List ℕ
pending d = take (d.tail - d.head) (drop d.head d.reception_buffer)

module _ (d : Reception) (v : IsReception d) where
  pub length-pending : length (pending d) ≡ d.tail - d.head
  length-pending = omega (
    arith,
    length-take (d.tail - d.head) (drop d.head d.reception_buffer),
    length-drop d.head d.reception_buffer,
    v.capacity,
    v.in_order,
    v.in_buffer,
  )

  pub pending-byte :
      (i : ℕ)
      → i < d.tail - d.head
      → get_or (pending d) i 0 ≡ get_or d.reception_buffer (d.head + i) 0
  pending-byte i h =
      get_or-take (d.tail - d.head) (drop d.head d.reception_buffer) i h
      ∙ get_or-drop d.head i (d.head + i) d.reception_buffer refl

  pub take-pending :
      (n : ℕ) → n ≤ d.tail - d.head → take n (pending d) ≡ take n (drop d.head d.reception_buffer)
  take-pending n h = take-take n (d.tail - d.head) (drop d.head d.reception_buffer) h

  pub drop-pending :
      (n : ℕ)
      → n ≤ d.tail - d.head
      → drop n (pending d) ≡ take (d.tail - (d.head + n)) (drop (d.head + n) d.reception_buffer)
  drop-pending n h =
      drop-take n (d.tail - d.head) (d.tail - (d.head + n)) (drop d.head d.reception_buffer)
        (omega arith)
      ∙ ap (take (d.tail - (d.head + n))) (drop-drop n d.head (d.head + n) d.reception_buffer refl)

-- A write within the buffer keeps its length.
length-write_at :
    (buffer : List ℕ) (i : ℕ) (bytes : List ℕ)
    → i + length bytes ≤ length buffer
    → length (write_at buffer i bytes) ≡ length buffer
length-write_at buffer i bytes h = omega (
  arith,
  length-append (take i buffer ++ bytes) (drop (i + length bytes) buffer),
  length-append (take i buffer) bytes,
  length-take i buffer,
  length-drop (i + length bytes) buffer,
)

-- What stands before a write and what is written.
take-write_at :
    (buffer : List ℕ) (i n : ℕ) (bytes : List ℕ)
    → i + length bytes ≤ length buffer
    → n ≡ i + length bytes
    → take n (write_at buffer i bytes) ≡ take i buffer ++ bytes
take-write_at buffer i n bytes h e =
    take-length-append n (take i buffer ++ bytes) _
      (omega (arith, e, length-append (take i buffer) bytes, length-take i buffer))

-- A call that looked for a packet in vain moves what is pending to the beginning of the buffer.
pub move_to_front-keeps :
    (d : Reception)
    → IsReception d
    → (pending (move_to_front d) ≡ pending d)
      × IsReception (move_to_front d)
      × ((move_to_front d).head ≡ 0)
unfolding move_to_front
move_to_front-keeps d v =
    if_both (λ d'. (pending d' ≡ pending d) × IsReception d' × (d'.head ≡ 0)) (ltb 0 d.head) _ d
      (λ e. (
        take-write_at d.reception_buffer 0 (d.tail - d.head - 0) (pending d) fits
            (omega (arith, length-pending d v)),
        record {
          capacity = length-write_at d.reception_buffer 0 (pending d) fits ∙ v.capacity;
          in_order = omega arith;
          in_buffer = omega (arith, v.in_buffer);
        },
        refl,
      ))
      (λ e. (refl, v, ground (arith, e)))
  where
    fits : 0 + length (pending d) ≤ length d.reception_buffer
    fits = omega (arith, length-pending d v, v.capacity, v.in_buffer)

-- What the socket writes after the tail is pending after what was.
abbrev pub written : List ℕ → Reception → Reception
written bytes d = record d {
  reception_buffer = write_at d.reception_buffer d.tail bytes;
  tail = d.tail + length bytes;
}

pub written-appends :
    (d : Reception) (bytes : List ℕ)
    → IsReception d
    → d.head ≡ 0
    → d.tail + length bytes ≤ 4080
    → (pending (written bytes d) ≡ pending d ++ bytes) × IsReception (written bytes d)
written-appends d bytes v e h = (
  appended,
  record {
    capacity =
        length-write_at d.reception_buffer d.tail bytes (omega (arith, v.capacity)) ∙ v.capacity;
    in_order = omega (arith, v.in_order);
    in_buffer = h;
  },
)
  where
    from_start : (t : ℕ) (buffer : List ℕ) → take (t - d.head) (drop d.head buffer) ≡ take t buffer
    from_start t buffer =
        ap (λ k. take (t - k) (drop k buffer)) e ∙ ap (λ k. take k buffer) (omega arith)

    appended : pending (written bytes d) ≡ pending d ++ bytes
    appended =
        from_start (d.tail + length bytes) (write_at d.reception_buffer d.tail bytes)
        ∙ take-write_at d.reception_buffer d.tail (d.tail + length bytes) bytes
            (omega (arith, v.capacity)) refl
        ∙ ap (λ t. t ++ bytes) (sym (from_start d.tail d.reception_buffer))
