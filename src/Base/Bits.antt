-- ===== src/Base/Bits.antt =====
-- The laws of `&` and `|` on bit fields, for every width. The native operations mean a recursion
-- on binary digits with fuel; the first lemmas drop the fuel.
use Prim.Native.Nat.{min, max, digits, bitwise, bit_and-bitwise, bit_or-bitwise}
use native.Mathlib.Nat.{pow-suc, pow-succ', div-div-eq-div-mul}
use native.Mathlib.Decide.{dec_lt}
use wireless_vr_bridge.Base.{
  ℕ, zero, suc, ◌+◌, ◌*◌, ◌/◌, ◌%◌, ◌^◌, ◌≤◌, ◌<◌, bit_and, bit_or, ◌≡◌, refl, sym, ap, ◌∙◌, arith,
}

module _ (rest : ℕ → ℕ) (op : ℕ → ℕ → ℕ) where
  one_more : (fuel x y : ℕ) → x ≤ fuel → digits rest op (suc fuel) x y ≡ digits rest op fuel x y
  one_more zero x y h = let none_left : x ≡ 0 = omega arith in rw none_left refl
  one_more (suc fuel) zero y h = refl
  one_more (suc fuel) (suc x) y h =
      ap (λ high. high * 2 + op (suc x % 2) (y % 2))
        (one_more fuel (suc x / 2) (y / 2) (omega arith))

  -- Any fuel that is not below the first operand will do.
  settled : (fuel x y : ℕ) → x ≤ fuel → digits rest op fuel x y ≡ bitwise rest op x y
  settled zero x y h = let exact : 0 ≡ x = omega arith in ap (λ fuel. digits rest op fuel x y) exact
  settled (suc fuel) x y h = elim (dec_lt fuel x) [
    | yes past ↦ let exact : suc fuel ≡ x = omega arith in ap (λ n. digits rest op n x y) exact
    | no before ↦ one_more fuel x y (omega arith) ∙ settled fuel x y (omega arith)
  ]

  low_digit :
      (x y : ℕ)
      → bitwise rest op (suc x) y ≡ bitwise rest op (suc x / 2) (y / 2) * 2 + op (suc x % 2) (y % 2)
  low_digit x y =
      ap (λ high. high * 2 + op (suc x % 2) (y % 2)) (settled x (suc x / 2) (y / 2) (omega arith))

-- The lowest digit of a result, and the others.
bit_or_low : (x y : ℕ) → bit_or x y ≡ bit_or (x / 2) (y / 2) * 2 + max (x % 2) (y % 2)
bit_or_low zero y = rw (bit_or-bitwise 0 y, bit_or-bitwise 0 (y / 2)) (omega arith)
bit_or_low (suc x) y =
    rw (bit_or-bitwise (suc x) y, bit_or-bitwise (suc x / 2) (y / 2)) (low_digit (λ t. t) max x y)

bit_and_low : (x y : ℕ) → bit_and x y ≡ bit_and (x / 2) (y / 2) * 2 + min (x % 2) (y % 2)
bit_and_low zero y = rw (bit_and-bitwise 0 y, bit_and-bitwise 0 (y / 2)) (omega arith)
bit_and_low (suc x) y =
    rw (bit_and-bitwise (suc x) y, bit_and-bitwise (suc x / 2) (y / 2)) (low_digit (λ t. 0) min x y)

pub bit_or_zero_left : (b : ℕ) → bit_or 0 b ≡ b
bit_or_zero_left b = bit_or-bitwise 0 b

-- An empty mask leaves nothing, by induction on a bound of the masked number.
empty_mask_below : (bound x : ℕ) → x < bound → bit_and x 0 ≡ 0
empty_mask_below zero x below = absurd (omega arith)
empty_mask_below (suc bound) zero below = bit_and-bitwise zero 0
empty_mask_below (suc bound) (suc x) below =
    let higher = empty_mask_below bound (suc x / 2) (omega arith) in
    omega (arith, bit_and_low (suc x) 0, higher)

empty_mask : (x : ℕ) → bit_and x 0 ≡ 0
empty_mask x = empty_mask_below (suc x) x (omega arith)

bit_or_double : (b t : ℕ) → bit_or b (t * 2) ≡ bit_or (b / 2) t * 2 + b % 2
bit_or_double b t = let e : t * 2 / 2 ≡ t = omega arith in bit_or_low b (t * 2) ∙ rw e (omega arith)

bit_and_double : (x m : ℕ) → bit_and x (m * 2) ≡ bit_and (x / 2) m * 2
bit_and_double x m =
    let e : m * 2 / 2 ≡ m = omega arith in bit_and_low x (m * 2) ∙ rw e (omega arith)

double_pow : (a k : ℕ) → a * 2 ^ suc k ≡ a * 2 ^ k * 2
double_pow a k = rw pow-suc (omega arith)

-- Fields that do not overlap: `|` is addition.
pub bit_or_disjoint : (k a b : ℕ) → b < 2 ^ k → bit_or b (a * 2 ^ k) ≡ b + a * 2 ^ k
bit_or_disjoint zero a b h =
    let e : b ≡ 0 = omega arith in rw (e, bit_or_zero_left (a * 2 ^ 0)) (omega arith)
bit_or_disjoint (suc k) a b h =
    rw (double_pow a k, bit_or_double b (a * 2 ^ k))
      (omega (arith, bit_or_disjoint k a (b / 2) (omega (arith, pow-suc 2 k))))

-- A mask that is shifted left picks a field.
pub bit_and_field : (k x m : ℕ) → bit_and x (m * 2 ^ k) ≡ bit_and (x / 2 ^ k) m * 2 ^ k
bit_and_field zero x m =
    let e : x / 2 ^ 0 ≡ x = omega arith in
    let e' : m * 2 ^ 0 ≡ m = omega arith in rw (e, e') (omega arith)
bit_and_field (suc k) x m =
    rw (double_pow m k, bit_and_double x (m * 2 ^ k), bit_and_field k (x / 2) m, half)
      (omega (arith, double_pow (bit_and (x / 2 ^ suc k) m) k))
  where
    half : x / 2 / 2 ^ k ≡ x / 2 ^ suc k
    half = div-div-eq-div-mul x 2 (2 ^ k) ∙ ap (λ d. x / d) (sym (pow-succ' 2 k))

bit_and_odd : (x m : ℕ) → bit_and x (m * 2 + 1) ≡ bit_and (x / 2) m * 2 + x % 2
bit_and_odd x m =
    let e : (m * 2 + 1) / 2 ≡ m = omega arith in bit_and_low x (m * 2 + 1) ∙ rw e (omega arith)

-- `x & 0xff`
pub bit_and_byte : (x : ℕ) → bit_and x 255 ≡ x % 256
bit_and_byte x = omega (
  arith,
  bit_and_odd x 127,
  bit_and_odd (x / 2) 63,
  bit_and_odd (x / 2 / 2) 31,
  bit_and_odd (x / 2 / 2 / 2) 15,
  bit_and_odd (x / 2 / 2 / 2 / 2) 7,
  bit_and_odd (x / 2 / 2 / 2 / 2 / 2) 3,
  bit_and_odd (x / 2 / 2 / 2 / 2 / 2 / 2) 1,
  bit_and_odd (x / 2 / 2 / 2 / 2 / 2 / 2 / 2) 0,
  empty_mask (x / 2 / 2 / 2 / 2 / 2 / 2 / 2 / 2),
)

-- The byte of a word at bit `k`, picked by a mask.
pub bit_and_byte_at : (k x : ℕ) → bit_and x (255 * 2 ^ k) ≡ x / 2 ^ k % 256 * 2 ^ k
bit_and_byte_at k x = rw (bit_and_field k x 255, bit_and_byte (x / 2 ^ k))
