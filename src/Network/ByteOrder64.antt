-- ===== src/Network/ByteOrder64.antt =====
-- The 64-bit byte order conversion of network_utils.h, which carries NTP timestamps.
use wireless_vr_bridge.Base.{ℕ, ◌+◌, ◌*◌, ◌/◌, ◌%◌, ◌^◌, ◌<◌, bit_or, ◌≡◌, arith}
use wireless_vr_bridge.Base.Bits.{bit_and_byte, bit_and_byte_at, bit_or_disjoint}
use wireless_vr_bridge.Network.{htons, ntohs, htonl, ntohl, htonll, ntohll}
use wireless_vr_bridge.Network.ByteOrder.{ntohs-htons, ntohl-htonl}

-- The number with these eight bytes, lowest first.
abbrev number8 : (a b c d e f g h : ℕ) → ℕ
number8 a b c d e f g h =
    a + b * 2 ^ 8 + c * 2 ^ 16 + d * 2 ^ 24 + e * 2 ^ 32 + f * 2 ^ 40 + g * 2 ^ 48 + h * 2 ^ 56

join8 :
    (a b c d e f g h : ℕ)
    → a < 256
    → b < 256
    → c < 256
    → d < 256
    → e < 256
    → f < 256
    → g < 256
    → bit_or
        (bit_or
          (bit_or
            (bit_or (bit_or (bit_or (bit_or a (b * 2 ^ 8)) (c * 2 ^ 16)) (d * 2 ^ 24)) (e * 2 ^ 32))
            (f * 2 ^ 40))
          (g * 2 ^ 48))
        (h * 2 ^ 56)
      ≡ number8 a b c d e f g h
join8 a b c d e f g h la lb lc ld le lf lg = rw (
  bit_or_disjoint 8 b a (omega arith),
  bit_or_disjoint 16 c (a + b * 2 ^ 8) (omega arith),
  bit_or_disjoint 24 d (a + b * 2 ^ 8 + c * 2 ^ 16) (omega arith),
  bit_or_disjoint 32 e (a + b * 2 ^ 8 + c * 2 ^ 16 + d * 2 ^ 24) (omega arith),
  bit_or_disjoint 40 f (a + b * 2 ^ 8 + c * 2 ^ 16 + d * 2 ^ 24 + e * 2 ^ 32) (omega arith),
  bit_or_disjoint 48 g (a + b * 2 ^ 8 + c * 2 ^ 16 + d * 2 ^ 24 + e * 2 ^ 32 + f * 2 ^ 40)
      (omega arith),
  bit_or_disjoint 56 h
      (a + b * 2 ^ 8 + c * 2 ^ 16 + d * 2 ^ 24 + e * 2 ^ 32 + f * 2 ^ 40 + g * 2 ^ 48)
      (omega arith),
)

pub htonll_bytes :
    (x : ℕ)
    → x < 2 ^ 64
    → htonll x
      ≡ number8
          (x / 2 ^ 56)
          (x / 2 ^ 48 % 256)
          (x / 2 ^ 40 % 256)
          (x / 2 ^ 32 % 256)
          (x / 2 ^ 24 % 256)
          (x / 2 ^ 16 % 256)
          (x / 2 ^ 8 % 256)
          (x % 256)
unfolding htonll
htonll_bytes x l =
    let e0 : x / 2 ^ 56 % 256 * 2 ^ 56 / 2 ^ 56 ≡ x / 2 ^ 56 = omega arith in
    let e1 : x / 2 ^ 48 % 256 * 2 ^ 48 / 2 ^ 40 ≡ x / 2 ^ 48 % 256 * 2 ^ 8 = omega arith in
    let e2 : x / 2 ^ 40 % 256 * 2 ^ 40 / 2 ^ 24 ≡ x / 2 ^ 40 % 256 * 2 ^ 16 = omega arith in
    let e3 : x / 2 ^ 32 % 256 * 2 ^ 32 / 2 ^ 8 ≡ x / 2 ^ 32 % 256 * 2 ^ 24 = omega arith in
    let e4 : x / 2 ^ 24 % 256 * 2 ^ 24 * 2 ^ 8 % 2 ^ 64 ≡ x / 2 ^ 24 % 256 * 2 ^ 32 = omega arith in
    let e5 : x / 2 ^ 16 % 256 * 2 ^ 16 * 2 ^ 24 % 2 ^ 64 ≡ x / 2 ^ 16 % 256 * 2 ^ 40 =
      omega arith in
    let e6 : x / 2 ^ 8 % 256 * 2 ^ 8 * 2 ^ 40 % 2 ^ 64 ≡ x / 2 ^ 8 % 256 * 2 ^ 48 = omega arith in
    let e7 : x % 256 * 2 ^ 56 % 2 ^ 64 ≡ x % 256 * 2 ^ 56 = omega arith in
    rw
      (
        bit_and_byte_at 56 x,
        bit_and_byte_at 48 x,
        bit_and_byte_at 40 x,
        bit_and_byte_at 32 x,
        bit_and_byte_at 24 x,
        bit_and_byte_at 16 x,
        bit_and_byte_at 8 x,
        bit_and_byte x,
        e0,
        e1,
        e2,
        e3,
        e4,
        e5,
        e6,
        e7,
      )
      (join8 (x / 2 ^ 56) (x / 2 ^ 48 % 256) (x / 2 ^ 40 % 256) (x / 2 ^ 32 % 256)
        (x / 2 ^ 24 % 256) (x / 2 ^ 16 % 256) (x / 2 ^ 8 % 256) (x % 256) (omega arith)
        (omega arith) (omega arith) (omega arith) (omega arith) (omega arith) (omega arith))

-- The byte of the converted number at each place.
ntohll_number8 :
    (a b c d e f g h : ℕ)
    → a < 256
    → b < 256
    → c < 256
    → d < 256
    → e < 256
    → f < 256
    → g < 256
    → h < 256
    → htonll (number8 a b c d e f g h) ≡ number8 h g f e d c b a
ntohll_number8 a b c d e f g h la lb lc ld le lf lg lh =
    omega (arith, htonll_bytes (number8 a b c d e f g h) (omega arith))

-- A 64-bit value that is put in network order and read back is the value.
pub ntohll-htonll : (x : ℕ) → x < 2 ^ 64 → ntohll (htonll x) ≡ x
unfolding ntohll
ntohll-htonll x l = rw (htonll_bytes x l) (
    omega (
      arith,
      ntohll_number8 (x / 2 ^ 56) (x / 2 ^ 48 % 256) (x / 2 ^ 40 % 256) (x / 2 ^ 32 % 256)
          (x / 2 ^ 24 % 256) (x / 2 ^ 16 % 256) (x / 2 ^ 8 % 256) (x % 256) (omega arith)
          (omega arith) (omega arith) (omega arith) (omega arith) (omega arith) (omega arith)
          (omega arith),
    ))

pub htonll-lt : (x : ℕ) → x < 2 ^ 64 → htonll x < 2 ^ 64
htonll-lt x l = omega (arith, htonll_bytes x l)

-- Numbers of 16, 32 and 64 bits that are put into network order and taken out of it are the same.
pub byte_order_round_trip :
    (x y z : ℕ)
    → x < 2 ^ 16
    → y < 2 ^ 32
    → z < 2 ^ 64
    → (ntohs (htons x) ≡ x) × (ntohl (htonl y) ≡ y) × (ntohll (htonll z) ≡ z)
byte_order_round_trip x y z h i j = (ntohs-htons x h, ntohl-htonl y i, ntohll-htonll z j)
