-- ===== src/Network/ByteOrder.antt =====
-- What the byte order conversions of network_utils.h compute, and that they undo each other.
use wireless_vr_bridge.Base.{ℕ, ◌+◌, ◌*◌, ◌/◌, ◌%◌, ◌^◌, ◌<◌, bit_or, ◌≡◌, arith}
use wireless_vr_bridge.Base.Bits.{bit_and_byte, bit_and_byte_at, bit_or_disjoint}
use wireless_vr_bridge.Network.{htonl, htons, ntohl, ntohs}

-- The bytes of a word joined by `|`, lowest first.
join2 : (a b : ℕ) → a < 256 → bit_or a (b * 2 ^ 8) ≡ a + b * 2 ^ 8
join2 a b h = bit_or_disjoint 8 b a h

join4 :
    (a b c d : ℕ)
    → a < 256
    → b < 256
    → c < 256
    → bit_or (bit_or (bit_or a (b * 2 ^ 8)) (c * 2 ^ 16)) (d * 2 ^ 24)
      ≡ a + b * 2 ^ 8 + c * 2 ^ 16 + d * 2 ^ 24
join4 a b c d ha hb hc = rw (
  join2 a b ha,
  bit_or_disjoint 16 c (a + b * 2 ^ 8) (omega arith),
  bit_or_disjoint 24 d (a + b * 2 ^ 8 + c * 2 ^ 16) (omega arith),
)

-- The lowest four bytes, in the other order.
htonl_low_bytes :
    (x : ℕ)
    → htonl x
      ≡ x / 2 ^ 24 % 256 + x / 2 ^ 16 % 256 * 2 ^ 8 + x / 2 ^ 8 % 256 * 2 ^ 16 + x % 256 * 2 ^ 24
unfolding htonl
htonl_low_bytes x =
    let e1 : x / 2 ^ 24 % 256 * 2 ^ 24 / 2 ^ 24 ≡ x / 2 ^ 24 % 256 = omega arith in
    let e2 : x / 2 ^ 16 % 256 * 2 ^ 16 / 2 ^ 8 ≡ x / 2 ^ 16 % 256 * 2 ^ 8 = omega arith in
    let e3 : x / 2 ^ 8 % 256 * 2 ^ 8 * 2 ^ 8 % 2 ^ 32 ≡ x / 2 ^ 8 % 256 * 2 ^ 16 = omega arith in
    let e4 : x % 256 * 2 ^ 24 % 2 ^ 32 ≡ x % 256 * 2 ^ 24 = omega arith in
    rw
      (
        bit_and_byte_at 24 x,
        bit_and_byte_at 16 x,
        bit_and_byte_at 8 x,
        bit_and_byte x,
        e1,
        e2,
        e3,
        e4,
      )
      (join4 (x / 2 ^ 24 % 256) (x / 2 ^ 16 % 256) (x / 2 ^ 8 % 256) (x % 256) (omega arith)
        (omega arith) (omega arith))

-- The bytes of the word, in the other order.
pub htonl_bytes :
    (x : ℕ)
    → x < 2 ^ 32
    → htonl x ≡ x / 2 ^ 24 + x / 2 ^ 16 % 256 * 2 ^ 8 + x / 2 ^ 8 % 256 * 2 ^ 16 + x % 256 * 2 ^ 24
htonl_bytes x h = omega (arith, htonl_low_bytes x)

-- Whatever is read, the result has 32 bits.
pub ntohl-lt : (x : ℕ) → ntohl x < 2 ^ 32
unfolding ntohl
ntohl-lt x = omega (arith, htonl_low_bytes x)

pub htons_bytes : (x : ℕ) → x < 2 ^ 16 → htons x ≡ x / 2 ^ 8 + x % 256 * 2 ^ 8
unfolding htons
htons_bytes x h =
    let e1 : x / 2 ^ 8 % 256 * 2 ^ 8 / 2 ^ 8 ≡ x / 2 ^ 8 = omega arith in
    rw (bit_and_byte_at 8 x, bit_and_byte x, e1, join2 (x / 2 ^ 8) (x % 256) (omega arith))
      (omega arith)

pub htonl-lt : (x : ℕ) → x < 2 ^ 32 → htonl x < 2 ^ 32
htonl-lt x h = omega (arith, htonl_bytes x h)

pub htons-lt : (x : ℕ) → x < 2 ^ 16 → htons x < 2 ^ 16
htons-lt x h = omega (arith, htons_bytes x h)

-- A 32-bit value that is put in network order and read back is the value.
pub ntohl-htonl : (x : ℕ) → x < 2 ^ 32 → ntohl (htonl x) ≡ x
unfolding ntohl
ntohl-htonl x h = omega (arith, htonl_bytes x h, htonl_bytes (htonl x) (htonl-lt x h))

-- A 16-bit value that is put in network order and read back is the value.
pub ntohs-htons : (x : ℕ) → x < 2 ^ 16 → ntohs (htons x) ≡ x
unfolding ntohs
ntohs-htons x h = omega (arith, htons_bytes x h, htons_bytes (htons x) (htons-lt x h))
