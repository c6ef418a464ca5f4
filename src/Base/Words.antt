-- ===== src/Base/Words.antt =====
-- Casts to the fixed widths, shifts, and the laws of `&` and `|` on bit fields.
use Prim.Native.Nat.{ℕ, zero, suc, ◌+◌, ◌-◌, ◌*◌, ◌/◌, ◌%◌, ◌^◌, ◌<◌, bit_and, bit_or}
use mathlib.Core.Path.{◌≡◌}
use mathlib.Core.Bool.{Bool, true, ◌&&◌}
use native.Mathlib.Omega.{arith}
use wireless_vr_bridge.Base.Tests.{◌==◌, ==_iff}

abbrev pub u8 : ℕ → ℕ
u8 n = n % 2 ^ 8

abbrev pub u16 : ℕ → ℕ
u16 n = n % 2 ^ 16

abbrev pub u32 : ℕ → ℕ
u32 n = n % 2 ^ 32

abbrev pub u64 : ℕ → ℕ
u64 n = n % 2 ^ 64

infixl 75 ◌<<<◌ ◌>>>◌
abbrev pub ◌<<<◌ : ℕ → ℕ → ℕ
x <<< k = x * 2 ^ k

abbrev pub ◌>>>◌ : ℕ → ℕ → ℕ
x >>> k = x / 2 ^ k

-- Subtraction of two `size_t`, and of two `uint32_t`: it wraps below 0.
abbrev pub sub64 : ℕ → ℕ → ℕ
sub64 a b = (a + 2 ^ 64 - b) % 2 ^ 64

abbrev pub sub32 : ℕ → ℕ → ℕ
sub32 a b = (a + 2 ^ 32 - b) % 2 ^ 32

-- A test of a small range, entry by entry, by evaluation.
unfoldable pub table : (ℕ → Bool) → ℕ → Bool
table test zero = true
table test (suc last) = table test last && test last

pub table_entry :
    (test : ℕ → Bool) (bound entry : ℕ)
    → entry < bound
    → table test bound ≡ true
    → test entry ≡ true
unfolding table
table_entry test zero entry below passed = absurd (omega arith)
table_entry test (suc last) entry below passed = ground (arith, table_entry test last entry)

-- Two functions that agree on a table agree below its length.
pub eq_by_table :
    (bound : ℕ) (f g : ℕ → ℕ)
    → table (λ x. f x == g x) bound ≡ true
    → (x : ℕ) → x < bound
    → f x ≡ g x
eq_by_table bound f g passed x below =
    (==_iff (f x) (g x)).0 (table_entry (λ y. f y == g y) bound x below passed)

infixl 62 ◌&&&◌
abbrev pub ◌&&&◌ : ℕ → ℕ → ℕ
a &&& b = bit_and a b

infixl 60 ◌|||◌
abbrev pub ◌|||◌ : ℕ → ℕ → ℕ
a ||| b = bit_or a b
