-- ===== src/SimpleHeader/Layout.antt =====
-- The length of a header in memory, and what is read of one whatever follows.
use wireless_vr_bridge.Base.{ℕ, ◌+◌, ◌<◌, ◌≡◌, arith, List, ◌++◌, length, get_or-append}
use wireless_vr_bridge.Network.Wire.{load32}
use wireless_vr_bridge.SimpleHeader.{SimpleHeader, header_bytes}

pub length-header_bytes : (h : SimpleHeader) → length h.padding ≡ 3 → length (header_bytes h) ≡ 20
unfolding header_bytes
length-header_bytes h e = omega arith

-- Reading inside the front of a buffer does not depend on what follows it.
pub load32-append : (xs ys : List ℕ) (i : ℕ) → i + 3 < length xs → load32 (xs ++ ys) i ≡ load32 xs i
unfolding load32
load32-append xs ys i h = rw (
  get_or-append xs ys i 0 (omega arith),
  get_or-append xs ys (i + 1) 0 (omega arith),
  get_or-append xs ys (i + 2) 0 (omega arith),
  get_or-append xs ys (i + 3) 0 (omega arith),
)
