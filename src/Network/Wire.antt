-- ===== src/Network/Wire.antt =====
-- Words in memory. The structs of the protocols are packed, or padded to a multiple of four bytes,
-- and hold their numbers in network order; a little-endian host stores a word lowest byte first.
use wireless_vr_bridge.Base.{ℕ, ◌+◌, ◌*◌, ◌/◌, ◌%◌, ◌^◌, List, [], ◌∷◌, ◌++◌, get_or}

abbrev pub bytes32 : ℕ → List ℕ
bytes32 w = w % 256 ∷ w / 2 ^ 8 % 256 ∷ w / 2 ^ 16 % 256 ∷ w / 2 ^ 24 % 256 ∷ []

abbrev pub bytes16 : ℕ → List ℕ
bytes16 w = w % 256 ∷ w / 2 ^ 8 % 256 ∷ []

abbrev pub bytes64 : ℕ → List ℕ
bytes64 w = bytes32 (w % 2 ^ 32) ++ bytes32 (w / 2 ^ 32)

-- The word that starts at an index. What lies past the end of the list reads as 0.
unfoldable pub load32 : List ℕ → ℕ → ℕ
load32 m i =
    get_or m i 0
    + get_or m (i + 1) 0 * 2 ^ 8
    + get_or m (i + 2) 0 * 2 ^ 16
    + get_or m (i + 3) 0 * 2 ^ 24

unfoldable pub load16 : List ℕ → ℕ → ℕ
load16 m i = get_or m i 0 + get_or m (i + 1) 0 * 2 ^ 8

unfoldable pub load64 : List ℕ → ℕ → ℕ
unfolding load32
load64 m i = load32 m i + load32 m (i + 4) * 2 ^ 32
