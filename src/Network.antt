-- ===== src/Network.antt =====
-- common/include/wvb_common/network_utils.h: conversions between host and network byte order. The
-- `#if` there chooses the little-endian branch on every platform that the program is built for, and
-- that branch is the one modelled. A `float` is its 32-bit pattern, which is all that `htonf` and
-- `ntohf` look at.
pub mod ByteOrder
pub mod ByteOrder64
pub mod Wire
use wireless_vr_bridge.Base.{ℕ, u16, u32, u64, ◌&&&◌, ◌|||◌, ◌<<<◌, ◌>>>◌}

unfoldable pub htonl : ℕ → ℕ
htonl host_long =
    (host_long &&& 0xFF000000) >>> 24
    ||| (host_long &&& 0x00FF0000) >>> 8
    ||| u32 ((host_long &&& 0x0000FF00) <<< 8)
    ||| u32 ((host_long &&& 0x000000FF) <<< 24)

-- The operands are promoted to `int`; the result is cut to 16 bits.
unfoldable pub htons : ℕ → ℕ
htons host_short = u16 ((host_short &&& 0xFF00) >>> 8 ||| (host_short &&& 0x00FF) <<< 8)

unfoldable pub htonll : ℕ → ℕ
htonll host_longlong =
    (host_longlong &&& 0xFF00000000000000) >>> 56
    ||| (host_longlong &&& 0x00FF000000000000) >>> 40
    ||| (host_longlong &&& 0x0000FF0000000000) >>> 24
    ||| (host_longlong &&& 0x000000FF00000000) >>> 8
    ||| u64 ((host_longlong &&& 0x00000000FF000000) <<< 8)
    ||| u64 ((host_longlong &&& 0x0000000000FF0000) <<< 24)
    ||| u64 ((host_longlong &&& 0x000000000000FF00) <<< 40)
    ||| u64 ((host_longlong &&& 0x00000000000000FF) <<< 56)

unfoldable pub ntohl : ℕ → ℕ
unfolding htonl
ntohl net_long = htonl net_long

unfoldable pub ntohs : ℕ → ℕ
unfolding htons
ntohs net_short = htons net_short

unfoldable pub ntohll : ℕ → ℕ
unfolding htonll
ntohll net_longlong = htonll net_longlong

-- The union reads the pattern of the float as an integer.
unfoldable pub htonf : ℕ → ℕ
unfolding htonl
htonf host_float = htonl host_float

unfoldable pub ntohf : ℕ → ℕ
unfolding ntohl
ntohf net_float = ntohl net_float
