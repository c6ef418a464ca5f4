-- ===== src/Rtp/Order.antt =====
-- The orders of rtp.h on timestamps and on sequence numbers.
use wireless_vr_bridge.Base.{ℕ, ◌+◌, ◌%◌, ◌^◌, ◌≤◌, ◌<◌, ◌≡◌, ◌↔◌, ◌⊎◌, true, arith}
use wireless_vr_bridge.Rtp.{compare_rtp_timestamps, compare_rtp_seq}

-- A timestamp comes before another exactly when the way forward to it is at least one tick and at
-- most half of the 32-bit range, counting round the end of the range.
pub compare_timestamps_iff :
    (a d : ℕ)
    → a < 2 ^ 32
    → d < 2 ^ 32
    → (compare_rtp_timestamps a ((a + d) % 2 ^ 32) ≡ true) ↔ ((1 ≤ d) × (d ≤ 2 ^ 31))
unfolding compare_rtp_timestamps
compare_timestamps_iff a d ha hd = (ground arith, ground arith)

-- The order on 16-bit sequence numbers holds of every smaller and greater number, however far apart,
-- and of a number and one that is smaller by more than 32767. So of 65535 and 1 it holds in both
-- directions.
pub compare_seq_iff :
    (a b : ℕ) → a < 2 ^ 16 → b < 2 ^ 16 → (compare_rtp_seq a b ≡ true) ↔ ((a < b) ⊎ (b + 32768 ≤ a))
unfolding compare_rtp_seq
compare_seq_iff a b ha hb = (ground arith, ground arith)
