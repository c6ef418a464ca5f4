-- ===== src/Rtp/Distance.antt =====
-- The distances of rtp.h measure the way from one point of the circle of values to another.
use wireless_vr_bridge.Base.{ℕ, ◌+◌, ◌%◌, ◌^◌, ◌≤◌, ◌<◌, ◌≡◌, arith}
use wireless_vr_bridge.Base.Int.{pos, sub_ℕ}
use wireless_vr_bridge.Rtp.{
  rtp_timestamps_distance_absolute, rtp_timestamps_distance, rtp_seq_distance,
}

-- The distance of two sequence numbers is the one number of steps below 2^16 that leads from the
-- first to the second, counting round the end of the 16-bit range: it leads there, and any such
-- number is the distance.
pub seq_distance_unique :
    (small high : ℕ)
    → small < 2 ^ 16
    → high < 2 ^ 16
    → (rtp_seq_distance small high < 2 ^ 16)
      × ((small + rtp_seq_distance small high) % 2 ^ 16 ≡ high)
      × ((d : ℕ) → d < 2 ^ 16 → (small + d) % 2 ^ 16 ≡ high → d ≡ rtp_seq_distance small high)
unfolding rtp_seq_distance
seq_distance_unique small high hs hh = ground arith

-- Two timestamps at most 2^30 ticks apart on the circle have that many ticks as their absolute
-- distance, in either order, also where the way leads past the end of the 32-bit range.
pub distance_absolute_near :
    (a d : ℕ)
    → a < 2 ^ 32
    → d ≤ 2 ^ 30
    → (rtp_timestamps_distance_absolute a ((a + d) % 2 ^ 32) ≡ d)
      × (rtp_timestamps_distance_absolute ((a + d) % 2 ^ 32) a ≡ d)
unfolding rtp_timestamps_distance_absolute
distance_absolute_near a d ha hd = ground arith

-- For timestamps at most 2^30 ticks apart on the circle the signed distance is that number of ticks
-- forwards, and its negation backwards.
pub distance_near :
    (a d : ℕ)
    → a < 2 ^ 32
    → d ≤ 2 ^ 30
    → (rtp_timestamps_distance a ((a + d) % 2 ^ 32) ≡ pos d)
      × (rtp_timestamps_distance ((a + d) % 2 ^ 32) a ≡ sub_ℕ 0 d)
unfolding rtp_timestamps_distance
distance_near a d ha hd = ground arith
