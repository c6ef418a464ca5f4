-- ===== src/RtpClock/Convert.antt =====
-- The conversions of rtp_clock.h undo each other, as far as 32 bits can.
use wireless_vr_bridge.Base.{ℕ, ◌+◌, ◌%◌, ◌^◌, ◌<◌, ◌≡◌, arith}
use wireless_vr_bridge.RtpClock.{RtpClock, from_rtp_timestamp, to_rtp_timestamp}

-- A 32-bit timestamp that is made a time point and then a timestamp again is the same, whatever the
-- 64-bit offset of the clock.
pub timestamp_round_trip :
    (clock : RtpClock) (timestamp : ℕ)
    → clock.offset < 2 ^ 64
    → timestamp < 2 ^ 32
    → to_rtp_timestamp clock (from_rtp_timestamp clock timestamp) ≡ timestamp
unfolding from_rtp_timestamp to_rtp_timestamp
timestamp_round_trip clock timestamp ho ht = omega (arith, ho, ht)

-- A time point that is made a timestamp and then a time point again is the same, if it lies less than
-- 2 ^ 32 ticks after the negative of the offset.
pub time_point_round_trip :
    (clock : RtpClock) (tp : ℕ)
    → clock.offset < 2 ^ 64
    → tp < 2 ^ 64
    → (tp + clock.offset) % 2 ^ 64 < 2 ^ 32
    → from_rtp_timestamp clock (to_rtp_timestamp clock tp) ≡ tp
unfolding from_rtp_timestamp to_rtp_timestamp
time_point_round_trip clock tp ho ht near = omega (arith, ho, ht, near)

pub to_rtp_timestamp-lt : (clock : RtpClock) (tp : ℕ) → to_rtp_timestamp clock tp < 2 ^ 32
unfolding to_rtp_timestamp
to_rtp_timestamp-lt clock tp = omega arith
