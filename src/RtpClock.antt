-- ===== src/RtpClock.antt =====
-- common/include/wvb_common/rtp_clock.h: the conversions between time points of the 90 kHz clock and RTP
-- timestamps. A time point counts ticks in an `int64_t`, as `offset` does; both are their two's
-- complement, below 2 ^ 64.
pub mod Convert
use wireless_vr_bridge.Base.{ℕ, ◌+◌, u32, sub64}

pub record RtpClock : Type 0 where
  pub offset : ℕ

unfoldable pub from_rtp_timestamp : RtpClock → ℕ → ℕ
from_rtp_timestamp clock rtp_timestamp = sub64 rtp_timestamp clock.offset

unfoldable pub to_rtp_timestamp : RtpClock → ℕ → ℕ
to_rtp_timestamp clock tp = u32 (u32 tp + clock.offset)
