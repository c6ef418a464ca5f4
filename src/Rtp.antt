-- ===== src/Rtp.antt =====
-- common/include/wvb_common/rtp.h: the RTP header and the circular arithmetic on timestamps and
-- sequence numbers.
pub mod Header
pub mod Bytes
pub mod Order
pub mod Distance
mod Tests
use wireless_vr_bridge.Base.{
  ℕ, ◌+◌, ◌-◌, ◌/◌, ◌%◌, ◌^◌, Bool, true, false, ◌&&◌, not, ltb, leb, ◌==◌, if◌then◌else◌, u16, u32,
  u64, sub32, ◌&&&◌, ◌|||◌,
}
use wireless_vr_bridge.Base.Int.{ℤ, pos, sub_ℕ, signed64, gtb}

abbrev pub rtp_first_byte_base : ℕ
rtp_first_byte_base = 0b10000000

abbrev pub rtp_marker_bit : ℕ
rtp_marker_bit = 0b10000000

abbrev pub rtp_payload_type_mask : ℕ
rtp_payload_type_mask = 0b01111111

-- `enum class RTPPayloadType`
pub data RtpPayloadType : Type 0 where
  invalid h264 opus : RtpPayloadType

abbrev pub payload_value : RtpPayloadType → ℕ
payload_value invalid = 0
payload_value h264 = 97
payload_value opus = 143

-- `struct RTPHeader`, with the values that its fields hold (in network order, as they are sent).
pub record RtpHeader : Type 0 where
  pub first_byte : ℕ
  pub profile_byte : ℕ
  pub sequence_number : ℕ
  pub timestamp : ℕ
  pub ssrc : ℕ
  pub pose_timestamp_ext : ℕ
  pub frame_id_ext : ℕ

abbrev pub sizeof_rtp_header : ℕ
sizeof_rtp_header = 20

unfoldable pub set_payload : RtpPayloadType → Bool → RtpHeader → RtpHeader
set_payload payload_type last_frame h =
    if last_frame
    then record h { profile_byte = payload_value payload_type ||| rtp_marker_bit }
    else record h { profile_byte = payload_value payload_type }

-- `~RTP_MARKER_BIT` on a byte is `0b01111111`.
unfoldable pub set_marker : Bool → RtpHeader → RtpHeader
set_marker last_frame h =
    if last_frame
    then record h { profile_byte = h.profile_byte ||| rtp_marker_bit }
    else record h { profile_byte = h.profile_byte &&& 0b01111111 }

unfoldable pub payload_type : RtpHeader → RtpPayloadType
payload_type h =
    let t = h.profile_byte &&& rtp_payload_type_mask in
    if t == 97 then h264 else if t == 143 then opus else invalid

unfoldable pub is_marker : RtpHeader → Bool
is_marker h = not ((h.profile_byte &&& rtp_marker_bit) == 0)

abbrev pub uint32_max : ℕ
uint32_max = 2 ^ 32 - 1

abbrev pub uint16_max : ℕ
uint16_max = 2 ^ 16 - 1

-- `a - b` is a `uint32_t` and wraps.
unfoldable pub compare_rtp_timestamps : ℕ → ℕ → Bool
compare_rtp_timestamps a b = ltb (uint32_max / 2) (sub32 a b)

-- `uint16_t` operands are promoted to `int`, and the comparison with the unsigned `UINT16_MAX / 2u`
-- converts their difference to 32 unsigned bits.
unfoldable pub compare_rtp_seq : ℕ → ℕ → Bool
compare_rtp_seq a b = ltb (uint16_max / 2) (sub32 a b)

unfoldable pub rtp_timestamps_distance_absolute : ℕ → ℕ → ℕ
rtp_timestamps_distance_absolute a b =
    if leb a 0x40000000 && leb 0xC0000000 b
    then u32 (uint32_max - b + a + 1)
    else if leb b 0x40000000 && leb 0xC0000000 a
    then u32 (uint32_max - a + b + 1)
    else if ltb b a
    then a - b
    else b - a

-- The first branch negates a `uint64_t`, whose pattern is then read as an `int64_t`.
unfoldable pub rtp_timestamps_distance : ℕ → ℕ → ℤ
rtp_timestamps_distance small high =
    if leb small 0x40000000 && leb 0xC0000000 high
    then signed64 (u64 (2 ^ 64 - u32 (uint32_max - high + small + 1)))
    else if leb high 0x40000000 && leb 0xC0000000 small
    then signed64 (u32 (uint32_max - small + high + 1))
    else sub_ℕ high small

unfoldable pub rtp_seq_distance : ℕ → ℕ → ℕ
rtp_seq_distance small high =
    if leb small high then high - small else u16 (uint16_max - small + high + 1)
