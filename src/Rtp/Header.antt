-- ===== src/Rtp/Header.antt =====
-- The payload type and the marker bit of the RTP header.
use wireless_vr_bridge.Base.{
  ℕ, ◌<◌, ◌≡◌, Bool, true, false, refl, bit_and, bit_or, table, eq_by_table,
}
use wireless_vr_bridge.Rtp.{
  RtpHeader, invalid, h264, opus, set_payload, set_marker, payload_type, is_marker,
}

-- H.264 packets are read back as H.264 with the marker that was set. OPUS packets are not: the type
-- reads as invalid, and the marker as set whatever was asked for, since 143 does not fit 7 bits.
pub payload_type-set_payload :
    (h : RtpHeader) (last : Bool)
    → (payload_type (set_payload h264 last h) ≡ h264)
      × (is_marker (set_payload h264 last h) ≡ last)
      × (payload_type (set_payload opus last h) ≡ invalid)
      × (is_marker (set_payload opus last h) ≡ true)
unfolding set_payload payload_type is_marker
payload_type-set_payload h true = (refl, refl, refl, refl)
payload_type-set_payload h false = (refl, refl, refl, refl)

marker_on : (b : ℕ) → b < 256 → bit_and (bit_or b 0b10000000) 0b10000000 ≡ 0b10000000
unfolding table
marker_on = eq_by_table 256 _ _ refl

marker_off : (b : ℕ) → b < 256 → bit_and (bit_and b 0b01111111) 0b10000000 ≡ 0
unfolding table
marker_off = eq_by_table 256 _ _ refl

type_on : (b : ℕ) → b < 256 → bit_and (bit_or b 0b10000000) 0b01111111 ≡ bit_and b 0b01111111
unfolding table
type_on = eq_by_table 256 _ _ refl

type_off : (b : ℕ) → b < 256 → bit_and (bit_and b 0b01111111) 0b01111111 ≡ bit_and b 0b01111111
unfolding table
type_off = eq_by_table 256 _ _ refl

-- Setting the marker of a header is read back, and leaves the payload type alone.
pub is_marker-set_marker :
    (h : RtpHeader) (last : Bool)
    → h.profile_byte < 256
    → (is_marker (set_marker last h) ≡ last) × (payload_type (set_marker last h) ≡ payload_type h)
unfolding set_marker is_marker payload_type
is_marker-set_marker h true l = (rw (marker_on h.profile_byte l), rw (type_on h.profile_byte l))
is_marker-set_marker h false l = (rw (marker_off h.profile_byte l), rw (type_off h.profile_byte l))
