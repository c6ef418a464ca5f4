-- ===== src/Rtp/Tests.antt =====
-- Runs of the functions of rtp.h, and the theorems about them at concrete inputs.
use wireless_vr_bridge.Base.{◌⊎◌}
use wireless_vr_bridge.Base.{ℕ, ◌+◌, ◌%◌, ◌^◌, ◌≤◌, ◌<◌, ◌≡◌, ◌↔◌, true, refl, arith}
use wireless_vr_bridge.Rtp.{
  RtpHeader, h264, opus, invalid, set_payload, payload_type, is_marker, compare_rtp_timestamps,
  compare_rtp_seq, rtp_seq_distance,
}
use wireless_vr_bridge.Rtp.Header.{payload_type-set_payload}
use wireless_vr_bridge.Rtp.Order.{compare_seq_iff}
use wireless_vr_bridge.Rtp.Distance.{seq_distance_unique}

abbrev blank : RtpHeader
blank = record {
  first_byte = 128;
  profile_byte = 97;
  sequence_number = 0;
  timestamp = 0;
  ssrc = 0;
  pose_timestamp_ext = 0;
  frame_id_ext = 0;
}

-- The number 1 after 65535, taken to come before it.
wrapped_number_is_earlier : compare_rtp_seq 1 65535 ≡ true
unfolding compare_rtp_seq
wrapped_number_is_earlier = refl

wrapped_timestamp_is_later : compare_rtp_timestamps 0xFFFFFFFF 3 ≡ true
unfolding compare_rtp_timestamps
wrapped_timestamp_is_later = refl

payload_type-set_payload_example :
    (payload_type (set_payload h264 true blank) ≡ h264)
    × (is_marker (set_payload h264 true blank) ≡ true)
    × (payload_type (set_payload opus true blank) ≡ invalid)
    × (is_marker (set_payload opus true blank) ≡ true)
payload_type-set_payload_example = payload_type-set_payload blank true

compare_seq_iff_example : (compare_rtp_seq 1 65535 ≡ true) ↔ ((1 < 65535) ⊎ (65535 + 32768 ≤ 1))
compare_seq_iff_example = compare_seq_iff 1 65535 (omega arith) (omega arith)

seq_distance_unique_example :
    (rtp_seq_distance 65535 2 < 2 ^ 16)
    × ((65535 + rtp_seq_distance 65535 2) % 2 ^ 16 ≡ 2)
    × ((d : ℕ) → d < 2 ^ 16 → (65535 + d) % 2 ^ 16 ≡ 2 → d ≡ rtp_seq_distance 65535 2)
seq_distance_unique_example = seq_distance_unique 65535 2 (omega arith) (omega arith)
