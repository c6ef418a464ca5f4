-- ===== src/Rtp/Bytes.antt =====
-- common/include/wvb_common/rtp.h: the RTP header in memory, packed.
use wireless_vr_bridge.Base.{
  ℕ, ◌+◌, ◌*◌, ◌/◌, ◌%◌, ◌^◌, ◌<◌, ◌≡◌, arith, List, [], ◌∷◌, ◌++◌, get_or,
}
use wireless_vr_bridge.Network.Wire.{bytes16, bytes32, load16, load32}
use wireless_vr_bridge.Rtp.{RtpHeader}

abbrev pub rtp_header_bytes : RtpHeader → List ℕ
rtp_header_bytes h =
    h.first_byte ∷ h.profile_byte ∷ bytes16 h.sequence_number
    ++ bytes32 h.timestamp
    ++ bytes32 h.ssrc
    ++ bytes32 h.pose_timestamp_ext
    ++ bytes32 h.frame_id_ext
    ++ []

-- The header that a pointer to the packet shows.
unfoldable pub rtp_header_at : List ℕ → RtpHeader
rtp_header_at packet = record {
  first_byte = get_or packet 0 0;
  profile_byte = get_or packet 1 0;
  sequence_number = load16 packet 2;
  timestamp = load32 packet 4;
  ssrc = load32 packet 8;
  pose_timestamp_ext = load32 packet 12;
  frame_id_ext = load32 packet 16;
}

pub record HasRtpWidths (h : RtpHeader) : Type 0 where
  pub sequence_number : h.sequence_number < 2 ^ 16
  pub timestamp : h.timestamp < 2 ^ 32
  pub ssrc : h.ssrc < 2 ^ 32
  pub pose_timestamp_ext : h.pose_timestamp_ext < 2 ^ 32
  pub frame_id_ext : h.frame_id_ext < 2 ^ 32

joined16 : (w : ℕ) → w < 2 ^ 16 → w % 256 + w / 2 ^ 8 % 256 * 2 ^ 8 ≡ w
joined16 w h = omega arith

joined32 :
    (w : ℕ)
    → w < 2 ^ 32
    → w % 256 + w / 2 ^ 8 % 256 * 2 ^ 8 + w / 2 ^ 16 % 256 * 2 ^ 16 + w / 2 ^ 24 % 256 * 2 ^ 24 ≡ w
joined32 w h = omega arith

pub rtp_header_at-bytes :
    (h : RtpHeader) (payload : List ℕ)
    → HasRtpWidths h
    → rtp_header_at (rtp_header_bytes h ++ payload) ≡ h
unfolding rtp_header_at load16 load32
rtp_header_at-bytes h payload w = λ k. record {
  first_byte = h.first_byte;
  profile_byte = h.profile_byte;
  sequence_number = joined16 h.sequence_number w.sequence_number k;
  timestamp = joined32 h.timestamp w.timestamp k;
  ssrc = joined32 h.ssrc w.ssrc k;
  pose_timestamp_ext = joined32 h.pose_timestamp_ext w.pose_timestamp_ext k;
  frame_id_ext = joined32 h.frame_id_ext w.frame_id_ext k;
}
