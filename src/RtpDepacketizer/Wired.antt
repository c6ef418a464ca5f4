-- ===== src/RtpDepacketizer/Wired.antt =====
-- A packet that the packetizer made, as the depacketizer reads it.
use mathlib.Core.Path.{subst}
use wireless_vr_bridge.Base.{
  ℕ, suc, ◌^◌, ◌≤◌, ◌<◌, ◌≡◌, refl, sym, ap, ap₂, ◌∙◌, arith, Bool, true, false, List, some, length,
  take-all,
}
use wireless_vr_bridge.Network.{ntohl, ntohs, htons}
use wireless_vr_bridge.Network.ByteOrder.{htons-lt, ntohs-htons}
use wireless_vr_bridge.Rtp.{RtpHeader, set_marker, is_marker}
use wireless_vr_bridge.Rtp.Header.{is_marker-set_marker}
use wireless_vr_bridge.Rtp.Bytes.{HasRtpWidths, rtp_header_at, rtp_header_at-bytes}
use wireless_vr_bridge.H264Packetizer.Next.{numbered, rtp_packet}
use wireless_vr_bridge.RtpDepacketizer.{RtpDepacketizer}
use wireless_vr_bridge.RtpDepacketizer.Process.{payload_of}
use wireless_vr_bridge.RtpDepacketizer.Receive.{add_packet, begin_at}
use wireless_vr_bridge.RtpDepacketizer.Arrival.{IsNext, begun}
use wireless_vr_bridge.RtpDepacketizer.Reassembly.{arrived}
use wireless_vr_bridge.RtpDepacketizer.Arrived.{after, IsResting, add_packet-IsResting}

-- A header that a packetizer makes.
pub record IsSent (header : RtpHeader) : Type 0 where
  pub widths : HasRtpWidths header
  pub versioned : header.first_byte ≡ 0b10000000
  pub profile : header.profile_byte < 256

-- The depacketizer waits for the packet `seq` of the frame, or for the first packet of all.
pub record Awaits (header : RtpHeader) (seq : ℕ) (d : RtpDepacketizer) : Type 0 where
  pub no_frame : d.m_has_frame ≡ false
  pub desired : seq ≡ (begin_at seq (ntohl header.timestamp) d).m_desired_seq_id
  pub current :
      ntohl header.timestamp ≡ (begin_at seq (ntohl header.timestamp) d).m_current_rtp_timestamp
  pub resting : IsResting d

pub numbered-HasRtpWidths :
    (header : RtpHeader) (seq : ℕ) (marker : Bool)
    → seq < 2 ^ 16
    → HasRtpWidths header
    → HasRtpWidths (numbered header seq marker)
unfolding set_marker
numbered-HasRtpWidths header seq true l w = record {
  sequence_number = htons-lt seq l;
  timestamp = w.timestamp;
  ssrc = w.ssrc;
  pose_timestamp_ext = w.pose_timestamp_ext;
  frame_id_ext = w.frame_id_ext;
}
numbered-HasRtpWidths header seq false l w = record {
  sequence_number = htons-lt seq l;
  timestamp = w.timestamp;
  ssrc = w.ssrc;
  pose_timestamp_ext = w.pose_timestamp_ext;
  frame_id_ext = w.frame_id_ext;
}

-- The fields that the marker leaves alone.
pub numbered_fields :
    (header : RtpHeader) (seq : ℕ) (marker : Bool)
    → ((numbered header seq marker).first_byte ≡ header.first_byte)
      × ((numbered header seq marker).sequence_number ≡ htons seq)
      × ((numbered header seq marker).timestamp ≡ header.timestamp)
unfolding set_marker
numbered_fields header seq true = (refl, refl, refl)
numbered_fields header seq false = (refl, refl, refl)

module _ (header : RtpHeader) (seq : ℕ) (below : seq < 2 ^ 16) (marker : Bool) (payload : List ℕ)
    (sent : IsSent header) where
  header_read : rtp_header_at (rtp_packet header seq marker payload) ≡ numbered header seq marker
  header_read =
      rtp_header_at-bytes (numbered header seq marker) payload
        (numbered-HasRtpWidths header seq marker below sent.widths)

  seq_read : ntohs (rtp_header_at (rtp_packet header seq marker payload)).sequence_number ≡ seq
  seq_read =
      ap (λ h. ntohs h.sequence_number) header_read
      ∙ ap ntohs (numbered_fields header seq marker).1
      ∙ ntohs-htons seq below

  timestamp_read :
      ntohl (rtp_header_at (rtp_packet header seq marker payload)).timestamp
      ≡ ntohl header.timestamp
  timestamp_read =
      ap (λ h. ntohl h.timestamp) header_read ∙ ap ntohl (numbered_fields header seq marker).2

  marker_read : is_marker (rtp_header_at (rtp_packet header seq marker payload)) ≡ marker
  marker_read =
      ap is_marker header_read
      ∙ (is_marker-set_marker (record header { sequence_number = htons seq }) marker sent.profile).0

  payload_read :
      payload_of
        (rtp_packet header seq marker payload)
        (length (rtp_packet header seq marker payload))
      ≡ payload
  payload_read = take-all (length payload) payload (omega arith)

  module _ (d : RtpDepacketizer) where
    begun_read :
        begun (rtp_packet header seq marker payload) d ≡ begin_at seq (ntohl header.timestamp) d
    begun_read = ap₂ (λ s t. begin_at s t d) seq_read timestamp_read

    after_read :
        after (rtp_packet header seq marker payload) d
        ≡ arrived seq marker payload (begin_at seq (ntohl header.timestamp) d)
    after_read = λ k. arrived (seq_read k) (marker_read k) (payload_read k) (begun_read k)

    packet-IsNext :
        Awaits header seq d
        → 2 ≤ length payload
        → length payload < 1480
        → IsNext (rtp_packet header seq marker payload) d
    packet-IsNext v low high = record {
      sized = omega arith;
      fits = omega arith;
      versioned =
          ap (λ h. h.first_byte) header_read
          ∙ (numbered_fields header seq marker).0
          ∙ sent.versioned;
      no_frame = v.no_frame;
      desired = seq_read ∙ v.desired ∙ ap (λ e. e.m_desired_seq_id) (sym begun_read);
      current = timestamp_read ∙ v.current ∙ ap (λ e. e.m_current_rtp_timestamp) (sym begun_read);
    }

    pub add_packet-Awaits :
        (fuel : ℕ)
        → Awaits header seq d
        → 2 ≤ length payload
        → length payload < 1480
        → (add_packet
              (suc fuel)
              (some (rtp_packet header seq marker payload))
              (length (rtp_packet header seq marker payload))
              d
            ≡ some (arrived seq marker payload (begin_at seq (ntohl header.timestamp) d)))
          × IsResting (arrived seq marker payload (begin_at seq (ntohl header.timestamp) d))
    add_packet-Awaits fuel v low high =
        let (returns, rest) =
          add_packet-IsResting fuel (rtp_packet header seq marker payload) d
            (packet-IsNext v low high) v.resting in
        (returns ∙ ap some after_read, subst IsResting after_read rest)
