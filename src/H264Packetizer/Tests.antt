-- ===== src/H264Packetizer/Tests.antt =====
-- The theorems about the H.264 packetizer at concrete inputs.
use wireless_vr_bridge.Base.{
  ℕ, zero, suc, ◌≡◌, refl, arith, true, false, List, [], ◌∷◌, ◌++◌, some, replicate, length,
}
use wireless_vr_bridge.Packetizer.{FrameData}
use wireless_vr_bridge.H264Packetizer.{
  H264RtpPacketizer, create_h264_rtp_packetizer, h264_packetizer, start_code,
}
use wireless_vr_bridge.VideoSocket.{send_packet}
use wireless_vr_bridge.H264Packetizer.Units.{IsClean, code_bytes}
use wireless_vr_bridge.H264Packetizer.Next.{rtp_packet, first_fragment}
use wireless_vr_bridge.H264Packetizer.Sent.{
  Nal, IsSendable, frame_bytes, frame_packets, stamped, send_packet_units,
}
use wireless_vr_bridge.H264Packetizer.Ends.{EndsShort, send_packet-EndsShort}
use wireless_vr_bridge.H264Packetizer.Lost.{send_packet_cut}

abbrev fresh : H264RtpPacketizer
fresh = create_h264_rtp_packetizer 7 65535

-- A short unit, and one that is sent in two fragments.
abbrev parameter_set : Nal
parameter_set = record { short_code = false; nal_header = 0x67; body = 66 ∷ 0 ∷ 30 ∷ [] }

abbrev slice : Nal
slice = record { short_code = true; nal_header = 0x65; body = replicate 1500 9 }

abbrev frame : List ℕ → FrameData
frame bytes = record {
  bytes = some bytes;
  size = length bytes;
  frame_id = 5;
  end_of_stream = false;
  rtp_sampling_timestamp = 90;
  rtp_pose_timestamp = 60;
  save_frame = true;
  last_of_frame = true;
}

abbrev frame_of_two : FrameData
frame_of_two = frame (frame_bytes (parameter_set ∷ slice ∷ []))

nine : (u : List ℕ) → start_code (9 ∷ u) ≡ 0
nine [] = refl
nine (a ∷ []) = refl
nine (a ∷ b ∷ u) = refl

nines-IsClean : (n : ℕ) (rest : List ℕ) → IsClean (replicate n 9) rest
nines-IsClean zero rest = _
nines-IsClean (suc n) rest = (nine (replicate n 9 ++ rest), nines-IsClean n rest)

send_packet_units_example :
    (q : H264RtpPacketizer) × (send_packet h264_packetizer (λ n. true) 4 frame_of_two fresh
      ≡ some (frame_packets frame_of_two fresh (parameter_set ∷ slice ∷ []), q))
send_packet_units_example =
    send_packet_units (λ n. true) frame_of_two fresh parameter_set (slice ∷ []) 4 (λ n. refl) refl
      refl ((λ e. omega (arith, e)), (refl, (refl, (refl, (refl, _)))), omega arith, slice_sendable)
      (omega arith)
  where
    slice_sendable : IsSendable (slice ∷ [])
    slice_sendable = ((λ e. omega (arith, e)), (refl, nines-IsClean 1500 []), omega arith, _)

-- Bytes without a start code.
send_packet-EndsShort_example :
    EndsShort (send_packet h264_packetizer (λ n. true) 6 (frame (1 ∷ 2 ∷ 3 ∷ 4 ∷ [])) fresh)
send_packet-EndsShort_example =
    send_packet-EndsShort (λ n. true) (frame (1 ∷ 2 ∷ 3 ∷ 4 ∷ [])) fresh 6 (omega arith)

abbrev full_unit : FrameData
full_unit =
    frame (code_bytes false ++ (0x67 ∷ (replicate 1399 9 ++ (code_bytes true ++ 0x65 ∷ 8 ∷ []))))

send_packet_cut_example :
    (q : H264RtpPacketizer) × (send_packet h264_packetizer (λ n. true) 4 full_unit fresh
      ≡ some (
        rtp_packet
              (stamped full_unit fresh.header)
              fresh.m_sequence_number
              false
              (first_fragment 0x67 (replicate 1399 9))
            ∷ [],
        q,
      ))
send_packet_cut_example =
    send_packet_cut (λ n. true) full_unit fresh false true 0x67 (replicate 1399 9) (0x65 ∷ 8 ∷ []) 1
      (λ n. refl) refl refl (λ e. omega (arith, e))
      (refl, nines-IsClean 1399 (0 ∷ 0 ∷ 1 ∷ 0x65 ∷ 8 ∷ [])) refl
