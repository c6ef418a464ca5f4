-- ===== src/SimplePacketizer/Tests.antt =====
-- The theorems about the simple packetizer at concrete inputs.
use wireless_vr_bridge.Base.{◌≡◌, refl, arith, true, false, ◌||◌, [], ◌∷◌, some, ◌<◌}
use wireless_vr_bridge.Packetizer.{FrameData, no_packet}
use wireless_vr_bridge.SimpleHeader.{
  SimpleHeader, header_bytes, has_flag, end_of_frame, save_frame, end_of_stream,
}
use wireless_vr_bridge.SimplePacketizer.{
  SimplePacketizer, create_simple_packetizer, add_frame_data, create_next_packet, simple_packetizer,
}
use wireless_vr_bridge.SimplePacketizer.Flags.{Session, start, add, make, flags_accumulate, any_of}
use wireless_vr_bridge.SimplePacketizer.Frames.{
  header_of, packets, send_packet_complete, send_packet_incomplete,
}
use wireless_vr_bridge.VideoSocket.{send_packet}

abbrev frame : FrameData
frame = record {
  bytes = some (7 ∷ 8 ∷ []);
  size = 2;
  frame_id = 5;
  end_of_stream = false;
  rtp_sampling_timestamp = 90;
  rtp_pose_timestamp = 60;
  save_frame = false;
  last_of_frame = true;
}

abbrev part : FrameData
part = record frame { last_of_frame = false }

abbrev saved : FrameData
saved = record frame { save_frame = true }

abbrev fresh : SimplePacketizer
fresh = create_simple_packetizer (0 ∷ 0 ∷ 0 ∷ [])

abbrev header : SimpleHeader
header = record {
  size = 0x16000000;
  rtp_sample_timestamp = 1;
  rtp_pose_timestamp = 2;
  frame_id = 3;
  flags = 5;
  padding = 0 ∷ 0 ∷ 0 ∷ [];
}

send_packet_complete_example :
    (q : SimplePacketizer) × (send_packet simple_packetizer (λ n. true) 3 frame fresh
      ≡ some (packets (header_of frame fresh) (7 ∷ 8 ∷ []), q))
    × (q.m_header ≡ header_of frame fresh)
unfolding add_frame_data has_flag
send_packet_complete_example =
    send_packet_complete (λ n. true) 0 frame fresh (7 ∷ 8 ∷ []) (λ n. refl)
      (record { present = refl; measured = refl; fits = omega arith }) refl refl

send_packet_incomplete_example :
    (q : SimplePacketizer) × (send_packet simple_packetizer (λ n. true) 4 part fresh
      ≡ some (header_bytes (header_of part fresh) ∷ (7 ∷ 8 ∷ []) ∷ (7 ∷ 8 ∷ []) ∷ [], q))
unfolding add_frame_data has_flag
send_packet_incomplete_example =
    send_packet_incomplete (λ n. true) 0 part fresh (7 ∷ 8 ∷ []) (λ n. refl)
      (record { present = refl; measured = refl; fits = omega arith }) (omega arith) refl refl

-- A frame to be saved, a packet of it, and a frame that is not to be saved.
abbrev two_frames :
    Session fresh
      (frame ∷ saved ∷ [])
      (add_frame_data frame (create_next_packet (add_frame_data saved fresh) no_packet).2)
two_frames = add frame (make no_packet (add saved (start refl) refl refl) refl) refl refl

flags_accumulate_example :
    let q = add_frame_data frame (create_next_packet (add_frame_data saved fresh) no_packet).2 in
    (q.m_header.flags < 8)
    × (has_flag q.m_header.flags end_of_frame ≡ (
        has_flag fresh.m_header.flags end_of_frame
        || any_of (λ f. f.last_of_frame) (frame ∷ saved ∷ [])))
    × (has_flag q.m_header.flags save_frame ≡ (
        has_flag fresh.m_header.flags save_frame
        || any_of (λ f. f.save_frame) (frame ∷ saved ∷ [])))
    × (has_flag q.m_header.flags end_of_stream ≡ (
        has_flag fresh.m_header.flags end_of_stream
        || any_of (λ f. f.end_of_stream) (frame ∷ saved ∷ [])))
flags_accumulate_example = flags_accumulate (omega arith) two_frames
