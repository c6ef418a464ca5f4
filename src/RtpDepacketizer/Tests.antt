-- ===== src/RtpDepacketizer/Tests.antt =====
-- The theorems about the RTP depacketizer at concrete inputs.
use wireless_vr_bridge.Base.{
  All, ℕ, ◌≡◌, refl, arith, Bool, true, false, List, [], ◌∷◌, none, some, length, set, replicate,
}
use wireless_vr_bridge.Network.Wire.{load16, load32}
use wireless_vr_bridge.Rtp.Bytes.{rtp_header_at}
use wireless_vr_bridge.RtpDepacketizer.Process.{process_packet}
use wireless_vr_bridge.Network.{htonl, htons, ntohl, ntohs}
use wireless_vr_bridge.Rtp.{RtpHeader, set_payload, set_marker, is_marker}
use wireless_vr_bridge.H264Packetizer.Next.{rtp_packet}
use wireless_vr_bridge.RtpDepacketizer.{
  RtpDepacketizer, create_h264_rtp_depacketizer, empty_view, finish_packet,
}
use wireless_vr_bridge.RtpDepacketizer.Receive.{add_packet}
use wireless_vr_bridge.H264Packetizer.Sent.{stamped, Nal, frame_bytes, frame_packets}
use wireless_vr_bridge.H264Packetizer.{H264RtpPacketizer, create_h264_rtp_packetizer}
use wireless_vr_bridge.Packetizer.{FrameData}
use wireless_vr_bridge.Network.ByteOrder.{htonl-lt, htons-lt}
use wireless_vr_bridge.RtpDepacketizer.Received.{receive_all}
use wireless_vr_bridge.RtpDepacketizer.Delivered.{
  IsDeliverable, frame_packets-appended, frame_packets-delivered,
}
use wireless_vr_bridge.RtpDepacketizer.Reassembly.{with_units, IsUnit}
use wireless_vr_bridge.RtpDepacketizer.Ready.{EndsReady, add_packet-EndsReady}
use wireless_vr_bridge.RtpDepacketizer.Wired.{IsSent, Awaits}
use wireless_vr_bridge.RtpDepacketizer.Wrap.{add_packet-wrapped}
use wireless_vr_bridge.RtpDepacketizer.Stuck.{add_packet-IsBlocked}

abbrev header : ℕ → RtpHeader
header timestamp = record {
  first_byte = 0b10000000;
  profile_byte = 97;
  sequence_number = 0;
  timestamp = htonl timestamp;
  ssrc = 0;
  pose_timestamp_ext = 0;
  frame_id_ext = 0;
}

-- A unit of two bytes, in a packet of the frame with this timestamp.
abbrev packet : ℕ → ℕ → Bool → List ℕ
packet timestamp seq marker = rtp_packet (header timestamp) seq marker (0x65 ∷ seq ∷ [])

-- Packet 5 is in the frame, packet 7, of the second frame, is held, and packet 6 is late.
abbrev waiting : RtpDepacketizer
waiting = record create_h264_rtp_depacketizer {
  m_first_packet = false;
  m_desired_seq_id = 6;
  m_last_processed_seq_id = 5;
  m_packet_views = set (replicate 128 empty_view) 2 (record { index = 0; size = 22 });
  m_packet_view_head = 1;
  m_jitter_count = 1;
  m_jitter_buffer = record { valid = true; packet_data = packet 2 7 false } ∷ [];
  m_current_rtp_timestamp = 1;
  m_frame_data = 0 ∷ 0 ∷ 0 ∷ 1 ∷ 0x65 ∷ 5 ∷ [];
}

add_packet-IsBlocked_example :
    add_packet 9 (some (packet 1 6 true)) (length (packet 1 6 true)) waiting ≡ none
unfolding rtp_header_at set_marker is_marker ntohs ntohl htons htonl load16 load32 process_packet
    finish_packet
add_packet-IsBlocked_example =
    add_packet-IsBlocked 8 (packet 1 6 true) waiting
      (record {
        sized = omega arith;
        fits = omega arith;
        versioned = refl;
        no_frame = refl;
        desired = refl;
        current = refl;
      })
      (record { held = refl; other_frame = refl; begun = refl })

-- After a frame of one packet, the first packet of another.
abbrev one_frame : RtpDepacketizer
one_frame = record create_h264_rtp_depacketizer {
  m_first_packet = false;
  m_has_frame = true;
  m_desired_seq_id = 6;
  m_last_processed_seq_id = 5;
  m_packet_view_head = 1;
  m_current_rtp_timestamp = 1;
  m_frame_data = 0 ∷ 0 ∷ 0 ∷ 1 ∷ 0x65 ∷ 5 ∷ [];
}

add_packet-EndsReady_example :
    EndsReady (add_packet 2 (some (packet 1 6 false)) (length (packet 1 6 false)) one_frame)
add_packet-EndsReady_example =
    add_packet-EndsReady 2 (some (packet 1 6 false)) (length (packet 1 6 false)) one_frame refl

-- A unit in one packet, and one in two fragments.
abbrev parameter_set : Nal
parameter_set = record { short_code = false; nal_header = 0x67; body = 66 ∷ [] }

abbrev slice : Nal
slice = record { short_code = false; nal_header = 0x65; body = replicate 1500 9 }

abbrev units : List Nal
units = parameter_set ∷ slice ∷ []

-- The first frame of a session.
abbrev packetizer : H264RtpPacketizer
packetizer = create_h264_rtp_packetizer 7 5

abbrev frame : FrameData
frame = record {
  bytes = some (frame_bytes units);
  size = length (frame_bytes units);
  frame_id = 1;
  end_of_stream = false;
  rtp_sampling_timestamp = 90;
  rtp_pose_timestamp = 60;
  save_frame = true;
  last_of_frame = true;
}

frame-IsSent : IsSent (stamped frame packetizer.header)
unfolding create_h264_rtp_packetizer set_payload
frame-IsSent = record {
  widths = record {
    sequence_number = htons-lt 5 (omega arith);
    timestamp = htonl-lt 90 (omega arith);
    ssrc = htonl-lt 7 (omega arith);
    pose_timestamp_ext = htonl-lt 60 (omega arith);
    frame_id_ext = htonl-lt 1 (omega arith);
  };
  versioned = refl;
  profile = omega arith;
}

units-IsUnit : All IsUnit units
units-IsUnit = ((omega arith, λ e. omega (arith, e)), ((omega arith, λ e. omega (arith, e)), _))

units-IsDeliverable : All IsDeliverable units
units-IsDeliverable = ((omega arith, omega arith), ((omega arith, omega arith), _))

frame_packets-delivered_example :
    (e : RtpDepacketizer) × (receive_all 1
        (frame_packets frame packetizer units)
        create_h264_rtp_depacketizer
      ≡ some e)
    × (e.m_frame_data ≡ with_units [] units)
    × (e.m_has_frame ≡ true)
unfolding create_h264_rtp_packetizer
frame_packets-delivered_example =
    frame_packets-delivered 0 frame packetizer parameter_set (slice ∷ []) frame-IsSent units-IsUnit
      units-IsDeliverable (omega arith)

-- The depacketizer has a unit of the frame already, and waits for the packet 5.
abbrev has_part : RtpDepacketizer
has_part = record create_h264_rtp_depacketizer {
  m_first_packet = false;
  m_desired_seq_id = 5;
  m_last_processed_seq_id = 4;
  m_current_rtp_timestamp = 90;
  m_frame_data = 0 ∷ 0 ∷ 0 ∷ 1 ∷ 0x67 ∷ 5 ∷ [];
}

has_part-Awaits : Awaits (stamped frame packetizer.header) 5 has_part
unfolding create_h264_rtp_packetizer ntohl htonl
has_part-Awaits = record { no_frame = refl; desired = refl; current = refl; resting = refl }

frame_packets-appended_example :
    (e : RtpDepacketizer) × (receive_all 1 (frame_packets frame packetizer units) has_part ≡ some e)
    × (e.m_frame_data ≡ with_units (0 ∷ 0 ∷ 0 ∷ 1 ∷ 0x67 ∷ 5 ∷ []) units)
    × (e.m_has_frame ≡ true)
unfolding create_h264_rtp_packetizer
frame_packets-appended_example =
    frame_packets-appended 0 frame packetizer parameter_set (slice ∷ []) has_part frame-IsSent
      units-IsUnit units-IsDeliverable (omega arith) has_part-Awaits
      (record { data_is = refl; fu_is = refl; kept = refl })

-- The numbers start again at 0 in the middle of a unit.
abbrev before_wrap : RtpDepacketizer
before_wrap = record create_h264_rtp_depacketizer {
  m_first_packet = false;
  m_desired_seq_id = 0;
  m_last_processed_seq_id = 65535;
  m_current_rtp_timestamp = 1;
  m_frame_data = 0 ∷ 0 ∷ 0 ∷ 1 ∷ 0x65 ∷ 5 ∷ [];
  m_fu_header = some 4;
}

-- The last fragment of the unit.
abbrev last_part : List ℕ
last_part = 0x7C ∷ 0x45 ∷ 8 ∷ 9 ∷ []

header-IsSent : IsSent (header 1)
header-IsSent = record {
  widths = record {
    sequence_number = omega arith;
    timestamp = htonl-lt 1 (omega arith);
    ssrc = omega arith;
    pose_timestamp_ext = omega arith;
    frame_id_ext = omega arith;
  };
  versioned = refl;
  profile = omega arith;
}

before_wrap-Awaits : Awaits (header 1) 0 before_wrap
unfolding ntohl htonl
before_wrap-Awaits = record { no_frame = refl; desired = refl; current = refl; resting = refl }

add_packet-wrapped_example :
    (e : RtpDepacketizer) × (add_packet 1
        (some (rtp_packet (header 1) 0 true last_part))
        (length (rtp_packet (header 1) 0 true last_part))
        before_wrap
      ≡ some e)
    × (e.m_frame_data ≡ 0 ∷ 0 ∷ 0 ∷ 1 ∷ 0xE5 ∷ 5 ∷ [])
    × (e.m_desired_seq_id ≡ 1)
add_packet-wrapped_example =
    add_packet-wrapped 0 (header 1) true last_part 4 before_wrap header-IsSent before_wrap-Awaits
      (record { is_fragment = refl; no_start = refl; low = omega arith; high = omega arith }) refl
