-- ===== src/SimplePacketizer.antt =====
-- common/src/formats/simple_packetizer.cpp: `SimplePacketizer`, which sends a frame over TCP as a
-- header and the bitstream as it is.
pub mod Flags
pub mod Frames
mod Tests
use wireless_vr_bridge.Base.{
  ℕ, ◌+◌, Bool, true, false, not, List, [], ◌∷◌, Option, none, some, if◌then◌else◌, ltb, u32, sub64,
}
use wireless_vr_bridge.Network.{htonl, ntohl}
use wireless_vr_bridge.Packetizer.{Out, FrameData, IPacketizer}
use wireless_vr_bridge.SimpleHeader.{
  SimpleHeader, sizeof_simple_header, header_bytes, has_flag, end_of_frame,
}
use wireless_vr_bridge.SimpleHeader.Flags.{raise}

pub record SimplePacketizer : Type 0 where
  pub m_data : Option (List ℕ)
  pub m_header : SimpleHeader
  pub m_header_sent : Bool

-- A packetizer as it is made. The padding of the header is not initialised.
abbrev pub create_simple_packetizer : List ℕ → SimplePacketizer
create_simple_packetizer padding = record {
  m_data = none;
  m_header = record {
    size = 0;
    rtp_sample_timestamp = 0;
    rtp_pose_timestamp = 0;
    frame_id = 0;
    flags = 0;
    padding = padding;
  };
  m_header_sent = true;
}

-- `m_header.flags` is added to, and never reset.
unfoldable pub add_frame_data : FrameData → SimplePacketizer → SimplePacketizer
add_frame_data f p = record p {
  m_data = f.bytes;
  m_header = record p.m_header {
    size = htonl (u32 (sizeof_simple_header + f.size));
    rtp_sample_timestamp = htonl f.rtp_sampling_timestamp;
    rtp_pose_timestamp = htonl f.rtp_pose_timestamp;
    frame_id = htonl f.frame_id;
    flags = raise f.last_of_frame f.save_frame f.end_of_stream p.m_header.flags;
  };
  m_header_sent = false;
}

-- The second half: the header was sent. `m_data` is tested against `nullptr`; with no data left the
-- out parameters are not written.
send_data : Option (List ℕ) → SimplePacketizer → Out → Bool × Out × SimplePacketizer
send_data none p out = (false, out, p)
send_data (some bytes) p out = (
  not (has_flag p.m_header.flags end_of_frame),
  record { packet_data = some bytes; size = sub64 (ntohl p.m_header.size) sizeof_simple_header },
  record p { m_data = none },
)

unfoldable pub create_next_packet : SimplePacketizer → Out → Bool × Out × SimplePacketizer
unfolding send_data
create_next_packet p out =
    if not p.m_header_sent
    then (
      ltb sizeof_simple_header (ntohl p.m_header.size),
      record { packet_data = some (header_bytes p.m_header); size = sizeof_simple_header },
      record p { m_header_sent = true },
    )
    else send_data p.m_data p out

unfoldable pub simple_packetizer : IPacketizer SimplePacketizer
simple_packetizer = record {
  add_frame_data = add_frame_data;
  create_next_packet = create_next_packet;
}
