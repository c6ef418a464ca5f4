-- ===== src/SimpleHeader.antt =====
-- common/src/formats/simple_packetizer.cpp: `SimpleHeader`, the header that the packetizer puts
-- before each frame, and its flags. The struct is not packed: four words and a byte take 20 bytes, of
-- which the last three are padding, with whatever they hold.
pub mod Layout
pub mod Flags
use wireless_vr_bridge.Base.{
  ℕ, ◌+◌, Bool, true, false, List, [], ◌∷◌, ◌++◌, ◌==◌, if◌then◌else◌, ◌&&&◌, ◌|||◌, get_or,
}
use wireless_vr_bridge.Network.Wire.{bytes32, load32}

abbrev pub end_of_frame : ℕ
end_of_frame = 0b001

abbrev pub save_frame : ℕ
save_frame = 0b010

abbrev pub end_of_stream : ℕ
end_of_stream = 0b100

-- `(flags & flag) == flag`
unfoldable pub has_flag : ℕ → ℕ → Bool
has_flag flags flag = (flags &&& flag) == flag

pub record SimpleHeader : Type 0 where
  pub size : ℕ
  pub rtp_sample_timestamp : ℕ
  pub rtp_pose_timestamp : ℕ
  pub frame_id : ℕ
  pub flags : ℕ
  pub padding : List ℕ

abbrev pub sizeof_simple_header : ℕ
sizeof_simple_header = 20

-- The header in memory, which is what `reinterpret_cast<const uint8_t *>` sends.
unfoldable pub header_bytes : SimpleHeader → List ℕ
header_bytes h =
    bytes32 h.size
    ++ bytes32 h.rtp_sample_timestamp
    ++ bytes32 h.rtp_pose_timestamp
    ++ bytes32 h.frame_id
    ++ h.flags ∷ h.padding

-- The header at the beginning of a buffer, which is what `Framebuffer::header` reads.
unfoldable pub header_at : List ℕ → SimpleHeader
header_at buffer = record {
  size = load32 buffer 0;
  rtp_sample_timestamp = load32 buffer 4;
  rtp_pose_timestamp = load32 buffer 8;
  frame_id = load32 buffer 12;
  flags = get_or buffer 16 0;
  padding = get_or buffer 17 0 ∷ get_or buffer 18 0 ∷ get_or buffer 19 0 ∷ [];
}
