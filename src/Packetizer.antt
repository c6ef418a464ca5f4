-- ===== src/Packetizer.antt =====
-- common/include/wvb_common/packetizer.h: the interface of the packetizers, over the state `S` of an
-- implementation. A pointer is the list of the bytes that can be read from it, `none` is `nullptr`.
use wireless_vr_bridge.Base.{ℕ, Bool, List, [], Option, none, some, take}

-- The caller's two variables that `create_next_packet` writes through its out parameters.
pub record Out : Type 0 where
  pub packet_data : Option (List ℕ)
  pub size : ℕ

abbrev pub no_packet : Out
no_packet = record { packet_data = none; size = 0 }

-- The bytes that a caller sends which sends `size` bytes from `packet_data`.
abbrev pub pointed : Option (List ℕ) → List ℕ
pointed none = []
pointed (some bytes) = bytes

abbrev pub packet_bytes : Out → List ℕ
packet_bytes out = take out.size (pointed out.packet_data)

-- The arguments of `add_frame_data`.
pub record FrameData : Type 0 where
  pub bytes : Option (List ℕ)
  pub size : ℕ
  pub frame_id : ℕ
  pub end_of_stream : Bool
  pub rtp_sampling_timestamp : ℕ
  pub rtp_pose_timestamp : ℕ
  pub save_frame : Bool
  pub last_of_frame : Bool

pub record IPacketizer (S : Type 0) : Type 0 where
  pub add_frame_data : FrameData → S → S
  pub create_next_packet : S → Out → Bool × Out × S
