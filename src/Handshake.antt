-- ===== src/Handshake.antt =====
-- common/src/vrcp_socket.cpp and common/include/wvb_common/vrcp_socket.h: the negotiation that opens a
-- session. The client sends a CONN_REQ packet, with its names and its codecs in additional fields (TLV);
-- the server answers with a CONN_ACCEPT, whose only field is the codec, or with a CONN_REJECT. A text is
-- a list of bytes, a `float` its pattern.
pub mod Fields
pub mod Request
pub mod Judge
pub mod Texts
pub mod Reading
pub mod Wired
pub mod Exchange
pub mod Answer
pub mod Agree
pub mod Tests
use wireless_vr_bridge.Base.{ℕ, List}

pub record Extent2D : Type 0 where
  pub width : ℕ
  pub height : ℕ

pub record RefreshRate : Type 0 where
  pub numerator : ℕ
  pub denominator : ℕ

pub record Extent2Df : Type 0 where
  pub width : ℕ
  pub height : ℕ

pub record VrSystemSpecs : Type 0 where
  pub system_name : List ℕ
  pub manufacturer_name : List ℕ
  pub eye_resolution : Extent2D
  pub refresh_rate : RefreshRate
  pub ipd : ℕ
  pub eye_to_head_distance : ℕ
  pub world_bounds : Extent2Df

pub record VrcpClientParams : Type 0 where
  pub video_port : ℕ
  pub specs : VrSystemSpecs
  pub supported_video_codecs : List (List ℕ)
  pub ntp_timestamp : ℕ

pub record VrcpServerParams : Type 0 where
  pub video_port : ℕ
  pub supported_video_codecs : List (List ℕ)

pub record VrcpConnectResp : Type 0 where
  pub peer_video_port : ℕ
  pub chosen_video_codec : List ℕ
  pub ntp_timestamp : ℕ
