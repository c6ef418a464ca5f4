-- ===== src/Vrcp.antt =====
-- common/include/wvb_common/vrcp.h: the VR control protocol. This module has the codes; the packets are
-- packed structs, in network byte order where the constructors of common/src/vrcp.cpp convert them.
pub mod Control
pub mod Measured
pub mod Packets
pub mod Encode
pub mod RoundTrip
mod Tests
use wireless_vr_bridge.Base.{ℕ, Bool, not, ◌&&&◌, ◌==◌}

abbrev pub vrcp_version : ℕ
vrcp_version = 1

abbrev pub vrcp_magic : ℕ
vrcp_magic = 0x4D

abbrev pub vrcp_row_size : ℕ
vrcp_row_size = 4

-- `user_data` is the type of the source's struct; a user's own types are the codes from 0x80 on.
pub data VrcpFieldType : Type 0 where
  invalid conn_req conn_accept conn_reject input_data tracking_data : VrcpFieldType
  manufacturer_name_tlv system_name_tlv supported_video_codecs_tlv chosen_video_codec_tlv :
      VrcpFieldType
  ping ping_reply sync_finished benchmark_info measurement_transfer_finished : VrcpFieldType
  frame_time_measurement image_quality_measurement tracking_time_measurement : VrcpFieldType
  network_measurement socket_measurement next_pass frame_capture_fragment : VrcpFieldType
  server_advertisement user_data : VrcpFieldType

abbrev pub to_u8 : VrcpFieldType → ℕ
to_u8 invalid = 0
to_u8 conn_req = 1
to_u8 conn_accept = 2
to_u8 conn_reject = 3
to_u8 input_data = 4
to_u8 tracking_data = 0x05
to_u8 manufacturer_name_tlv = 0x09
to_u8 system_name_tlv = 0x0A
to_u8 supported_video_codecs_tlv = 0x0B
to_u8 chosen_video_codec_tlv = 0x0C
to_u8 ping = 0x10
to_u8 ping_reply = 0x11
to_u8 sync_finished = 0x12
to_u8 benchmark_info = 0x20
to_u8 measurement_transfer_finished = 0x21
to_u8 frame_time_measurement = 0x22
to_u8 image_quality_measurement = 0x23
to_u8 tracking_time_measurement = 0x24
to_u8 network_measurement = 0x25
to_u8 socket_measurement = 0x26
to_u8 next_pass = 0x27
to_u8 frame_capture_fragment = 0x28
to_u8 server_advertisement = 0x70
to_u8 user_data = 0x80

pub data VrcpVideoMode : Type 0 where
  udp tcp : VrcpVideoMode

abbrev pub to_u8_mode : VrcpVideoMode → ℕ
to_u8_mode udp = 0
to_u8_mode tcp = 1

unfoldable pub is_user_field : ℕ → Bool
is_user_field type = not ((type &&& 0b10000000) == 0)

pub data VrcpRejectReason : Type 0 where
  no_reason generic_error version_mismatch invalid_vrcp_port invalid_video_port : VrcpRejectReason
  invalid_eye_size invalid_refresh_rate invalid_manufacturer_name invalid_system_name :
      VrcpRejectReason
  invalid_video_codecs no_supported_video_codec video_mode_mismatch : VrcpRejectReason
  invalid_ntp_timestamp : VrcpRejectReason

abbrev pub reject_code : VrcpRejectReason → ℕ
reject_code no_reason = 0
reject_code generic_error = 1
reject_code version_mismatch = 2
reject_code invalid_vrcp_port = 3
reject_code invalid_video_port = 4
reject_code invalid_eye_size = 5
reject_code invalid_refresh_rate = 6
reject_code invalid_manufacturer_name = 7
reject_code invalid_system_name = 8
reject_code invalid_video_codecs = 9
reject_code no_supported_video_codec = 10
reject_code video_mode_mismatch = 11
reject_code invalid_ntp_timestamp = 12
