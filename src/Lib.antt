-- ===== src/Lib.antt =====
-- wireless-vr-bridge: what the server and the client of a wireless VR link compute on the packets that
-- they exchange. The server encodes the frames of SteamVR and sends them over a video socket; the client
-- reassembles and shows them, and sends its tracking state and its measurements back over the VR
-- control protocol (VRCP).
--
-- Parts, by file:
--   Base            shared names, tests, lists and bytes, machine words, integers, texts.
--   Network         common/include/wvb_common/network_utils.h, byte order; Network.Wire is how words lie
--                   in memory.
--   Rtp             common/include/wvb_common/rtp.h, the RTP header and the circular arithmetic.
--   RtpClock        common/include/wvb_common/rtp_clock.h, time points and RTP timestamps.
--   Packetizer      common/include/wvb_common/packetizer.h, the interface of the packetizers, as a record
--                   of operations over a state.
--   SimpleHeader, SimplePacketizer, SimpleDepacketizer
--                   common/src/formats/simple_packetizer.cpp. The packetizer fills the interface. The
--                   depacketizer is a ring of ten buffers; SimpleDepacketizer.Queue is the queue that it
--                   implements, Slots says what each slot holds, Validity and Overflow keep that, Refine
--                   relates add_packet to the queue, Stream and Single feed it a stream, and Returns,
--                   Fields and Reading are the rendering thread's side.
--   H264Packetizer  common/src/formats/h264/h264_rtp_packetizer.cpp, which fills the interface too. Units
--                   and Bounded are about the loop that looks for the end of a unit, Next is one call by
--                   what stands at the head, Payloads, Frames and Sent are a frame in the sending loop,
--                   Ends is any data, and Lost a unit of the wrong length.
--   RtpDepacketizer common/src/formats/rtp_packetizer.cpp, its header and
--                   common/src/formats/h264/h264_rtp_depacketizer.cpp: the state and its jitter buffer,
--                   Process what a packet adds to the frame, Receive the arrival of a packet. Arrival and
--                   Arrived are about a packet that is the desired one, Kept and Reassembly about what its
--                   payload does to the frame, Wired, Received and Delivered take a frame from the packetizer
--                   through, Wrap is about the sequence number 0, Stuck and Ready about frames that
--                   follow each other.
--   VideoSocket     common/src/video_socket.cpp, the loop that sends what a packetizer makes.
--   Measurements    common/include/wvb_common/benchmark.h and vr_structs.h, the data that is exchanged.
--   Vrcp            common/include/wvb_common/vrcp.h and common/src/vrcp.cpp: the packets, their bytes,
--                   and the conversions.
--   VrcpSocket      common/src/vrcp_socket.cpp, how received bytes are cut into packets; Packets
--                   is about those of Vrcp.
--   Handshake       common/src/vrcp_socket.cpp, common/include/wvb_common/vrcp_socket.h: the requests and
--                   answers that open a session. Request makes the packets of connect and
--                   listen_for_conn_req, Fields reads their additional fields, Judge decides as
--                   listen_for_conn_req does. Texts, Reading, Wired and Exchange relate what is sent to
--                   what is read, Answer says what an acceptance guarantees, Agree joins both sides.
--   Sockets         common/src/socket_posix.cpp, common/include/wvb_common/socket.h and socket_addr.h: the
--                   state of a TCP socket over its calls, and of a UDP socket as far as it is used.
--   Session         common/src/vrcp_socket.cpp, the calls of VRCPSocket on its state: Server is listen,
--                   reset_server, reset_client, close and is_connected_refresh, Client is connect,
--                   Candidates is available_servers, Create is create_server, create_client and
--                   unreliable_send. Keeps and Forward are about the state over a
--                   server's life, Refused about a refusal, Rounds, Opened and Joined about a session
--                   that is opened, ResetClient about a client that is refused or has joined, Heard
--                   about the candidates.
--   Settings, ArgParser
--                   common/include/wvb_common/settings.h and wvb_server/src/arg_parser.cpp.
--
-- A call of the program is one step from a state to a state. Numbers are natural numbers below the power
-- of two of their type, and where C++ wraps, the definition does; floats are their bit patterns. A mutex
-- is the flag that one call leaves to the next, and a call that waits for it has no result: calls of the
-- two threads are interleaved as whole steps. The host is little-endian and has 64-bit size_t.
--
-- Loops run on fuel: receive_frame_data on eleven rounds for ten buffers, parse_multi_arg on one round
-- more than its argument has characters; results below say that both are enough. The sending loop has
-- its fuel as an argument, and the results name how much a frame takes.
--
-- The loop over additional fields has the length of the memory that it reads as fuel, each field taking
-- two bytes or more; Handshake.Reading shows that more changes nothing. The loops of the negotiation go
-- over a list with one entry for each call of reliable_receive; a list that is too short is an outcome
-- of its own.
--
-- The loop over the bytes of a unit has one round more than there are bytes; H264Packetizer.Bounded shows
-- that more changes nothing. The calls of the RTP depacketizer have their fuel as an argument: with no
-- packet held one round is enough, and one of the results is about a call that never returns.
--
-- Not modelled: system calls, clocks and memory behind a packet, which are arguments; the Windows socket
-- file and the texts of to_string; the server's and the client's event loops; encoders, graphics, shared
-- memory and the SteamVR driver, which are calls of other libraries.
pub mod Base
pub mod Network
pub mod Rtp
pub mod Packetizer
pub mod SimpleHeader
pub mod SimplePacketizer
pub mod Measurements
pub mod RtpClock
pub mod Settings
pub mod ArgParser
pub mod Sockets
pub mod Handshake
pub mod Vrcp
pub mod VrcpSocket
pub mod Session
pub mod VideoSocket
pub mod SimpleDepacketizer
pub mod H264Packetizer
pub mod RtpDepacketizer
