-- ===== src/SimpleDepacketizer.antt =====
-- common/src/formats/simple_packetizer.cpp: `SimpleDepacketizer`, a ring of buffers in which the
-- receiving thread reassembles frames and from which the rendering thread takes them. Each call is
-- one step; `locked` is the mutex of a buffer as one call leaves it to the next, which is how
-- `receive_frame_data` hands a buffer to the caller. `none` is a call that waits for such a mutex.
pub mod Slots
pub mod Queue
pub mod Validity
pub mod Overflow
pub mod Refine
pub mod Stream
pub mod Single
pub mod Returns
pub mod Fields
pub mod Reading
mod Tests
use wireless_vr_bridge.Base.{
  ℕ, zero, suc, ◌+◌, ◌-◌, ◌%◌, Bool, true, false, not, ◌&&◌, List, [], ◌∷◌, ◌++◌, Option, none,
  some, if◌then◌else◌, ltb, leb, ◌==◌, length, get_or, set, drop, replicate, sub64, u8,
}
use wireless_vr_bridge.Network.{ntohl}
use wireless_vr_bridge.SimpleHeader.{
  sizeof_simple_header, header_at, has_flag, save_frame as save_flag, end_of_stream as end_flag,
}

abbrev pub framebuffer_count : ℕ
framebuffer_count = 10

-- `ENABLE_FRAME_DROP_CATCHUP` and `CATCHUP_THRESHOLD`
abbrev enable_frame_drop_catchup : Bool
enable_frame_drop_catchup = false

abbrev catchup_threshold : ℕ
catchup_threshold = 2

pub record Framebuffer : Type 0 where
  pub buffer : List ℕ
  pub size : ℕ
  pub last_packet_received_time : ℕ
  pub ready : Bool
  pub locked : Bool

abbrev pub empty_framebuffer : Framebuffer
empty_framebuffer = record {
  buffer = [];
  size = 0;
  last_packet_received_time = 0;
  ready = false;
  locked = false;
}

pub record SimpleDepacketizer : Type 0 where
  pub m_buffers : List Framebuffer
  pub m_tail : ℕ
  pub m_head : ℕ

abbrev pub create_simple_depacketizer : SimpleDepacketizer
create_simple_depacketizer = record {
  m_buffers = replicate framebuffer_count empty_framebuffer;
  m_tail = 0;
  m_head = 0;
}

-- `m_buffers[i]`; the indices stay below `FRAMEBUFFER_COUNT`.
abbrev pub slot : List Framebuffer → ℕ → Framebuffer
slot buffers i = get_or buffers i empty_framebuffer

-- `(i + 1) % FRAMEBUFFER_COUNT`, stored in a `uint8_t`.
abbrev pub next_index : ℕ → ℕ
next_index i = u8 ((i + 1) % framebuffer_count)

-- `ready = false; size = 0; buffer.clear()`
abbrev pub reset_framebuffer : Framebuffer → Framebuffer
reset_framebuffer buf = record buf { ready = false; size = 0; buffer = [] }

-- The end of `add_packet`: the bytes of `buf` after its frame go to the new tail.
pass_remainder : Framebuffer → SimpleDepacketizer → Option SimpleDepacketizer
pass_remainder buf d =
    let remainder = sub64 (length buf.buffer) buf.size in
    let next_buf = slot d.m_buffers d.m_tail in
    if ltb 0 remainder
    then (if next_buf.locked
        then none
        else some (record d {
          m_buffers =
              set d.m_buffers d.m_tail
                (record next_buf { buffer = next_buf.buffer ++ drop buf.size buf.buffer });
        }))
    else some d

-- The middle of `add_packet`, once the tail has moved on: it may have reached the head.
check_head : Framebuffer → SimpleDepacketizer → Option SimpleDepacketizer
check_head buf d =
    let head_buf = slot d.m_buffers d.m_head in
    if d.m_tail == d.m_head
    then (if head_buf.locked
        then none
        else pass_remainder buf (record d {
          m_head = next_index d.m_head;
          m_buffers = set d.m_buffers d.m_head (reset_framebuffer head_buf);
        }))
    else pass_remainder buf d

-- `add_packet` from the point where `buf`, the buffer at the tail, knows its size.
complete_frame : ℕ → Framebuffer → SimpleDepacketizer → Option SimpleDepacketizer
complete_frame now buf d =
    let done = record buf { ready = true; last_packet_received_time = now } in
    if ltb (length buf.buffer) buf.size
    then some (record d { m_buffers = set d.m_buffers d.m_tail buf })
    else check_head done
        (record d { m_buffers = set d.m_buffers d.m_tail done; m_tail = next_index d.m_tail })

pub add_packet : ℕ → List ℕ → SimpleDepacketizer → Option SimpleDepacketizer
add_packet now packet_data d =
    let buf = slot d.m_buffers d.m_tail in
    let grown = record buf { buffer = buf.buffer ++ packet_data } in
    let sized = record grown { size = ntohl (header_at grown.buffer).size } in
    if buf.locked
    then none
    else if buf.size == 0
    then (if ltb (length grown.buffer) sizeof_simple_header
        then some (record d { m_buffers = set d.m_buffers d.m_tail grown })
        else complete_frame now sized d)
    else complete_frame now grown d

pub ring_buffer_distance : ℕ → ℕ → ℕ → ℕ
ring_buffer_distance head tail capacity =
    if leb head tail then tail - head else u8 (capacity - head + tail)

-- What `receive_frame_data` writes through its out parameters. `frame_data` is what can be read from
-- the pointer: the buffer after its header.
pub record Frame : Type 0 where
  pub frame_data : List ℕ
  pub frame_size : ℕ
  pub frame_id : ℕ
  pub end_of_stream : Bool
  pub rtp_timestamp : ℕ
  pub rtp_pose_timestamp : ℕ
  pub last_packet_received_time : ℕ
  pub save_frame : Bool

-- `received` and `nothing` are the results true and false; `blocked` waits for a mutex; `stuck` is no
-- result of the code: the fuel of the loop ran out.
pub data Received : Type 0 where
  received : Frame → SimpleDepacketizer → Received
  nothing : SimpleDepacketizer → Received
  blocked stuck : Received

unfoldable pub frame_of : Framebuffer → Frame
frame_of buf =
    let h = header_at buf.buffer in
    record {
      frame_data = drop sizeof_simple_header buf.buffer;
      frame_size = sub64 (ntohl h.size) sizeof_simple_header;
      frame_id = ntohl h.frame_id;
      end_of_stream = has_flag h.flags end_flag;
      rtp_timestamp = ntohl h.rtp_sample_timestamp;
      rtp_pose_timestamp = ntohl h.rtp_pose_timestamp;
      last_packet_received_time = buf.last_packet_received_time;
      save_frame = has_flag h.flags save_flag;
    }

-- A buffer is passed over: reset, and the head moves on.
abbrev skip_and_reset : ℕ → Framebuffer → SimpleDepacketizer → SimpleDepacketizer
skip_and_reset head buf d = record d {
  m_head = next_index head;
  m_buffers = set d.m_buffers head (reset_framebuffer buf);
}

-- The loop, over its variables `head` and `tail`.
receive_loop : ℕ → ℕ → ℕ → SimpleDepacketizer → Received
receive_loop zero head tail d = stuck
receive_loop (suc fuel) head tail d =
    let buf = slot d.m_buffers head in
    let skipped =
      receive_loop fuel (next_index head) tail (record d { m_head = next_index head }) in
    let dropped = receive_loop fuel (next_index head) tail (skip_and_reset head buf d) in
    let taken =
      received (frame_of buf)
        (record d { m_buffers = set d.m_buffers head (record buf { locked = true }) }) in
    if head == tail
    then nothing d
    else if buf.locked
    then blocked
    else if not buf.ready
    then skipped
    else if ltb (length buf.buffer) sizeof_simple_header
    then dropped
    else if enable_frame_drop_catchup
        && ltb catchup_threshold (ring_buffer_distance head tail framebuffer_count)
    then dropped
    else if ltb (length buf.buffer) (ntohl (header_at buf.buffer).size)
    then dropped
    else taken

-- Each round that goes on moves the head, and it meets the tail within a turn of the ring.
pub receive_frame_data : SimpleDepacketizer → Received
receive_frame_data d = receive_loop (suc framebuffer_count) d.m_head d.m_tail d

pub release_frame_data : SimpleDepacketizer → SimpleDepacketizer
release_frame_data d =
    let buf = slot d.m_buffers d.m_head in
    record d {
      m_buffers = set d.m_buffers d.m_head (record (reset_framebuffer buf) { locked = false });
      m_head = next_index d.m_head;
    }
