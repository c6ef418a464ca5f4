-- ===== src/VrcpSocket.antt =====
-- common/src/vrcp_socket.cpp: how `VRCPSocket` cuts what its sockets receive into packets. Each socket
-- has a reception buffer; what the socket's own `receive` returns is a parameter of a call.
pub mod Buffer
pub mod Tcp
pub mod Packets
mod Tests
use wireless_vr_bridge.Base.{
  ℕ, zero, suc, ◌+◌, ◌-◌, ◌*◌, Bool, true, false, List, [], ◌∷◌, ◌++◌, Option, none, some,
  if◌then◌else◌, ltb, leb, ◌==◌, length, get_or, take, drop, replicate, u16, sub64,
}
use wireless_vr_bridge.Vrcp.{vrcp_row_size}

-- `UINT8_MAX * VRCP_ROW_SIZE * 4`
abbrev pub reception_buffer_size : ℕ
reception_buffer_size = 4080

abbrev pub sizeof_base_header : ℕ
sizeof_base_header = 4

-- A reception buffer with its `uint16_t` indices: `tcp_reception_buffer`, `tcp_head` and `tcp_tail`,
-- or those of UDP.
pub record Reception : Type 0 where
  pub reception_buffer : List ℕ
  pub head : ℕ
  pub tail : ℕ

abbrev pub empty_reception : Reception
empty_reception = record {
  reception_buffer = replicate reception_buffer_size 0;
  head = 0;
  tail = 0;
}

-- `n_rows` of the header at the head, in bytes. A packet of no rows is skipped as one row.
abbrev pub packet_length_of : ℕ → ℕ
packet_length_of n_rows =
    if n_rows * vrcp_row_size == 0 then vrcp_row_size else n_rows * vrcp_row_size

-- The end of `next_tcp_packet` and of `next_udp_packet`: a packet is given to the caller.
abbrev pub take_packet : ℕ → Reception → Option (List ℕ) × Reception
take_packet packet_length d = (
  some (take packet_length (drop d.head d.reception_buffer)),
  (if u16 (d.head + packet_length) == d.tail
      then record d { head = 0; tail = 0 }
      else record d { head = u16 (d.head + packet_length) }),
)

-- `tail - head` is an `int`, which the comparisons convert to `size_t`. `none` is the result false. What
-- is read past the end of the buffer is 0, or missing; the code would read what follows it in memory.
unfoldable pub next_tcp_packet : Reception → Option (List ℕ) × Reception
next_tcp_packet d =
    let packet_length = packet_length_of (get_or d.reception_buffer (d.head + 1) 0) in
    if leb sizeof_base_header (sub64 d.tail d.head)
    then (if leb packet_length (sub64 d.tail d.head)
        then take_packet packet_length d
        else (none, d))
    else (none, d)

unfoldable pub next_udp_packet : Reception → Option (List ℕ) × Reception
next_udp_packet d =
    let packet_length = packet_length_of (get_or d.reception_buffer (d.head + 1) 0) in
    let dropped = record d { head = 0; tail = 0 } in
    if leb sizeof_base_header (sub64 d.tail d.head)
    then (if leb packet_length d.tail then take_packet packet_length d else (none, dropped))
    else (none, dropped)

-- Bytes are written over those at an index.
abbrev pub write_at : List ℕ → ℕ → List ℕ → List ℕ
write_at buffer i bytes = take i buffer ++ bytes ++ drop (i + length bytes) buffer

-- An incomplete packet is moved to the beginning of the buffer.
unfoldable pub move_to_front : Reception → Reception
move_to_front d =
    if ltb 0 d.head
    then record {
      reception_buffer =
          write_at d.reception_buffer 0 (take (d.tail - d.head) (drop d.head d.reception_buffer));
      head = 0;
      tail = d.tail - d.head;
    }
    else d

-- `receive` is called for the space after the tail; `received` is what it wrote there, if it was
-- successful.
unfoldable pub receive_at_tail : Option (List ℕ) → Reception → Option (List ℕ) × Reception
unfolding next_tcp_packet
receive_at_tail none d = (none, d)
receive_at_tail (some bytes) d = next_tcp_packet (record d {
  reception_buffer = write_at d.reception_buffer d.tail bytes;
  tail = u16 (d.tail + length bytes);
})

-- The second half of `reliable_receive`, if there was no packet in the buffer.
abbrev pub after_first_look :
    Option (List ℕ) → Option (List ℕ) × Reception → Option (List ℕ) × Reception
after_first_look received (some packet, d) = (some packet, d)
after_first_look received (none, d) = receive_at_tail received (move_to_front d)

unfoldable pub reliable_receive : Option (List ℕ) → Reception → Option (List ℕ) × Reception
reliable_receive received d = after_first_look received (next_tcp_packet d)

-- What the datagram socket returns, one `receive_from` after the other: the sender and the bytes. The
-- list ends where a call receives nothing.
unfoldable pub receive_from_peer : ℕ → List (ℕ × List ℕ) → Reception → Option (List ℕ) × Reception
unfolding next_udp_packet
receive_from_peer peer [] d = (none, d)
receive_from_peer peer ((sender, bytes) ∷ datagrams) d =
    let next =
      receive_from_peer peer datagrams
        (record d { reception_buffer = write_at d.reception_buffer 0 bytes }) in
    if sender == peer
    then next_udp_packet (record d {
      reception_buffer = write_at d.reception_buffer 0 bytes;
      tail = u16 (d.tail + length bytes);
    })
    else next

abbrev pub after_first_datagram :
    ℕ → List (ℕ × List ℕ) → Option (List ℕ) × Reception → Option (List ℕ) × Reception
after_first_datagram peer datagrams (some packet, d) = (some packet, d)
after_first_datagram peer datagrams (none, d) = receive_from_peer peer datagrams d

unfoldable pub unreliable_receive : ℕ → List (ℕ × List ℕ) → Reception → Option (List ℕ) × Reception
unreliable_receive peer datagrams d = after_first_datagram peer datagrams (next_udp_packet d)
