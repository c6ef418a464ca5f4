-- ===== src/VrcpSocket/Tests.antt =====
-- Runs of the reception buffers, and the theorems about them at concrete inputs.
use wireless_vr_bridge.Base.{◌≡◌, refl, arith, [], ◌∷◌, some, replicate, ◌++◌}
use wireless_vr_bridge.Vrcp.Control.{default_vrcp_ping}
use wireless_vr_bridge.Vrcp.Packets.{Packet, ping, packet_bytes}
use wireless_vr_bridge.VrcpSocket.{Reception, empty_reception, next_udp_packet, reliable_receive}
use wireless_vr_bridge.VrcpSocket.Buffer.{IsReception, pending}
use wireless_vr_bridge.VrcpSocket.Tcp.{Stands, cut, cut_or_receive, reliable_receive-cut}

-- Two packets of one row each have come.
abbrev two_packets : Reception
two_packets = record {
  reception_buffer = 16 ∷ 1 ∷ 0 ∷ 7 ∷ 18 ∷ 1 ∷ 0 ∷ 0 ∷ replicate 4072 0;
  head = 0;
  tail = 8;
}

two_packets-IsReception : IsReception two_packets
two_packets-IsReception = record {
  capacity = refl;
  in_order = omega arith;
  in_buffer = omega arith;
}

empty-IsReception : IsReception empty_reception
empty-IsReception = record { capacity = refl; in_order = omega arith; in_buffer = omega arith }

reliable_receive-cut_example :
    Stands
      (reliable_receive (some (16 ∷ 1 ∷ 0 ∷ 7 ∷ 18 ∷ [])) empty_reception)
      (cut_or_receive (some (16 ∷ 1 ∷ 0 ∷ 7 ∷ 18 ∷ [])) (cut (pending empty_reception)))
reliable_receive-cut_example =
    reliable_receive-cut (some (16 ∷ 1 ∷ 0 ∷ 7 ∷ 18 ∷ [])) empty_reception empty-IsReception
      (omega arith)

-- A datagram of two packets, the second of which announces three rows and has one: it is given to the
-- caller with the eight bytes that follow it in the buffer.
abbrev second_of_two : Reception
second_of_two = record two_packets {
  reception_buffer =
      16 ∷ 1 ∷ 0 ∷ 7 ∷ 18 ∷ 3 ∷ 0 ∷ 0 ∷ 0 ∷ 0 ∷ 0 ∷ 0 ∷ 5 ∷ 5 ∷ 5 ∷ 5 ∷ replicate 4064 0;
  head = 4;
  tail = 12;
}

udp_reads_past_tail :
    (next_udp_packet second_of_two).0 ≡ some (18 ∷ 3 ∷ 0 ∷ 0 ∷ 0 ∷ 0 ∷ 0 ∷ 0 ∷ 5 ∷ 5 ∷ 5 ∷ 5 ∷ [])
unfolding next_udp_packet
udp_reads_past_tail = refl

-- A ping, and a packet of one row behind it.
abbrev a_ping : Packet
a_ping = ping (record default_vrcp_ping { ping_id = 7 })

abbrev ping_and_more : Reception
ping_and_more = record {
  reception_buffer = packet_bytes a_ping ++ (18 ∷ 1 ∷ 0 ∷ 0 ∷ replicate 4072 0);
  head = 0;
  tail = 8;
}
