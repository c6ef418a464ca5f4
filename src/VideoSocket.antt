-- ===== src/VideoSocket.antt =====
-- common/src/video_socket.cpp: the loops of the video sockets over a packetizer and a depacketizer,
-- in the TCP configuration. The socket itself is a parameter: `connected n` is what the `n`-th call
-- of `is_connected` returns.
pub mod Rounds
use wireless_vr_bridge.Base.{
  ℕ, zero, suc, ◌+◌, Bool, true, ◌&&◌, List, [], ◌∷◌, ◌++◌, Option, none, some, if◌then◌else◌, ◌==◌,
}
use wireless_vr_bridge.Packetizer.{Out, no_packet, packet_bytes, FrameData, IPacketizer}

module _ {S : Type 0} (packetizer : IPacketizer S) (connected : ℕ → Bool) where
  -- The loop of `send_all_generated_packets`: `round` counts the rounds, `has_next`, `out` and `s` are
  -- its variables, `sent` the packets given to the socket so far. `none` means that the fuel ran out.
  unfoldable pub send_loop : ℕ → ℕ → Bool → Out → S → List (List ℕ) → Option (List (List ℕ) × S)
  send_loop zero round has_next out s sent = none
  send_loop (suc fuel) round has_next out s sent =
      let (next, out', s') = packetizer.create_next_packet s out in
      let rest =
        send_loop fuel (round + 1) next out' s'
          (if out'.size == 0 then sent else sent ++ packet_bytes out' ∷ []) in
      if has_next && connected round then rest else some (sent, s)

  unfoldable pub send_all_generated_packets : ℕ → S → Option (List (List ℕ) × S)
  send_all_generated_packets fuel s = send_loop fuel 0 true no_packet s []

  -- `ServerVideoSocket::send_packet`
  unfoldable pub send_packet : ℕ → FrameData → S → Option (List (List ℕ) × S)
  unfolding send_all_generated_packets
  send_packet fuel f s = send_all_generated_packets fuel (packetizer.add_frame_data f s)
