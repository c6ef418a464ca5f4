-- ===== src/VideoSocket/Rounds.antt =====
-- The rounds of `send_all_generated_packets` while the socket stays connected.
use wireless_vr_bridge.Base.{
  ℕ, suc, ◌+◌, ◌≡◌, ◌≢◌, refl, Bool, true, false, List, [], ◌∷◌, ◌++◌, some, ==_of_ne,
}
use wireless_vr_bridge.Packetizer.{Out, packet_bytes, IPacketizer}
use wireless_vr_bridge.VideoSocket.{send_loop}

module _ {S : Type 0} (packetizer : IPacketizer S) (connected : ℕ → Bool)
    (stays : (n : ℕ) → connected n ≡ true) where
  -- A round sends the packet that it was given, and there is another exactly if there is a next one.
  pub send_loop_round :
      (fuel n : ℕ) (s s' : S) (out out' : Out) (next : Bool) (sent : List (List ℕ))
      → packetizer.create_next_packet s out ≡ (next, out', s')
      → out'.size ≢ 0
      → send_loop packetizer connected (suc fuel) n true out s sent
        ≡ send_loop packetizer connected fuel (n + 1) next out' s' (sent ++ packet_bytes out' ∷ [])
  unfolding send_loop
  send_loop_round fuel n s s' out out' next sent e ne = rw (e, stays n, ==_of_ne out'.size 0 ne)

  pub send_loop_end :
      (fuel n : ℕ) (s : S) (out : Out) (sent : List (List ℕ))
      → send_loop packetizer connected (suc fuel) n false out s sent ≡ some (sent, s)
  unfolding send_loop
  send_loop_end fuel n s out sent = refl
