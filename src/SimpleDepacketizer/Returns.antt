-- ===== src/SimpleDepacketizer/Returns.antt =====
-- The loop of `receive_frame_data` comes to its end.
use wireless_vr_bridge.Base.{ℕ, zero, suc, ◌<◌, ◌≡◌, ◌≢◌, arith, false, List, [], ◌∷◌, set}
use wireless_vr_bridge.SimpleDepacketizer.{
  Framebuffer, SimpleDepacketizer, blocked, stuck, slot, reset_framebuffer, next_index,
  receive_loop, receive_frame_data, skip_and_reset,
}
use wireless_vr_bridge.SimpleDepacketizer.Slots.{distance}

-- No reader holds a buffer.
abbrev pub IsUnheld : SimpleDepacketizer → Type 0
IsUnheld d = (i : ℕ) → (slot d.m_buffers i).locked ≡ false

locked-set :
    (bs : List Framebuffer) (i j : ℕ) (v : Framebuffer)
    → v.locked ≡ false
    → (slot bs j).locked ≡ false
    → (slot (set bs i v) j).locked ≡ false
locked-set [] i j v h k = k
locked-set (b ∷ bs) zero zero v h k = h
locked-set (b ∷ bs) zero (suc j) v h k = k
locked-set (b ∷ bs) (suc i) zero v h k = k
locked-set (b ∷ bs) (suc i) (suc j) v h k = locked-set bs i j v h k

-- The loop reaches the tail, or returns before, within as many rounds as there are slots between.
receive_loop-returns :
    (fuel head tail : ℕ) (d : SimpleDepacketizer)
    → head < 10
    → tail < 10
    → distance head tail < fuel
    → IsUnheld d
    → (receive_loop fuel head tail d ≢ stuck) × (receive_loop fuel head tail d ≢ blocked)
unfolding receive_loop
receive_loop-returns zero head tail d hh ht h free = absurd (omega arith)
receive_loop-returns (suc fuel) head tail d hh ht h free =
    let unlocked : (slot d.m_buffers head).locked ≡ false = free head in
    let skipped : IsUnheld (skip_and_reset head (slot d.m_buffers head) d) = λ i.
      locked-set d.m_buffers head i (reset_framebuffer (slot d.m_buffers head)) unlocked (free i) in
    ground (
      arith,
      unlocked,
      receive_loop-returns fuel (next_index head) tail (record d { m_head = next_index head }),
      receive_loop-returns fuel (next_index head) tail
          (skip_and_reset head (slot d.m_buffers head) d),
      skipped,
    )

-- While no buffer is held, `receive_frame_data` returns, whatever else the buffers hold: its loop ends
-- and it waits for no mutex.
pub receive_frame_data-returns :
    (d : SimpleDepacketizer)
    → d.m_head < 10
    → d.m_tail < 10
    → IsUnheld d
    → (receive_frame_data d ≢ stuck) × (receive_frame_data d ≢ blocked)
unfolding receive_frame_data
receive_frame_data-returns d hh ht free =
    receive_loop-returns 11 d.m_head d.m_tail d hh ht (omega arith) free
