-- ===== src/SimpleDepacketizer/Tests.antt =====
-- The theorems about the simple depacketizer at concrete inputs.
use wireless_vr_bridge.Base.{
  ℕ, zero, suc, ◌≡◌, ◌≢◌, ◌⊎◌, refl, arith, true, false, List, [], ◌∷◌, ◌++◌, some, drop, replicate,
}
use mathlib.Core.Path.{subst}
use wireless_vr_bridge.Network.{ntohl}
use wireless_vr_bridge.Network.Wire.{load32}
use wireless_vr_bridge.SimpleHeader.{header_at}
use wireless_vr_bridge.SimpleDepacketizer.{
  SimpleDepacketizer, create_simple_depacketizer, empty_framebuffer, add_packet, receive_frame_data,
  release_frame_data, complete_frame, check_head, pass_remainder, nothing, blocked, stuck, slot,
}
use wireless_vr_bridge.SimpleDepacketizer.Queue
use wireless_vr_bridge.SimpleDepacketizer.Slots.{contents, count, held, IsValid}
use wireless_vr_bridge.SimpleDepacketizer.Single.{create-IsValid}
use wireless_vr_bridge.SimpleDepacketizer.Refine.{Implements, add_packet-refines}
use wireless_vr_bridge.SimpleDepacketizer.Stream.{Fed, feed-Fed}
use wireless_vr_bridge.SimpleDepacketizer.Returns.{IsUnheld, receive_frame_data-returns}
use wireless_vr_bridge.SimpleDepacketizer.Reading.{
  TakesOldest, receive_frame_data-oldest, release_frame_data-pops,
}

abbrev fresh : SimpleDepacketizer
fresh = create_simple_depacketizer

-- A frame of two bytes behind its header, which announces 22.
abbrev packet : List ℕ
packet = 0 ∷ 0 ∷ 0 ∷ 22 ∷ replicate 16 0 ++ 7 ∷ 8 ∷ []

-- The ring with that frame in its first slot.
abbrev one_frame : SimpleDepacketizer
one_frame = record {
  m_buffers =
      record {
        buffer = packet;
        size = 22;
        last_packet_received_time = 90;
        ready = true;
        locked = false;
      }
      ∷ replicate 9 empty_framebuffer;
  m_tail = 1;
  m_head = 0;
}

packet_adds_frame : add_packet 90 packet fresh ≡ some one_frame
unfolding add_packet complete_frame check_head pass_remainder ntohl header_at load32
packet_adds_frame = refl

one_frame-IsValid : IsValid one_frame
unfolding Queue.add Queue.push header_at load32 ntohl
one_frame-IsValid =
    (subst (λ r. Implements r (Queue.add (held fresh) 90 packet (contents fresh))) packet_adds_frame
      (add_packet-refines 90 packet fresh create-IsValid.0 (omega arith))).0

add_packet-refines_example :
    Implements (add_packet 90 packet fresh) (Queue.add (held fresh) 90 packet (contents fresh))
add_packet-refines_example = add_packet-refines 90 packet fresh create-IsValid.0 (omega arith)

feed-Fed_example :
    Fed ((90, 0 ∷ 0 ∷ 0 ∷ []) ∷ (91, 22 ∷ replicate 16 0 ++ 7 ∷ 8 ∷ []) ∷ []) fresh (packet ∷ [])
unfolding header_at load32 ntohl
feed-Fed_example =
    feed-Fed ((90, 0 ∷ 0 ∷ 0 ∷ []) ∷ (91, 22 ∷ replicate 16 0 ++ 7 ∷ 8 ∷ []) ∷ []) fresh
      (packet ∷ []) create-IsValid.0 ((omega arith, refl), tt) refl (omega arith) (omega arith)

replicate-IsUnheld : (n i : ℕ) → (slot (replicate n empty_framebuffer) i).locked ≡ false
replicate-IsUnheld zero i = refl
replicate-IsUnheld (suc n) zero = refl
replicate-IsUnheld (suc n) (suc i) = replicate-IsUnheld n i

-- Nobody holds a buffer of the ring with one frame.
one_frame-IsUnheld : IsUnheld one_frame
one_frame-IsUnheld zero = refl
one_frame-IsUnheld (suc i) = replicate-IsUnheld 9 i

receive_frame_data-returns_example :
    (receive_frame_data one_frame ≢ stuck) × (receive_frame_data one_frame ≢ blocked)
receive_frame_data-returns_example =
    receive_frame_data-returns one_frame (omega arith) (omega arith) one_frame-IsUnheld

receive_frame_data-oldest_example :
    ((count one_frame ≡ 0) × (receive_frame_data one_frame ≡ nothing one_frame))
    ⊎ TakesOldest one_frame
receive_frame_data-oldest_example =
    receive_frame_data-oldest one_frame one_frame-IsValid refl (λ _. omega arith)

release_frame_data-pops_example :
    IsValid (release_frame_data one_frame)
    × (held (release_frame_data one_frame) ≡ false)
    × (contents (release_frame_data one_frame) ≡ record {
      frames = drop 1 (contents one_frame).frames;
      pending = (contents one_frame).pending;
    })
release_frame_data-pops_example = release_frame_data-pops one_frame one_frame-IsValid (omega arith)
