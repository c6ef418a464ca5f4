-- ===== src/SimpleDepacketizer/Refine.antt =====
-- `add_packet` behaves as `Queue.add` on the queue of frames that the ring holds.
use wireless_vr_bridge.Base.{
  ℕ, ◌+◌, ◌%◌, ◌^◌, ◌≤◌, ◌<◌, ◌≡◌, ◌≢◌, refl, sym, ap, ◌∙◌, arith, Bool, true, false, Option, none,
  some, inl, inr, List, ◌++◌, if◌then◌else◌, length, set, take, drop, Bool-cases, ltb, sub64,
  set-get_or, drop-length, append-nil, ==_of_ne, ==_iff, if_else_congr, length-append,
  get_or-set_ne, get_or-set_self, length-set,
}
use native.Mathlib.Decide.{dec_lt, ℕ_discrete}
use wireless_vr_bridge.Network.{ntohl}
use wireless_vr_bridge.SimpleHeader.{header_at}
use wireless_vr_bridge.SimpleHeader.Layout.{load32-append}
use wireless_vr_bridge.SimpleDepacketizer.{
  Framebuffer, SimpleDepacketizer, slot, empty_framebuffer, reset_framebuffer, next_index,
  pass_remainder, check_head, complete_frame, add_packet,
}
use wireless_vr_bridge.SimpleDepacketizer.Queue
use wireless_vr_bridge.SimpleDepacketizer.Queue.{FrameQueue, announced}
use wireless_vr_bridge.SimpleDepacketizer.Slots.{
  IsComplete, IsPartial, length-window, count, contents, IsValid, held,
}
use wireless_vr_bridge.SimpleDepacketizer.Validity.{
  grow_tail-IsValid, contents-grow_tail, gain, advance, advance-IsValid, contents-advance,
}
use wireless_vr_bridge.SimpleDepacketizer.Overflow.{
  drop_oldest, drop_oldest-IsValid, contents-drop_oldest,
}

-- Both calls wait, or both return and the ring is well formed and holds the queue.
abbrev pub Implements : Option SimpleDepacketizer → Option FrameQueue → Type 0
Implements none none = Unit
Implements none (some q) = ⊥
Implements (some d) none = ⊥
Implements (some d) (some q) = IsValid d × (contents d ≡ q)

waits_together :
    (wait : Bool) {d : SimpleDepacketizer} {q : FrameQueue}
    → (wait ≡ false → IsValid d × (contents d ≡ q))
    → Implements (if wait then none else some d) (if wait then none else some q)
waits_together true h = tt
waits_together false h = h refl

-- With no remainder nothing is written, which leaves the slots as writing nothing to them does.
pass_remainder_lem :
    (buf : Framebuffer) (d : SimpleDepacketizer)
    → (slot d.m_buffers d.m_tail).locked ≡ false
    → buf.size ≤ length buf.buffer
    → length buf.buffer < 2 ^ 64
    → pass_remainder buf d
      ≡ some (record d {
        m_buffers =
            set d.m_buffers d.m_tail (gain (drop buf.size buf.buffer) (slot d.m_buffers d.m_tail));
      })
unfolding pass_remainder
pass_remainder_lem buf d free le small =
    elim (Bool-cases (ltb 0 (sub64 (length buf.buffer) buf.size))) [
      | inl more ↦ rw (more, free)
      | inr done ↦ rw (
        done,
        drop-length buf.size buf.buffer (ground arith),
        append-nil,
        set-get_or d.m_buffers d.m_tail empty_framebuffer,
      )
    ]

check_head_other :
    (buf : Framebuffer) (d : SimpleDepacketizer)
    → d.m_tail ≢ d.m_head
    → check_head buf d ≡ pass_remainder buf d
unfolding check_head
check_head_other buf d ne = rw (==_of_ne d.m_tail d.m_head ne)

check_head_meets :
    (buf : Framebuffer) (d : SimpleDepacketizer)
    → d.m_tail ≡ d.m_head
    → check_head buf d ≡ (
        if (slot d.m_buffers d.m_head).locked
        then none
        else pass_remainder buf (record d {
          m_head = next_index d.m_head;
          m_buffers = set d.m_buffers d.m_head (reset_framebuffer (slot d.m_buffers d.m_head));
        }))
unfolding check_head
check_head_meets buf d e = rw ((==_iff d.m_tail d.m_head).1 e)

module _ (d : SimpleDepacketizer) (v : IsValid d) (now : ℕ) (buf : Framebuffer)
    (header : 20 ≤ length buf.buffer) (size : buf.size ≡ announced buf.buffer)
    (small : length buf.buffer < 2 ^ 64) (free : buf.locked ≡ false)
    (arrived : buf.size ≤ length buf.buffer) where
  abbrev done : Framebuffer
  done = record buf { ready = true; last_packet_received_time = now }

  abbrev rest : List ℕ
  rest = drop buf.size buf.buffer

  tail_moves : (next_index d.m_tail ≡ (d.m_tail + 1) % 10) × (next_index d.m_tail < 10)
  tail_moves = omega (arith, v.tail_in)

  frames_before : length (contents d).frames ≡ count d
  frames_before = length-window d.m_buffers d.m_head (count d)

  abbrev moved : SimpleDepacketizer
  moved = record d { m_buffers = set d.m_buffers d.m_tail done; m_tail = next_index d.m_tail }

  room : count d < 9 → check_head done moved ≡ some (advance d done rest)
  room h =
      check_head_other done moved (omega (arith, v.tail_in, v.head_in))
      ∙ pass_remainder_lem done moved
          (rw
            (get_or-set_ne d.m_buffers d.m_tail (next_index d.m_tail) done empty_framebuffer
              (omega (arith, v.tail_in)))
            (free_next h))
          arrived small
    where
      free_next : count d < 9 → (slot d.m_buffers (next_index d.m_tail)).locked ≡ false
      free_next h = ground (arith, v.slots (next_index d.m_tail) tail_moves.1, v.tail_in, v.head_in)

  full :
      count d ≡ 9
      → check_head done moved ≡ (if held d then none else some (drop_oldest d done rest))
  full h =
      check_head_meets done moved wraps
      ∙ if_else_congr (held moved) none meets
      ∙ ap (λ (b : Framebuffer). if b.locked then none else some (drop_oldest d done rest)) other
    where
      other : slot (set d.m_buffers d.m_tail done) d.m_head ≡ slot d.m_buffers d.m_head
      other =
          get_or-set_ne d.m_buffers d.m_tail d.m_head done empty_framebuffer
            (omega (arith, v.tail_in, v.head_in))

      wraps : next_index d.m_tail ≡ d.m_head
      wraps = omega (arith, v.tail_in, v.head_in)

      reset : SimpleDepacketizer
      reset = record moved {
        m_buffers =
            set moved.m_buffers d.m_head (reset_framebuffer (slot moved.m_buffers d.m_head));
        m_head = next_index d.m_head;
      }

      cleared : slot reset.m_buffers d.m_head ≡ reset_framebuffer (slot moved.m_buffers d.m_head)
      cleared =
          get_or-set_self moved.m_buffers d.m_head _ empty_framebuffer
            (omega (arith, length-set d.m_buffers d.m_tail done, v.capacity, v.head_in))

      meets : held moved ≡ false → pass_remainder done reset ≡ some (drop_oldest d done rest)
      meets idle =
          pass_remainder_lem done reset
            (rw wraps (ap (λ (b : Framebuffer). b.locked) cleared ∙ idle)) arrived small

  -- A complete frame goes the way of `Queue.push`.
  completes :
      Implements (check_head done moved) (
        Queue.push (held d) (take buf.size buf.buffer, now) (drop buf.size buf.buffer) (contents d))
  unfolding Queue.push
  completes = elim (dec_lt (count d) 9) [
    | yes below ↦
        rw (room below, ==_of_ne (length (contents d).frames) 9 (omega (arith, frames_before)))
          (
            advance-IsValid d v done rest whole free below,
            contents-advance d v done rest whole free below,
          )
    | no above ↦
        let nine : count d ≡ 9 = omega (arith, v.tail_in, v.head_in) in
        rw (full nine, (==_iff (length (contents d).frames) 9).1 (omega (arith, frames_before)))
          (waits_together (held d) λ idle. (
            drop_oldest-IsValid d v done rest whole free nine idle,
            contents-drop_oldest d v done rest whole free nine,
          ))
  ]
    where
      whole : IsComplete done
      whole = record { is_ready = refl; has_header = header; size_known = size; arrived = arrived }

complete_frame-refines :
    (now : ℕ) (buf : Framebuffer) (d : SimpleDepacketizer)
    → IsValid d
    → buf.ready ≡ false
    → buf.locked ≡ false
    → 20 ≤ length buf.buffer
    → buf.size ≡ announced buf.buffer
    → length buf.buffer < 2 ^ 64
    → Implements (complete_frame now buf d) (
        if ltb (length buf.buffer) (announced buf.buffer)
        then some (record (contents d) { pending = buf.buffer })
        else Queue.push
            (held d)
            (take (announced buf.buffer) buf.buffer, now)
            (drop (announced buf.buffer) buf.buffer)
            (contents d))
unfolding complete_frame
complete_frame-refines now buf d v waiting free header size small =
    rw (← size) (elim (Bool-cases (ltb (length buf.buffer) buf.size)) [
      | inl part ↦ rw part (grow_tail-IsValid d v buf partial, contents-grow_tail d v buf)
      | inr whole ↦ rw whole (completes d v now buf header size small free (ground arith))
    ])
  where
    partial : IsPartial buf
    partial = record { not_ready = waiting; unlocked = free; size_read = inr (header, size) }

pub announced-append : (xs ys : List ℕ) → 20 ≤ length xs → announced (xs ++ ys) ≡ announced xs
unfolding header_at
announced-append xs ys h = ap ntohl (load32-append xs ys 0 (omega arith))

module _ (now : ℕ) (packet : List ℕ) (d : SimpleDepacketizer) (v : IsValid d)
    (small : length ((contents d).pending ++ packet) < 2 ^ 64) where
  abbrev tail : Framebuffer
  tail = slot d.m_buffers d.m_tail

  tail-IsPartial : IsPartial tail
  tail-IsPartial = (v.slots d.m_tail v.tail_in).partial refl

  abbrev grown : Framebuffer
  grown = record tail { buffer = tail.buffer ++ packet; locked = false }

  abbrev sized : Framebuffer
  sized = record grown { size = ntohl (header_at grown.buffer).size }

  -- No size yet: the header may have come now.
  sizes :
      tail.size ≡ 0
      → Implements (add_packet now packet d) (Queue.add (held d) now packet (contents d))
  unfolding add_packet Queue.add
  sizes e =
      rw (tail-IsPartial.unlocked, (==_iff tail.size 0).1 e)
        (elim (Bool-cases (ltb (length (tail.buffer ++ packet)) 20)) [
          | inl short ↦ rw short (grow_tail-IsValid d v grown still, contents-grow_tail d v grown)
          | inr long ↦ rw long (
              complete_frame-refines now sized d v tail-IsPartial.not_ready refl (ground arith) refl
                small)
        ])
    where
      still : IsPartial grown
      still = record { not_ready = tail-IsPartial.not_ready; unlocked = refl; size_read = inl e }

  -- The size is known, and more bytes do not change it.
  sized_before :
      tail.size ≢ 0
      → Implements (add_packet now packet d) (Queue.add (held d) now packet (contents d))
  unfolding add_packet Queue.add
  sized_before ne =
      rw (tail-IsPartial.unlocked, ==_of_ne tail.size 0 ne, long)
        (complete_frame-refines now grown d v tail-IsPartial.not_ready refl
          (omega (arith, length-append tail.buffer packet, known.0))
          (known.1 ∙ sym (announced-append tail.buffer packet known.0)) small)
    where
      known : (20 ≤ length tail.buffer) × (tail.size ≡ announced tail.buffer)
      known = elim tail-IsPartial.size_read [ inl e ↦ absurd (ne e) | inr k ↦ k ]

      long : ltb (length (tail.buffer ++ packet)) 20 ≡ false
      long = ground (arith, length-append tail.buffer packet, known)

-- A call that adds bytes to a well-formed ring does what `Queue.add` does: it waits exactly if that
-- waits, and otherwise leaves a well-formed ring that holds the queue that `Queue.add` gives. The
-- bytes of the frame being received must fit the address space.
pub add_packet-refines :
    (now : ℕ) (packet : List ℕ) (d : SimpleDepacketizer)
    → IsValid d
    → length ((contents d).pending ++ packet) < 2 ^ 64
    → Implements (add_packet now packet d) (Queue.add (held d) now packet (contents d))
add_packet-refines now packet d v small = elim (ℕ_discrete (slot d.m_buffers d.m_tail).size 0) [
  | yes e ↦ sizes now packet d v small e
  | no ne ↦ sized_before now packet d v small ne
]
