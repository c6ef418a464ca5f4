-- ===== src/SimpleDepacketizer/Reading.antt =====
-- The rendering thread: taking the oldest frame and giving its buffer back.
use wireless_vr_bridge.Base.{
  ℕ, zero, suc, ◌+◌, ◌-◌, ◌%◌, ◌<◌, ◌≡◌, ◌≢◌, ◌⊎◌, inl, inr, refl, ap, ap₂, ◌∙◌, arith, true, false,
  List, ◌∷◌, ◌==◌, ==_of_ne, ==_iff, length, set, drop, length-set, ◌≤◌, get_or-set_self,
  get_or-set_ne, ltb,
}
use native.Mathlib.Decide.{ℕ_discrete}
use wireless_vr_bridge.SimpleDepacketizer.{
  Framebuffer, Frame, SimpleDepacketizer, received, nothing, slot, empty_framebuffer,
  reset_framebuffer, next_index, frame_of, receive_loop, receive_frame_data, release_frame_data,
}
use wireless_vr_bridge.SimpleDepacketizer.Fields.{ReadsAs, frame_of-ReadsAs}
use wireless_vr_bridge.SimpleDepacketizer.Queue.{announced}
use wireless_vr_bridge.SimpleDepacketizer.Slots.{
  IsComplete, SlotOk, slot-set, view, window, window-set, count, contents, IsValid, held,
}

-- The reader holds the buffer at the head.
abbrev pub hold : SimpleDepacketizer → SimpleDepacketizer
hold d = record d {
  m_buffers = set d.m_buffers d.m_head (record (slot d.m_buffers d.m_head) { locked = true });
}

module _ (d : SimpleDepacketizer) (v : IsValid d) where
  loop_empty : (fuel : ℕ) → count d ≡ 0 → receive_loop (suc fuel) d.m_head d.m_tail d ≡ nothing d
  unfolding receive_loop
  loop_empty fuel e = rw ((==_iff d.m_head d.m_tail).1 (omega (arith, v.head_in, v.tail_in)))

  oldest : 0 < count d → IsComplete (slot d.m_buffers d.m_head)
  oldest h = (v.slots d.m_head v.head_in).complete (omega arith)

  loop_oldest :
      (fuel : ℕ)
      → 0 < count d
      → held d ≡ false
      → receive_loop (suc fuel) d.m_head d.m_tail d
        ≡ received (frame_of (slot d.m_buffers d.m_head)) (hold d)
  unfolding receive_loop
  loop_oldest fuel h free =
      let c = oldest h in
      let ne : (d.m_head == d.m_tail) ≡ false = ==_of_ne d.m_head d.m_tail (omega arith) in
      let long : ltb (length (slot d.m_buffers d.m_head).buffer) 20 ≡ false = ground (arith, c) in
      let whole : ltb (length (slot d.m_buffers d.m_head).buffer)
            (announced (slot d.m_buffers d.m_head).buffer)
          ≡ false =
        ground (arith, c) in
      rw (ne, free, c.is_ready, long, whole)

  hold-slot :
      0 < count d → (i : ℕ) → i < 10 → SlotOk d.m_head (count d) i (slot (hold d).m_buffers i)
  hold-slot h i hi =
      rw
        (slot-set d.m_buffers d.m_head i (record (slot d.m_buffers d.m_head) { locked = true })
          (omega (arith, v.capacity, v.head_in)))
        (ground (arith, v.slots i hi, v.slots d.m_head v.head_in, v.head_in, v.tail_in))

  hold-IsValid : 0 < count d → IsValid (hold d)
  hold-IsValid h = record {
    capacity = length-set d.m_buffers d.m_head _ ∙ v.capacity;
    head_in = v.head_in;
    tail_in = v.tail_in;
    slots = hold-slot h;
  }

  held-hold : held (hold d) ≡ true
  held-hold =
      ap (λ (b : Framebuffer). b.locked)
        (get_or-set_self d.m_buffers d.m_head _ empty_framebuffer
          (omega (arith, v.capacity, v.head_in)))

-- Holding a buffer does not change what any slot shows.
view-hold :
    (d : SimpleDepacketizer) (i : ℕ)
    → d.m_head < length d.m_buffers
    → (view (slot (hold d).m_buffers i) ≡ view (slot d.m_buffers i))
      × ((slot (hold d).m_buffers i).buffer ≡ (slot d.m_buffers i).buffer)
view-hold d i h =
    rw (slot-set d.m_buffers d.m_head i (record (slot d.m_buffers d.m_head) { locked = true }) h)
      (ground arith)

window-hold :
    (d : SimpleDepacketizer) (head n : ℕ)
    → d.m_head < length d.m_buffers
    → window (hold d).m_buffers head n ≡ window d.m_buffers head n
window-hold d head zero h = refl
window-hold d head (suc n) h = ap₂ ◌∷◌ (view-hold d head h).0 (window-hold d ((head + 1) % 10) n h)

-- `receive_frame_data` hands out the oldest frame of the queue, and holds its buffer.
pub record TakesOldest (d : SimpleDepacketizer) : Type 0 where
  pub frame : Frame
  pub returns_it : receive_frame_data d ≡ received frame (hold d)
  pub frame_bytes : List ℕ
  pub time : ℕ
  pub others : List (List ℕ × ℕ)
  pub oldest_waiting : (contents d).frames ≡ (frame_bytes, time) ∷ others
  pub says : ReadsAs frame_bytes time frame
  pub still_valid : IsValid (hold d)
  pub now_held : held (hold d) ≡ true
  pub same_queue : contents (hold d) ≡ contents d

takes_oldest :
    (d : SimpleDepacketizer)
    → IsValid d
    → held d ≡ false
    → 20 ≤ (slot d.m_buffers d.m_head).size
    → (n : ℕ) → count d ≡ suc n
    → TakesOldest d
unfolding receive_frame_data
takes_oldest d v free big n e =
    let h : 0 < count d = omega arith in
    let in_ring : d.m_head < length d.m_buffers = omega (arith, v.capacity, v.head_in) in
    record {
      frame = frame_of (slot d.m_buffers d.m_head);
      returns_it = loop_oldest d v 10 h free;
      frame_bytes = (view (slot d.m_buffers d.m_head)).0;
      time = (view (slot d.m_buffers d.m_head)).1;
      others = window d.m_buffers ((d.m_head + 1) % 10) n;
      oldest_waiting = ap (window d.m_buffers d.m_head) e;
      says = frame_of-ReadsAs (slot d.m_buffers d.m_head) (oldest d v h) big;
      still_valid = hold-IsValid d v h;
      now_held = held-hold d v;
      same_queue = (λ k. record {
        frames = window-hold d d.m_head (count d) in_ring k;
        pending = (view-hold d d.m_tail in_ring).1 k;
      });
    }

-- On a well-formed ring whose head nobody holds, `receive_frame_data` returns false and changes
-- nothing if no frame waits. Otherwise, where the oldest frame is not shorter than its header, it
-- returns true: the size and the data are those of the oldest frame without its header, the
-- timestamps, the identifier and the flags are read from the header, the time is that of its last
-- byte; its buffer is held, the queue of frames is the same, and the ring well formed.
pub receive_frame_data-oldest :
    (d : SimpleDepacketizer)
    → IsValid d
    → held d ≡ false
    → (0 < count d → 20 ≤ (slot d.m_buffers d.m_head).size)
    → ((count d ≡ 0) × (receive_frame_data d ≡ nothing d)) ⊎ TakesOldest d
unfolding receive_frame_data
receive_frame_data-oldest d v free big = elim (ℕ_discrete (count d) 0) [
  | yes e ↦ inl (e, loop_empty d v 10 e)
  | no ne ↦ inr (takes_oldest d v free (big (omega arith)) (count d - 1) (omega arith))
]

module _ (d : SimpleDepacketizer) (v : IsValid d) (h : 0 < count d) where
  released_slot :
      (i : ℕ)
      → i < 10
      → SlotOk
          (next_index d.m_head)
          (count (release_frame_data d))
          i
          (slot (release_frame_data d).m_buffers i)
  unfolding release_frame_data
  released_slot i hi =
      rw
        (slot-set d.m_buffers d.m_head i
          (record (reset_framebuffer (slot d.m_buffers d.m_head)) { locked = false })
          (omega (arith, v.capacity, v.head_in)))
        (ground (arith, v.slots i hi, v.head_in, v.tail_in))

  release-IsValid : IsValid (release_frame_data d)
  unfolding release_frame_data
  release-IsValid = record {
    capacity = length-set d.m_buffers d.m_head _ ∙ v.capacity;
    head_in = omega arith;
    tail_in = v.tail_in;
    slots = released_slot;
  }

  released_frames :
      (n : ℕ)
      → suc n ≡ count d
      → (contents (release_frame_data d)).frames ≡ drop 1 (contents d).frames
  unfolding release_frame_data
  released_frames n e =
      let m : count (release_frame_data d) ≡ n = omega (arith, v.head_in, v.tail_in) in
      let i : next_index d.m_head ≡ (d.m_head + 1) % 10 = omega arith in
      ap₂ (window (release_frame_data d).m_buffers) i m
      ∙ window-set d.m_buffers ((d.m_head + 1) % 10) n d.m_head _ (omega arith) v.head_in
          (omega (arith, v.head_in, v.tail_in))
      ∙ ap (λ k. drop 1 (window d.m_buffers d.m_head k)) e

  released_other :
      (i : ℕ) → d.m_head ≢ i → slot (release_frame_data d).m_buffers i ≡ slot d.m_buffers i
  unfolding release_frame_data
  released_other i ne = get_or-set_ne d.m_buffers d.m_head i _ empty_framebuffer ne

  released_head : held (release_frame_data d) ≡ false
  unfolding release_frame_data
  released_head =
      ap (λ (b : Framebuffer). b.locked)
        (released_other (next_index d.m_head) (omega (arith, v.head_in)))
      ∙ (v.slots (next_index d.m_head) (omega arith)).unheld (omega (arith, v.head_in))

  released_pending : (contents (release_frame_data d)).pending ≡ (contents d).pending
  unfolding release_frame_data
  released_pending = ap (λ (b : Framebuffer). b.buffer) (released_other d.m_tail (omega arith))

  -- `release_frame_data`, called while a frame waits, takes the oldest frame off the queue and leaves
  -- the others and the bytes that are being received; the ring stays well formed, and its head is
  -- free to be read.
  pub release_frame_data-pops :
      IsValid (release_frame_data d)
      × (held (release_frame_data d) ≡ false)
      × (contents (release_frame_data d)
          ≡ record { frames = drop 1 (contents d).frames; pending = (contents d).pending })
  unfolding release_frame_data
  release_frame_data-pops = (
    release-IsValid,
    released_head,
    (λ k. record {
      frames = released_frames (count d - 1) (omega arith) k;
      pending = released_pending k;
    }),
  )
