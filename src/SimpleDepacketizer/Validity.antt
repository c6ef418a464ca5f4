-- ===== src/SimpleDepacketizer/Validity.antt =====
-- Bytes arrive, and a frame becomes complete while there is room: these steps of `add_packet` keep
-- the ring well formed, and what they do to the queue of frames.
use wireless_vr_bridge.Base.{
  ℕ, suc, ◌+◌, ◌%◌, ◌<◌, ◌≡◌, ap, ap₂, ◌∙◌, arith, false, List, [], ◌∷◌, ◌++◌, if◌then◌else◌, ◌==◌,
  set, length-set, get_or-set_self, get_or-set_ne,
}
use wireless_vr_bridge.SimpleDepacketizer.{
  Framebuffer, SimpleDepacketizer, slot, empty_framebuffer, next_index,
}
use wireless_vr_bridge.SimpleDepacketizer.Slots.{
  IsComplete, IsPartial, SlotOk, slot-set, view, window, window-set, window-suc, count, contents,
  IsValid,
}

-- The buffer at the tail takes more bytes.
abbrev pub grow_tail : SimpleDepacketizer → Framebuffer → SimpleDepacketizer
grow_tail d buf = record d { m_buffers = set d.m_buffers d.m_tail buf }

module _ (d : SimpleDepacketizer) (v : IsValid d) (buf : Framebuffer) where
  grow_slot :
      IsPartial buf
      → (i : ℕ) → i < 10
      → SlotOk d.m_head (count d) i (slot (set d.m_buffers d.m_tail buf) i)
  grow_slot p i h =
      rw (slot-set d.m_buffers d.m_tail i buf (omega (arith, v.capacity, v.tail_in)))
        (ground (arith, v.slots i h, v.head_in, v.tail_in))

  pub grow_tail-IsValid : IsPartial buf → IsValid (grow_tail d buf)
  grow_tail-IsValid p = record {
    capacity = length-set d.m_buffers d.m_tail buf ∙ v.capacity;
    head_in = v.head_in;
    tail_in = v.tail_in;
    slots = grow_slot p;
  }

  pub contents-grow_tail : contents (grow_tail d buf) ≡ record (contents d) { pending = buf.buffer }
  contents-grow_tail = λ i. record {
    frames =
        window-set d.m_buffers d.m_head (count d) d.m_tail buf v.head_in v.tail_in (omega arith) i;
    pending =
        (get_or-set_self d.m_buffers d.m_tail buf empty_framebuffer
          (omega (arith, v.capacity, v.tail_in)) i).buffer;
  }

-- A buffer takes the bytes that came after the frame of another.
abbrev pub gain : List ℕ → Framebuffer → Framebuffer
gain rest buf = record buf { buffer = buf.buffer ++ rest }

-- The tail moves on, and the new tail is not the head.
abbrev pub advance : SimpleDepacketizer → Framebuffer → List ℕ → SimpleDepacketizer
advance d done rest =
    let bs = set d.m_buffers d.m_tail done in
    let tail = next_index d.m_tail in
    record d { m_buffers = set bs tail (gain rest (slot bs tail)); m_tail = tail }

module _ (d : SimpleDepacketizer) (v : IsValid d) (done : Framebuffer) (rest : List ℕ)
    (c : IsComplete done) (u : done.locked ≡ false) where
  tail_moves : (next_index d.m_tail ≡ (d.m_tail + 1) % 10) × (next_index d.m_tail < 10)
  tail_moves = omega (arith, v.tail_in)

  -- The slots after the tail has moved on.
  advance_at :
      (i : ℕ)
      → slot (advance d done rest).m_buffers i ≡ (
          if next_index d.m_tail == i
          then gain rest (slot d.m_buffers (next_index d.m_tail))
          else if d.m_tail == i
          then done
          else slot d.m_buffers i)
  advance_at i =
      let old : slot (set d.m_buffers d.m_tail done) (next_index d.m_tail)
          ≡ slot d.m_buffers (next_index d.m_tail) =
        get_or-set_ne d.m_buffers d.m_tail (next_index d.m_tail) done empty_framebuffer
          (omega (arith, v.tail_in)) in
      rw (
        slot-set (set d.m_buffers d.m_tail done) (next_index d.m_tail) i _
            (omega (arith, length-set d.m_buffers d.m_tail done, v.capacity, tail_moves)),
        slot-set d.m_buffers d.m_tail i done (omega (arith, v.capacity, v.tail_in)),
        old,
      )

  count-advance : count d < 9 → count (advance d done rest) ≡ suc (count d)
  count-advance small = omega (arith, v.tail_in, v.head_in)

  advance-slot :
      count d < 9
      → (i : ℕ) → i < 10
      → SlotOk d.m_head (count (advance d done rest)) i (slot (advance d done rest).m_buffers i)
  advance-slot small i h = rw (advance_at i) (
      ground (arith, v.slots i h, v.slots (next_index d.m_tail) tail_moves.1, v.head_in, v.tail_in))

  pub advance-IsValid : count d < 9 → IsValid (advance d done rest)
  advance-IsValid small = record {
    capacity =
        length-set (set d.m_buffers d.m_tail done) (next_index d.m_tail) _
        ∙ length-set d.m_buffers d.m_tail done
        ∙ v.capacity;
    head_in = v.head_in;
    tail_in = omega arith;
    slots = advance-slot small;
  }

  last_slot : count d < 9 → slot (advance d done rest).m_buffers ((d.m_head + count d) % 10) ≡ done
  last_slot small =
      rw (advance_at ((d.m_head + count d) % 10)) (ground (arith, v.tail_in, v.head_in))

  new_tail :
      count d < 9 → (slot (advance d done rest).m_buffers (next_index d.m_tail)).buffer ≡ rest
  new_tail small =
      rw (advance_at (next_index d.m_tail))
        (ground (arith, v.slots (next_index d.m_tail) tail_moves.1, v.tail_in, v.head_in))

  advance_frames :
      count d < 9 → (contents (advance d done rest)).frames ≡ (contents d).frames ++ view done ∷ []
  advance_frames small =
      let bs = (advance d done rest).m_buffers in
      ap (window bs d.m_head) (count-advance small)
      ∙ window-suc bs d.m_head (count d) v.head_in
      ∙ ap₂ (λ (w : List (List ℕ × ℕ)) (b : Framebuffer). w ++ view b ∷ [])
          (window-set (set d.m_buffers d.m_tail done) d.m_head (count d) (next_index d.m_tail) _
              v.head_in tail_moves.1 (omega (arith, v.tail_in, v.head_in))
            ∙ window-set d.m_buffers d.m_head (count d) d.m_tail done v.head_in v.tail_in
                (omega arith))
          (last_slot small)

  pub contents-advance :
      count d < 9
      → contents (advance d done rest)
        ≡ record { frames = (contents d).frames ++ view done ∷ []; pending = rest }
  contents-advance small =
      λ k. record { frames = advance_frames small k; pending = new_tail small k }
