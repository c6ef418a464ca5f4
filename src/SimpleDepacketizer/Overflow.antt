-- ===== src/SimpleDepacketizer/Overflow.antt =====
-- A frame becomes complete when the ring is full: `add_packet` drops the oldest frame.
use wireless_vr_bridge.Base.{
  ℕ, ◌+◌, ◌%◌, ◌<◌, ◌≡◌, sym, ap, ap₂, ◌∙◌, arith, false, List, [], ◌∷◌, ◌++◌, if◌then◌else◌, ◌==◌,
  length, set, drop, length-set, get_or-set_self, get_or-set_ne,
}
use wireless_vr_bridge.SimpleDepacketizer.{
  Framebuffer, SimpleDepacketizer, slot, empty_framebuffer, reset_framebuffer, next_index,
}
use wireless_vr_bridge.SimpleDepacketizer.Slots.{
  distance, IsComplete, SlotOk, slot-set, view, window, window-set, window-suc, count, contents,
  IsValid,
}
use wireless_vr_bridge.SimpleDepacketizer.Validity.{gain}

-- The new tail is the head: its frame is dropped.
abbrev pub drop_oldest : SimpleDepacketizer → Framebuffer → List ℕ → SimpleDepacketizer
drop_oldest d done rest =
    let bs = set d.m_buffers d.m_tail done in
    let tail = next_index d.m_tail in
    let bs' = set bs d.m_head (reset_framebuffer (slot bs d.m_head)) in
    record {
      m_buffers = set bs' tail (gain rest (slot bs' tail));
      m_tail = tail;
      m_head = next_index d.m_head;
    }

module _ (d : SimpleDepacketizer) (v : IsValid d) (done : Framebuffer) (rest : List ℕ)
    (c : IsComplete done) (u : done.locked ≡ false) where
  tail_moves : (next_index d.m_tail ≡ (d.m_tail + 1) % 10) × (next_index d.m_tail < 10)
  tail_moves = omega (arith, v.tail_in)

  -- The slots after the oldest frame has given way.
  drop_at :
      (i : ℕ)
      → count d ≡ 9
      → slot (drop_oldest d done rest).m_buffers i ≡ (
          if d.m_head == i
          then gain rest (reset_framebuffer (slot d.m_buffers d.m_head))
          else if d.m_tail == i
          then done
          else slot d.m_buffers i)
  drop_at i full =
      let e : next_index d.m_tail ≡ d.m_head = omega (arith, v.tail_in, v.head_in) in
      let size : length (set d.m_buffers d.m_tail done) ≡ 10 =
        length-set d.m_buffers d.m_tail done ∙ v.capacity in
      let old : slot (set d.m_buffers d.m_tail done) d.m_head ≡ slot d.m_buffers d.m_head =
        get_or-set_ne d.m_buffers d.m_tail d.m_head done empty_framebuffer
          (omega (arith, v.tail_in, v.head_in)) in
      let r = reset_framebuffer (slot d.m_buffers d.m_head) in
      let bs = set (set d.m_buffers d.m_tail done) d.m_head r in
      let size' : length bs ≡ 10 = length-set (set d.m_buffers d.m_tail done) d.m_head r ∙ size in
      let cleared : slot bs d.m_head ≡ r =
        get_or-set_self (set d.m_buffers d.m_tail done) d.m_head r empty_framebuffer
          (omega (arith, v.head_in)) in
      rw (e, old, cleared)
        (rw
          (
            slot-set bs d.m_head i _ (omega (arith, v.head_in)),
            slot-set (set d.m_buffers d.m_tail done) d.m_head i r (omega (arith, v.head_in)),
            slot-set d.m_buffers d.m_tail i done (omega (arith, v.capacity, v.tail_in)),
          )
          (ground arith))

  drop_slot :
      count d ≡ 9
      → (slot d.m_buffers d.m_head).locked ≡ false
      → (i : ℕ) → i < 10
      → SlotOk
          (next_index d.m_head)
          (count (drop_oldest d done rest))
          i
          (slot (drop_oldest d done rest).m_buffers i)
  drop_slot full free i h =
      rw (drop_at i full)
        (ground (arith, v.slots i h, v.slots d.m_head v.head_in, v.head_in, v.tail_in))

  pub drop_oldest-IsValid :
      count d ≡ 9 → (slot d.m_buffers d.m_head).locked ≡ false → IsValid (drop_oldest d done rest)
  drop_oldest-IsValid full free = record {
    capacity =
        length-set (set (set d.m_buffers d.m_tail done) d.m_head _) (next_index d.m_tail) _
        ∙ length-set (set d.m_buffers d.m_tail done) d.m_head _
        ∙ length-set d.m_buffers d.m_tail done
        ∙ v.capacity;
    head_in = omega (arith, v.head_in);
    tail_in = omega arith;
    slots = drop_slot full free;
  }

  -- The window of the eight frames that stay.
  kept_frames :
      count d ≡ 9
      → window (drop_oldest d done rest).m_buffers ((d.m_head + 1) % 10) 8
        ≡ window d.m_buffers ((d.m_head + 1) % 10) 8
  kept_frames full =
      window-set (set (set d.m_buffers d.m_tail done) d.m_head _) ((d.m_head + 1) % 10) 8
        (next_index d.m_tail) _ (omega arith) tail_moves.1 (omega (arith, v.tail_in, v.head_in))
      ∙ window-set (set d.m_buffers d.m_tail done) ((d.m_head + 1) % 10) 8 d.m_head _ (omega arith)
          v.head_in (omega (arith, v.head_in))
      ∙ window-set d.m_buffers ((d.m_head + 1) % 10) 8 d.m_tail done (omega arith) v.tail_in
          (omega (arith, v.tail_in, v.head_in))

  newest_slot :
      count d ≡ 9 → slot (drop_oldest d done rest).m_buffers (((d.m_head + 1) % 10 + 8) % 10) ≡ done
  newest_slot full =
      rw (drop_at (((d.m_head + 1) % 10 + 8) % 10) full) (ground (arith, v.tail_in, v.head_in))

  dropped_tail :
      count d ≡ 9 → (slot (drop_oldest d done rest).m_buffers (next_index d.m_tail)).buffer ≡ rest
  dropped_tail full = rw (drop_at (next_index d.m_tail) full) (ground (arith, v.tail_in, v.head_in))

  dropped_frames :
      count d ≡ 9
      → (contents (drop_oldest d done rest)).frames ≡ drop 1 ((contents d).frames ++ view done ∷ [])
  dropped_frames full =
      let bs = (drop_oldest d done rest).m_buffers in
      let n : distance (next_index d.m_head) (next_index d.m_tail) ≡ 9 =
        omega (arith, v.tail_in, v.head_in) in
      let h : next_index d.m_head ≡ (d.m_head + 1) % 10 = omega arith in
      ap₂ (window bs) h n
      ∙ window-suc bs ((d.m_head + 1) % 10) 8 (omega arith)
      ∙ ap₂ (λ (w : List (List ℕ × ℕ)) (b : Framebuffer). w ++ view b ∷ []) (kept_frames full)
          (newest_slot full)
      ∙ ap (λ k. drop 1 (window d.m_buffers d.m_head k ++ view done ∷ [])) (sym full)

  pub contents-drop_oldest :
      count d ≡ 9
      → contents (drop_oldest d done rest)
        ≡ record { frames = drop 1 ((contents d).frames ++ view done ∷ []); pending = rest }
  contents-drop_oldest full =
      λ k. record { frames = dropped_frames full k; pending = dropped_tail full k }
