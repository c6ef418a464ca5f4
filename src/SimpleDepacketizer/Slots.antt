-- ===== src/SimpleDepacketizer/Slots.antt =====
-- The ring of buffers from the head on: which slot holds what, and the frames in order.
use wireless_vr_bridge.Base.{
  ℕ, zero, suc, ◌+◌, ◌-◌, ◌%◌, ◌≤◌, ◌<◌, ◌≡◌, ◌≢◌, refl, sym, ap, ap₂, ◌∙◌, ◌⊎◌, arith, Bool, true,
  false, List, [], ◌∷◌, ◌++◌, if◌then◌else◌, ◌==◌, length, set, take, get_or-set_self,
  get_or-set_ne,
}
use wireless_vr_bridge.SimpleDepacketizer.{Framebuffer, SimpleDepacketizer, slot, empty_framebuffer}
use wireless_vr_bridge.SimpleDepacketizer.Queue.{FrameQueue, announced}

-- How far a slot lies behind the head.
abbrev pub distance : ℕ → ℕ → ℕ
distance head i = (i + 10 - head) % 10

-- A complete frame, one that is being received, and a buffer that waits for one.
pub record IsComplete (buf : Framebuffer) : Type 0 where
  pub is_ready : buf.ready ≡ true
  pub has_header : 20 ≤ length buf.buffer
  pub size_known : buf.size ≡ announced buf.buffer
  pub arrived : buf.size ≤ length buf.buffer

pub record IsPartial (buf : Framebuffer) : Type 0 where
  pub not_ready : buf.ready ≡ false
  pub unlocked : buf.locked ≡ false
  pub size_read : (buf.size ≡ 0) ⊎ ((20 ≤ length buf.buffer) × (buf.size ≡ announced buf.buffer))

pub record IsFree (buf : Framebuffer) : Type 0 where
  pub no_bytes : buf.buffer ≡ []
  pub no_size : buf.size ≡ 0
  pub idle : buf.ready ≡ false
  pub open_lock : buf.locked ≡ false

-- What a slot holds by its place: `count` frames from the head on, then the tail, then free ones.
-- Only the head may be held by a reader.
pub record SlotOk (head count i : ℕ) (buf : Framebuffer) : Type 0 where
  pub complete : distance head i < count → IsComplete buf
  pub partial : distance head i ≡ count → IsPartial buf
  pub free : count < distance head i → IsFree buf
  pub unheld : i ≢ head → buf.locked ≡ false

pub slot-set :
    (bs : List Framebuffer) (i j : ℕ) (v : Framebuffer)
    → i < length bs
    → slot (set bs i v) j ≡ (if i == j then v else slot bs j)
slot-set bs i j v h =
    ground
      (arith, get_or-set_ne bs i j v empty_framebuffer, get_or-set_self bs i v empty_framebuffer h)

-- What a reader sees of a complete frame.
abbrev pub view : Framebuffer → List ℕ × ℕ
view buf = (take buf.size buf.buffer, buf.last_packet_received_time)

-- The frames of `n` slots from `head` on, going round the ring.
abbrev pub window : List Framebuffer → ℕ → ℕ → List (List ℕ × ℕ)
window bs head zero = []
window bs head (suc n) = view (slot bs head) ∷ window bs ((head + 1) % 10) n

pub length-window : (bs : List Framebuffer) (head n : ℕ) → length (window bs head n) ≡ n
length-window bs head zero = refl
length-window bs head (suc n) = ap suc (length-window bs ((head + 1) % 10) n)

-- A write outside the window does not show.
pub window-set :
    (bs : List Framebuffer) (head n i : ℕ) (v : Framebuffer)
    → head < 10
    → i < 10
    → n ≤ distance head i
    → window (set bs i v) head n ≡ window bs head n
window-set bs head zero i v hh hi h = refl
window-set bs head (suc n) i v hh hi h =
    ap₂ ◌∷◌ (ap view (get_or-set_ne bs i head v empty_framebuffer (omega arith)))
      (window-set bs ((head + 1) % 10) n i v (omega arith) hi (omega arith))

-- A longer window ends with the frame of one slot more.
pub window-suc :
    (bs : List Framebuffer) (head n : ℕ)
    → head < 10
    → window bs head (suc n) ≡ window bs head n ++ view (slot bs ((head + n) % 10)) ∷ []
window-suc bs head zero h =
    let e : (head + 0) % 10 ≡ head = omega arith in ap (λ k. view (slot bs k) ∷ []) (sym e)
window-suc bs head (suc n) h =
    let e : ((head + 1) % 10 + n) % 10 ≡ (head + suc n) % 10 = omega arith in
    ap (λ t. view (slot bs head) ∷ t)
      (window-suc bs ((head + 1) % 10) n (omega arith)
        ∙ ap (λ k. window bs ((head + 1) % 10) n ++ view (slot bs k) ∷ []) e)

-- Frames wait in the slots from the head up to the tail.
abbrev pub count : SimpleDepacketizer → ℕ
count d = distance d.m_head d.m_tail

abbrev pub contents : SimpleDepacketizer → FrameQueue
contents d = record {
  frames = window d.m_buffers d.m_head (count d);
  pending = (slot d.m_buffers d.m_tail).buffer;
}

abbrev pub held : SimpleDepacketizer → Bool
held d = (slot d.m_buffers d.m_head).locked

pub record IsValid (d : SimpleDepacketizer) : Type 0 where
  pub capacity : length d.m_buffers ≡ 10
  pub head_in : d.m_head < 10
  pub tail_in : d.m_tail < 10
  pub slots : (i : ℕ) → i < 10 → SlotOk d.m_head (count d) i (slot d.m_buffers i)
