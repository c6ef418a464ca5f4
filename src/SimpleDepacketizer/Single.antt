-- ===== src/SimpleDepacketizer/Single.antt =====
-- The depacketizer as its constructor leaves it.
use wireless_vr_bridge.Base.{ℕ, ◌<◌, ◌≡◌, refl, arith, []}
use wireless_vr_bridge.SimpleDepacketizer.{create_simple_depacketizer, empty_framebuffer, slot}
use wireless_vr_bridge.SimpleDepacketizer.Slots.{contents, IsValid}

slot_empty : (i : ℕ) → i < 10 → slot create_simple_depacketizer.m_buffers i ≡ empty_framebuffer
slot_empty i h = ground arith

-- A new depacketizer is well formed, and holds nothing.
pub create-IsValid :
    IsValid create_simple_depacketizer
    × (contents create_simple_depacketizer ≡ record { frames = []; pending = [] })
create-IsValid = (
  record {
    capacity = refl;
    head_in = omega arith;
    tail_in = omega arith;
    slots = λ i h. rw (slot_empty i h) (ground arith);
  },
  refl,
)
