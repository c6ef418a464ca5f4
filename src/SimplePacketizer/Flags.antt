-- ===== src/SimplePacketizer/Flags.antt =====
-- The flags of the simple packetizer over a session: `add_frame_data` adds to them and nothing takes
-- them away.
use wireless_vr_bridge.Base.{◌<◌, ◌≡◌, refl, arith, Bool, false, ◌||◌, List, [], ◌∷◌}
use wireless_vr_bridge.Packetizer.{FrameData, Out}
use wireless_vr_bridge.SimpleHeader.{has_flag, end_of_frame, save_frame, end_of_stream}
use wireless_vr_bridge.SimpleHeader.Flags.{has_flag-raise, raise}
use wireless_vr_bridge.SimplePacketizer.{SimplePacketizer, add_frame_data, create_next_packet}

abbrev pub any_of : (FrameData → Bool) → List FrameData → Bool
any_of p [] = false
any_of p (f ∷ fs) = p f || any_of p fs

-- Frames are added one after the other, with any number of packets made of each.
pub data Session (p : SimplePacketizer) : List FrameData → SimplePacketizer → Type 0 where
  start : {fs : List FrameData} → fs ≡ [] → Session p fs p
  add :
      {fs gs : List FrameData} {q r : SimplePacketizer} (f : FrameData)
      → Session p fs q
      → gs ≡ f ∷ fs
      → r ≡ add_frame_data f q
      → Session p gs r
  make :
      {fs : List FrameData} {q r : SimplePacketizer} (out : Out)
      → Session p fs q
      → r ≡ (create_next_packet q out).2
      → Session p fs r

header-create_next_packet :
    (p : SimplePacketizer) (out : Out) → (create_next_packet p out).2.m_header ≡ p.m_header
unfolding create_next_packet
header-create_next_packet p out = ground arith

flags-add_frame_data :
    (f : FrameData) (p : SimplePacketizer)
    → (add_frame_data f p).m_header.flags
      ≡ raise f.last_of_frame f.save_frame f.end_of_stream p.m_header.flags
unfolding add_frame_data
flags-add_frame_data f p = refl

or_false : (a : Bool) → a ≡ (a || false)
or_false a = ground arith

-- The flag after one frame more, from the flag before it.
join :
    {after before : Bool} (first rest asked : Bool)
    → after ≡ (before || asked)
    → before ≡ (first || rest)
    → after ≡ (first || (asked || rest))
join first rest asked e e' = ground arith

-- After any session a flag is set exactly if it was set at the start or some frame of the session
-- asked for it: one frame with `save_frame` makes every later header ask for saving, and so for the
-- end of the frame and the end of the stream.
pub flags_accumulate :
    {p q : SimplePacketizer} {fs : List FrameData}
    → p.m_header.flags < 8
    → Session p fs q
    → (q.m_header.flags < 8)
      × (has_flag q.m_header.flags end_of_frame
          ≡ (has_flag p.m_header.flags end_of_frame || any_of (λ f. f.last_of_frame) fs))
      × (has_flag q.m_header.flags save_frame
          ≡ (has_flag p.m_header.flags save_frame || any_of (λ f. f.save_frame) fs))
      × (has_flag q.m_header.flags end_of_stream
          ≡ (has_flag p.m_header.flags end_of_stream || any_of (λ f. f.end_of_stream) fs))
flags_accumulate h (start e) = rw e (h, or_false _, or_false _, or_false _)
flags_accumulate {p} h (add {fs} {q = q} f s e e') =
    let ih = flags_accumulate h s in
    let step = has_flag-raise f.last_of_frame f.save_frame f.end_of_stream q.m_header.flags ih.0 in
    rw (e, e', flags-add_frame_data f q)
      (
        step.3,
        join _ _ f.last_of_frame step.0 ih.1,
        join _ _ f.save_frame step.1 ih.2,
        join _ _ f.end_of_stream step.2 ih.3,
      )
flags_accumulate {fs} h (make {q} out s e) =
    rw (e, header-create_next_packet q out) (flags_accumulate {fs = fs} h s)
