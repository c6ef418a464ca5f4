-- ===== src/SimpleDepacketizer/Queue.antt =====
-- What the depacketizer promises: a queue of at most nine complete frames, oldest first, and the
-- bytes of the frame that is being received. A frame is its bytes, header included, with the time at
-- which its last byte came.
use wireless_vr_bridge.Base.{
  ℕ, Bool, List, [], ◌∷◌, ◌++◌, Option, none, some, if◌then◌else◌, ltb, ◌==◌, length, take, drop,
}
use wireless_vr_bridge.Network.{ntohl}
use wireless_vr_bridge.SimpleHeader.{sizeof_simple_header, header_at}

pub record FrameQueue : Type 0 where
  pub frames : List (List ℕ × ℕ)
  pub pending : List ℕ

-- The size that the header at the front of some bytes announces.
abbrev pub announced : List ℕ → ℕ
announced bytes = ntohl (header_at bytes).size

-- With nine frames waiting, the oldest gives way; while it is being read (`held`) the call waits.
unfoldable pub push : Bool → List ℕ × ℕ → List ℕ → FrameQueue → Option FrameQueue
push held frame rest q =
    if length q.frames == 9
    then (if held
        then none
        else some (record { frames = drop 1 (q.frames ++ frame ∷ []); pending = rest }))
    else some (record { frames = q.frames ++ frame ∷ []; pending = rest })

-- Bytes arrive: at most one frame becomes complete.
unfoldable pub add : Bool → ℕ → List ℕ → FrameQueue → Option FrameQueue
add held now packet q =
    let bytes = q.pending ++ packet in
    if ltb (length bytes) sizeof_simple_header
    then some (record q { pending = bytes })
    else if ltb (length bytes) (announced bytes)
    then some (record q { pending = bytes })
    else push held (take (announced bytes) bytes, now) (drop (announced bytes) bytes) q
