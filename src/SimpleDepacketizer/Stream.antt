-- ===== src/SimpleDepacketizer/Stream.antt =====
-- Reassembly: a byte stream that is a sequence of framed packets, cut into chunks anywhere, comes out
-- as those packets.
use wireless_vr_bridge.Base.{
  ℕ, ◌+◌, ◌^◌, ◌≤◌, ◌<◌, ◌≡◌, refl, sym, ap, ◌∙◌, arith, Bool, Option, none, some, List, [], ◌∷◌,
  ◌++◌, map, append-nil, append_assoc, length, take, drop, length-append, take-append, drop-append,
  take-length-append, drop-length-append, All, lt→ltb, leb→ltb_false, inl, inr, ◌⊎◌, ==_of_ne,
}
use mathlib.Core.Path.{subst}
use mathlib.Core.List.{map-append}
use native.Mathlib.Decide.{dec_lt}
use wireless_vr_bridge.SimpleDepacketizer.{SimpleDepacketizer, add_packet}
use wireless_vr_bridge.SimpleDepacketizer.Queue
use wireless_vr_bridge.SimpleDepacketizer.Queue.{FrameQueue, announced}
use wireless_vr_bridge.SimpleDepacketizer.Slots.{count, contents, IsValid, held, length-window}
use wireless_vr_bridge.SimpleDepacketizer.Refine.{Implements, add_packet-refines, announced-append}

abbrev pub concat : List (List ℕ) → List ℕ
concat [] = []
concat (x ∷ xs) = x ++ concat xs

-- A packet as the packetizer makes them: its header announces its length.
abbrev pub IsFramed : List ℕ → Type 0
IsFramed w = (20 ≤ length w) × (announced w ≡ length w)

abbrev pub bytes_of : List (List ℕ × ℕ) → List (List ℕ)
bytes_of fs = map (λ f. f.0) fs

-- All bytes that a queue holds, in order of arrival.
abbrev pub stream_of : FrameQueue → List ℕ
stream_of q = concat (bytes_of q.frames) ++ q.pending

-- The chunks of a stream, each with the time at which it came, given to `add_packet` in order.
pub feed : List (ℕ × List ℕ) → SimpleDepacketizer → Option SimpleDepacketizer
feed [] d = some d
feed ((now, chunk) ∷ chunks) d = elim (add_packet now chunk d) [
  | none ↦ none
  | some d' ↦ feed chunks d'
]

abbrev pub chunk_bytes : List (ℕ × List ℕ) → List (List ℕ)
chunk_bytes cs = map (λ c. c.1) cs

-- The front of a stream that begins with a framed packet announces that packet.
announced_front :
    (bytes more w others : List ℕ)
    → IsFramed w
    → 20 ≤ length bytes
    → bytes ++ more ≡ w ++ others
    → announced bytes ≡ length w
announced_front bytes more w others f h e =
    sym (announced-append bytes more h) ∙ ap announced e ∙ announced-append w others f.0 ∙ f.1

take_front :
    (bytes more w others : List ℕ)
    → length w ≤ length bytes
    → bytes ++ more ≡ w ++ others
    → (take (length w) bytes ≡ w) × (drop (length w) bytes ++ more ≡ others)
take_front bytes more w others h e = (
  sym (take-append (length w) bytes more h)
      ∙ ap (take (length w)) e
      ∙ take-length-append (length w) w others refl,
  sym (drop-append (length w) bytes more h)
      ∙ ap (drop (length w)) e
      ∙ drop-length-append (length w) w others refl,
)

-- One call, on a queue with room, while a stream of framed packets arrives: it ends the first packet
-- that is not complete, or it keeps the bytes.
abbrev Ends : Bool → ℕ → List ℕ → List ℕ → FrameQueue → List (List ℕ) → Type 0
Ends busy now packet more q ws =
    (w : List ℕ) × (others : List (List ℕ)) × (rest : List ℕ) × (ws ≡ w ∷ others)
    × (Queue.add busy now packet q
        ≡ some (record { frames = q.frames ++ (w, now) ∷ []; pending = rest }))
    × (rest ++ more ≡ concat others)

abbrev Keeps : Bool → ℕ → List ℕ → FrameQueue → Type 0
Keeps busy now packet q =
    Queue.add busy now packet q ≡ some (record q { pending = q.pending ++ packet })

add-short :
    (busy : Bool) (now : ℕ) (packet : List ℕ) (q : FrameQueue)
    → length (q.pending ++ packet) < 20
    → Keeps busy now packet q
unfolding Queue.add
add-short busy now packet q h = rw (lt→ltb (length (q.pending ++ packet)) 20 h)

add-part :
    (busy : Bool) (now : ℕ) (packet : List ℕ) (q : FrameQueue)
    → 20 ≤ length (q.pending ++ packet)
    → length (q.pending ++ packet) < announced (q.pending ++ packet)
    → Keeps busy now packet q
unfolding Queue.add
add-part busy now packet q h part = rw (
  leb→ltb_false (length (q.pending ++ packet)) 20 h,
  lt→ltb (length (q.pending ++ packet)) (announced (q.pending ++ packet)) part,
)

add-whole :
    (busy : Bool) (now : ℕ) (packet : List ℕ) (q : FrameQueue)
    → 20 ≤ length (q.pending ++ packet)
    → announced (q.pending ++ packet) ≤ length (q.pending ++ packet)
    → length q.frames < 9
    → Queue.add busy now packet q
      ≡ some (record {
        frames =
            q.frames ++ (take (announced (q.pending ++ packet)) (q.pending ++ packet), now) ∷ [];
        pending = drop (announced (q.pending ++ packet)) (q.pending ++ packet);
      })
unfolding Queue.add Queue.push
add-whole busy now packet q h whole room = rw (
  leb→ltb_false (length (q.pending ++ packet)) 20 h,
  leb→ltb_false (length (q.pending ++ packet)) (announced (q.pending ++ packet)) whole,
  ==_of_ne (length q.frames) 9 (omega arith),
)

add-step :
    (busy : Bool) (now : ℕ) (packet more : List ℕ) (q : FrameQueue) (ws : List (List ℕ))
    → All IsFramed ws
    → length q.frames + length ws ≤ 9
    → (q.pending ++ packet) ++ more ≡ concat ws
    → Ends busy now packet more q ws ⊎ Keeps busy now packet q
add-step busy now packet more q [] f room e = inr (
    add-short busy now packet q
      (omega (arith, ap length e, length-append (q.pending ++ packet) more)))
add-step busy now packet more q (w ∷ others) f room e =
    elim (dec_lt (length (q.pending ++ packet)) 20) [
      | yes short ↦ inr (add-short busy now packet q short)
      | no long ↦ elim (dec_lt (length (q.pending ++ packet)) (length w)) [
        | yes part ↦ inr (keeps long part)
        | no whole ↦ inl (
          w,
          others,
          drop (length w) (q.pending ++ packet),
          refl,
          ends long whole,
          (take_front (q.pending ++ packet) more w (concat others) (omega arith) e).1,
        )
      ]
    ]
  where
    bytes : List ℕ
    bytes = q.pending ++ packet

    front : ¬ (length bytes < 20) → announced bytes ≡ length w
    front long = announced_front bytes more w (concat others) f.0 (omega arith) e

    keeps : ¬ (length bytes < 20) → length bytes < length w → Keeps busy now packet q
    keeps long part = add-part busy now packet q (omega arith) (omega (arith, front long))

    ends :
        ¬ (length bytes < 20)
        → ¬ (length bytes < length w)
        → Queue.add busy now packet q
          ≡ some (record { frames = q.frames ++ (w, now) ∷ []; pending = drop (length w) bytes })
    ends long whole =
        add-whole busy now packet q (omega arith) (omega (arith, front long)) (omega arith)
        ∙ ap
            (λ (n : ℕ).
              some
                (record { frames = q.frames ++ (take n bytes, now) ∷ []; pending = drop n bytes }))
            (front long)
        ∙ ap
            (λ (b : List ℕ).
              some (record { frames = q.frames ++ (b, now) ∷ []; pending = drop (length w) bytes }))
            (take_front bytes more w (concat others) (omega arith) e).0

-- What has come of a stream of framed packets: the first of them are frames, in order, and the bytes
-- of the others that have come are kept.
pub record Fed (cs : List (ℕ × List ℕ)) (d : SimpleDepacketizer) (ws : List (List ℕ)) : Type 0 where
  pub after : SimpleDepacketizer
  pub new : List (List ℕ)
  pub left : List (List ℕ)
  pub returns : feed cs d ≡ some after
  pub valid : IsValid after
  pub split : ws ≡ new ++ left
  pub frames : bytes_of (contents after).frames ≡ bytes_of (contents d).frames ++ new
  pub pending : (contents after).pending ≡ concat left

Implements-some :
    (r : Option SimpleDepacketizer) (o : Option FrameQueue) (q : FrameQueue)
    → Implements r o
    → o ≡ some q
    → (d : SimpleDepacketizer) × (r ≡ some d) × IsValid d × (contents d ≡ q)
Implements-some none none q i e = cc
Implements-some none (some q') q i e = absurd i
Implements-some (some d) none q i e = absurd i
Implements-some (some d) (some q') q i e = let same : q' ≡ q = cc in (d, refl, i.0, i.1 ∙ same)

feed-cons :
    (now : ℕ) (chunk : List ℕ) (cs : List (ℕ × List ℕ)) (d d' : SimpleDepacketizer)
    → add_packet now chunk d ≡ some d'
    → feed ((now, chunk) ∷ cs) d ≡ feed cs d'
unfolding feed
feed-cons now chunk cs d d' e = ap (λ r. elim r [ none ↦ none | some d'' ↦ feed cs d'' ]) e

bytes_of-append :
    (fs : List (List ℕ × ℕ)) (w : List ℕ) (t : ℕ)
    → bytes_of (fs ++ (w, t) ∷ []) ≡ bytes_of fs ++ w ∷ []
bytes_of-append fs w t = map-append (λ (f : List ℕ × ℕ). f.0) fs ((w, t) ∷ [])

module _ (now : ℕ) (chunk : List ℕ) (cs : List (ℕ × List ℕ)) (d d' : SimpleDepacketizer)
    (r : add_packet now chunk d ≡ some d') where
  Fed-after_keeping :
      (ws : List (List ℕ))
      → (contents d').frames ≡ (contents d).frames
      → Fed cs d' ws
      → Fed ((now, chunk) ∷ cs) d ws
  Fed-after_keeping ws same fed = record {
    after = fed.after;
    new = fed.new;
    left = fed.left;
    returns = feed-cons now chunk cs d d' r ∙ fed.returns;
    valid = fed.valid;
    split = fed.split;
    frames = fed.frames ∙ ap (λ fs. bytes_of fs ++ fed.new) same;
    pending = fed.pending;
  }

  Fed-after_frame :
      (w : List ℕ) (others : List (List ℕ))
      → (contents d').frames ≡ (contents d).frames ++ (w, now) ∷ []
      → Fed cs d' others
      → Fed ((now, chunk) ∷ cs) d (w ∷ others)
  Fed-after_frame w others grown fed = record {
    after = fed.after;
    new = w ∷ fed.new;
    left = fed.left;
    returns = feed-cons now chunk cs d d' r ∙ fed.returns;
    valid = fed.valid;
    split = ap (λ t. w ∷ t) fed.split;
    frames =
        fed.frames
        ∙ ap (λ fs. bytes_of fs ++ fed.new) grown
        ∙ ap (λ fs. fs ++ fed.new) (bytes_of-append (contents d).frames w now)
        ∙ append_assoc (bytes_of (contents d).frames) (w ∷ []) fed.new;
    pending = fed.pending;
  }

-- What is left of the conditions when the first packet has become a frame.
others-IsFramed :
    (ws : List (List ℕ)) (w : List ℕ) (others : List (List ℕ))
    → ws ≡ w ∷ others
    → All IsFramed ws
    → All IsFramed others
others-IsFramed ws w others e f = (subst (All IsFramed) e f).1

others_room :
    (fs gs : List (List ℕ × ℕ)) (f : List ℕ × ℕ) (ws : List (List ℕ)) (w : List ℕ)
    (others : List (List ℕ))
    → gs ≡ fs ++ f ∷ []
    → ws ≡ w ∷ others
    → length fs + length ws ≤ 9
    → length gs + length others ≤ 9
others_room fs gs f ws w others g e room =
    omega (arith, room, ap length g, length-append fs (f ∷ []), ap length e)

others_small :
    (ws : List (List ℕ)) (w : List ℕ) (others : List (List ℕ))
    → ws ≡ w ∷ others
    → length (concat ws) < 2 ^ 64
    → length (concat others) < 2 ^ 64
others_small ws w others e small =
    omega (arith, small, ap (λ t. length (concat t)) e, length-append w (concat others))

frames_count : (d : SimpleDepacketizer) → length (contents d).frames ≡ count d
frames_count d = length-window d.m_buffers d.m_head (count d)

-- On a well-formed ring, with room for every packet among its nine frames: when the chunks complete
-- what is kept to a stream of framed packets, however it is cut, no call waits, the ring stays well
-- formed, and the first of the packets have become frames behind those that waited, in order and
-- unchanged, while the bytes of all others are kept.
pub feed-Fed :
    (cs : List (ℕ × List ℕ)) (d : SimpleDepacketizer) (ws : List (List ℕ))
    → IsValid d
    → All IsFramed ws
    → (contents d).pending ++ concat (chunk_bytes cs) ≡ concat ws
    → length (contents d).frames + length ws ≤ 9
    → length (concat ws) < 2 ^ 64
    → Fed cs d ws
unfolding feed
feed-Fed [] d ws v f e room small = record {
  after = d;
  new = [];
  left = ws;
  returns = refl;
  valid = v;
  split = refl;
  frames = sym (append-nil (bytes_of (contents d).frames));
  pending = sym (append-nil (contents d).pending) ∙ e;
}
feed-Fed ((now, chunk) ∷ cs) d ws v f e room small =
    elim (add-step (held d) now chunk (concat (chunk_bytes cs)) (contents d) ws f room assoc) [
      | inl (w, others, rest, first, added, next) ↦
          let (d', r, v', c) = Implements-some _ _ _ refined added in
          let fs : (contents d').frames ≡ (contents d).frames ++ (w, now) ∷ [] =
            ap (λ (q : FrameQueue). q.frames) c in
          let ps : (contents d').pending ≡ rest = ap (λ (q : FrameQueue). q.pending) c in
          rw first (
            Fed-after_frame now chunk cs d d' r w others fs (
              feed-Fed cs d' others v' (others-IsFramed ws w others first f) (rw ps next)
                (others_room (contents d).frames (contents d').frames (w, now) ws w others fs first
                  room)
                (others_small ws w others first small)))
      | inr kept ↦
          let (d', r, v', c) = Implements-some _ _ _ refined kept in
          let fs : (contents d').frames ≡ (contents d).frames =
            ap (λ (q : FrameQueue). q.frames) c in
          let ps : (contents d').pending ≡ (contents d).pending ++ chunk =
            ap (λ (q : FrameQueue). q.pending) c in
          Fed-after_keeping now chunk cs d d' r ws fs
            (feed-Fed cs d' ws v' f (rw ps assoc) (omega (arith, room, ap length fs)) small)
    ]
  where
    assoc : ((contents d).pending ++ chunk) ++ concat (chunk_bytes cs) ≡ concat ws
    assoc = append_assoc (contents d).pending chunk (concat (chunk_bytes cs)) ∙ e

    refined : Implements (add_packet now chunk d) (Queue.add (held d) now chunk (contents d))
    refined = add_packet-refines now chunk d v (
        omega (
          arith,
          ap length assoc,
          length-append ((contents d).pending ++ chunk) (concat (chunk_bytes cs)),
        ))
