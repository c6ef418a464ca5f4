-- ===== src/VrcpSocket/Tcp.antt =====
-- The TCP side of `VRCPSocket` against the bytes that it holds: packets are cut off their front.
use wireless_vr_bridge.Base.{
  ℕ, ◌+◌, ◌-◌, ◌*◌, ◌≤◌, ◌<◌, ◌≡◌, refl, sym, ap, ◌∙◌, arith, Bool, true, false, List, ◌++◌, Option,
  none, some, if◌then◌else◌, length, get_or, take, drop, length-append, take-length-append,
  drop-length-append, get_or-append, leb, ◌==◌, u16, sub64, if_both,
}
use mathlib.Core.Path.{subst}
use wireless_vr_bridge.VrcpSocket.{
  Reception, next_tcp_packet, packet_length_of, take_packet, move_to_front, receive_at_tail,
  reliable_receive, after_first_look,
}
use wireless_vr_bridge.VrcpSocket.Buffer.{
  IsReception, pending, length-pending, pending-byte, take-pending, drop-pending,
  move_to_front-keeps, written, written-appends,
}

-- The packet at the front of some bytes, if they hold all of it, and the bytes after it.
abbrev pub cut : List ℕ → Option (List ℕ) × List ℕ
cut bytes =
    let n = packet_length_of (get_or bytes 1 0) in
    if leb 4 (length bytes)
    then (if leb n (length bytes) then (some (take n bytes), drop n bytes) else (none, bytes))
    else (none, bytes)

-- A result of the code stands for a result on the bytes that are pending.
pub record Stands (r : Option (List ℕ) × Reception) (o : Option (List ℕ) × List ℕ) : Type 0 where
  pub result : r.0 ≡ o.0
  pub kept : pending r.1 ≡ o.1
  pub well_formed : IsReception r.1

Stands-if :
    (b c : Bool) (x y : Option (List ℕ) × Reception) (x' y' : Option (List ℕ) × List ℕ)
    → b ≡ c
    → (b ≡ true → Stands x x')
    → (b ≡ false → Stands y y')
    → Stands (if b then x else y) (if c then x' else y')
Stands-if true true x y x' y' e h k = h refl
Stands-if false false x y x' y' e h k = k refl
Stands-if true false x y x' y' e h k = cc
Stands-if false true x y x' y' e h k = cc

module _ (d : Reception) (v : IsReception d) where
  packet_length_bound : (n : ℕ) → 4 ≤ packet_length_of n
  packet_length_bound n = ground arith

  taken :
      (n : ℕ)
      → n ≤ d.tail - d.head
      → Stands (take_packet n d) (some (take n (pending d)), drop n (pending d))
  taken n h = record {
    result = ap some (sym (take-pending d v n h));
    kept =
        if_both (λ d'. pending d' ≡ drop n (pending d)) (u16 (d.head + n) == d.tail) _ _
          (λ e.
            let none_left : d.tail - (d.head + n) ≡ 0 = omega (arith, at_end e) in
            sym (
              drop-pending d v n h
              ∙ ap (λ t. take t (drop (d.head + n) d.reception_buffer)) none_left))
          (λ e.
            let next : u16 (d.head + n) ≡ d.head + n = omega (arith, v.in_buffer, v.in_order) in
            ap (λ t. take (d.tail - t) (drop t d.reception_buffer)) next
            ∙ sym (drop-pending d v n h));
    well_formed =
        if_both IsReception (u16 (d.head + n) == d.tail) _ _
          (λ e. record { capacity = v.capacity; in_order = omega arith; in_buffer = omega arith })
          (λ e. record {
            capacity = v.capacity;
            in_order = omega (arith, v.in_buffer, v.in_order);
            in_buffer = v.in_buffer;
          });
  }
    where
      at_end : (u16 (d.head + n) == d.tail) ≡ true → d.tail ≡ d.head + n
      at_end e = ground (arith, v.in_buffer, v.in_order)

  unchanged : Stands (none, d) (none, pending d)
  unchanged = record { result = refl; kept = refl; well_formed = v }

  available : sub64 d.tail d.head ≡ length (pending d)
  available = omega (arith, length-pending d v, v.in_buffer, v.in_order)

  cut_at :
      (n m : ℕ)
      → n ≡ m
      → Stands (if leb n (sub64 d.tail d.head) then take_packet n d else (none, d)) (
          if leb m (length (pending d))
          then (some (take m (pending d)), drop m (pending d))
          else (none, pending d))
  cut_at n m e = rw e (
      Stands-if (leb m (sub64 d.tail d.head)) (leb m (length (pending d))) _ _ _ _
        (ap (leb m) available)
        (λ whole. taken m (ground (arith, whole, available, length-pending d v)))
        (λ part. unchanged))

  -- `next_tcp_packet` cuts the packet off the front of the pending bytes, or leaves them if it is not
  -- complete.
  pub next_tcp_packet-cut : Stands (next_tcp_packet d) (cut (pending d))
  unfolding next_tcp_packet
  next_tcp_packet-cut =
      Stands-if (leb 4 (sub64 d.tail d.head)) (leb 4 (length (pending d))) _ _ _ _
        (ap (leb 4) available)
        (λ long. cut_at _ _ (
          ap packet_length_of
            (sym (pending-byte d v 1 (ground (arith, long, available, length-pending d v))))))
        (λ short. unchanged)

-- What `reliable_receive` does on the pending bytes: the packet in front, or the one that is there once
-- more has come.
abbrev pub receive_more : Option (List ℕ) → List ℕ → Option (List ℕ) × List ℕ
receive_more none bytes = (none, bytes)
receive_more (some more) bytes = cut (bytes ++ more)

abbrev pub cut_or_receive : Option (List ℕ) → Option (List ℕ) × List ℕ → Option (List ℕ) × List ℕ
cut_or_receive received (some packet, rest) = (some packet, rest)
cut_or_receive received (none, rest) = receive_more received rest

-- The socket writes no more than there is space for after what is pending.
abbrev pub FitsIn : Option (List ℕ) → List ℕ → Type 0
FitsIn none bytes = Unit
FitsIn (some more) bytes = length bytes + length more ≤ 4080

receive_at_tail-more :
    (received : Option (List ℕ)) (d : Reception)
    → IsReception d
    → d.head ≡ 0
    → FitsIn received (pending d)
    → Stands (receive_at_tail received d) (receive_more received (pending d))
unfolding receive_at_tail
receive_at_tail-more none d v e h = record { result = refl; kept = refl; well_formed = v }
receive_at_tail-more (some bytes) d v e h =
    let w = written-appends d bytes v e (omega (arith, h, length-pending d v)) in
    let fits : u16 (d.tail + length bytes) ≡ d.tail + length bytes =
      omega (arith, h, length-pending d v) in
    rw (fits, sym w.0) (next_tcp_packet-cut (written bytes d) w.1)

after_first_look-receives :
    (received : Option (List ℕ)) (r : Option (List ℕ) × Reception) (o : Option (List ℕ) × List ℕ)
    → Stands r o
    → FitsIn received o.1
    → Stands (after_first_look received r) (cut_or_receive received o)
after_first_look-receives received (some packet, d) (some packet', rest) s h = s
after_first_look-receives received (none, d) (none, rest) s h =
    let m = move_to_front-keeps d s.well_formed in
    let same : pending (move_to_front d) ≡ rest = m.0 ∙ s.kept in
    subst
      (λ b.
        FitsIn received b
        → Stands (receive_at_tail received (move_to_front d)) (receive_more received b))
      same (receive_at_tail-more received (move_to_front d) m.1 m.2) h
after_first_look-receives received (some packet, d) (none, rest) s h =
    let e : some packet ≡ none = s.result in cc
after_first_look-receives received (none, d) (some packet, rest) s h =
    let e : none ≡ some packet = s.result in cc

-- On a well-formed buffer, and when the socket writes no more than there is space for, one call of
-- `reliable_receive` gives the packet at the front of the pending bytes, without receiving; if they
-- hold no complete packet it appends what the socket gives, if anything, and gives the packet at the
-- front of that. What is not given stays pending in order, and the buffer well formed.
pub reliable_receive-cut :
    (received : Option (List ℕ)) (d : Reception)
    → IsReception d
    → FitsIn received (cut (pending d)).1
    → Stands (reliable_receive received d) (cut_or_receive received (cut (pending d)))
unfolding reliable_receive
reliable_receive-cut received d v h =
    after_first_look-receives received (next_tcp_packet d) (cut (pending d))
      (next_tcp_packet-cut d v) h

-- A packet as the protocol makes them: as many rows as its header says, and at least one.
abbrev pub IsPacket : List ℕ → Type 0
IsPacket w = (0 < get_or w 1 0) × (length w ≡ get_or w 1 0 * 4)

packet_length_of-IsPacket : (w : List ℕ) → IsPacket w → packet_length_of (get_or w 1 0) ≡ length w
packet_length_of-IsPacket w h = ground (arith, h)

cut-packet : (w rest : List ℕ) → IsPacket w → cut (w ++ rest) ≡ (some w, rest)
cut-packet w rest h =
    let header : get_or (w ++ rest) 1 0 ≡ get_or w 1 0 =
      get_or-append w rest 1 0 (omega (arith, h)) in
    let size = packet_length_of-IsPacket w h in
    let long : leb 4 (length (w ++ rest)) ≡ true = ground (arith, length-append w rest, h) in
    let whole : leb (length w) (length (w ++ rest)) ≡ true = ground (arith, length-append w rest) in
    rw
      (
        header,
        size,
        long,
        whole,
        take-length-append (length w) w rest refl,
        drop-length-append (length w) w rest refl,
      )
      refl

-- A packet that is at the front of the pending bytes is given whole, and all after it stays.
pub reliable_receive-packet :
    (received : Option (List ℕ)) (d : Reception) (w rest : List ℕ)
    → IsReception d
    → IsPacket w
    → FitsIn received rest
    → pending d ≡ w ++ rest
    → Stands (reliable_receive received d) (some w, rest)
reliable_receive-packet received d w rest v p h e =
    let c : cut (pending d) ≡ (some w, rest) = ap cut e ∙ cut-packet w rest p in
    subst (λ o. Stands (reliable_receive received d) (cut_or_receive received o)) c
      (reliable_receive-cut received d v (subst (λ o. FitsIn received o.1) (sym c) h))
