-- ===== src/H264Packetizer/Ends.antt =====
-- `ServerVideoSocket::send_packet` with the H.264 packetizer, whatever the data and the state are: its
-- loops end, and its packets are not too long.
use wireless_vr_bridge.Base.{
  ℕ, zero, suc, ◌+◌, ◌≤◌, ◌<◌, ◌≡◌, ◌≢◌, refl, arith, Bool, true, false, not, ◌&&◌, ◌||◌, List, [],
  ◌∷◌, ◌++◌, Option, none, some, length, All, if◌then◌else◌, if_both, ◌==◌, length-take,
}
use wireless_vr_bridge.Packetizer.{Out, FrameData, no_packet, packet_bytes, pointed}
use wireless_vr_bridge.VideoSocket.{send_loop, send_packet}
use wireless_vr_bridge.H264Packetizer.{
  H264RtpPacketizer, h264_packetizer, create_next_packet, Scan, packetize, finalize, is_at_end,
  payload_size_of, next_packet_from, add_frame_data, head_to_tail,
}
use wireless_vr_bridge.H264Packetizer.Bounded.{IsBounded, scan-IsBounded, ==_false}

abbrev pub head_length : Option (List ℕ) → ℕ
head_length none = 0
head_length (some head) = length head

-- What holds of every call: the packet is not too long, and a call that announces another one has less
-- to send than the call before.
pub record IsCall (n : ℕ) (r : Bool × Out × H264RtpPacketizer) : Type 0 where
  pub sized : r.1.size ≤ 1422
  pub shorter : r.0 ≡ true → head_length r.2.m_h264_head < n

payload_size-IsBounded :
    (in_fragmented reached : Bool) (s : Scan)
    → s.nal_size ≤ 1400
    → payload_size_of in_fragmented reached s ≤ 1402
payload_size-IsBounded false false s l = omega arith
payload_size-IsBounded false true s l = omega arith
payload_size-IsBounded true false s l = omega arith
payload_size-IsBounded true true s l = omega arith

rest_shorter :
    (rest : List ℕ) (m n : ℕ)
    → length rest + m ≤ n
    → m ≢ 0
    → not (is_at_end rest) ≡ true
    → head_length (if is_at_end rest then none else some rest) < n
rest_shorter [] m n l ne e = cc
rest_shorter (b ∷ rest) m n l ne e = omega arith

finalize-IsCall :
    (in_fragmented : Bool) (s : Scan) (start : List ℕ) (p : H264RtpPacketizer) (n : ℕ)
    → IsBounded n s
    → s.nal_size ≢ 0
    → IsCall n (finalize in_fragmented s start p)
finalize-IsCall in_fragmented s start p n v ne = record {
  sized = omega (
    arith,
    payload_size-IsBounded in_fragmented (s.is_nalu_start || is_at_end s.current) s v.counted,
  );
  shorter = rest_shorter s.current s.nal_size n v.taken ne;
}

packetize-IsCall :
    (in_fragmented : Bool) (s : Scan) (start : Option (List ℕ)) (p : H264RtpPacketizer) (n : ℕ)
    → IsBounded n s
    → IsCall n (packetize in_fragmented s start p)
packetize-IsCall in_fragmented s none p n v = record { sized = omega arith; shorter = λ e. cc }
packetize-IsCall in_fragmented s (some start) p n v =
    if_both (IsCall n) (s.nal_size == 0) _ _
      (λ empty. record { sized = omega arith; shorter = λ e. cc })
      (λ ne. finalize-IsCall in_fragmented s start p n v (==_false s.nal_size ne))

next-IsCall :
    (p : H264RtpPacketizer) (out : Out)
    → IsCall (head_length p.m_h264_head) (create_next_packet p out)
unfolding create_next_packet
next-IsCall p out = next_from-IsCall p.m_h264_head
  where
    next_from-IsCall : (o : Option (List ℕ)) → IsCall (head_length o) (next_packet_from o p out)
    next_from-IsCall none = record { sized = omega arith; shorter = λ e. cc }
    next_from-IsCall (some head) =
        packetize-IsCall (not (p.m_current_nalu_header == 0)) _ _ p (length head)
          (scan-IsBounded (length head) _ _ (record { counted = omega arith; taken = omega arith }))

abbrev pub IsShort : List ℕ → Type 0
IsShort packet = length packet ≤ 1422

-- The loop ended, and gave packets to the socket that are not too long.
abbrev pub EndsShort : Option (List (List ℕ) × H264RtpPacketizer) → Type 0
EndsShort result =
    (packets : List (List ℕ)) × (q : H264RtpPacketizer) × (result ≡ some (packets, q))
    × All IsShort packets

All-append :
    (xs : List (List ℕ)) (x : List ℕ) → All IsShort xs → IsShort x → All IsShort (xs ++ x ∷ [])
All-append [] x a l = (l, _)
All-append (y ∷ ys) x (k, a) l = (k, All-append ys x a l)

packet_bytes-IsShort : (out : Out) → out.size ≤ 1422 → IsShort (packet_bytes out)
packet_bytes-IsShort out l = omega (arith, length-take out.size (pointed out.packet_data))

both_true : (a b : Bool) → (a && b) ≡ true → a ≡ true
both_true true b e = refl
both_true false b e = e

module _ (connected : ℕ → Bool) where
  send_loop-EndsShort :
      (fuel n : ℕ) (more : Bool) (out : Out) (p : H264RtpPacketizer) (sent : List (List ℕ))
      → 0 < fuel
      → (more ≡ true → head_length p.m_h264_head + 1 < fuel)
      → All IsShort sent
      → EndsShort (send_loop h264_packetizer connected fuel n more out p sent)
  unfolding send_loop
  send_loop-EndsShort zero n more out p sent pos enough all = absurd (omega arith)
  send_loop-EndsShort (suc fuel) n more out p sent pos enough all =
      let v = next-IsCall p out in
      let r = create_next_packet p out in
      let all' =
        if_both (All IsShort) (r.1.size == 0) _ _ (λ z. all)
          (λ nz. All-append sent (packet_bytes r.1) all (packet_bytes-IsShort r.1 v.sized)) in
      if_both EndsShort (more && connected n) _ _
        (λ c.
          let l = enough (both_true more (connected n) c) in
          send_loop-EndsShort fuel (n + 1) r.0 r.1 r.2 _ (omega arith)
            (λ e. omega (arith, v.shorter e)) all')
        (λ stop. (sent, p, refl, all))

head_to_tail-length :
    (size : ℕ) (bytes : Option (List ℕ)) → head_length (head_to_tail size bytes) ≤ head_length bytes
head_to_tail-length size none = omega arith
head_to_tail-length size (some bytes) = omega (arith, length-take size bytes)

-- Whatever the bytes of the frame are, and whatever the packetizer did before and the socket answers,
-- `send_packet` ends with two rounds more than there are bytes as fuel, and every packet that it gives
-- to the socket has 1422 bytes at most, so that it stays below `WVB_RTP_MTU`.
pub send_packet-EndsShort :
    (connected : ℕ → Bool) (f : FrameData) (p : H264RtpPacketizer) (fuel : ℕ)
    → head_length f.bytes + 1 < fuel
    → EndsShort (send_packet h264_packetizer connected fuel f p)
unfolding send_packet add_frame_data
send_packet-EndsShort connected f p fuel l =
    send_loop-EndsShort connected fuel 0 true no_packet (h264_packetizer.add_frame_data f p) []
      (omega arith) (λ more. omega (arith, l, head_to_tail-length f.size f.bytes)) _
