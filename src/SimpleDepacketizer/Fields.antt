-- ===== src/SimpleDepacketizer/Fields.antt =====
-- What a frame that `receive_frame_data` hands out says, read from the bytes that arrived.
use wireless_vr_bridge.Base.{
  ℕ, zero, suc, ◌+◌, ◌-◌, ◌<◌, ◌≡◌, refl, ap, ◌∙◌, arith, List, [], ◌∷◌, ◌==◌, length, drop, get_or,
  take, sym, ◌≤◌, ◌&&&◌, take-append-drop, length-take, get_or-append,
}
use wireless_vr_bridge.Network.{ntohl}
use wireless_vr_bridge.Network.ByteOrder.{ntohl-lt}
use wireless_vr_bridge.Network.Wire.{load32}
use wireless_vr_bridge.SimpleHeader.{header_at, has_flag}
use wireless_vr_bridge.SimpleHeader.Layout.{load32-append}
use wireless_vr_bridge.SimpleDepacketizer.{Framebuffer, Frame, frame_of}
use wireless_vr_bridge.SimpleDepacketizer.Slots.{IsComplete}

-- What is to be read from the bytes of a frame, header included, and from the time of its last byte.
pub record ReadsAs (frame_bytes : List ℕ) (time : ℕ) (f : Frame) : Type 0 where
  pub size : f.frame_size ≡ length frame_bytes - 20
  pub data_bytes : take f.frame_size f.frame_data ≡ drop 20 frame_bytes
  pub timestamp : f.rtp_timestamp ≡ ntohl (load32 frame_bytes 4)
  pub pose_timestamp : f.rtp_pose_timestamp ≡ ntohl (load32 frame_bytes 8)
  pub id : f.frame_id ≡ ntohl (load32 frame_bytes 12)
  pub eos : f.end_of_stream ≡ ((get_or frame_bytes 16 0 &&& 0b100) == 0b100)
  pub saved : f.save_frame ≡ ((get_or frame_bytes 16 0 &&& 0b010) == 0b010)
  pub last_time : f.last_packet_received_time ≡ time

take-nil : (n : ℕ) → take {A = ℕ} n [] ≡ []
take-nil zero = refl
take-nil (suc n) = refl

drop-take : (m n : ℕ) (xs : List ℕ) → drop m (take n xs) ≡ take (n - m) (drop m xs)
drop-take zero n xs = let e : n ≡ n - 0 = omega arith in ap (λ k. take k xs) e
drop-take (suc m) zero xs =
    let e : 0 ≡ 0 - suc m = omega arith in ap (λ k. take k (drop (suc m) xs)) e
drop-take (suc m) (suc n) [] = sym (take-nil (suc n - suc m))
drop-take (suc m) (suc n) (x ∷ xs) =
    let e : n - m ≡ suc n - suc m = omega arith in drop-take m n xs ∙ ap (λ k. take k (drop m xs)) e

load32-take :
    (n i : ℕ) (xs : List ℕ) → i + 3 < n → n ≤ length xs → load32 xs i ≡ load32 (take n xs) i
load32-take n i xs h k =
    ap (λ t. load32 t i) (sym (take-append-drop n xs))
    ∙ load32-append (take n xs) (drop n xs) i (omega (arith, length-take n xs))

get_or-take :
    (n i : ℕ) (xs : List ℕ) → i < n → n ≤ length xs → get_or xs i 0 ≡ get_or (take n xs) i 0
get_or-take n i xs h k =
    ap (λ t. get_or t i 0) (sym (take-append-drop n xs))
    ∙ get_or-append (take n xs) (drop n xs) i 0 (omega (arith, length-take n xs))

frame_size_lem :
    (buf : Framebuffer) → IsComplete buf → 20 ≤ buf.size → (frame_of buf).frame_size ≡ buf.size - 20
unfolding frame_of
frame_size_lem buf c h =
    let e = ntohl-lt (header_at buf.buffer).size in omega (arith, c.size_known, e)

pub frame_of-ReadsAs :
    (buf : Framebuffer)
    → IsComplete buf
    → 20 ≤ buf.size
    → ReadsAs (take buf.size buf.buffer) buf.last_packet_received_time (frame_of buf)
unfolding frame_of header_at has_flag
frame_of-ReadsAs buf c h = record {
  size =
      frame_size_lem buf c h
      ∙ ap (λ k. k - 20) (sym (omega (arith, length-take buf.size buf.buffer, c.arrived)));
  data_bytes =
      ap (λ k. take k (drop 20 buf.buffer)) (frame_size_lem buf c h)
      ∙ sym (drop-take 20 buf.size buf.buffer);
  timestamp = ap ntohl (load32-take buf.size 4 buf.buffer (omega (arith, h)) c.arrived);
  pose_timestamp = ap ntohl (load32-take buf.size 8 buf.buffer (omega (arith, h)) c.arrived);
  id = ap ntohl (load32-take buf.size 12 buf.buffer (omega (arith, h)) c.arrived);
  eos =
      ap (λ b. (b &&& 0b100) == 0b100)
        (get_or-take buf.size 16 buf.buffer (omega (arith, h)) c.arrived);
  saved =
      ap (λ b. (b &&& 0b010) == 0b010)
        (get_or-take buf.size 16 buf.buffer (omega (arith, h)) c.arrived);
  last_time = refl;
}
