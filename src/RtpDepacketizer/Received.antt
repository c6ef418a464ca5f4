-- ===== src/RtpDepacketizer/Received.antt =====
-- The packets of a frame, from the packetizer to the depacketizer.
use wireless_vr_bridge.Base.{
  ℕ, suc, ◌+◌, ◌%◌, ◌^◌, ◌≤◌, ◌<◌, ◌≡◌, refl, sym, ap, ◌∙◌, arith, Bool, true, false, ◌||◌, List,
  [], ◌∷◌, Option, some, if◌then◌else◌, length, u16, bit_and, table, eq_by_table, All, Bool-cases,
  inl, inr,
}
use wireless_vr_bridge.Network.{ntohl}
use wireless_vr_bridge.Rtp.{RtpHeader, set_marker}
use wireless_vr_bridge.H264Packetizer.Next.{numbered}
use wireless_vr_bridge.H264Packetizer.Payloads.{rtp_packets}
use wireless_vr_bridge.RtpDepacketizer.{RtpDepacketizer}
use wireless_vr_bridge.RtpDepacketizer.Process.{add_payload}
use wireless_vr_bridge.RtpDepacketizer.Receive.{add_packet, after_held, begin_at}
use wireless_vr_bridge.RtpDepacketizer.Kept.{add_payload-keeps}
use wireless_vr_bridge.RtpDepacketizer.Reassembly.{arrived, arrive_all}
use wireless_vr_bridge.RtpDepacketizer.Arrived.{IsResting}
use wireless_vr_bridge.RtpDepacketizer.Wired.{
  IsSent, Awaits, numbered-HasRtpWidths, numbered_fields, add_packet-Awaits,
}

-- Packets that arrive one after the other.
abbrev pub receive_all : ℕ → List (List ℕ) → RtpDepacketizer → Option RtpDepacketizer
receive_all fuel [] d = some d
receive_all fuel (packet ∷ packets) d =
    after_held (receive_all fuel packets) (add_packet fuel (some packet) (length packet) d)

begin_at-fields :
    (seq timestamp : ℕ) (d : RtpDepacketizer)
    → ((begin_at seq timestamp d).m_first_packet ≡ false)
      × ((begin_at seq timestamp d).m_has_frame ≡ d.m_has_frame)
begin_at-fields seq timestamp d = elim (Bool-cases d.m_first_packet) [
  | inl e ↦ rw e (refl, refl)
  | inr e ↦ rw e (refl, refl)
]

begin_at-later :
    (seq timestamp : ℕ) (d : RtpDepacketizer)
    → d.m_first_packet ≡ false
    → begin_at seq timestamp d ≡ d
begin_at-later seq timestamp d e =
    ap
      (λ b.
        if b
        then record d {
          m_desired_seq_id = seq;
          m_current_rtp_timestamp = timestamp;
          m_first_packet = false;
        }
        else d)
      e

or_false : (b c : Bool) → c ≡ false → (b || c) ≡ b
or_false true c e = refl
or_false false c e = e

module _ (header : RtpHeader) (seq : ℕ) (x : List ℕ) (d : RtpDepacketizer)
    (v : Awaits header seq d) where
  abbrev started : RtpDepacketizer
  started = begin_at seq (ntohl header.timestamp) d

  keeps :
      {X : Type 0} (f : RtpDepacketizer → X)
      → ((e : RtpDepacketizer) (frame : List ℕ) (fu_header : Option ℕ) (should_drop : Bool)
          → f (record e {
            m_frame_data = frame;
            m_fu_header = fu_header;
            m_should_drop_fragmented_unit = should_drop;
          })
            ≡ f e)
      → f (add_payload x seq started) ≡ f started
  keeps f closed = add_payload-keeps f closed x seq started

  no_frame_yet : (add_payload x seq started).m_has_frame ≡ false
  no_frame_yet =
      keeps (λ e. e.m_has_frame) (λ e frame fu_header should_drop. refl)
      ∙ (begin_at-fields seq (ntohl header.timestamp) d).1
      ∙ v.no_frame

  later : (arrived seq false x started).m_first_packet ≡ false
  later =
      keeps (λ e. e.m_first_packet) (λ e frame fu_header should_drop. refl)
      ∙ (begin_at-fields seq (ntohl header.timestamp) d).0

  next-Awaits :
      IsResting (arrived seq false x started)
      → Awaits (numbered header seq false) (u16 (seq + 1)) (arrived seq false x started)
  next-Awaits rest =
      let after_first =
        begin_at-later (u16 (seq + 1)) (ntohl (numbered header seq false).timestamp)
          (arrived seq false x started) later in
      record {
        no_frame = no_frame_yet;
        desired =
            ap (λ n. u16 (n + 1))
              (v.desired
                ∙ sym (keeps (λ e. e.m_desired_seq_id) (λ e frame fu_header should_drop. refl)))
            ∙ ap (λ e. e.m_desired_seq_id) (sym after_first);
        current =
            ap ntohl (numbered_fields header seq false).2
            ∙ v.current
            ∙ sym (keeps (λ e. e.m_current_rtp_timestamp) (λ e frame fu_header should_drop. refl))
            ∙ ap (λ e. e.m_current_rtp_timestamp) (sym after_first);
        resting = rest;
      }

-- The payloads that fit a packet, and are long enough not to be dropped.
abbrev pub IsSized : List ℕ → Type 0
IsSized payload = (2 ≤ length payload) × (length payload < 1480)

low_bits : (b : ℕ) → b < 256 → bit_and b 0b01111111 ≡ b % 128
unfolding table
low_bits = eq_by_table 256 _ _ refl

numbered-IsSent :
    (header : RtpHeader) (seq : ℕ)
    → seq < 2 ^ 16
    → IsSent header
    → IsSent (numbered header seq false)
unfolding set_marker
numbered-IsSent header seq l sent = record {
  widths = numbered-HasRtpWidths header seq false l sent.widths;
  versioned = (numbered_fields header seq false).0 ∙ sent.versioned;
  profile = omega (arith, low_bits header.profile_byte sent.profile);
}

-- When packets with the payloads `x ∷ xs` that a packetizer numbers from `seq` on arrive in order, none of
-- them lost, and the numbers do not wrap, the depacketizer that waits for the first of them, with nothing
-- held and no frame ready, takes them all: no call runs on, the frame has the data of the payloads, and
-- it is ready exactly if the last packet has the marker.
pub receive_all-rtp_packets :
    (fuel : ℕ) (xs : List (List ℕ)) (x : List ℕ) (header : RtpHeader) (seq : ℕ) (last : Bool)
    (d : RtpDepacketizer)
    → IsSent header
    → All IsSized (x ∷ xs)
    → seq + length (x ∷ xs) ≤ 2 ^ 16
    → Awaits header seq d
    → (e : RtpDepacketizer) × (receive_all (suc fuel) (rtp_packets header seq last (x ∷ xs)) d
        ≡ some e)
      × (e.m_frame_data
          ≡ (arrive_all seq (x ∷ xs) (begin_at seq (ntohl header.timestamp) d)).m_frame_data)
      × (e.m_has_frame ≡ last)
receive_all-rtp_packets fuel [] x header seq last d sent ((low, high), sizes) fits v =
    let (returns, rest) =
      add_packet-Awaits header seq (omega arith) last x sent d fuel v low high in
    (
      arrived seq last x (begin_at seq (ntohl header.timestamp) d),
      rw returns refl,
      refl,
      or_false last _ (no_frame_yet header seq x d v),
    )
receive_all-rtp_packets fuel (y ∷ ys) x header seq last d sent ((low, high), sizes) fits v =
    let (returns, rest) =
      add_packet-Awaits header seq (omega arith) false x sent d fuel v low high in
    let d' = arrived seq false x (begin_at seq (ntohl header.timestamp) d) in
    let (e, taken, held, ready) =
      receive_all-rtp_packets fuel ys y (numbered header seq false) (u16 (seq + 1)) last d'
        (numbered-IsSent header seq (omega arith) sent) sizes (omega arith)
        (next-Awaits header seq x d v rest) in
    let no_wrap : u16 (seq + 1) ≡ seq + 1 = omega arith in
    (
      e,
      ap
            (after_held (
              receive_all (suc fuel)
                (rtp_packets (numbered header seq false) (u16 (seq + 1)) last (y ∷ ys))))
            returns
          ∙ taken,
      held
          ∙ ap (λ b. (arrive_all (u16 (seq + 1)) (y ∷ ys) b).m_frame_data)
              (begin_at-later (u16 (seq + 1)) (ntohl (numbered header seq false).timestamp) d'
                (later header seq x d v))
          ∙ ap (λ n. (arrive_all n (y ∷ ys) d').m_frame_data) no_wrap,
      ready,
    )
