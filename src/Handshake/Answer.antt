-- ===== src/Handshake/Answer.antt =====
-- What an accepted request guarantees, which codec the server chooses, and that the client reads it.
use wireless_vr_bridge.Base.{
  ℕ, ◌≤◌, ◌<◌, ◌≡◌, refl, sym, ap, ap₂, ◌∙◌, arith, ◌⊎◌, inl, inr, true, false, List, [], ◌∷◌, ◌++◌,
  Option, none, some, ◌==◌, length, drop, sub64, Bool-cases, ==_iff,
}
use mathlib.Core.List.{Memᴰ}
use mathlib.Core.List.Memᴰ
use wireless_vr_bridge.Base.Text.{same_text}
use wireless_vr_bridge.Network.{ntohs, ntohll}
use wireless_vr_bridge.Vrcp.{VrcpRejectReason}
use wireless_vr_bridge.Vrcp.Control.{VrcpConnectionRequest}
use wireless_vr_bridge.Handshake.{VrcpServerParams}
use wireless_vr_bridge.Handshake.Fields.{
  RequestFields, no_fields, FieldsRead, fields_read, bad_field, overrun, read_fields,
}
use wireless_vr_bridge.Handshake.Request.{conn_req_at}
use wireless_vr_bridge.Handshake.Judge.{
  accept, judge_request, judge_checked, judge_fields, accept_codec, check_request, choose_codec,
  is_among,
}

same_text-eq : (a b : List ℕ) → same_text a b ≡ true → a ≡ b
same_text-eq [] [] h = refl
same_text-eq [] (y ∷ ys) h = cc
same_text-eq (x ∷ xs) [] h = cc
same_text-eq (x ∷ xs) (y ∷ ys) h = elim (Bool-cases (x == y)) [
  | inl e ↦ ap₂ (λ b bs. b ∷ bs) ((==_iff x y).0 e) (same_text-eq xs ys (rw e at h))
  | inr e ↦ let no : false ≡ true = rw e at h in cc
]

is_among-Mem :
    (codec : List ℕ) (codecs : List (List ℕ)) → is_among codec codecs ≡ true → Memᴰ codec codecs
is_among-Mem codec [] h = cc
is_among-Mem codec (c ∷ cs) h = elim (Bool-cases (same_text c codec)) [
  | inl e ↦ Memᴰ.head (sym (same_text-eq c codec e))
  | inr e ↦ Memᴰ.tail (is_among-Mem codec cs (rw e at h))
]

same_text_self : (a : List ℕ) → same_text a a ≡ true
same_text_self [] = refl
same_text_self (x ∷ xs) = rw ((==_iff x x).1 refl) (same_text_self xs)

Mem-is_among :
    (codec : List ℕ) (codecs : List (List ℕ)) → Memᴰ codec codecs → is_among codec codecs ≡ true
Mem-is_among codec [] m = absurd (Memᴰ.not-nil m)
Mem-is_among codec (c ∷ cs) (Memᴰ.head e) =
    let same : same_text c codec ≡ true = rw e (same_text_self c) in rw same refl
Mem-is_among codec (c ∷ cs) (Memᴰ.tail m) = elim (Bool-cases (same_text c codec)) [
  | inl e ↦ rw e refl
  | inr e ↦ rw e (Mem-is_among codec cs m)
]

-- The first of the server's codecs that the client has too.
pub record IsFirstCommon (servers clients : List (List ℕ)) (codec : List ℕ) : Type 0 where
  pub before : List (List ℕ)
  pub after : List (List ℕ)
  pub preferences : servers ≡ before ++ codec ∷ after
  pub supported : Memᴰ codec clients
  pub none_before : (c : List ℕ) → Memᴰ c before → ¬ Memᴰ c clients

pub choose_codec-cases :
    (servers clients : List (List ℕ))
    → IsFirstCommon servers clients (choose_codec servers clients)
      ⊎ (choose_codec servers clients ≡ []) × ((c : List ℕ) → Memᴰ c servers → ¬ Memᴰ c clients)
unfolding choose_codec
choose_codec-cases [] clients = inr (refl, λ c m. absurd (Memᴰ.not-nil m))
choose_codec-cases (codec ∷ codecs) clients = elim (Bool-cases (is_among codec clients)) [
  | inl e ↦ rw e (
      inl (record {
        before = [];
        after = codecs;
        preferences = refl;
        supported = is_among-Mem codec clients e;
        none_before = λ c m. absurd (Memᴰ.not-nil m);
      }))
  | inr e ↦ rw e (elim (choose_codec-cases codecs clients) [
    | inl first ↦ inl (record {
      before = codec ∷ first.before;
      after = first.after;
      preferences = ap (λ t. codec ∷ t) first.preferences;
      supported = first.supported;
      none_before = not_yet codec clients first.before e first.none_before;
    })
    | inr nothing ↦ inr (nothing.0, not_yet codec clients codecs e nothing.1)
  ])
]
  where
    not_yet :
        (codec : List ℕ) (clients before : List (List ℕ))
        → is_among codec clients ≡ false
        → ((c : List ℕ) → Memᴰ c before → ¬ Memᴰ c clients)
        → (c : List ℕ) → Memᴰ c (codec ∷ before)
        → ¬ Memᴰ c clients
    not_yet codec clients before e h c m m' = elim (Memᴰ.cases_cons m) [
      | inl same ↦
          let yes : is_among codec clients ≡ true = rw same at (Mem-is_among c clients m') in cc
      | inr later ↦ h c later m'
    ]

-- What every accepted request satisfies.
pub record IsCompatible (r : VrcpConnectionRequest) : Type 0 where
  pub version : r.version ≡ 1
  pub video_mode : r.video_mode ≡ 1
  pub udp_vrcp_port : 0 < ntohs r.udp_vrcp_port
  pub video_port : 0 < ntohs r.video_port
  pub eye_width : ntohs r.eye_width ≤ 4000
  pub eye_height : ntohs r.eye_height ≤ 4000
  pub numerator : 0 < ntohs r.refresh_rate_numerator
  pub denominator : 0 < ntohs r.refresh_rate_denominator
  pub ntp_timestamp : 2208988800 ≤ ntohll r.ntp_timestamp

check_request-none : (r : VrcpConnectionRequest) → check_request r ≡ none → IsCompatible r
unfolding check_request
check_request-none r h = record {
  version = ground (arith, h);
  video_mode = ground (arith, h);
  udp_vrcp_port = ground (arith, h);
  video_port = ground (arith, h);
  eye_width = ground (arith, h);
  eye_height = ground (arith, h);
  numerator = ground (arith, h);
  denominator = ground (arith, h);
  ntp_timestamp = ground (arith, h);
}

-- All that the server knows when it accepts.
pub record Accepted (server : VrcpServerParams) (memory : List ℕ) (size : ℕ) (f : RequestFields)
    (codec : List ℕ) : Type 0 where
  pub compatible : IsCompatible (conn_req_at memory)
  pub fields :
      read_fields (length (drop 40 memory)) (drop 40 memory) (sub64 size 40) no_fields
      ≡ fields_read f
  pub common : IsFirstCommon server.supported_video_codecs f.supported_video_codecs codec
  pub has_name : 0 < length codec

pub accept_codec-accept :
    (g f : RequestFields) (chosen codec : List ℕ)
    → accept_codec g chosen ≡ accept f codec
    → (g ≡ f) × (chosen ≡ codec) × (0 < length codec)
accept_codec-accept g f [] codec h = cc
accept_codec-accept g f (c ∷ cs) codec h =
    let same : c ∷ cs ≡ codec = cc in let size = ap length same in (cc, same, omega (arith, size))

judge_fields-accept :
    (server : VrcpServerParams) (memory : List ℕ) (size : ℕ) (f : RequestFields) (codec : List ℕ)
    → IsCompatible (conn_req_at memory)
    → (read : FieldsRead)
    → read_fields (length (drop 40 memory)) (drop 40 memory) (sub64 size 40) no_fields ≡ read
    → judge_fields server read ≡ accept f codec
    → Accepted server memory size f codec
judge_fields-accept server memory size f codec c (bad_field because) e h = cc
judge_fields-accept server memory size f codec c overrun e h = cc
judge_fields-accept server memory size f codec c (fields_read g) e h =
    let chosen = choose_codec server.supported_video_codecs g.supported_video_codecs in
    let a = accept_codec-accept g f chosen codec h in
    elim (choose_codec-cases server.supported_video_codecs g.supported_video_codecs) [
      | inl first ↦ record {
        compatible = c;
        fields = e ∙ ap fields_read a.0;
        common = rw (sym a.0, sym a.1) first;
        has_name = a.2;
      }
      | inr nothing ↦
          let empty : [] ≡ codec = sym nothing.0 ∙ a.1 in
          let size_0 = ap length empty in absurd (omega (arith, a.2, size_0))
    ]

judge_checked-accept :
    (server : VrcpServerParams) (memory : List ℕ) (size : ℕ) (f : RequestFields) (codec : List ℕ)
    → (refusal : Option (VrcpRejectReason × ℕ)) → check_request (conn_req_at memory) ≡ refusal
    → judge_checked server memory size refusal ≡ accept f codec
    → Accepted server memory size f codec
judge_checked-accept server memory size f codec (some (because, err_data)) e h = cc
judge_checked-accept server memory size f codec none e h =
    judge_fields-accept server memory size f codec (check_request-none (conn_req_at memory) e)
      (read_fields (length (drop 40 memory)) (drop 40 memory) (sub64 size 40) no_fields) refl h

-- A request is accepted, whatever the memory holds, only if its version and its video mode are the
-- server's, both ports and both parts of the refresh rate are positive, an eye has at most 4000 pixels
-- a side and the time stamp is not before 1970; the names and codecs that the caller is given are those
-- of the packet's fields, and the codec is not empty and the first of the server's list that is among
-- them.
pub judge_request-Accepted :
    (server : VrcpServerParams) (memory : List ℕ) (size : ℕ) (f : RequestFields) (codec : List ℕ)
    → judge_request server memory size ≡ accept f codec
    → Accepted server memory size f codec
unfolding judge_request
judge_request-Accepted server memory size f codec h =
    judge_checked-accept server memory size f codec (check_request (conn_req_at memory)) refl h
