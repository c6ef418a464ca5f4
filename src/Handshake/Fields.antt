-- ===== src/Handshake/Fields.antt =====
-- common/src/vrcp_socket.cpp: the additional fields of a packet, as the sender lays them out and as
-- `listen_for_conn_req` and `listen_for_conn_resp` read them. A field is its type, its length and its
-- value.
use wireless_vr_bridge.Base.{
  ℕ, zero, suc, ◌+◌, List, [], ◌∷◌, ◌++◌, if◌then◌else◌, ltb, leb, ◌==◌, ◌||◌, ◌&&◌, length, take,
  drop, u8, sub64,
}
use wireless_vr_bridge.Vrcp.{
  VrcpRejectReason, to_u8, manufacturer_name_tlv, system_name_tlv, supported_video_codecs_tlv,
  chosen_video_codec_tlv, invalid_manufacturer_name, invalid_system_name, invalid_video_codecs,
}

-- A field as it is written: the length has one byte.
abbrev pub additional_field : ℕ → List ℕ → List ℕ
additional_field type value = type ∷ u8 (length value) ∷ value

-- The names and codecs of the client that asks, as far as they have been read.
pub record RequestFields : Type 0 where
  pub manufacturer_name : List ℕ
  pub system_name : List ℕ
  pub supported_video_codecs : List (List ℕ)

abbrev pub no_fields : RequestFields
no_fields = record { manufacturer_name = []; system_name = []; supported_video_codecs = [] }

-- `overrun`: the code reads past the end of the memory that is given.
pub data FieldsRead : Type 0 where
  fields_read : RequestFields → FieldsRead
  bad_field : VrcpRejectReason → FieldsRead
  overrun : FieldsRead

abbrev pub to_front : ℕ → List (List ℕ) → List (List ℕ)
to_front c [] = (c ∷ []) ∷ []
to_front c (text ∷ texts) = (c ∷ text) ∷ texts

-- Nothing is added for what follows a comma at the end.
abbrev pub split_by_comma : List ℕ → List (List ℕ)
split_by_comma [] = []
split_by_comma (c ∷ cs) =
    if c == b',' then [] ∷ split_by_comma cs else to_front c (split_by_comma cs)

-- A text field: `value` is the memory from the value on.
abbrev pub read_text : VrcpRejectReason → (List ℕ → RequestFields) → ℕ → ℕ → List ℕ → FieldsRead
read_text reason store len remaining_size value =
    if (len == 0) || ltb remaining_size (len + 2)
    then bad_field reason
    else (if ltb (length value) len then overrun else fields_read (store (take len value)))

-- One field: the rest of the loop's body before it moves on. An unknown field is ignored.
unfoldable pub read_field : ℕ → ℕ → ℕ → List ℕ → RequestFields → FieldsRead
read_field type len remaining_size value f =
    if type == to_u8 manufacturer_name_tlv
    then read_text invalid_manufacturer_name (λ text. record f { manufacturer_name = text }) len
        remaining_size value
    else if type == to_u8 system_name_tlv
    then read_text invalid_system_name (λ text. record f { system_name = text }) len remaining_size
        value
    else if type == to_u8 supported_video_codecs_tlv
    then read_text invalid_video_codecs
        (λ text. record f {
          supported_video_codecs = f.supported_video_codecs ++ split_by_comma text;
        })
        len remaining_size value
    else fields_read f

abbrev pub after_field : (RequestFields → FieldsRead) → FieldsRead → FieldsRead
after_field next (fields_read f) = next f
after_field next (bad_field reason) = bad_field reason
after_field next overrun = overrun

-- The loop over the fields. `memory` is what stands from the next field on, which may hold more than the
-- packet. Each field takes two bytes or more of it, so its length is enough fuel.
unfoldable pub read_fields : ℕ → List ℕ → ℕ → RequestFields → FieldsRead
unfolding read_field
read_fields zero memory remaining_size f = if ltb remaining_size 2 then fields_read f else overrun
read_fields (suc fuel) [] remaining_size f = if ltb remaining_size 2 then fields_read f else overrun
read_fields (suc fuel) (type ∷ []) remaining_size f =
    if ltb remaining_size 2 then fields_read f else overrun
read_fields (suc fuel) (type ∷ len ∷ value) remaining_size f =
    let next = read_fields fuel (drop len value) (sub64 remaining_size (len + 2)) in
    if ltb remaining_size 2
    then fields_read f
    else after_field next (read_field type len remaining_size value f)

-- The loop of `listen_for_conn_resp`, on the fields of a CONN_ACCEPT: `remaining_size` is the length of
-- the list. The empty text is no codec.
unfoldable pub find_chosen_codec : ℕ → List ℕ → List ℕ
find_chosen_codec zero fields = []
find_chosen_codec (suc fuel) [] = []
find_chosen_codec (suc fuel) (type ∷ []) = []
find_chosen_codec (suc fuel) (type ∷ len ∷ value) =
    let next = find_chosen_codec fuel (drop len value) in
    if (type == to_u8 chosen_video_codec_tlv) && leb len (length value)
    then take len value
    else (if ltb (length value) len then [] else next)
