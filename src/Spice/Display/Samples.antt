-- ===== src/Spice/Display/Samples.antt =====
-- The decoder of display messages against the sample extractor, and its bounds checks.
use ydyun_vdesktop_linux_dri.Base.{
  ℕ, ◌+◌, ◌-◌, ◌≤◌, ◌<◌, ◌≡◌, refl, List, Option, none, some, arith, ltb, length, take, drop,
  field_le, Result, ok, err, length-take, length-drop, Bool-cases, inl, inr, subst,
}
use ydyun_vdesktop_linux_dri.Spice.Errors.{
  SpiceError, protocol, struct_error, index_error, need_more_data,
}
use ydyun_vdesktop_linux_dri.Spice.Frame.{SpiceDataFrame}
use ydyun_vdesktop_linux_dri.Spice.Clip.{read_clip_metadata}
use ydyun_vdesktop_linux_dri.Spice.Display.{
  DisplayMessage, StreamData, stream_create, stream_data, stream_destroy, surface_create,
  stream_data_sized, decode_stream_create, decode_stream_data, decode_stream_destroy,
  decode_surface_create, decode_sized, decode_display_message, extract_display_sample, cut_sample,
  display_sample_layout,
}

-- The sample that a decoded message announces.
abbrev pub announced : DisplayMessage → Option StreamData
announced (stream_create c) = none
announced (stream_data d) = some d
announced (stream_destroy s) = none
announced (surface_create s) = none
announced (stream_data_sized s) = some s.sample

-- What an announcement promises of the payload, and what the extractor then returns.
abbrev pub Matches : List ℕ → Result SpiceError (Option (List ℕ)) → StreamData → Type 0
Matches payload extracted d =
    (extracted ≡ ok (some (take d.sample_size (drop d.sample_offset payload))))
    × (length (take d.sample_size (drop d.sample_offset payload)) ≡ d.encoded_size)
    × (d.sample_size ≡ d.encoded_size)
    × (d.sample_offset + d.sample_size + d.trailing_size ≡ length payload)

module _ (payload : List ℕ) (m : DisplayMessage) where
  announces_nothing_created : decode_stream_create payload ≡ ok (some m) → announced m ≡ none
  unfolding decode_stream_create
  announces_nothing_created e = ground arith

  announces_nothing_destroyed : decode_stream_destroy payload ≡ ok (some m) → announced m ≡ none
  unfolding decode_stream_destroy
  announces_nothing_destroyed e = ground arith

  announces_nothing_surface : decode_surface_create payload ≡ ok (some m) → announced m ≡ none
  unfolding decode_surface_create
  announces_nothing_surface e = ground arith

  stream_data-Matches :
      (d : StreamData)
      → decode_stream_data payload ≡ ok (some m)
      → announced m ≡ some d
      → Matches payload (cut_sample payload (12, 8)) d
  unfolding decode_stream_data cut_sample
  stream_data-Matches d e a =
      let size = field_le 8 4 payload in
      ground (arith, length-take size (drop 12 payload), length-drop 12 payload)

  abbrev sized_sample : StreamData
  sized_sample = record {
    stream_id = field_le 0 4 payload;
    multimedia_time = field_le 4 4 payload;
    encoded_size = field_le 32 4 payload;
    sample_offset = 36;
    sample_size = field_le 32 4 payload;
    trailing_size = length payload - 36 - field_le 32 4 payload;
  }

  decode_sized_fits :
      decode_sized payload ≡ ok (some m)
      → (36 + field_le 32 4 payload ≤ length payload) × (announced m ≡ some sized_sample)
  unfolding decode_sized
  decode_sized_fits e = elim (Bool-cases (ltb (length payload) 36)) [
    | inl short ↦ cc (rw (short, decode_sized) at e)
    | inr long ↦ elim (Bool-cases (ltb (length payload - 36) (field_le 32 4 payload))) [
      | inl over ↦ ground arith
      | inr fits ↦ (ground arith, ground arith)
    ]
  ]

  sized-Matches :
      (d : StreamData)
      → decode_sized payload ≡ ok (some m)
      → announced m ≡ some d
      → Matches payload (cut_sample payload (36, 32)) d
  unfolding cut_sample
  sized-Matches d e a =
      let size = field_le 32 4 payload in
      let (fits, same) = decode_sized_fits e in
      let is_d : sized_sample ≡ d = cc same in
      subst (Matches payload (cut_sample payload (36, 32))) is_d (
        ground arith,
        omega (arith, length-take size (drop 36 payload), length-drop 36 payload),
        refl,
        omega arith,
      )

-- Where the decoder announces a sample, the extractor returns it: the bytes of the payload from the
-- announced offset on, as many as announced; and header, sample and trailing bytes add up to the
-- payload.
pub extract-decode :
    (frame : SpiceDataFrame) (m : DisplayMessage) (d : StreamData)
    → decode_display_message frame ≡ ok (some m)
    → announced m ≡ some d
    → Matches frame.payload (extract_display_sample frame) d
unfolding decode_display_message extract_display_sample display_sample_layout
extract-decode frame m d e a = ground (
  arith,
  announces_nothing_created frame.payload m,
  announces_nothing_destroyed frame.payload m,
  announces_nothing_surface frame.payload m,
  stream_data-Matches frame.payload m d,
  sized-Matches frame.payload m d,
)

-- The exceptions that a caller sees are of the class SpiceProtocolError: no read goes past the end
-- of the payload.
abbrev pub IsProtocol : {A : Type 0} → Result SpiceError A → Type 0
IsProtocol (ok a) = Unit {0}
IsProtocol (err (protocol r)) = Unit {0}
IsProtocol (err need_more_data) = ⊥
IsProtocol (err struct_error) = ⊥
IsProtocol (err index_error) = ⊥

read_clip-IsProtocol :
    (payload : List ℕ) (offset : ℕ) → IsProtocol (read_clip_metadata payload offset)
unfolding read_clip_metadata
read_clip-IsProtocol payload offset = ground arith

created-IsProtocol : (payload : List ℕ) → IsProtocol (decode_stream_create payload)
unfolding decode_stream_create
created-IsProtocol payload = elim (Bool-cases (ltb (length payload) 50)) [
  | inl short ↦ rw (short, decode_stream_create) tt
  | inr long ↦ ground (arith, read_clip-IsProtocol payload 50)
]

data-IsProtocol : (payload : List ℕ) → IsProtocol (decode_stream_data payload)
unfolding decode_stream_data
data-IsProtocol payload = ground arith

destroy-IsProtocol : (payload : List ℕ) → IsProtocol (decode_stream_destroy payload)
unfolding decode_stream_destroy
destroy-IsProtocol payload = ground arith

surface-IsProtocol : (payload : List ℕ) → IsProtocol (decode_surface_create payload)
unfolding decode_surface_create
surface-IsProtocol payload = ground arith

sized-IsProtocol : (payload : List ℕ) → IsProtocol (decode_sized payload)
unfolding decode_sized
sized-IsProtocol payload = ground arith

-- On every frame, of any type and with any payload, the decoder returns or raises SpiceProtocolError:
-- no field is read past the end of the payload.
pub decode_display_message-IsProtocol :
    (frame : SpiceDataFrame) → IsProtocol (decode_display_message frame)
unfolding decode_display_message
decode_display_message-IsProtocol frame = ground (
  arith,
  created-IsProtocol frame.payload,
  data-IsProtocol frame.payload,
  destroy-IsProtocol frame.payload,
  surface-IsProtocol frame.payload,
  sized-IsProtocol frame.payload,
)

-- The extractor does not check the fixed header: a frame of type 123 with fewer than 12 payload
-- bytes makes `struct.unpack_from` raise.
pub extract_short :
    (frame : SpiceDataFrame)
    → frame.message_type ≡ 123
    → length frame.payload < 12
    → extract_display_sample frame ≡ err struct_error
unfolding extract_display_sample display_sample_layout cut_sample
extract_short frame t h = ground arith
