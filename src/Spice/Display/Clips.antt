-- ===== src/Spice/Display/Clips.antt =====
-- Stream-create messages: the bounds of a clip list, and the fields read back from packed bytes.
use ydyun_vdesktop_linux_dri.Base.{
  ℕ, ◌+◌, ◌*◌, ◌^◌, ◌≤◌, ◌<◌, ◌≡◌, List, [], ◌∷◌, ◌++◌, none, some, arith, length, pack_le,
  unpack_le, unpack_le-pack_le, ap, sym, ◌∙◌, ok,
}
use ydyun_vdesktop_linux_dri.Base.Int.{of_i32, IsI32, to_i32-unpack_le}
use ydyun_vdesktop_linux_dri.Spice.Frame.{SpiceDataFrame}
use ydyun_vdesktop_linux_dri.Spice.Names.{codec_name}
use ydyun_vdesktop_linux_dri.Spice.Clip.{Clip, no_clip, read_clip_metadata}
use ydyun_vdesktop_linux_dri.Spice.Display.{
  StreamCreate, stream_create, read_rect, decode_stream_create, decode_display_message,
}

-- An accepted clip lies inside the message: the position behind it is the offset, the type byte and,
-- for a rectangle list, the count and 16 bytes for each rectangle, and is not past the end.
pub read_clip_bounds :
    (payload : List ℕ) (offset : ℕ) (clip : Clip) (next : ℕ)
    → read_clip_metadata payload offset ≡ ok (clip, next)
    → (next ≤ length payload)
      × ((count : ℕ) → clip.clip_rect_count ≡ some count → next ≡ offset + 5 + count * 16)
unfolding read_clip_metadata
read_clip_bounds payload offset clip next e = (ground arith, λ count c. ground arith)

-- The payload of a stream-create message with no clip, in the layout "<IIBBQIIIIiiiiB".
abbrev pub pack_stream_create : StreamCreate → List ℕ
pack_stream_create s =
    pack_le 4 s.surface_id
    ++ pack_le 4 s.stream_id
    ++ pack_le 1 s.flags
    ++ pack_le 1 s.codec_value
    ++ pack_le 8 s.stamp
    ++ pack_le 4 s.stream_width
    ++ pack_le 4 s.stream_height
    ++ pack_le 4 s.src_width
    ++ pack_le 4 s.src_height
    ++ pack_le 4 (of_i32 s.dest.top)
    ++ pack_le 4 (of_i32 s.dest.left)
    ++ pack_le 4 (of_i32 s.dest.bottom)
    ++ pack_le 4 (of_i32 s.dest.right)
    ++ 0 ∷ []

pub record IsStreamCreate (s : StreamCreate) : Type 0 where
  pub surface_fits : s.surface_id < 2 ^ 32
  pub stream_fits : s.stream_id < 2 ^ 32
  pub flags_fit : s.flags < 256
  pub codec_fits : s.codec_value < 256
  pub codec_named : s.codec ≡ codec_name s.codec_value
  pub stamp_fits : s.stamp < 2 ^ 64
  pub stream_width_fits : s.stream_width < 2 ^ 32
  pub stream_height_fits : s.stream_height < 2 ^ 32
  pub src_width_fits : s.src_width < 2 ^ 32
  pub src_height_fits : s.src_height < 2 ^ 32
  pub top_fits : IsI32 s.dest.top
  pub left_fits : IsI32 s.dest.left
  pub bottom_fits : IsI32 s.dest.bottom
  pub right_fits : IsI32 s.dest.right
  pub unclipped :
      s.clip ≡ record { clip_type = no_clip; clip_type_value = 0; clip_rect_count = none }

decode-pack_created :
    (s : StreamCreate)
    → IsStreamCreate s
    → decode_stream_create (pack_stream_create s) ≡ ok (some (stream_create s))
unfolding decode_stream_create read_clip_metadata read_rect
decode-pack_created s v = λ i. ok (
    some (
      stream_create (record {
        surface_id = unpack_le-pack_le 4 s.surface_id v.surface_fits i;
        stream_id = unpack_le-pack_le 4 s.stream_id v.stream_fits i;
        flags = unpack_le-pack_le 1 s.flags v.flags_fit i;
        codec = named i;
        codec_value = unpack_le-pack_le 1 s.codec_value v.codec_fits i;
        stamp = unpack_le-pack_le 8 s.stamp v.stamp_fits i;
        stream_width = unpack_le-pack_le 4 s.stream_width v.stream_width_fits i;
        stream_height = unpack_le-pack_le 4 s.stream_height v.stream_height_fits i;
        src_width = unpack_le-pack_le 4 s.src_width v.src_width_fits i;
        src_height = unpack_le-pack_le 4 s.src_height v.src_height_fits i;
        dest = record {
          top = to_i32-unpack_le s.dest.top v.top_fits i;
          left = to_i32-unpack_le s.dest.left v.left_fits i;
          bottom = to_i32-unpack_le s.dest.bottom v.bottom_fits i;
          right = to_i32-unpack_le s.dest.right v.right_fits i;
        };
        clip = sym v.unclipped i;
      })))
  where
    named : codec_name (unpack_le (pack_le 1 s.codec_value)) ≡ s.codec
    named = ap codec_name (unpack_le-pack_le 1 s.codec_value v.codec_fits) ∙ sym v.codec_named

-- A stream-create message that a server packs with no clip from fields in range is decoded to
-- these fields, with the codec's name for its number, whatever the frame's other fields.
pub decode-pack_stream_create :
    (frame : SpiceDataFrame) (s : StreamCreate)
    → IsStreamCreate s
    → frame.message_type ≡ 122
    → frame.payload ≡ pack_stream_create s
    → decode_display_message frame ≡ ok (some (stream_create s))
unfolding decode_display_message
decode-pack_stream_create frame s v t e = rw (t, e) (decode-pack_created s v)
