-- ===== src/Spice/Display.antt =====
-- linux/src/ydyun_spice.py: metadata and samples of the display channel's messages.
pub mod Samples
pub mod Clips
use Prim.Native.String.{String}
use ydyun_vdesktop_linux_dri.Base.{
  ℕ, ◌+◌, ◌-◌, ◌*◌, ◌/◌, ◌≡◌, Bool, true, false, ◌||◌, List, [], ◌∷◌, Option, none, some, ltb, ◌==◌,
  if◌then◌else◌, length, take, drop, get_or, field_le, Result, ok, err, ◌>>=◌, ◌>>◌, raise_if,
}
use ydyun_vdesktop_linux_dri.Base.Int.{ℤ, to_i32}
use ydyun_vdesktop_linux_dri.Spice.Errors.{
  SpiceError, protocol, struct_error, index_error, ends_before_clip, clip_ends_before_count,
  clip_exceeds_message, stream_create_short, stream_data_short, stream_destroy_short,
  surface_create_short, sized_stream_data_short, stream_data_exceeds, sized_stream_data_exceeds,
  sample_exceeds,
}
use ydyun_vdesktop_linux_dri.Spice.Frame.{SpiceDataFrame, max_frame_size}
use ydyun_vdesktop_linux_dri.Spice.Names.{codec_name}
use ydyun_vdesktop_linux_dri.Spice.Clip.{buffer_holds, Clip, read_clip_metadata}

pub record Rect : Type 0 where
  pub top : ℤ
  pub left : ℤ
  pub bottom : ℤ
  pub right : ℤ

pub record StreamCreate : Type 0 where
  pub surface_id : ℕ
  pub stream_id : ℕ
  pub flags : ℕ
  pub codec : String
  pub codec_value : ℕ
  pub stamp : ℕ
  pub stream_width : ℕ
  pub stream_height : ℕ
  pub src_width : ℕ
  pub src_height : ℕ
  pub dest : Rect
  pub clip : Clip

pub record StreamData : Type 0 where
  pub stream_id : ℕ
  pub multimedia_time : ℕ
  pub encoded_size : ℕ
  pub sample_offset : ℕ
  pub sample_size : ℕ
  pub trailing_size : ℕ

pub record Surface : Type 0 where
  pub surface_id : ℕ
  pub width : ℕ
  pub height : ℕ
  pub format : ℕ
  pub flags : ℕ

pub record Sized : Type 0 where
  pub sample : StreamData
  pub width : ℕ
  pub height : ℕ
  pub dest : Rect

-- The dictionary that is returned, one constructor for each value of its key `kind`.
pub data DisplayMessage : Type 0 where
  stream_create : StreamCreate → DisplayMessage
  stream_data : StreamData → DisplayMessage
  stream_destroy : ℕ → DisplayMessage
  surface_create : Surface → DisplayMessage
  stream_data_sized : Sized → DisplayMessage

pub read_rect : List ℕ → ℕ → Rect
read_rect payload at = record {
  top = to_i32 (field_le at 4 payload);
  left = to_i32 (field_le (at + 4) 4 payload);
  bottom = to_i32 (field_le (at + 8) 4 payload);
  right = to_i32 (field_le (at + 12) 4 payload);
}

decode_stream_create : List ℕ → Result SpiceError (Option DisplayMessage)
decode_stream_create payload = do
  raise_if (ltb (length payload) 50) (protocol stream_create_short)
  buffer_holds payload 0 8
  buffer_holds payload 8 2
  buffer_holds payload 10 8
  buffer_holds payload 18 16
  buffer_holds payload 34 16
  (clip, _) ← read_clip_metadata payload 50
  ok (
      some (
        stream_create (record {
          surface_id = field_le 0 4 payload;
          stream_id = field_le 4 4 payload;
          flags = field_le 8 1 payload;
          codec = codec_name (field_le 9 1 payload);
          codec_value = field_le 9 1 payload;
          stamp = field_le 10 8 payload;
          stream_width = field_le 18 4 payload;
          stream_height = field_le 22 4 payload;
          src_width = field_le 26 4 payload;
          src_height = field_le 30 4 payload;
          dest = read_rect payload 34;
          clip = clip;
        })))

decode_stream_data : List ℕ → Result SpiceError (Option DisplayMessage)
decode_stream_data payload = do
  raise_if (ltb (length payload) 12) (protocol stream_data_short)
  buffer_holds payload 0 12
  let data_size = field_le 8 4 payload
  let available = length payload - 12
  raise_if (ltb available data_size) (protocol stream_data_exceeds)
  ok (
      some (
        stream_data (record {
          stream_id = field_le 0 4 payload;
          multimedia_time = field_le 4 4 payload;
          encoded_size = data_size;
          sample_offset = 12;
          sample_size = data_size;
          trailing_size = available - data_size;
        })))

decode_stream_destroy : List ℕ → Result SpiceError (Option DisplayMessage)
decode_stream_destroy payload = do
  raise_if (ltb (length payload) 4) (protocol stream_destroy_short)
  buffer_holds payload 0 4
  ok (some (stream_destroy (field_le 0 4 payload)))

decode_surface_create : List ℕ → Result SpiceError (Option DisplayMessage)
decode_surface_create payload = do
  raise_if (ltb (length payload) 20) (protocol surface_create_short)
  buffer_holds payload 0 20
  ok (
      some (
        surface_create (record {
          surface_id = field_le 0 4 payload;
          width = field_le 4 4 payload;
          height = field_le 8 4 payload;
          format = field_le 12 4 payload;
          flags = field_le 16 4 payload;
        })))

decode_sized : List ℕ → Result SpiceError (Option DisplayMessage)
decode_sized payload = do
  raise_if (ltb (length payload) 36) (protocol sized_stream_data_short)
  buffer_holds payload 0 8
  buffer_holds payload 8 8
  buffer_holds payload 16 16
  buffer_holds payload 32 4
  let data_size = field_le 32 4 payload
  let available = length payload - 36
  raise_if (ltb available data_size) (protocol sized_stream_data_exceeds)
  ok (
      some (
        stream_data_sized (record {
          sample = record {
            stream_id = field_le 0 4 payload;
            multimedia_time = field_le 4 4 payload;
            encoded_size = data_size;
            sample_offset = 36;
            sample_size = data_size;
            trailing_size = available - data_size;
          };
          width = field_le 8 4 payload;
          height = field_le 12 4 payload;
          dest = read_rect payload 16;
        })))

unfoldable pub decode_display_message : SpiceDataFrame → Result SpiceError (Option DisplayMessage)
unfolding decode_stream_create decode_stream_data decode_stream_destroy decode_surface_create
    decode_sized
decode_display_message frame =
    if frame.message_type == 122
    then decode_stream_create frame.payload
    else if frame.message_type == 123
    then decode_stream_data frame.payload
    else if frame.message_type == 125
    then decode_stream_destroy frame.payload
    else if frame.message_type == 314
    then decode_surface_create frame.payload
    else if frame.message_type == 316
    then decode_sized frame.payload
    else ok none

-- DISPLAY_SAMPLE_LAYOUTS: the offset of the sample and of its size.
display_sample_layout : ℕ → Option (ℕ × ℕ)
display_sample_layout message_type =
    if message_type == 123
    then some (12, 8)
    else if message_type == 316
    then some (36, 32)
    else none

cut_sample : List ℕ → ℕ × ℕ → Result SpiceError (Option (List ℕ))
cut_sample payload (offset, size_offset) = do
  buffer_holds payload size_offset 4
  let size = field_le size_offset 4 payload
  raise_if (ltb (length payload) (offset + size)) (protocol sample_exceeds)
  ok (some (take size (drop offset payload)))

unfoldable pub extract_display_sample : SpiceDataFrame → Result SpiceError (Option (List ℕ))
unfolding display_sample_layout cut_sample
extract_display_sample frame = elim (display_sample_layout frame.message_type) [
  | none ↦ ok none
  | some layout ↦ cut_sample frame.payload layout
]
