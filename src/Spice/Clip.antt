-- ===== src/Spice/Clip.antt =====
-- linux/src/ydyun_spice.py, `_read_clip_metadata`, and the bounds of `struct.unpack_from`.
use ydyun_vdesktop_linux_dri.Base.{
  ℕ, ◌+◌, ◌-◌, ◌*◌, ◌/◌, ◌||◌, List, Option, none, some, ltb, ◌==◌, if◌then◌else◌, length, get_or,
  field_le, Result, ok, ◌>>◌, raise_if,
}
use ydyun_vdesktop_linux_dri.Spice.Errors.{
  SpiceError, protocol, struct_error, index_error, ends_before_clip, clip_ends_before_count,
  clip_exceeds_message,
}
use ydyun_vdesktop_linux_dri.Spice.Frame.{max_frame_size}

-- `struct.unpack_from` raises if `size` bytes from `at` on are not all there.
abbrev pub buffer_holds : List ℕ → ℕ → ℕ → Result SpiceError (Unit {0})
buffer_holds payload at size = raise_if (ltb (length payload) (at + size)) struct_error

pub data ClipType : Type 0 where
  no_clip rects unknown_clip : ClipType

-- The keys `clip_type`, `clip_type_value` and, if it is set, `clip_rect_count`.
pub record Clip : Type 0 where
  pub clip_type : ClipType
  pub clip_type_value : ℕ
  pub clip_rect_count : Option ℕ

abbrev clip_type_of : ℕ → ClipType
clip_type_of v = if v == 0 then no_clip else if v == 1 then rects else unknown_clip

clip_rects : List ℕ → ℕ → ℕ → Result SpiceError (Clip × ℕ)
clip_rects payload offset clip_type = do
  raise_if (ltb (length payload) (offset + 4)) (protocol clip_ends_before_count)
  buffer_holds payload offset 4
  let count = field_le offset 4 payload
  let offset' = offset + 4
  raise_if
      (ltb max_frame_size offset'
        || ltb ((max_frame_size - offset') / 16) count
        || ltb (length payload) (offset' + count * 16))
      (protocol clip_exceeds_message)
  ok (
    record {
      clip_type = clip_type_of clip_type;
      clip_type_value = clip_type;
      clip_rect_count = some count;
    },
    offset' + count * 16,
  )

unfoldable pub read_clip_metadata : List ℕ → ℕ → Result SpiceError (Clip × ℕ)
unfolding clip_rects
read_clip_metadata payload offset = do
  raise_if (ltb (length payload) (offset + 1)) (protocol ends_before_clip)
  raise_if (ltb (length payload) (offset + 1)) index_error
  let clip_type = get_or payload offset 0
  if clip_type == 1
      then clip_rects payload (offset + 1) clip_type
      else ok (
        record {
          clip_type = clip_type_of clip_type;
          clip_type_value = clip_type;
          clip_rect_count = none;
        },
        offset + 1,
      )
