-- ===== src/Usb/Backward.antt =====
-- linux/src/ydyun_usbctl.py: the fixed prefix of a backward-link message and its bus ID field.
pub mod Busid
use ydyun_vdesktop_linux_dri.Base.{
  ℕ, ◌+◌, ◌-◌, Bool, ◌||◌, not, List, [], ◌∷◌, ltb, ◌==◌, if◌then◌else◌, any, length, take, drop,
  get_or, field_le, elem, Text, Result, ok, err, ◌>>=◌, ◌>>◌, raise_if,
}
use ydyun_vdesktop_linux_dri.Usb.Errors.{
  UsbError, controller, wrong_frame_size, wrong_version, command_not_allowed, busid_not_printable,
  busid_not_ascii, busid_empty,
}
use ydyun_vdesktop_linux_dri.Usb.Names.{validate_busid}

abbrev pub backward_frame_size : ℕ
backward_frame_size = 0x210

abbrev pub busid_offset : ℕ
busid_offset = 0x190

abbrev pub busid_end : ℕ
busid_end = 0x20f

-- BACKWARD_ALLOWED_OPS
abbrev pub backward_allowed_ops : List ℕ
backward_allowed_ops = 1 ∷ 2 ∷ []

unfoldable pub parse_backward_frame : List ℕ → List ℕ → Result UsbError ℕ
parse_backward_frame frame allowed_ops = do
  raise_if (not (length frame == backward_frame_size)) (controller wrong_frame_size)
  raise_if (not (get_or frame 0 0 == 2) || not (get_or frame 1 0 == 2)) (controller wrong_version)
  let command = field_le 8 4 frame
  raise_if (not (elem command allowed_ops)) (controller command_not_allowed)
  ok command

-- `raw.split(b"\x00", 1)[0]`
unfoldable pub before_nul : List ℕ → List ℕ
before_nul [] = []
before_nul (b ∷ bs) = if b == 0 then [] else b ∷ before_nul bs

abbrev pub not_printable : ℕ → Bool
not_printable b = ltb b 0x21 || ltb 0x7e b

-- `bytes.decode("ascii")`: the code points are the bytes, and a byte above 127 raises.
abbrev pub decode_ascii : UsbError → List ℕ → Result UsbError Text
decode_ascii e bytes = if any (λ b. ltb 127 b) bytes then err e else ok bytes

abbrev pub busid_field : List ℕ → List ℕ
busid_field frame = take (busid_end - busid_offset) (drop busid_offset frame)

unfoldable pub backward_frame_busid : List ℕ → Result UsbError Text
unfolding parse_backward_frame
backward_frame_busid frame = do
  command ← parse_backward_frame frame backward_allowed_ops
  let value = before_nul (busid_field frame)
  raise_if (any not_printable value) (controller busid_not_printable)
  busid ← decode_ascii (controller busid_not_ascii) value
  raise_if (length busid == 0) (controller busid_empty)
  validate_busid busid
