-- ===== src/Spice/Inputs.antt =====
-- linux/src/ydyun_spice.py: the messages of the inputs channel, decoded and encoded.
pub mod RoundTrip
use ydyun_vdesktop_linux_dri.Base.{
  ℕ, ◌+◌, ◌-◌, ◌^◌, ◌≡◌, Bool, true, false, ◌&&◌, ◌||◌, not, List, [], ◌∷◌, ◌++◌, Option, none,
  some, ltb, leb, ◌==◌, if◌then◌else◌, length, field_le, pack_le, Result, ok, err, ◌>>=◌, ◌>>◌,
  raise_if,
}
use ydyun_vdesktop_linux_dri.Base.Int.{ℤ, pos, negsuc, leb_ℤ, pos_part, to_i32, of_i32}
use ydyun_vdesktop_linux_dri.Spice.Errors.{
  SpiceError, protocol, struct_error, key_short, scancode_empty, scancode_too_long, modifiers_short,
  mouse_motion_short, mouse_position_short, mouse_button_short, requires_fields,
  not_an_integer_in_range, scancodes_length, unsupported_message_type, serial_out_of_range,
  sub_list_out_of_range,
}
use ydyun_vdesktop_linux_dri.Spice.Frame.{SpiceDataFrame, pack_mini_header, pack_data_header}
use ydyun_vdesktop_linux_dri.Spice.Clip.{buffer_holds}

abbrev pub inputs_scancode_max : ℕ
inputs_scancode_max = 2048

-- The dictionary that the decoder returns, one constructor for each value of its key `kind`.
pub data InputsMessage : Type 0 where
  key_down key_up : ℕ → InputsMessage
  key_modifiers : ℕ → InputsMessage
  key_scancode : List ℕ → InputsMessage
  mouse_motion : ℤ → ℤ → ℕ → InputsMessage
  mouse_position : ℕ → ℕ → ℕ → ℕ → InputsMessage
  mouse_press mouse_release : ℕ → ℕ → InputsMessage

-- INPUTS_MESSAGE_NAMES has a name for these numbers.
abbrev pub has_name : ℕ → Bool
has_name t =
    t == 101 || t == 102 || t == 103 || t == 104 || t == 111 || t == 112 || t == 113 || t == 114

decode_key : (ℕ → InputsMessage) → List ℕ → Result SpiceError (Option InputsMessage)
decode_key kind payload = do
  raise_if (ltb (length payload) 4) (protocol key_short)
  buffer_holds payload 0 4
  ok (some (kind (field_le 0 4 payload)))

decode_scancode : List ℕ → Result SpiceError (Option InputsMessage)
decode_scancode payload = do
  raise_if (length payload == 0) (protocol scancode_empty)
  raise_if (ltb inputs_scancode_max (length payload)) (protocol scancode_too_long)
  ok (some (key_scancode payload))

decode_modifiers : List ℕ → Result SpiceError (Option InputsMessage)
decode_modifiers payload = do
  raise_if (ltb (length payload) 2) (protocol modifiers_short)
  buffer_holds payload 0 2
  ok (some (key_modifiers (field_le 0 2 payload)))

decode_motion : List ℕ → Result SpiceError (Option InputsMessage)
decode_motion payload = do
  raise_if (ltb (length payload) 10) (protocol mouse_motion_short)
  buffer_holds payload 0 10
  ok (
      some (
        mouse_motion (to_i32 (field_le 0 4 payload)) (to_i32 (field_le 4 4 payload))
          (field_le 8 2 payload)))

decode_position : List ℕ → Result SpiceError (Option InputsMessage)
decode_position payload = do
  raise_if (ltb (length payload) 11) (protocol mouse_position_short)
  buffer_holds payload 0 11
  ok (
      some (
        mouse_position (field_le 0 4 payload) (field_le 4 4 payload) (field_le 8 2 payload)
          (field_le 10 1 payload)))

decode_button : (ℕ → ℕ → InputsMessage) → List ℕ → Result SpiceError (Option InputsMessage)
decode_button kind payload = do
  raise_if (ltb (length payload) 3) (protocol mouse_button_short)
  buffer_holds payload 0 3
  ok (some (kind (field_le 0 1 payload) (field_le 1 2 payload)))

pub decode_inputs_message : SpiceDataFrame → Result SpiceError (Option InputsMessage)
unfolding decode_key decode_scancode decode_modifiers decode_motion decode_position decode_button
decode_inputs_message frame =
    if not (has_name frame.message_type)
    then ok none
    else if frame.message_type == 101
    then decode_key key_down frame.payload
    else if frame.message_type == 102
    then decode_key key_up frame.payload
    else if frame.message_type == 104
    then decode_scancode frame.payload
    else if frame.message_type == 103
    then decode_modifiers frame.payload
    else if frame.message_type == 111
    then decode_motion frame.payload
    else if frame.message_type == 112
    then decode_position frame.payload
    else if frame.message_type == 113
    then decode_button mouse_press frame.payload
    else if frame.message_type == 114
    then decode_button mouse_release frame.payload
    else ok none

-- A Python object in the place of an integer.
pub data Value : Type 0 where
  int : ℤ → Value
  bool : Bool → Value
  other : Value

pub checked_input_int : Value → ℤ → ℤ → Result SpiceError ℤ
checked_input_int (int z) lower upper =
    if leb_ℤ lower z && leb_ℤ z upper then ok z else err (protocol not_an_integer_in_range)
checked_input_int (bool b) lower upper = err (protocol not_an_integer_in_range)
checked_input_int other lower upper = err (protocol not_an_integer_in_range)

-- The keyword arguments of `encode_inputs_message`; `none` is None.
pub record InputArgs : Type 0 where
  pub code : Option Value
  pub modifiers : Option Value
  pub scancodes : Option (List ℕ)
  pub dx : Option Value
  pub dy : Option Value
  pub buttons_state : Option Value
  pub x : Option Value
  pub y : Option Value
  pub display_id : Option Value
  pub button : Option Value

pub record FrameArgs : Type 0 where
  pub serial : ℤ
  pub sub_list : ℤ
  pub mini_header : Bool

-- `if argument is None: raise`
abbrev pub required : {A : Type 0} → ℕ → Option A → Result SpiceError A
required t none = err (protocol (requires_fields t))
required t (some a) = ok a

abbrev u_max : ℕ → ℤ
u_max bytes = pos (256 ^ bytes - 1)

abbrev i32_min : ℤ
i32_min = negsuc (2 ^ 31 - 1)

abbrev i32_max : ℤ
i32_max = pos (2 ^ 31 - 1)

encode_key : ℕ → InputArgs → Result SpiceError (List ℕ)
encode_key t a = do
  code ← required t a.code
  n ← checked_input_int code (pos 0) (u_max 4)
  ok (pack_le 4 (pos_part n))

encode_modifiers : InputArgs → Result SpiceError (List ℕ)
encode_modifiers a = do
  modifiers ← required 103 a.modifiers
  n ← checked_input_int modifiers (pos 0) (u_max 2)
  ok (pack_le 2 (pos_part n))

encode_scancode : InputArgs → Result SpiceError (List ℕ)
encode_scancode a = do
  payload ← required 104 a.scancodes
  raise_if (length payload == 0 || ltb inputs_scancode_max (length payload))
      (protocol scancodes_length)
  ok payload

encode_motion : InputArgs → Result SpiceError (List ℕ)
encode_motion a = do
  dx ← required 111 a.dx
  dy ← required 111 a.dy
  state ← required 111 a.buttons_state
  x ← checked_input_int dx i32_min i32_max
  y ← checked_input_int dy i32_min i32_max
  s ← checked_input_int state (pos 0) (u_max 2)
  ok (pack_le 4 (of_i32 x) ++ pack_le 4 (of_i32 y) ++ pack_le 2 (pos_part s))

encode_position : InputArgs → Result SpiceError (List ℕ)
encode_position a = do
  ax ← required 112 a.x
  ay ← required 112 a.y
  state ← required 112 a.buttons_state
  display ← required 112 a.display_id
  x ← checked_input_int ax (pos 0) (u_max 4)
  y ← checked_input_int ay (pos 0) (u_max 4)
  s ← checked_input_int state (pos 0) (u_max 2)
  d ← checked_input_int display (pos 0) (u_max 1)
  ok (
      pack_le 4 (pos_part x)
      ++ pack_le 4 (pos_part y)
      ++ pack_le 2 (pos_part s)
      ++ pack_le 1 (pos_part d))

encode_button : ℕ → InputArgs → Result SpiceError (List ℕ)
encode_button t a = do
  button ← required t a.button
  state ← required t a.buttons_state
  b ← checked_input_int button (pos 0) (u_max 1)
  s ← checked_input_int state (pos 0) (u_max 2)
  ok (pack_le 1 (pos_part b) ++ pack_le 2 (pos_part s))

pub inputs_payload : ℕ → InputArgs → Result SpiceError (List ℕ)
unfolding encode_key encode_modifiers encode_scancode encode_motion encode_position encode_button
inputs_payload t a =
    if t == 101 || t == 102
    then encode_key t a
    else if t == 103
    then encode_modifiers a
    else if t == 104
    then encode_scancode a
    else if t == 111
    then encode_motion a
    else if t == 112
    then encode_position a
    else if t == 113 || t == 114
    then encode_button t a
    else err (protocol (unsupported_message_type t))

-- The data frame around the payload.
inputs_frame : ℕ → FrameArgs → List ℕ → Result SpiceError (List ℕ)
inputs_frame t f payload =
    if f.mini_header then ok (pack_mini_header t (length payload) ++ payload) else do
      raise_if (not (leb_ℤ (pos 0) f.serial && leb_ℤ f.serial (u_max 8)))
          (protocol serial_out_of_range)
      raise_if (not (leb_ℤ (pos 0) f.sub_list && leb_ℤ f.sub_list (u_max 4)))
          (protocol sub_list_out_of_range)
      ok (pack_data_header (pos_part f.serial) t (length payload) (pos_part f.sub_list) ++ payload)

pub encode_inputs_message : ℕ → FrameArgs → InputArgs → Result SpiceError (List ℕ)
unfolding inputs_payload inputs_frame
encode_inputs_message t f a = do payload ← inputs_payload t a; inputs_frame t f payload
