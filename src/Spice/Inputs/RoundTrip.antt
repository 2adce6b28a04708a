-- ===== src/Spice/Inputs/RoundTrip.antt =====
-- What the encoder of input messages sends is what the parser and the decoder read.
use ydyun_vdesktop_linux_dri.Base.{
  ℕ, ◌-◌, ◌^◌, ◌≤◌, ◌<◌, ◌≡◌, refl, Bool, true, false, List, ◌++◌, Option, none, some, arith,
  length, pack_le, unpack_le-pack_le, ok, ◌>>=◌,
}
use ydyun_vdesktop_linux_dri.Base.Int.{ℤ, pos, negsuc, of_i32, IsI32, to_i32-unpack_le}
use ydyun_vdesktop_linux_dri.Spice.Frame.{SpiceDataFrame, parse_data_frame, max_frame_size}
use ydyun_vdesktop_linux_dri.Spice.Frame.Packets.{
  Packet, IsPacket, packet_bytes, packet_frame, parse_data_frame-packet_bytes,
}
use ydyun_vdesktop_linux_dri.Spice.Inputs.{
  InputsMessage, key_down, key_up, key_modifiers, key_scancode, mouse_motion, mouse_position,
  mouse_press, mouse_release, Value, int, InputArgs, inputs_scancode_max, checked_input_int,
  inputs_payload, inputs_frame, encode_inputs_message, decode_inputs_message,
}

abbrev pub message_type_of : InputsMessage → ℕ
message_type_of (key_down n) = 101
message_type_of (key_up n) = 102
message_type_of (key_modifiers n) = 103
message_type_of (key_scancode l) = 104
message_type_of (mouse_motion x y s) = 111
message_type_of (mouse_position x y s d) = 112
message_type_of (mouse_press b s) = 113
message_type_of (mouse_release b s) = 114

abbrev no_args : InputArgs
no_args = record {
  code = none;
  modifiers = none;
  scancodes = none;
  dx = none;
  dy = none;
  buttons_state = none;
  x = none;
  y = none;
  display_id = none;
  button = none;
}

abbrev number : ℕ → Option Value
number n = some (int (pos n))

-- The keyword arguments that a caller gives for a message.
abbrev pub args_of : InputsMessage → InputArgs
args_of (key_down n) = record no_args { code = number n }
args_of (key_up n) = record no_args { code = number n }
args_of (key_modifiers n) = record no_args { modifiers = number n }
args_of (key_scancode l) = record no_args { scancodes = some l }
args_of (mouse_motion x y s) = record no_args {
  dx = some (int x);
  dy = some (int y);
  buttons_state = number s;
}
args_of (mouse_position x y s d) = record no_args {
  x = number x;
  y = number y;
  buttons_state = number s;
  display_id = number d;
}
args_of (mouse_press b s) = record no_args { button = number b; buttons_state = number s }
args_of (mouse_release b s) = record no_args { button = number b; buttons_state = number s }

-- Every field is in the range of its place in the message.
abbrev pub IsInput : InputsMessage → Type 0
IsInput (key_down n) = n < 2 ^ 32
IsInput (key_up n) = n < 2 ^ 32
IsInput (key_modifiers n) = n < 2 ^ 16
IsInput (key_scancode l) = (1 ≤ length l) × (length l ≤ inputs_scancode_max)
IsInput (mouse_motion x y s) = IsI32 x × IsI32 y × (s < 2 ^ 16)
IsInput (mouse_position x y s d) = (x < 2 ^ 32) × (y < 2 ^ 32) × (s < 2 ^ 16) × (d < 256)
IsInput (mouse_press b s) = (b < 256) × (s < 2 ^ 16)
IsInput (mouse_release b s) = (b < 256) × (s < 2 ^ 16)

-- The payload in the layouts "<I", "<H", raw, "<iiH", "<IIHB" and "<BH".
abbrev pub payload_of : InputsMessage → List ℕ
payload_of (key_down n) = pack_le 4 n
payload_of (key_up n) = pack_le 4 n
payload_of (key_modifiers n) = pack_le 2 n
payload_of (key_scancode l) = l
payload_of (mouse_motion x y s) = pack_le 4 (of_i32 x) ++ pack_le 4 (of_i32 y) ++ pack_le 2 s
payload_of (mouse_position x y s d) = pack_le 4 x ++ pack_le 4 y ++ pack_le 2 s ++ pack_le 1 d
payload_of (mouse_press b s) = pack_le 1 b ++ pack_le 2 s
payload_of (mouse_release b s) = pack_le 1 b ++ pack_le 2 s

checked :
    (n bound : ℕ) → n ≤ bound → checked_input_int (int (pos n)) (pos 0) (pos bound) ≡ ok (pos n)
unfolding checked_input_int
checked n bound h = ground arith

checked_i32 :
    (z : ℤ) → IsI32 z → checked_input_int (int z) (negsuc (2 ^ 31 - 1)) (pos (2 ^ 31 - 1)) ≡ ok z
unfolding checked_input_int
checked_i32 z h = ground arith

encoded_payload :
    (m : InputsMessage)
    → IsInput m
    → inputs_payload (message_type_of m) (args_of m) ≡ ok (payload_of m)
unfolding inputs_payload
encoded_payload (key_down n) v = rw (checked n (2 ^ 32 - 1) (omega arith))
encoded_payload (key_up n) v = rw (checked n (2 ^ 32 - 1) (omega arith))
encoded_payload (key_modifiers n) v = rw (checked n (2 ^ 16 - 1) (omega arith))
encoded_payload (key_scancode l) v = ground arith
encoded_payload (mouse_motion x y s) v =
    rw (checked_i32 x v.0, checked_i32 y v.1, checked s (2 ^ 16 - 1) (omega arith))
encoded_payload (mouse_position x y s d) v = rw (
  checked x (2 ^ 32 - 1) (omega arith),
  checked y (2 ^ 32 - 1) (omega arith),
  checked s (2 ^ 16 - 1) (omega arith),
  checked d 255 (omega arith),
)
encoded_payload (mouse_press b s) v =
    rw (checked b 255 (omega arith), checked s (2 ^ 16 - 1) (omega arith))
encoded_payload (mouse_release b s) v =
    rw (checked b 255 (omega arith), checked s (2 ^ 16 - 1) (omega arith))

decoded_payload :
    (m : InputsMessage) (frame : SpiceDataFrame)
    → IsInput m
    → frame.message_type ≡ message_type_of m
    → frame.payload ≡ payload_of m
    → decode_inputs_message frame ≡ ok (some m)
unfolding decode_inputs_message
decoded_payload (key_down n) frame v t p =
    rw (t, p) (λ i. ok (some (key_down (unpack_le-pack_le 4 n v i))))
decoded_payload (key_up n) frame v t p =
    rw (t, p) (λ i. ok (some (key_up (unpack_le-pack_le 4 n v i))))
decoded_payload (key_modifiers n) frame v t p =
    rw (t, p) (λ i. ok (some (key_modifiers (unpack_le-pack_le 2 n v i))))
decoded_payload (key_scancode l) frame v t p = rw (t, p) (ground arith)
decoded_payload (mouse_motion x y s) frame v t p =
    rw (t, p)
      (λ i. ok (
        some (
          mouse_motion (to_i32-unpack_le x v.0 i) (to_i32-unpack_le y v.1 i)
            (unpack_le-pack_le 2 s v.2 i))))
decoded_payload (mouse_position x y s d) frame v t p =
    rw (t, p)
      (λ i. ok (
        some (
          mouse_position (unpack_le-pack_le 4 x v.0 i) (unpack_le-pack_le 4 y v.1 i)
            (unpack_le-pack_le 2 s v.2 i) (unpack_le-pack_le 1 d v.3 i))))
decoded_payload (mouse_press b s) frame v t p =
    rw (t, p)
      (λ i. ok (some (mouse_press (unpack_le-pack_le 1 b v.0 i) (unpack_le-pack_le 2 s v.1 i))))
decoded_payload (mouse_release b s) frame v t p =
    rw (t, p)
      (λ i. ok (some (mouse_release (unpack_le-pack_le 1 b v.0 i) (unpack_le-pack_le 2 s v.1 i))))

payload_bounds : (m : InputsMessage) → IsInput m → length (payload_of m) ≤ inputs_scancode_max
payload_bounds (key_down n) v = omega arith
payload_bounds (key_up n) v = omega arith
payload_bounds (key_modifiers n) v = omega arith
payload_bounds (key_scancode l) v = v.1
payload_bounds (mouse_motion x y s) v = omega arith
payload_bounds (mouse_position x y s d) v = omega arith
payload_bounds (mouse_press b s) v = omega arith
payload_bounds (mouse_release b s) v = omega arith

type_bound : (m : InputsMessage) → message_type_of m < 2 ^ 16
type_bound (key_down n) = omega arith
type_bound (key_up n) = omega arith
type_bound (key_modifiers n) = omega arith
type_bound (key_scancode l) = omega arith
type_bound (mouse_motion x y s) = omega arith
type_bound (mouse_position x y s d) = omega arith
type_bound (mouse_press b s) = omega arith
type_bound (mouse_release b s) = omega arith

abbrev pub packet_of : InputsMessage → ℕ → ℕ → Packet
packet_of m serial sub_list = record {
  serial = serial;
  message_type = message_type_of m;
  sub_list = sub_list;
  payload = payload_of m;
}

encoded_bytes :
    (m : InputsMessage) (mini : Bool) (serial sub_list : ℕ)
    → IsInput m
    → serial < 2 ^ 64
    → sub_list < 2 ^ 32
    → encode_inputs_message
        (message_type_of m)
        (record { serial = pos serial; sub_list = pos sub_list; mini_header = mini })
        (args_of m)
      ≡ ok (packet_bytes mini (packet_of m serial sub_list))
unfolding encode_inputs_message inputs_frame
encoded_bytes m true serial sub_list v hs hl = rw (encoded_payload m v)
encoded_bytes m false serial sub_list v hs hl = rw (encoded_payload m v) (ground arith)

-- For every input message with its fields in range, both header layouts and every serial and
-- sub-list that fit, the encoder returns bytes from which, whatever follows them, the frame parser
-- under its default limit and the decoder read the same message back.
pub decode-encode :
    (m : InputsMessage) (mini : Bool) (serial sub_list : ℕ) (rest : List ℕ)
    → IsInput m
    → serial < 2 ^ 64
    → sub_list < 2 ^ 32
    → (do
      bytes ←
          encode_inputs_message
            (message_type_of m)
            (record { serial = pos serial; sub_list = pos sub_list; mini_header = mini })
            (args_of m)
      frame ← parse_data_frame (bytes ++ rest) mini max_frame_size
      decode_inputs_message frame)
      ≡ ok (some m)
decode-encode m mini serial sub_list rest v hs hl =
    let p = packet_of m serial sub_list in
    let fits : IsPacket max_frame_size p = record {
      serial_fits = hs;
      type_fits = type_bound m;
      sub_list_fits = hl;
      size_fits = omega (arith, payload_bounds m v);
      size_allowed = omega (arith, payload_bounds m v);
    } in
    rw
      (
        encoded_bytes m mini serial sub_list v hs hl,
        parse_data_frame-packet_bytes mini max_frame_size p rest fits,
      )
      (decoded_payload m (packet_frame mini p) v refl refl)
