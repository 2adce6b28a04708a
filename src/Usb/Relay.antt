-- ===== src/Usb/Relay.antt =====
-- linux/src/ydyun_usbctl.py, `_relay_sockets`: what is sent to each side. A direction runs for a number
-- of rounds: the last one is where `stop` is seen, or where `sendall` raises, which ends it as well.
pub mod Delivery
pub mod Request
use ydyun_vdesktop_linux_dri.Base.{
  ℕ, zero, suc, ◌*◌, Bool, true, false, not, List, [], ◌∷◌, ◌++◌, ◌==◌, if◌then◌else◌, length, Text,
  codes, text_eq, one_of, Result, ok, err, ◌>>=◌, ◌>>◌, raise_if,
}
use ydyun_vdesktop_linux_dri.Usb.Errors.{UsbError, controller, unsupported_compression}
use ydyun_vdesktop_linux_dri.Usb.Socket.{Socket, recv}
use ydyun_vdesktop_linux_dri.Usb.Codec.{
  encode_backward_compressed_frame, recv_backward_compressed_frame,
}

abbrev pub chunk_max : ℕ
chunk_max = 64 * 1024

-- BACKWARD_COMPRESSION_MODES
abbrev pub compression_modes : List Text
compression_modes = codes "off" ∷ codes "lz4" ∷ []

-- `if initial_left: right.sendall(...)`
abbrev pub sent_first : List ℕ → List (List ℕ) → List (List ℕ)
sent_first [] later = later
sent_first (b ∷ bs) later = (b ∷ bs) ∷ later

-- The loop without compression: each turn is a socket that `select` reports, `true` for the left one.
-- The chunks sent to the right and to the left.
pub plain_relay : List Bool → Socket → Socket → List (List ℕ) × List (List ℕ)
plain_relay [] left right = ([], [])
plain_relay (true ∷ turns) left right = elim (recv chunk_max left) [
  | err e ↦ ([], [])
  | ok ([], left') ↦ ([], [])
  | ok (b ∷ bs, left') ↦
      let (to_right, to_left) = plain_relay turns left' right in ((b ∷ bs) ∷ to_right, to_left)
]
plain_relay (false ∷ turns) left right = elim (recv chunk_max right) [
  | err e ↦ ([], [])
  | ok ([], right') ↦ ([], [])
  | ok (b ∷ bs, right') ↦
      let (to_right, to_left) = plain_relay turns left right' in (to_right, (b ∷ bs) ∷ to_left)
]

-- A send of an encoded frame, and what follows it; a payload that is refused ends the direction.
unfoldable pub send_encoded : List ℕ → List (List ℕ) → List (List ℕ)
send_encoded payload later = elim (encode_backward_compressed_frame payload) [
  | err e ↦ []
  | ok frame ↦ frame ∷ later
]

unfoldable pub encode_rounds : ℕ → Socket → List (List ℕ)
encode_rounds zero left = []
encode_rounds (suc n) left = elim (recv chunk_max left) [
  | err e ↦ []
  | ok ([], left') ↦ []
  | ok (b ∷ bs, left') ↦ send_encoded (b ∷ bs) (encode_rounds n left')
]

unfoldable pub plain_to_wrapped : ℕ → List ℕ → Socket → List (List ℕ)
plain_to_wrapped n [] left = encode_rounds n left
plain_to_wrapped n (b ∷ bs) left = send_encoded (b ∷ bs) (encode_rounds n left)

pub wrapped_to_plain : ℕ → Socket → List (List ℕ)
wrapped_to_plain zero right = []
wrapped_to_plain (suc n) right = elim (recv_backward_compressed_frame right) [
  | err e ↦ []
  | ok (bytes, right') ↦ bytes ∷ wrapped_to_plain n right'
]

-- `turns` are the turns of the loop without compression, `up` and `down` the rounds of the two threads.
pub relay_sockets :
    Text
    → List ℕ
    → List Bool
    → ℕ
    → ℕ
    → Socket
    → Socket
    → Result UsbError (List (List ℕ) × List (List ℕ))
relay_sockets compression initial_left turns up down left right = do
  raise_if (not (one_of compression compression_modes)) (controller unsupported_compression)
  let (to_right, to_left) = plain_relay turns left right
  if text_eq compression (codes "off")
      then ok (sent_first initial_left to_right, to_left)
      else ok (plain_to_wrapped up initial_left left, wrapped_to_plain down right)
