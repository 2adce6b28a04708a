-- ===== src/Tests/Relay.antt =====
-- Runs of the relay of linux/src/ydyun_usbctl.py.
use ydyun_vdesktop_linux_dri.Base.{
  ℕ, ◌≤◌, ◌<◌, ◌≡◌, refl, true, false, List, [], ◌∷◌, ◌++◌, some, arith, length, concat, replicate,
  codes, is_space, drop_spaces, strip, ok,
}
use ydyun_vdesktop_linux_dri.Usb.Names.{validate_busid, bad_in_busid, in_shell_chars}
use ydyun_vdesktop_linux_dri.Usb.Backward.{before_nul}
use ydyun_vdesktop_linux_dri.Usb.Socket.{Socket, chunk, failure, recv, recv_loop, recv_exact}
use ydyun_vdesktop_linux_dri.Usb.Socket.Exact.{stream}
use ydyun_vdesktop_linux_dri.Usb.Codec.{encode_backward_compressed_frame}
use ydyun_vdesktop_linux_dri.Usb.Bridge.{read_request, import_busid}
use ydyun_vdesktop_linux_dri.Usb.Relay.{
  send_encoded, encode_rounds, plain_to_wrapped, wrapped_to_plain, relay_sockets,
}
use ydyun_vdesktop_linux_dri.Usb.Relay.Delivery.{
  IsPrefix, relay_sockets-IsPrefix, wrapped_to_plain-plain_to_wrapped,
}
use ydyun_vdesktop_linux_dri.Usb.Relay.Request.{read_request-stream}

abbrev client : Socket
client = chunk (5 ∷ 6 ∷ []) ∷ chunk (7 ∷ []) ∷ []

abbrev cloud : Socket
cloud = chunk (8 ∷ []) ∷ failure ∷ []

relay_sockets-IsPrefix_example :
    (to_right : List (List ℕ)) × (to_left : List (List ℕ)) × (relay_sockets
        (codes "off")
        (4 ∷ [])
        (true ∷ false ∷ true ∷ [])
        0
        0
        client
        cloud
      ≡ ok (to_right, to_left))
    × IsPrefix to_right (4 ∷ 5 ∷ 6 ∷ 7 ∷ [])
    × IsPrefix to_left (8 ∷ [])
relay_sockets-IsPrefix_example =
    relay_sockets-IsPrefix (4 ∷ []) (true ∷ false ∷ true ∷ []) 0 0 client cloud

-- The frames of the initial byte and of the two chunks.
abbrev wrapped_client : List ℕ
wrapped_client =
    0 ∷ 0 ∷ 0 ∷ 0 ∷ 1 ∷ 0 ∷ 0 ∷ 0 ∷ 1 ∷ 4 ∷ 0 ∷ 0 ∷ 0 ∷ 0 ∷ 2 ∷ 0 ∷ 0 ∷ 0 ∷ 2 ∷ 5 ∷ 6 ∷ 0 ∷ 0 ∷ 0
    ∷ 0 ∷ 1 ∷ 0 ∷ 0 ∷ 0 ∷ 1 ∷ 7 ∷ []

client_frames : concat (plain_to_wrapped 4 (4 ∷ []) client) ≡ wrapped_client
unfolding plain_to_wrapped encode_rounds send_encoded encode_backward_compressed_frame recv
client_frames = refl

client_frames_count : length (plain_to_wrapped 4 (4 ∷ []) client) ≤ 3
unfolding plain_to_wrapped encode_rounds send_encoded encode_backward_compressed_frame recv
client_frames_count = omega arith

wrapped_to_plain-plain_to_wrapped_example :
    (rest : List ℕ) × (4 ∷ 5 ∷ 6 ∷ 7 ∷ []
      ≡ concat (wrapped_to_plain 3 (chunk wrapped_client ∷ [])) ++ rest)
    × (3 < 4 → rest ≡ [])
unfolding plain_to_wrapped encode_rounds send_encoded encode_backward_compressed_frame recv
wrapped_to_plain-plain_to_wrapped_example =
    wrapped_to_plain-plain_to_wrapped 4 3 (4 ∷ []) client (chunk wrapped_client ∷ []) (omega arith)
      refl client_frames_count

-- An import request for "1-1", and one byte behind it.
abbrev import_request : List ℕ
import_request = (1 ∷ 0x11 ∷ 0x80 ∷ 3 ∷ 0 ∷ 0 ∷ 0 ∷ 0 ∷ []) ++ (codes "1-1" ++ replicate 29 0)

request_read :
    read_request (chunk (import_request ++ 9 ∷ []) ∷ [])
    ≡ ok (some (codes "1-1"), import_request, chunk (9 ∷ []) ∷ [])
unfolding read_request import_busid recv_exact recv_loop recv before_nul validate_busid bad_in_busid
    in_shell_chars strip drop_spaces is_space
request_read = refl

read_request-stream_example :
    stream (chunk (import_request ++ 9 ∷ []) ∷ []) ≡ import_request ++ stream (chunk (9 ∷ []) ∷ [])
read_request-stream_example =
    read_request-stream (chunk (import_request ++ 9 ∷ []) ∷ []) (chunk (9 ∷ []) ∷ [])
      (some (codes "1-1")) import_request request_read
