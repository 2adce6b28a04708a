-- ===== src/Usb/Codec.antt =====
-- linux/src/ydyun_usbctl.py: the 9-byte type/length wrapper of compressed USB frames.
pub mod RoundTrip
pub mod Receive
use ydyun_vdesktop_linux_dri.Base.{
  ℕ, ◌+◌, ◌*◌, Bool, ◌||◌, not, List, [], ◌∷◌, ◌++◌, ltb, ◌==◌, if◌then◌else◌, length, take, drop,
  pack_be, field_be, Result, ok, err, ◌>>=◌, ◌>>◌, raise_if,
}
use ydyun_vdesktop_linux_dri.Usb.Errors.{
  UsbError, controller, frame_truncated, frame_size_out_of_bounds, payload_size_out_of_bounds,
  payload_mismatch, raw_sizes_mismatch, unsupported_frame_type,
}
use ydyun_vdesktop_linux_dri.Usb.Lz4.{codec_max_size, lz4_decompress_block}
use ydyun_vdesktop_linux_dri.Usb.Socket.{Socket, recv_exact}

abbrev pub codec_header_size : ℕ
codec_header_size = 9

-- `not 1 <= size <= BACKWARD_CODEC_MAX_SIZE`
abbrev pub out_of_bounds : ℕ → Bool
out_of_bounds size = ltb size 1 || ltb codec_max_size size

-- `struct.pack("!BII", ...)`
abbrev pub pack_codec_header : ℕ → ℕ → ℕ → List ℕ
pack_codec_header frame_type uncompressed compressed =
    pack_be 1 frame_type ++ pack_be 4 uncompressed ++ pack_be 4 compressed

-- The payload of a frame whose header has been read and checked.
decode_payload : ℕ → ℕ → ℕ → List ℕ → Result UsbError (List ℕ)
decode_payload frame_type uncompressed compressed payload =
    if frame_type == 0
    then (if not (compressed == uncompressed)
        then err (controller raw_sizes_mismatch)
        else ok payload)
    else if frame_type == 1
    then lz4_decompress_block payload uncompressed
    else err (controller unsupported_frame_type)

unfoldable pub decode_backward_compressed_frame : List ℕ → Result UsbError (List ℕ)
unfolding decode_payload
decode_backward_compressed_frame frame = do
  raise_if (ltb (length frame) codec_header_size) (controller frame_truncated)
  let uncompressed = field_be 1 4 frame
  let compressed = field_be 5 4 frame
  raise_if (out_of_bounds uncompressed) (controller frame_size_out_of_bounds)
  raise_if (out_of_bounds compressed) (controller payload_size_out_of_bounds)
  let payload = drop codec_header_size frame
  raise_if (not (length payload == compressed)) (controller payload_mismatch)
  decode_payload (field_be 0 1 frame) uncompressed compressed payload

unfoldable pub encode_backward_compressed_frame : List ℕ → Result UsbError (List ℕ)
encode_backward_compressed_frame payload = do
  raise_if (out_of_bounds (length payload)) (controller payload_size_out_of_bounds)
  ok (pack_codec_header 0 (length payload) (length payload) ++ payload)

-- `_recv_backward_compressed_frame`, with the socket that is left.
pub recv_backward_compressed_frame : Socket → Result UsbError (List ℕ × Socket)
recv_backward_compressed_frame sock = do
  (header, sock') ← recv_exact codec_header_size sock
  let compressed = field_be 5 4 header
  raise_if (out_of_bounds compressed) (controller payload_size_out_of_bounds)
  (body, sock'') ← recv_exact compressed sock'
  frame ← decode_backward_compressed_frame (header ++ body)
  ok (frame, sock'')
