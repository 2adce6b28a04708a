-- ===== src/Usb/Codec/Receive.antt =====
-- Wrapped frames received from a socket, and the bounds of what is unwrapped.
use ydyun_vdesktop_linux_dri.Base.{
  ℕ, ◌^◌, ◌<◌, ◌≡◌, refl, ◌∙◌, List, [], ◌++◌, arith, length, drop, append_assoc, field_be, inl,
  inr, ap, err, Result-cases, ok, ◌>>=◌,
}
use ydyun_vdesktop_linux_dri.Usb.Errors.{UsbError}
use ydyun_vdesktop_linux_dri.Usb.Lz4.Ends.{lz4_decompress-length}
use ydyun_vdesktop_linux_dri.Usb.Socket.{Socket, recv_exact}
use ydyun_vdesktop_linux_dri.Usb.Socket.Exact.{stream, recv_exact-Receives, recv_exact_takes}
use ydyun_vdesktop_linux_dri.Usb.Codec.{
  pack_codec_header, decode_payload, decode_backward_compressed_frame,
  encode_backward_compressed_frame, recv_backward_compressed_frame,
}
use ydyun_vdesktop_linux_dri.Usb.Codec.RoundTrip.{
  IsSize, in_bounds, wrapped, fields-pack, decode-encode_frame,
}

decode_payload_bounds :
    (t u c : ℕ) (payload out : List ℕ)
    → length payload ≡ c
    → decode_payload t u c payload ≡ ok out
    → length out ≡ u
unfolding decode_payload
decode_payload_bounds t u c payload out h e = ground (arith, lz4_decompress-length payload out u)

-- A frame that is accepted unwraps to exactly as many bytes as its header says, and these are at
-- least 1 and at most 64 MiB.
pub decode_frame_bounds :
    (frame out : List ℕ)
    → decode_backward_compressed_frame frame ≡ ok out
    → (length out ≡ field_be 1 4 frame) × IsSize (length out)
unfolding decode_backward_compressed_frame
decode_frame_bounds frame out e =
    let n = field_be 5 4 frame in
    let u = field_be 1 4 frame in
    ground (arith, decode_payload_bounds (field_be 0 1 frame) u n (drop 9 frame) out)

frame_size_lem :
    (t u : ℕ) (payload : List ℕ)
    → t < 256
    → u < 2 ^ 32
    → IsSize (length payload)
    → field_be 5 4 (pack_codec_header t u (length payload)) ≡ length payload
frame_size_lem t u payload ht hu h = (fields-pack t u (length payload) [] ht hu (omega arith)).2

-- Whatever chunks the network makes of it, a wrapped frame at the front of the stream, of any
-- type and advertised size and with a payload of 1 byte to 64 MiB, is received whole: the result
-- is that of unwrapping it, and what follows it stays in the socket.
pub recv_wrapped :
    (sock : Socket) (t u : ℕ) (payload rest : List ℕ)
    → t < 256
    → u < 2 ^ 32
    → IsSize (length payload)
    → stream sock ≡ wrapped t u payload ++ rest
    → (sock' : Socket) × (stream sock' ≡ rest)
      × (recv_backward_compressed_frame sock
          ≡ (do frame ← decode_backward_compressed_frame (wrapped t u payload); ok (frame, sock')))
unfolding recv_backward_compressed_frame
recv_wrapped sock t u payload rest ht hu h e =
    let header = pack_codec_header t u (length payload) in
    let (s1, read1, left1) =
      recv_exact_takes 9 sock header (payload ++ rest) (rw append_assoc at e) refl in
    let (s2, read2, left2) = recv_exact_takes (length payload) s1 payload rest left1 refl in
    let size : field_be 5 4 header ≡ length payload = (frame_size_lem t u payload ht hu h) in
    (s2, left2, rw (read1, size, in_bounds (length payload) h, read2))

encode_inv :
    (payload frame : List ℕ)
    → encode_backward_compressed_frame payload ≡ ok frame
    → IsSize (length payload) × (frame ≡ wrapped 0 (length payload) payload)
unfolding encode_backward_compressed_frame
encode_inv payload frame e = ground arith

pub recv_wrapped_closed :
    (sock : Socket)
    → stream sock ≡ []
    → (e : UsbError) × (recv_backward_compressed_frame sock ≡ err e)
unfolding recv_backward_compressed_frame
recv_wrapped_closed sock h = elim (Result-cases (recv_exact 9 sock)) [
  | inr (e, read) ↦ (e, rw read)
  | inl ((bytes, sock'), read) ↦
      let (fits, got, left) = rw read at (recv_exact-Receives 9 sock) in
      absurd (omega (arith, ap length h))
]

pub encode-wrapped :
    (payload : List ℕ)
    → IsSize (length payload)
    → encode_backward_compressed_frame payload ≡ ok (wrapped 0 (length payload) payload)
unfolding encode_backward_compressed_frame
encode-wrapped payload h = rw (in_bounds (length payload) h)

-- A bridge that sends a payload as an encoded frame hands the peer exactly that payload, once the
-- peer's stream holds the frame, and leaves what follows.
pub recv-encode_frame :
    (sock : Socket) (payload frame rest : List ℕ)
    → encode_backward_compressed_frame payload ≡ ok frame
    → stream sock ≡ frame ++ rest
    → (sock' : Socket) × (stream sock' ≡ rest)
      × (recv_backward_compressed_frame sock ≡ ok (payload, sock'))
recv-encode_frame sock payload frame rest e s =
    let (h, same) = encode_inv payload frame e in
    let n = length payload in
    let (sock', left, read) =
      recv_wrapped sock 0 n payload rest (omega arith) (omega arith) h (rw same at s) in
    let unwrapped = rw same at (rw e at (decode-encode_frame payload h)) in
    (sock', left, read ∙ rw unwrapped)
