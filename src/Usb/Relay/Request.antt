-- ===== src/Usb/Relay/Request.antt =====
-- What the bridge reads of a local client is what the relay forwards.
use ydyun_vdesktop_linux_dri.Base.{
  ℕ, ◌≡◌, sym, ◌∙◌, inl, inr, Bool, ◌&&◌, List, ◌++◌, Option, some, ◌==◌, field_be, append_assoc,
  take-append-drop, Bool-cases, Text, Result, ok, ◌>>=◌, >>=-eq-ok,
}
use ydyun_vdesktop_linux_dri.Usb.Errors.{UsbError}
use ydyun_vdesktop_linux_dri.Usb.Socket.{Socket, recv_exact}
use ydyun_vdesktop_linux_dri.Usb.Socket.Exact.{stream, recv_exact-Receives}
use ydyun_vdesktop_linux_dri.Usb.Bridge.{
  read_request, import_busid, op_req_import, usbip_version, import_busid_size,
}

received_stream :
    (size : ℕ) (sock sock' : Socket) (bytes : List ℕ)
    → recv_exact size sock ≡ ok (bytes, sock')
    → stream sock ≡ bytes ++ stream sock'
received_stream size sock sock' bytes e =
    let (fits, got, left) = rw e at (recv_exact-Receives size sock) in
    sym (rw (got, left) (take-append-drop size (stream sock)))

abbrev is_import : List ℕ → Bool
is_import header =
    field_be 2 2 header == op_req_import
    && field_be 0 2 header == usbip_version
    && field_be 4 4 header == 0

-- The part of an import request that follows its header.
abbrev with_body : List ℕ → Socket → Result UsbError (Option Text × List ℕ × Socket)
with_body header sock = do
  (body, sock') ← recv_exact import_busid_size sock
  busid ← import_busid body
  ok (some busid, header ++ body, sock')

read_body :
    (header : List ℕ) (sock before sock' : Socket) (requested : Option Text) (initial : List ℕ)
    → stream before ≡ header ++ stream sock
    → with_body header sock ≡ ok (requested, initial, sock')
    → stream before ≡ initial ++ stream sock'
read_body header sock before sock' requested initial same e =
    let ((body, sock''), read, more) = >>=-eq-ok (recv_exact import_busid_size sock) _ e in
    let (busid, is_busid, made) = >>=-eq-ok (import_busid body) _ more in
    let left = received_stream import_busid_size sock sock'' body read in
    let bytes : header ++ body ≡ initial = cc in
    let last : sock'' ≡ sock' = cc in
    same ∙ rw (left, ← bytes, ← last) (sym (append_assoc header body (stream sock'')))

-- The bytes that the bridge keeps of a local client's request are exactly the bytes that it has taken
-- off the client's stream: with them in front, what is left to relay is the whole stream.
pub read_request-stream :
    (sock sock' : Socket) (requested : Option Text) (initial : List ℕ)
    → read_request sock ≡ ok (requested, initial, sock')
    → stream sock ≡ initial ++ stream sock'
unfolding read_request
read_request-stream sock sock' requested initial e =
    let ((header, sock1), read, more) = >>=-eq-ok (recv_exact 8 sock) _ e in
    let left = received_stream 8 sock sock1 header read in
    elim (Bool-cases (is_import header)) [
      | inl import ↦ read_body header sock1 sock sock' requested initial left (rw import at more)
      | inr other ↦ cc (rw other at more, left)
    ]
