-- ===== src/Usb/Socket.antt =====
-- linux/src/ydyun_usbctl.py, `_recv_exact`. A connected socket is modelled by what its peer and the
-- network will deliver: chunks in order, and failures (OSError, a timeout among them). When nothing
-- is left the peer has closed, and `recv` returns no bytes.
pub mod Exact
use ydyun_vdesktop_linux_dri.Base.{
  ℕ, zero, suc, ◌+◌, ◌-◌, List, [], ◌∷◌, ◌++◌, leb, ◌==◌, if◌then◌else◌, length, take, drop, Result,
  ok, err, ◌>>=◌,
}
use ydyun_vdesktop_linux_dri.Usb.Errors.{
  UsbError, controller, os_error, out_of_fuel, connection_closed,
}

pub data Event : Type 0 where
  chunk : List ℕ → Event
  failure : Event

abbrev pub Socket : Type 0
Socket = List Event

-- `sock.recv(size)`: at most `size` bytes, the rest of a chunk stays.
unfoldable pub recv : ℕ → Socket → Result UsbError (List ℕ × Socket)
recv size [] = ok ([], [])
recv size (chunk c ∷ events) =
    if leb (length c) size then ok (c, events) else ok (take size c, chunk (drop size c) ∷ events)
recv size (failure ∷ events) = err os_error

-- `while remaining`, with the chunks joined so far.
unfoldable pub recv_loop : ℕ → ℕ → Socket → List ℕ → Result UsbError (List ℕ × Socket)
recv_loop fuel zero sock received = ok (received, sock)
recv_loop zero (suc remaining) sock received = err out_of_fuel
recv_loop (suc fuel) (suc remaining) sock received = do
  (bytes, sock') ← recv (suc remaining) sock
  elim bytes [
    | [] ↦ err (controller connection_closed)
    | b ∷ bs ↦ recv_loop fuel (suc remaining - length (b ∷ bs)) sock' (received ++ b ∷ bs)
  ]

-- Each round receives a byte at least, so as many rounds as bytes are enough.
unfoldable pub recv_exact : ℕ → Socket → Result UsbError (List ℕ × Socket)
recv_exact size sock = recv_loop size size sock []
