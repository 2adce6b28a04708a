-- ===== src/Usb/Bridge.antt =====
-- linux/src/ydyun_usbctl.py, class BackwardBridge: its handlers. Each runs in a thread of its own;
-- here a handler is cut at the points where other threads may run, and a part is a function on the
-- bridge's state. What a socket receives and what `usbip` answers are arguments.
pub mod Steps
pub mod Counts
pub mod Ownership
pub mod Bounds
pub mod Joins
use ydyun_vdesktop_linux_dri.Base.{
  ℕ, ◌+◌, Bool, true, false, ◌&&◌, not, List, [], ◌∷◌, ◌++◌, Option, none, some, ◌==◌,
  if◌then◌else◌, length, map, field_be, Text, Result, ok, err, ◌>>=◌, ◌>>◌, raise_if,
}
use ydyun_vdesktop_linux_dri.Usb.Errors.{
  UsbError, controller, no_usable_busid, invalid_import_busid,
}
use ydyun_vdesktop_linux_dri.Usb.Names.{validate_busid}
use ydyun_vdesktop_linux_dri.Usb.Socket.{Socket, recv_exact}
use ydyun_vdesktop_linux_dri.Usb.Backward.{
  backward_frame_size, parse_backward_frame, backward_frame_busid, before_nul, decode_ascii,
}
use ydyun_vdesktop_linux_dri.Usb.Queue.{PendingLink, put_nowait, remove_pending, take_pending}

pub record BridgeSettings : Type 0 where
  pub max_pending : ℕ
  pub allowed_ops : List ℕ
  pub auto_attach : Bool

-- A local USB/IP client that waits for a link, with the bus ID it asks for and the bytes read from it.
pub record Client : Type 0 where
  pub local : ℕ
  pub requested : Option Text
  pub initial : List ℕ

-- A relay thread between a local client and a link's connection.
pub record Relay : Type 0 where
  pub local : ℕ
  pub remote : ℕ
  pub initial : List ℕ

-- `reading` are the accepted connections whose frame is being received, `attaching` the threads of
-- `_auto_attach`, `opening` the local clients whose request is being read. `closed` has a socket
-- once for each call of `_close_socket`, and `detaches` the bus IDs that `_auto_detach` was called for.
pub record Bridge : Type 0 where
  pub pending : List PendingLink
  pub reading : List ℕ
  pub attaching : List ℕ
  pub opening : List ℕ
  pub waiting : List Client
  pub relays : List Relay
  pub detaches : List Text
  pub closed : List ℕ
  pub closed_locals : List ℕ

unfoldable pub remove_one : ℕ → List ℕ → List ℕ
remove_one c [] = []
remove_one c (x ∷ xs) = if x == c then xs else x ∷ remove_one c xs

-- A frame read from a connection, and its command and bus ID; a bus ID that cannot be used is "".
unfoldable pub read_link : BridgeSettings → Socket → Result UsbError (ℕ × Text)
read_link s sock = do
  (frame, _) ← recv_exact backward_frame_size sock
  command ← parse_backward_frame frame s.allowed_ops
  ok (command, elim (backward_frame_busid frame) [ ok busid ↦ busid | err e ↦ [] ])

-- The end of a connection that is not kept.
unfoldable pub close_remote : ℕ → Bridge → Bridge
close_remote c b = record b { closed = c ∷ b.closed }

-- A validated link is put in the queue, or rejected if that is full. An attach with a bus ID starts
-- a thread, if the settings ask for it.
unfoldable pub enqueue : BridgeSettings → ℕ → ℕ → Text → Bridge → Bridge
enqueue s c command busid b =
    elim (put_nowait s.max_pending (record { connection = c; command = command; busid = busid })
      b.pending) [
        | err e ↦ close_remote c b
        | ok queue ↦ record b {
          pending = queue;
          attaching =
              if s.auto_attach && command == 1 && not (length busid == 0)
              then c ∷ b.attaching
              else b.attaching;
        }
      ]

-- A detach message: with a bus ID, and if the settings ask for it, `_auto_detach` is called. Its
-- calls of `usbip` may fail, and the connection is closed in every case.
unfoldable pub detach_link : BridgeSettings → ℕ → Text → Bridge → Bridge
detach_link s c busid b = close_remote c (
    if s.auto_attach && not (length busid == 0)
    then record b { detaches = busid ∷ b.detaches }
    else b)

-- `_prepare_remote`
unfoldable pub prepare_remote : BridgeSettings → ℕ → Socket → Bridge → Bridge
prepare_remote s c sock before =
    let b = record before { reading = remove_one c before.reading } in
    elim (read_link s sock) [
      | err e ↦ close_remote c b
      | ok (command, busid) ↦
          if command == 2 then detach_link s c busid b else enqueue s c command busid b
    ]

-- The failure of an `_auto_attach` thread.
pub attach_failed : ℕ → Bridge → Bridge
attach_failed c before = close_remote c (record before {
  attaching = remove_one c before.attaching;
  pending = remove_pending c before.pending;
})

-- Its success leaves the link for the local client that `usbip attach` has started.
pub attach_succeeded : ℕ → Bridge → Bridge
attach_succeeded c before = record before { attaching = remove_one c before.attaching }

abbrev pub usbip_version : ℕ
usbip_version = 0x0111

abbrev pub op_req_import : ℕ
op_req_import = 0x8003

abbrev pub import_busid_size : ℕ
import_busid_size = 32

-- The bus ID in the body of an import request.
unfoldable pub import_busid : List ℕ → Result UsbError Text
import_busid body =
    elim (do
      busid ← decode_ascii (controller invalid_import_busid) (before_nul body)
      validate_busid busid) [ ok busid ↦ ok busid | err e ↦ err (controller invalid_import_busid) ]

-- The first part of `_prepare_local`: what a local client asks for, and all bytes read from it. Only
-- an import request has a bus ID; of anything else the 8-byte header is read.
unfoldable pub read_request : Socket → Result UsbError (Option Text × List ℕ × Socket)
unfolding import_busid
read_request sock = do
  (header, sock') ← recv_exact 8 sock
  if field_be 2 2 header == op_req_import
        && field_be 0 2 header == usbip_version
        && field_be 4 4 header == 0
      then (do
        (body, sock'') ← recv_exact import_busid_size sock'
        busid ← import_busid body
        ok (some busid, header ++ body, sock''))
      else ok (none, header, sock')

unfoldable pub close_local : ℕ → Bridge → Bridge
close_local l b = record b { closed_locals = l ∷ b.closed_locals }

unfoldable pub open_local : ℕ → Socket → Bridge → Bridge
open_local l sock before =
    let b = record before { opening = remove_one l before.opening } in
    elim (read_request sock) [
      | err e ↦ close_local l b
      | ok (requested, initial, _) ↦ record b {
        waiting = record { local = l; requested = requested; initial = initial } ∷ b.waiting;
      }
    ]

pub remove_client : ℕ → List Client → List Client
remove_client l [] = []
remove_client l (x ∷ xs) = if x.local == l then xs else x ∷ remove_client l xs

-- One round of `_take_pending_wait`, and the relay that is started when it selects a link.
unfoldable pub take_round : Client → Bridge → Bridge
take_round client b =
    let (selected, queue) = take_pending client.requested b.pending in
    elim selected [
      | none ↦ b
      | some link ↦ record b {
        pending = queue;
        waiting = remove_client client.local b.waiting;
        relays =
            record { local = client.local; remote = link.connection; initial = client.initial }
            ∷ b.relays;
      }
    ]

-- The deadline has passed: no link came.
pub give_up : Client → Bridge → Bridge
give_up client b =
    close_local client.local (record b { waiting = remove_client client.local b.waiting })

abbrev pub connections : List PendingLink → List ℕ
connections = map (λ link. link.connection)

-- The end of `serve`: the links that are still pending are closed.
pub drain : Bridge → Bridge
drain b = record b { pending = []; closed = connections b.pending ++ b.closed }
