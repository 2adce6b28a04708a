-- ===== src/Usb/Probe.antt =====
-- linux/src/ydyun_usbctl.py: check_remote, probe_protocol and probe_link_protocol, on the addresses
-- that a host name resolves to.
pub mod Attempts
pub mod Answers
use ydyun_vdesktop_linux_dri.Base.{
  ℕ, Bool, true, false, not, List, [], ◌∷◌, ◌++◌, Option, none, some, ◌==◌, field_be, pack_be,
  unpack_be, Result, err, ok, raise_if, ◌>>=◌, ◌>>◌, if◌then◌else◌,
}
use ydyun_vdesktop_linux_dri.Usb.Errors.{
  UsbError, controller, os_error, struct_error, index_error, stop_iteration, queue_full,
  value_error, out_of_fuel, cannot_resolve, version_mismatch, unexpected_code, peer_status,
  unreachable,
}
use ydyun_vdesktop_linux_dri.Usb.Socket.{Socket, recv_exact}
use ydyun_vdesktop_linux_dri.Usb.Bridge.{usbip_version}

abbrev pub op_req_link_init : ℕ
op_req_link_init = 0x8008

abbrev pub op_rep_link_init : ℕ
op_rep_link_init = 0x0008

abbrev pub op_req_devlist : ℕ
op_req_devlist = 0x8005

abbrev pub op_rep_devlist : ℕ
op_rep_devlist = 0x0005

-- One of the addresses: whether the system makes a socket for it, whether the connection is made,
-- which calls of `sendall` return, and what arrives.
pub record Endpoint : Type 0 where
  pub opens : Bool
  pub connects : Bool
  pub sends : ℕ → Bool
  pub socket : Socket

-- `for ... in addresses:` with `try`: an exception that is passed over goes on with the next address. A
-- socket that cannot be made raises outside the `try`.
unfoldable pub try_each :
    {A : Type 0}
    → (UsbError → Bool)
    → (Endpoint → Result UsbError A)
    → List Endpoint
    → Result UsbError A
try_each passed attempt [] = err (controller unreachable)
try_each passed attempt (e ∷ es) =
    let rest = try_each passed attempt es in
    if not e.opens
    then err os_error
    else elim (attempt e) [ ok value ↦ ok value | err x ↦ if passed x then rest else err x ]

-- `getaddrinfo` has raised, or given the addresses.
abbrev resolved :
    {A : Type 0} → (List Endpoint → Result UsbError A) → Option (List Endpoint) → Result UsbError A
resolved run none = err (controller cannot_resolve)
resolved run (some es) = run es

abbrev pub is_os_error : UsbError → Bool
is_os_error os_error = true
is_os_error other = false

unfoldable pub connect_only : Endpoint → Result UsbError (Unit {0})
connect_only e = if e.connects then ok tt else err os_error

unfoldable pub check_remote : Option (List Endpoint) → Result UsbError (Unit {0})
unfolding try_each connect_only
check_remote = resolved (try_each is_os_error connect_only)

-- `except (OSError, struct.error)`
abbrev pub passed_over : UsbError → Bool
passed_over os_error = true
passed_over struct_error = true
passed_over other = false

-- `except (OSError, struct.error, ControllerError)`
abbrev pub link_passed_over : UsbError → Bool
link_passed_over (controller reason) = true
link_passed_over os_error = true
link_passed_over struct_error = true
link_passed_over other = false

-- The checks on the version, the code and the status of a common header.
unfoldable pub check_common : ℕ → List ℕ → Result UsbError (Unit {0})
check_common code header = do
  raise_if (not (field_be 0 2 header == usbip_version)) (controller version_mismatch)
  raise_if (not (field_be 2 2 header == code)) (controller unexpected_code)
  raise_if (not (field_be 4 4 header == 0)) (controller peer_status)
  ok tt

abbrev pub common_header : ℕ → List ℕ
common_header code = pack_be 2 usbip_version ++ (pack_be 2 code ++ pack_be 4 0)

unfoldable pub read_header : ℕ → Socket → Result UsbError Socket
unfolding check_common
read_header code sock = do (header, sock') ← recv_exact 8 sock; check_common code header; ok sock'

unfoldable pub read_count : Socket → Result UsbError ℕ
read_count sock = do (count, _) ← recv_exact 4 sock; ok (unpack_be count)

-- What is sent to one address is `common_header op_req_devlist` and four zeros.
abbrev pub devlist_request : List ℕ
devlist_request = common_header op_req_devlist ++ pack_be 4 0

unfoldable pub probe_one : Endpoint → Result UsbError ℕ
unfolding read_header read_count
probe_one e = do
  raise_if (not e.connects) os_error
  raise_if (not (e.sends 0)) os_error
  sock ← read_header op_rep_devlist e.socket
  read_count sock

unfoldable pub probe_protocol : Option (List Endpoint) → Result UsbError ℕ
unfolding try_each probe_one
probe_protocol = resolved (try_each passed_over probe_one)

unfoldable pub probe_link_one : Endpoint → Result UsbError ℕ
unfolding read_header read_count
probe_link_one e = do
  raise_if (not e.connects) os_error
  raise_if (not (e.sends 0)) os_error
  sock ← read_header op_rep_link_init e.socket
  sock' ← read_header op_req_devlist sock
  raise_if (not (e.sends 1)) os_error
  read_count sock'

unfoldable pub probe_link_protocol : Option (List Endpoint) → Result UsbError ℕ
unfolding try_each probe_link_one
probe_link_protocol = resolved (try_each link_passed_over probe_link_one)
