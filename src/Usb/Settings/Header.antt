-- ===== src/Usb/Settings/Header.antt =====
-- linux/src/ydyun_usbctl.py: build_vendor_proxy_header.
pub mod Layout
use ydyun_vdesktop_linux_dri.Base.{
  ℕ, ◌+◌, ◌≡◌, Bool, not, ◌||◌, List, [], ◌∷◌, ◌++◌, ltb, leb, any, length, take, drop, replicate,
  pack_le, Text, Result, err, ok, raise_if, ◌>>=◌, ◌>>◌, if◌then◌else◌,
}
use ydyun_vdesktop_linux_dri.Base.Int.{ℤ, pos_part, neg_part}
use ydyun_vdesktop_linux_dri.Base.Decimal.{str_nat, str_int}
use ydyun_vdesktop_linux_dri.Usb.Errors.{
  UsbError, controller, host_not_ascii, host_too_long, port_too_long, value_error,
}
use ydyun_vdesktop_linux_dri.Usb.Backward.{decode_ascii}
use ydyun_vdesktop_linux_dri.Usb.Settings.{validate_host, parse_port}

abbrev pub vendor_proxy_header_size : ℕ
vendor_proxy_header_size = 0x74

abbrev pub vendor_proxy_host_offset : ℕ
vendor_proxy_host_offset = 0x12

abbrev pub vendor_proxy_host_limit : ℕ
vendor_proxy_host_limit = 0x21

abbrev pub vendor_proxy_port_offset : ℕ
vendor_proxy_port_offset = 0x33

abbrev pub vendor_proxy_port_limit : ℕ
vendor_proxy_port_limit = 0x11

-- `header[at:at + len(bytes)] = bytes`, and `pack_into` for a number.
abbrev pub write_at : ℕ → List ℕ → List ℕ → List ℕ
write_at at bytes header = take at header ++ (bytes ++ drop (at + length bytes) header)

unfoldable pub fill_header : ℕ → List ℕ → List ℕ → List ℕ
fill_header link host_bytes port_bytes =
    let header = replicate vendor_proxy_header_size 0 in
    let header = write_at 0x00 (pack_le 4 1) header in
    let header = write_at 0x08 (pack_le 4 link) header in
    let header = write_at 0x0c (pack_le 4 2) header in
    let header = write_at 0x10 (b'u' ∷ 2 ∷ []) header in
    let header = write_at vendor_proxy_host_offset host_bytes header in
    write_at vendor_proxy_port_offset port_bytes header

-- `_parse_port(str(port), key)`; `str` raises ValueError on more than 4300 digits.
unfoldable pub port_argument : ℤ → Result UsbError ℕ
port_argument port =
    if ltb 4300 (length (str_nat (pos_part port + neg_part port)))
    then err value_error
    else parse_port (str_int port)

unfoldable pub build_vendor_proxy_header : Text → ℤ → ℤ → Result UsbError (List ℕ)
unfolding fill_header port_argument
build_vendor_proxy_header destination_host destination_port link_port = do
  host ← validate_host destination_host
  port ← port_argument destination_port
  link ← port_argument link_port
  host_bytes ← decode_ascii (controller host_not_ascii) host
  let port_bytes = str_nat port
  raise_if (not (leb 1 (length host_bytes)) || ltb vendor_proxy_host_limit (length host_bytes))
      (controller host_too_long)
  raise_if (ltb vendor_proxy_port_limit (length port_bytes)) (controller port_too_long)
  ok (fill_header link host_bytes port_bytes)
