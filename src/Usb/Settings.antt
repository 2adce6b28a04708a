-- ===== src/Usb/Settings.antt =====
-- linux/src/ydyun_usbctl.py: the checks on the values of a configuration file. `int`, `float` and
-- `ipaddress` are those of the modules Base.Decimal, Base.Floats and Base.Address.
pub mod Values
pub mod Connection
pub mod Backward
pub mod Header
use ydyun_vdesktop_linux_dri.Base.{
  ℕ, Bool, true, false, not, ◌||◌, ◌&&◌, List, [], ◌∷◌, Option, none, some, map, leb, ◌==◌, any,
  length, Text, codes, elem, one_of, is_space, strip, lower_char, Result, err, ok, raise_if, ◌>>=◌,
  ◌>>◌, if◌then◌else◌,
}
use ydyun_vdesktop_linux_dri.Base.Int.{ℤ, pos, negsuc}
use ydyun_vdesktop_linux_dri.Base.Decimal.{int_text}
use ydyun_vdesktop_linux_dri.Base.Floats.{Float, float_text, float_between}
use ydyun_vdesktop_linux_dri.Base.Address.{is_address}
use ydyun_vdesktop_linux_dri.Usb.Names.{in_shell_chars, slash, backslash}
use ydyun_vdesktop_linux_dri.Usb.Errors.{
  UsbError, controller, invalid_boolean, invalid_port, port_out_of_range, invalid_integer,
  not_in_range, invalid_host, not_an_address, not_a_number,
}

unfoldable pub parse_bool : Text → Result UsbError Bool
parse_bool value =
    let word = map lower_char (strip value) in
    if one_of word (codes "1" ∷ codes "yes" ∷ codes "true" ∷ codes "on" ∷ [])
    then ok true
    else if one_of word (codes "0" ∷ codes "no" ∷ codes "false" ∷ codes "off" ∷ [])
    then ok false
    else err (controller invalid_boolean)

unfoldable pub in_range : ℤ → ℕ → UsbError → Result UsbError ℕ
in_range (pos n) maximum e = if leb 1 n && leb n maximum then ok n else err e
in_range (negsuc n) maximum e = err e

unfoldable pub parse_port : Text → Result UsbError ℕ
unfolding in_range
parse_port value = elim (int_text value) [
  | none ↦ err (controller invalid_port)
  | some port ↦ in_range port 65535 (controller port_out_of_range)
]

unfoldable pub parse_positive_int : Text → ℕ → Result UsbError ℕ
unfolding in_range
parse_positive_int value maximum = elim (int_text value) [
  | none ↦ err (controller invalid_integer)
  | some number ↦ in_range number maximum (controller not_in_range)
]

-- The characters of "/\\:;|&`$\"'".
unfoldable pub bad_in_host : ℕ → Bool
unfolding in_shell_chars
bad_in_host c = c == slash || c == backslash || c == b':' || in_shell_chars c

unfoldable pub validate_host : Text → Result UsbError Text
validate_host raw = do
  let host = strip raw
  raise_if (length host == 0 || any is_space host) (controller invalid_host)
  raise_if (any bad_in_host host && not (is_address host)) (controller invalid_host)
  ok host

unfoldable pub validate_bind_host : Text → Result UsbError Text
validate_bind_host raw = do
  let host = strip raw
  raise_if (not (is_address host)) (controller not_an_address)
  ok host

-- A number of seconds, with the bounds counted in halves.
unfoldable pub parse_seconds : Text → ℕ → ℕ → Result UsbError Float
parse_seconds value low high = elim (float_text value) [
  | none ↦ err (controller not_a_number)
  | some x ↦ if float_between low x high then ok x else err (controller not_in_range)
]
