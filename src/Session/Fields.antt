-- ===== src/Session/Fields.antt =====
-- linux/src/ydyun_session.py: `_text`, `_host` and `_port`, the checks on one field.
pub mod Accepted
use ydyun_vdesktop_linux_dri.Base.{
  ℕ, ◌+◌, ◌≤◌, ◌≡◌, refl, Bool, true, false, not, ◌&&◌, ◌||◌, List, [], ◌∷◌, Option, none, some,
  arith, leb, ltb, ◌==◌, any, length, Text, codes, elem, is_space, strip, Result, err, ok, raise_if,
  ◌>>=◌, ◌>>◌, if◌then◌else◌,
}
use ydyun_vdesktop_linux_dri.Base.Int.{ℤ, pos, negsuc, pos_part, neg_part}
use ydyun_vdesktop_linux_dri.Base.Decimal.{str_nat, str_int, int_text}
use ydyun_vdesktop_linux_dri.Base.Floats.{Float, nan, infinite, finite, truncate}
use ydyun_vdesktop_linux_dri.Base.Address.{is_address}
use ydyun_vdesktop_linux_dri.Session.Json.{
  Json, null, boolean, integer, float, text, array, object, given,
}

pub data Fault : Type 0 where
  not_text has_space not_a_host not_an_integer port_outside : Fault
  still_encrypted missing_vm_id : Fault
  no_credentials server_required has_newline : Fault
  not_an_object options_required : Fault

-- `session` is SessionFormatError with its message as a fault.
pub data SessionError : Type 0 where
  session : Fault → SessionError
  os_error json_error value_error overflow_error unicode_error : SessionError

-- `str(value)`; an integer of more than 4300 digits is a ValueError.
abbrev str_value : ℤ → Result SessionError Text
str_value n =
    if ltb 4300 (length (str_nat (pos_part n + neg_part n)))
    then err value_error
    else ok (str_int n)

-- `str(value)` of a string or an integer, with the check on the type.
unfoldable pub shown : Json → Result SessionError Text
shown (text s) = ok s
shown (integer n) = str_value n
shown (boolean true) = ok (codes "True")
shown (boolean false) = ok (codes "False")
shown other = err (session not_text)

unfoldable pub text_field : Json → Result SessionError (Option Text)
unfolding shown
text_field value =
    if not (given value)
    then ok none
    else (shown value >>= λ raw.
        raise_if (length (strip raw) == 0 || any is_space (strip raw)) (session has_space)
        >> ok (some (strip raw)))

-- The characters that `_host` refuses in what is no address.
abbrev bad_host_chars : Text
bad_host_chars = codes "/\\:;|&`$\"'"

unfoldable pub check_host : Option Text → Result SessionError (Option Text)
check_host none = ok none
check_host (some host) = do
  raise_if (not (is_address host) && any (λ c. elem c bad_host_chars) host) (session not_a_host)
  ok (some host)

unfoldable pub host_field : Json → Result SessionError (Option Text)
unfolding text_field check_host
host_field value = text_field value >>= check_host

-- `int(value)`; a ValueError or TypeError is reported as a SessionFormatError.
unfoldable pub int_value : Json → Result SessionError ℤ
int_value (integer n) = ok n
int_value (boolean b) = ok (pos (if b then 1 else 0))
int_value (float nan) = err (session not_an_integer)
int_value (float (infinite negative)) = err overflow_error
int_value (float (finite negative units)) = ok (truncate negative units)
int_value (text s) = elim (int_text s) [ some n ↦ ok n | none ↦ err (session not_an_integer) ]
int_value other = err (session not_an_integer)

unfoldable pub check_port : ℤ → Result SessionError (Option ℕ)
check_port (pos n) = if leb 1 n && leb n 65535 then ok (some n) else err (session port_outside)
check_port (negsuc n) = err (session port_outside)

unfoldable pub port_field : Json → Result SessionError (Option ℕ)
unfolding int_value check_port
port_field value = if not (given value) then ok none else (int_value value >>= check_port)
