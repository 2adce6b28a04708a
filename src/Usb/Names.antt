-- ===== src/Usb/Names.antt =====
-- linux/src/ydyun_usbctl.py: the checks on bus IDs and host names.
use ydyun_vdesktop_linux_dri.Base.{
  ℕ, ◌≡◌, refl, sym, ◌≤◌, Bool, false, ◌||◌, [], ◌∷◌, arith, ltb, ◌==◌, any, length, Text, elem,
  is_space, strip, strip_none, Result, ok, ◌>>◌, raise_if,
}
use ydyun_vdesktop_linux_dri.Usb.Errors.{UsbError, controller, invalid_busid, busid_too_long}

-- `ch in ";|&`$\"'"`
abbrev pub shell_chars : Text
shell_chars = b';' ∷ b'|' ∷ b'&' ∷ 0x60 ∷ b'$' ∷ 0x22 ∷ 0x27 ∷ []

abbrev pub slash : ℕ
slash = 0x2f

abbrev pub backslash : ℕ
backslash = 0x5c

unfoldable pub in_shell_chars : ℕ → Bool
in_shell_chars c = elem c shell_chars

unfoldable pub bad_in_busid : ℕ → Bool
unfolding in_shell_chars
bad_in_busid c = is_space c || in_shell_chars c

unfoldable pub validate_busid : Text → Result UsbError Text
validate_busid raw = do
  let busid = strip raw
  raise_if (length busid == 0 || elem slash busid || elem backslash busid || any bad_in_busid busid)
      (controller invalid_busid)
  raise_if (ltb 128 (length busid)) (controller busid_too_long)
  ok busid

-- What the check promises: 1 to 128 characters, and none that is white space, a slash or a
-- character that a shell would read.
pub record IsBusid (busid : Text) : Type 0 where
  pub not_empty : 1 ≤ length busid
  pub short : length busid ≤ 128
  pub no_slash : elem slash busid ≡ false
  pub no_backslash : elem backslash busid ≡ false
  pub no_space : any is_space busid ≡ false
  pub no_shell : any in_shell_chars busid ≡ false

any-bad_in_busid : (s : Text) → any bad_in_busid s ≡ (any is_space s || any in_shell_chars s)
unfolding bad_in_busid
any-bad_in_busid [] = refl
any-bad_in_busid (c ∷ s) = split _ _ _ (is_space c) (in_shell_chars c) (any-bad_in_busid s)
  where
    split : (rest a b x y : Bool) → rest ≡ (a || b) → ((x || y) || rest) ≡ ((x || a) || (y || b))
    split rest a b x y e = ground arith

-- An accepted bus ID is the given text without the white space around it, has 1 to 128
-- characters, and has no white space, slash, backslash or character of the list of shell
-- characters in it.
pub validate_busid-IsBusid :
    (raw busid : Text) → validate_busid raw ≡ ok busid → (busid ≡ strip raw) × IsBusid busid
unfolding validate_busid
validate_busid-IsBusid raw busid e =
    let same : strip raw ≡ busid = ground arith in
    let e' = rw same at e in (sym same, ground (arith, any-bad_in_busid busid))

-- A text of 1 to 128 characters with no white space, slash, backslash or character of the list
-- of shell characters is accepted as it is.
pub validate_busid_accepts : (busid : Text) → IsBusid busid → validate_busid busid ≡ ok busid
unfolding validate_busid
validate_busid_accepts busid v =
    rw (strip_none busid v.no_space) (ground (arith, any-bad_in_busid busid))
