-- ===== src/Usb/Settings/Values.antt =====
-- What the checks on single values of a configuration accept.
use ydyun_vdesktop_linux_dri.Usb.Names.{slash}
use ydyun_vdesktop_linux_dri.Base.{
  ℕ, [], ◌≤◌, ◌≡◌, refl, ◌⊎◌, inl, inr, true, false, not, ◌||◌, ◌&&◌, arith, ◌==◌, any, length,
  Text, is_space, strip, Bool-cases, Option-cases, ok, raise_if-ok, ok_injective, sym, ◌+◌, elem,
  ◌∷◌,
}
use ydyun_vdesktop_linux_dri.Base.Int.{ℤ, pos, negsuc, pos_part, neg_part}
use ydyun_vdesktop_linux_dri.Base.Decimal.{int_text, str_nat, str_int}
use ydyun_vdesktop_linux_dri.Base.Decimal.RoundTrip.{
  int_text-str_nat, int_text-str_int, str_nat-count,
}
use ydyun_vdesktop_linux_dri.Base.Floats.{Float, float_text, float_between}
use ydyun_vdesktop_linux_dri.Base.Address.{is_address}
use ydyun_vdesktop_linux_dri.Base.Address.Slashes.{is_address-no_slash}
use ydyun_vdesktop_linux_dri.Usb.Errors.{
  UsbError, controller, port_out_of_range, not_in_range, invalid_host,
}
use ydyun_vdesktop_linux_dri.Usb.Settings.{
  in_range, parse_port, parse_positive_int, bad_in_host, validate_host, validate_bind_host,
  parse_seconds,
}

in_range-ok :
    (n : ℤ) (maximum : ℕ) (e : UsbError) {k : ℕ}
    → in_range n maximum e ≡ ok k
    → (n ≡ pos k) × (1 ≤ k) × (k ≤ maximum)
unfolding in_range
in_range-ok (pos n) maximum e h = ground arith
in_range-ok (negsuc n) maximum e h = absurd (ground arith)

-- A port is a number from 1 to 65535.
pub parse_port_bounds :
    (value : Text) {port : ℕ} → parse_port value ≡ ok port → (1 ≤ port) × (port ≤ 65535)
unfolding parse_port
parse_port_bounds value h = elim (Option-cases (int_text value)) [
  | inl bad ↦ absurd (ground arith)
  | inr (n, good) ↦
      let (same, low, high) =
        in_range-ok n 65535 (controller port_out_of_range) (rw (parse_port, good) at h) in
      (low, high)
]

-- The text of a port is that port.
pub parse_port-str_nat : (port : ℕ) → 1 ≤ port → port ≤ 65535 → parse_port (str_nat port) ≡ ok port
unfolding parse_port in_range
parse_port-str_nat port low high =
    rw (parse_port, int_text-str_nat port (omega (arith, str_nat-count port 4 (omega arith))))
      (ground arith)

-- Where the text of an integer is a port, the integer is that port.
pub parse_port-str_int :
    (z : ℤ) {port : ℕ}
    → length (str_nat (pos_part z + neg_part z)) ≤ 4300
    → parse_port (str_int z) ≡ ok port
    → (z ≡ pos port) × (1 ≤ port) × (port ≤ 65535)
unfolding parse_port
parse_port-str_int z short h =
    in_range-ok z 65535 (controller port_out_of_range)
      (rw (parse_port, int_text-str_int z short) at h)

pub parse_positive_int_bounds :
    (value : Text) (maximum : ℕ) {n : ℕ}
    → parse_positive_int value maximum ≡ ok n
    → (1 ≤ n) × (n ≤ maximum)
unfolding parse_positive_int
parse_positive_int_bounds value maximum h = elim (Option-cases (int_text value)) [
  | inl bad ↦ absurd (ground arith)
  | inr (n, good) ↦
      let (same, low, high) =
        in_range-ok n maximum (controller not_in_range) (rw (parse_positive_int, good) at h) in
      (low, high)
]

-- A host name that is accepted: one word with no slash in it, and an address if it has a character
-- that a shell or a URL would read.
pub record IsHostName (host : Text) : Type 0 where
  pub not_empty : 1 ≤ length host
  pub no_space : any is_space host ≡ false
  pub no_slash : elem slash host ≡ false
  pub plain : (any bad_in_host host ≡ false) ⊎ (is_address host ≡ true)

plain-no_slash : (s : Text) → any bad_in_host s ≡ false → elem slash s ≡ false
unfolding bad_in_host
plain-no_slash [] h = refl
plain-no_slash (c ∷ s) h = ground (arith, plain-no_slash s)

pub validate_host-IsHostName :
    (raw : Text) {host : Text} → validate_host raw ≡ ok host → (host ≡ strip raw) × IsHostName host
unfolding validate_host
validate_host-IsHostName raw {host} e =
    let host' = strip raw in
    let (word, e1) =
      raise_if-ok (length host' == 0 || any is_space host') (controller invalid_host) e in
    let (plain, e2) =
      raise_if-ok (any bad_in_host host' && not (is_address host')) (controller invalid_host) e1 in
    let same : host ≡ host' = sym (ok_injective refl e2) in
    let either : (any bad_in_host host' ≡ false) ⊎ (is_address host' ≡ true) =
      elim (Bool-cases (is_address host')) [ inl a ↦ inr a | inr n ↦ inl (ground arith) ] in
    let checked : IsHostName host' = record {
      not_empty = ground arith;
      no_space = ground arith;
      no_slash = elim either [
        | inl plain' ↦ plain-no_slash host' plain'
        | inr address ↦ is_address-no_slash host' address
      ];
      plain = either;
    } in
    (same, rw same checked)

pub validate_bind_host-address :
    (raw : Text) {host : Text} → validate_bind_host raw ≡ ok host → is_address host ≡ true
unfolding validate_bind_host
validate_bind_host-address raw e = ground arith

pub parse_seconds_bounds :
    (value : Text) (low high : ℕ) {x : Float}
    → parse_seconds value low high ≡ ok x
    → float_between low x high ≡ true
unfolding parse_seconds
parse_seconds_bounds value low high h = elim (Option-cases (float_text value)) [
  | inl bad ↦ absurd (ground arith)
  | inr (n, good) ↦ let h' = rw (parse_seconds, good) at h in ground arith
]
