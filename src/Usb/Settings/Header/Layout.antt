-- ===== src/Usb/Settings/Header/Layout.antt =====
-- What stands where in the preamble that build_vendor_proxy_header builds.
use ydyun_vdesktop_linux_dri.Base.{
  ℕ, zero, suc, ◌+◌, ◌-◌, ◌≤◌, ◌≡◌, refl, sym, ◌∙◌, ap, arith, List, [], ◌∷◌, ◌++◌, append_assoc,
  length, drop, replicate, length-append, take-length, drop-append_right, length-replicate, pack_le,
  Text, ltb, leb, not, ◌||◌, any, strip, Bool-cases, inl, inr, ok, >>=-eq-ok, raise_if-ok,
  ok_injective, false,
}
use ydyun_vdesktop_linux_dri.Base.Int.{ℤ, pos, pos_part, neg_part}
use ydyun_vdesktop_linux_dri.Base.Decimal.{str_nat}
use ydyun_vdesktop_linux_dri.Usb.Errors.{controller, host_not_ascii, host_too_long, port_too_long}
use ydyun_vdesktop_linux_dri.Usb.Backward.{decode_ascii}
use ydyun_vdesktop_linux_dri.Usb.Settings.{validate_host}
use ydyun_vdesktop_linux_dri.Usb.Settings.Values.{parse_port-str_int, validate_host-IsHostName}
use ydyun_vdesktop_linux_dri.Usb.Settings.Header.{
  write_at, vendor_proxy_header_size, vendor_proxy_host_limit, vendor_proxy_port_limit, fill_header,
  port_argument, build_vendor_proxy_header,
}

abbrev zeros : ℕ → List ℕ
zeros n = replicate n 0

replicate-append : (j k : ℕ) → replicate {A = ℕ} (j + k) 0 ≡ zeros j ++ zeros k
replicate-append zero k = ap zeros (omega arith)
replicate-append (suc j) k = ap zeros shape ∙ ap (◌∷◌ 0) (replicate-append j k)
  where
    shape : suc j + k ≡ suc (j + k)
    shape = omega arith

drop-replicate : (j k : ℕ) → drop j (zeros k) ≡ zeros (k - j)
drop-replicate zero k = ap zeros shape
  where
    shape : k ≡ k - 0
    shape = omega arith
drop-replicate (suc j) zero = ap zeros shape
  where
    shape : 0 ≡ 0 - suc j
    shape = omega arith
drop-replicate (suc j) (suc k) = drop-replicate j k ∙ ap zeros shape
  where
    shape : k - j ≡ suc k - suc j
    shape = omega arith

-- Writing behind the bytes that are there, into zeros.
write_at-end :
    (at k : ℕ) (before bytes : List ℕ)
    → at ≡ length before
    → write_at at bytes (before ++ zeros k) ≡ before ++ (bytes ++ zeros (k - length bytes))
write_at-end at k before bytes e =
    rw
      (
        e,
        take-length before (zeros k),
        drop-append_right (length before + length bytes) (length bytes) before (zeros k) refl,
        drop-replicate (length bytes) k,
      )
      refl

write_at-gap :
    (at j k : ℕ) (before bytes : List ℕ)
    → at ≡ length before + j
    → j ≤ k
    → write_at at bytes (before ++ zeros k)
      ≡ before ++ (zeros j ++ (bytes ++ zeros (k - j - length bytes)))
write_at-gap at j k before bytes e h =
    let split : before ++ zeros k ≡ (before ++ zeros j) ++ zeros (k - j) =
      ap (λ n. before ++ zeros n) (omega arith)
      ∙ ap (◌++◌ before) (replicate-append j (k - j))
      ∙ sym (append_assoc before (zeros j) (zeros (k - j))) in
    ap (write_at at bytes) split
    ∙ write_at-end at (k - j) (before ++ zeros j) bytes
        (omega (arith, length-append before (zeros j), length-replicate {A = ℕ} j 0))
    ∙ append_assoc before (zeros j) (bytes ++ zeros (k - j - length bytes))

-- The fixed part: the number 1, four zeros, the link's port, the number 2, and the bytes "u" and 2.
abbrev pub preamble : ℕ → List ℕ
preamble link = pack_le 4 1 ++ (zeros 4 ++ (pack_le 4 link ++ (pack_le 4 2 ++ (b'u' ∷ 2 ∷ []))))

-- The header as a whole: the fixed part, the host in a field of 33 bytes, the port in a field of 17 bytes
-- and zeros to the end.
abbrev pub header_of : ℕ → List ℕ → List ℕ → List ℕ
header_of link host port =
    preamble link ++ (host ++ (zeros (33 - length host) ++ (port ++ zeros (65 - length port))))

fill_header-layout :
    (link : ℕ) (host port : List ℕ)
    → length host ≤ vendor_proxy_host_limit
    → fill_header link host port ≡ header_of link host port
unfolding fill_header
fill_header-layout link host port h =
    let with_host = write_at-end 18 98 (preamble link) host refl in
    let shape : preamble link ++ (host ++ zeros (98 - length host))
        ≡ (preamble link ++ host) ++ zeros (98 - length host) =
      sym (append_assoc (preamble link) host (zeros (98 - length host))) in
    let with_port =
      write_at-gap 51 (33 - length host) (98 - length host) (preamble link ++ host) port
        (omega (arith, length-append (preamble link) host)) (omega arith) in
    let rest : 98 - length host - (33 - length host) - length port ≡ 65 - length port =
      omega arith in
    ap (write_at 51 port) (with_host ∙ shape)
    ∙ with_port
    ∙ ap (λ n. preamble link ++ (host ++ (zeros (33 - length host) ++ (port ++ zeros n)))) rest

length-header_of :
    (link : ℕ) (host port : List ℕ)
    → length host ≤ 33
    → length port ≤ 17
    → length (header_of link host port) ≡ vendor_proxy_header_size
length-header_of link host port h p = omega (
  arith,
  length-append host (zeros (33 - length host) ++ (port ++ zeros (65 - length port))),
  length-append (zeros (33 - length host)) (port ++ zeros (65 - length port)),
  length-append port (zeros (65 - length port)),
  length-replicate {A = ℕ} (33 - length host) 0,
  length-replicate {A = ℕ} (65 - length port) 0,
)

decode_ascii-ok :
    (s : List ℕ) {t : Text}
    → decode_ascii (controller host_not_ascii) s ≡ ok t
    → (any (λ c. ltb 127 c) s ≡ false) × (t ≡ s)
decode_ascii-ok s e = ground arith

port_argument-ok :
    (z : ℤ) {port : ℕ} → port_argument z ≡ ok port → (z ≡ pos port) × (1 ≤ port) × (port ≤ 65535)
unfolding port_argument
port_argument-ok z e = elim (Bool-cases (ltb 4300 (length (str_nat (pos_part z + neg_part z))))) [
  | inl long ↦ absurd (ground arith)
  | inr short ↦ parse_port-str_int z (ground arith) (rw short at e)
]

-- A header that is built has 116 bytes: the number 1, four zeros, the link's port, the number 2 and
-- the bytes "u" and 2, then the host without the white space around it in a field of 33 bytes, then
-- the digits of the port, and zeros. Both ports are from 1 to 65535; the host has 1 to 33 ASCII characters.
pub build_vendor_proxy_header-layout :
    (raw : Text) (destination_port link_port : ℤ) (header : List ℕ)
    → build_vendor_proxy_header raw destination_port link_port ≡ ok header
    → (port : ℕ) × (link : ℕ) × (header ≡ header_of link (strip raw) (str_nat port))
      × (length header ≡ vendor_proxy_header_size)
      × (destination_port ≡ pos port)
      × (link_port ≡ pos link)
      × ((1 ≤ port) × (port ≤ 65535))
      × ((1 ≤ link) × (link ≤ 65535))
      × ((1 ≤ length (strip raw)) × (length (strip raw) ≤ 33))
      × (any (λ c. ltb 127 c) (strip raw) ≡ false)
unfolding build_vendor_proxy_header
build_vendor_proxy_header-layout raw destination_port link_port header e =
    let (host, h, e1) = >>=-eq-ok (validate_host raw) _ e in
    let (port, p, e2) = >>=-eq-ok (port_argument destination_port) _ e1 in
    let (link, l, e3) = >>=-eq-ok (port_argument link_port) _ e2 in
    let (host_bytes, b, e4) = >>=-eq-ok (decode_ascii (controller host_not_ascii) host) _ e3 in
    let (ascii, same) = decode_ascii-ok host b in
    let (fits, e5) =
      raise_if-ok
        (not (leb 1 (length host_bytes)) || ltb vendor_proxy_host_limit (length host_bytes))
        (controller host_too_long) e4 in
    let (fits', e6) =
      raise_if-ok (ltb vendor_proxy_port_limit (length (str_nat port))) (controller port_too_long)
        e5 in
    let stripped : host ≡ strip raw = (validate_host-IsHostName raw h).0 in
    let host_is : host_bytes ≡ strip raw = same ∙ stripped in
    let (p_is, p_low, p_high) = port_argument-ok destination_port p in
    let (l_is, l_low, l_high) = port_argument-ok link_port l in
    let bounds : (1 ≤ length host_bytes) × (length host_bytes ≤ 33) = ground arith in
    let short : (1 ≤ length (strip raw)) × (length (strip raw) ≤ 33) = rw host_is at bounds in
    let built : header ≡ header_of link (strip raw) (str_nat port) =
      sym (ok_injective refl e6)
      ∙ ap (λ s. fill_header link s (str_nat port)) host_is
      ∙ fill_header-layout link (strip raw) (str_nat port) short.1 in
    (
      port,
      link,
      built,
      ap length built ∙ length-header_of link (strip raw) (str_nat port) short.1 (ground arith),
      p_is,
      l_is,
      (p_low, p_high),
      (l_low, l_high),
      short,
      ap (any (λ c. ltb 127 c)) (sym stripped) ∙ ascii,
    )
