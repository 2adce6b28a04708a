-- ===== src/Usb/Probe/Answers.antt =====
-- What a peer has to send for a probe to succeed.
use ydyun_vdesktop_linux_dri.Base.{
  ℕ, ◌≡◌, refl, sym, ◌∙◌, ap, ◌↔◌, true, not, List, ◌∷◌, ◌++◌, some, All, arith, length,
  length-take, drop, take-append-drop, field_be, unpack_be, ok, >>=-eq-ok, raise_if-ok,
  ok_injective,
}
use ydyun_vdesktop_linux_dri.Usb.Errors.{os_error}
use ydyun_vdesktop_linux_dri.Usb.Socket.{Socket, recv_exact}
use ydyun_vdesktop_linux_dri.Usb.Socket.Exact.{stream, recv_exact-Receives, recv_exact_takes}
use ydyun_vdesktop_linux_dri.Usb.Bridge.{usbip_version}
use ydyun_vdesktop_linux_dri.Usb.Probe.{
  Endpoint, op_rep_devlist, op_req_devlist, op_rep_link_init, check_common, read_header, read_count,
  probe_one, probe_link_one, passed_over, link_passed_over, probe_protocol, probe_link_protocol,
}
use ydyun_vdesktop_linux_dri.Usb.Probe.Attempts.{IsPassed, try_each_iff}

-- A common header of eight bytes with the version, the code and the status 0, in network byte order.
pub record IsCommon (code : ℕ) (header : List ℕ) : Type 0 where
  pub size : length header ≡ 8
  pub version : field_be 0 2 header ≡ usbip_version
  pub kind : field_be 2 2 header ≡ code
  pub status : field_be 4 4 header ≡ 0

-- A header, and then other bytes.
abbrev pub Heads : ℕ → List ℕ → List ℕ → Type 0
Heads code bytes rest = (header : List ℕ) × (bytes ≡ header ++ rest) × IsCommon code header

-- The number of devices in four bytes.
abbrev pub Counts : List ℕ → ℕ → Type 0
Counts bytes n =
    (count : List ℕ) × (rest : List ℕ) × (bytes ≡ count ++ rest)
    × (length count ≡ 4)
    × (unpack_be count ≡ n)

check_common-ok :
    (code : ℕ) (header : List ℕ) (u : Unit {0})
    → length header ≡ 8
    → check_common code header ≡ ok u
    → IsCommon code header
unfolding check_common
check_common-ok code header u size h = record {
  size = size;
  version = ground arith;
  kind = ground arith;
  status = ground arith;
}

check_common-passes :
    (code : ℕ) (header : List ℕ) → IsCommon code header → check_common code header ≡ ok tt
unfolding check_common
check_common-passes code header v = ground arith

received :
    (size : ℕ) (sock sock' : Socket) (bytes : List ℕ)
    → recv_exact size sock ≡ ok (bytes, sock')
    → (stream sock ≡ bytes ++ stream sock') × (length bytes ≡ size)
received size sock sock' bytes e =
    let (fits, cut, left) = rw e at (recv_exact-Receives size sock) in
    (
      sym (take-append-drop size (stream sock))
          ∙ ap (λ x. x ++ drop size (stream sock)) (sym cut)
          ∙ ap (λ x. bytes ++ x) (sym left),
      omega (arith, ap length cut, length-take size (stream sock)),
    )

read_header-Heads :
    (code : ℕ) (sock sock' : Socket)
    → read_header code sock ≡ ok sock'
    → Heads code (stream sock) (stream sock')
unfolding read_header
read_header-Heads code sock sock' e =
    let ((header, sock2), r, e1) = >>=-eq-ok (recv_exact 8 sock) _ e in
    let (u, checked, e2) = >>=-eq-ok (check_common code header) _ e1 in
    let (shape, size) = received 8 sock sock2 header r in
    (
      header,
      shape ∙ ap (λ s. header ++ stream s) (ok_injective refl e2),
      check_common-ok code header u size checked,
    )

read_header_takes :
    (code : ℕ) (sock : Socket) (rest : List ℕ)
    → Heads code (stream sock) rest
    → (sock' : Socket) × (read_header code sock ≡ ok sock') × (stream sock' ≡ rest)
unfolding read_header
read_header_takes code sock rest (header, shape, v) =
    let (sock', r, left) = recv_exact_takes 8 sock header rest shape v.size in
    (sock', rw (r, check_common-passes code header v) refl, left)

read_count_iff : (sock : Socket) (n : ℕ) → (read_count sock ≡ ok n) ↔ Counts (stream sock) n
unfolding read_count
read_count_iff sock n = (there, back)
  where
    there : read_count sock ≡ ok n → Counts (stream sock) n
    there e =
        let ((count, sock'), r, e1) = >>=-eq-ok (recv_exact 4 sock) _ e in
        let (shape, size) = received 4 sock sock' count r in
        (count, stream sock', shape, size, ok_injective refl e1)

    back : Counts (stream sock) n → read_count sock ≡ ok n
    back (count, rest, shape, size, value) =
        let (sock', r, left) = recv_exact_takes 4 sock count rest shape size in rw (r, value) refl

-- The peer takes the request, and answers with a header and the number of devices.
abbrev pub Answers : Endpoint → ℕ → Type 0
Answers e n =
    (e.connects ≡ true)
    × (e.sends 0 ≡ true)
    × ((rest : List ℕ) × Heads op_rep_devlist (stream e.socket) rest × Counts rest n)

probe_one_iff : (e : Endpoint) (n : ℕ) → (probe_one e ≡ ok n) ↔ Answers e n
unfolding probe_one
probe_one_iff e n = (there, back)
  where
    there : probe_one e ≡ ok n → Answers e n
    there h =
        let (connected, h1) = raise_if-ok (not e.connects) os_error h in
        let (sent, h2) = raise_if-ok (not (e.sends 0)) os_error h1 in
        let (sock, header, h3) = >>=-eq-ok (read_header op_rep_devlist e.socket) _ h2 in
        (
          ground arith,
          ground arith,
          (
            stream sock,
            read_header-Heads op_rep_devlist e.socket sock header,
            (read_count_iff sock n).0 h3,
          ),
        )

    back : Answers e n → probe_one e ≡ ok n
    back (connected, sent, (rest, heads, counts)) =
        let (sock, header, left) = read_header_takes op_rep_devlist e.socket rest heads in
        rw (connected, sent, header) ((read_count_iff sock n).1 (rw (sym left) at counts))

-- The peer takes the first header, answers it, sends a request of its own, takes the second header
-- and sends the number of devices.
abbrev pub LinkAnswers : Endpoint → ℕ → Type 0
LinkAnswers e n =
    (e.connects ≡ true)
    × (e.sends 0 ≡ true)
    × (e.sends 1 ≡ true)
    × ((rest : List ℕ) × (rest' : List ℕ) × Heads op_rep_link_init (stream e.socket) rest
        × Heads op_req_devlist rest rest'
        × Counts rest' n)

probe_link_one_iff : (e : Endpoint) (n : ℕ) → (probe_link_one e ≡ ok n) ↔ LinkAnswers e n
unfolding probe_link_one
probe_link_one_iff e n = (there, back)
  where
    there : probe_link_one e ≡ ok n → LinkAnswers e n
    there h =
        let (connected, h1) = raise_if-ok (not e.connects) os_error h in
        let (sent, h2) = raise_if-ok (not (e.sends 0)) os_error h1 in
        let (sock, header, h3) = >>=-eq-ok (read_header op_rep_link_init e.socket) _ h2 in
        let (sock', header', h4) = >>=-eq-ok (read_header op_req_devlist sock) _ h3 in
        let (sent', h5) = raise_if-ok (not (e.sends 1)) os_error h4 in
        (
          ground arith,
          ground arith,
          ground arith,
          (
            stream sock,
            stream sock',
            read_header-Heads op_rep_link_init e.socket sock header,
            read_header-Heads op_req_devlist sock sock' header',
            (read_count_iff sock' n).0 h5,
          ),
        )

    back : LinkAnswers e n → probe_link_one e ≡ ok n
    back (connected, sent, sent', (rest, rest', heads, heads', counts)) =
        let (sock, header, left) = read_header_takes op_rep_link_init e.socket rest heads in
        let (sock', header', left') =
          read_header_takes op_req_devlist sock rest' (rw (sym left) at heads') in
        rw (connected, sent, header, header', sent')
          ((read_count_iff sock' n).1 (rw (sym left') at counts))

-- A probe returns a number of devices exactly where one of the addresses, tried after others that
-- failed with an error of the system, takes the request and sends a common header of the code
-- OP_REP_DEVLIST, with the version and the status 0, and then this number.
pub probe_protocol_iff :
    (es : List Endpoint) (n : ℕ)
    → (probe_protocol (some es) ≡ ok n) ↔ (
        (before : List Endpoint) × (e : Endpoint) × (after : List Endpoint) × (es
          ≡ before ++ (e ∷ after))
        × All (IsPassed passed_over probe_one) before
        × (e.opens ≡ true)
        × Answers e n)
unfolding probe_protocol
probe_protocol_iff es n = (
  λ h.
      let (before, e, after, same, all, open', good) =
        (try_each_iff passed_over probe_one es n).0 h in
      (before, e, after, same, all, open', (probe_one_iff e n).0 good),
  λ (before, e, after, same, all, open', answers).
      (try_each_iff passed_over probe_one es n).1
        (before, e, after, same, all, open', (probe_one_iff e n).1 answers),
)

-- A probe of the link returns a number of devices exactly where one of the addresses, tried after
-- others that failed in any way, takes the first header, sends a header OP_REP_LINK_INIT and a header
-- OP_REQ_DEVLIST, takes the second header and sends this number itself.
pub probe_link_protocol_iff :
    (es : List Endpoint) (n : ℕ)
    → (probe_link_protocol (some es) ≡ ok n) ↔ (
        (before : List Endpoint) × (e : Endpoint) × (after : List Endpoint) × (es
          ≡ before ++ (e ∷ after))
        × All (IsPassed link_passed_over probe_link_one) before
        × (e.opens ≡ true)
        × LinkAnswers e n)
unfolding probe_link_protocol
probe_link_protocol_iff es n = (
  λ h.
      let (before, e, after, same, all, open', good) =
        (try_each_iff link_passed_over probe_link_one es n).0 h in
      (before, e, after, same, all, open', (probe_link_one_iff e n).0 good),
  λ (before, e, after, same, all, open', answers).
      (try_each_iff link_passed_over probe_link_one es n).1
        (before, e, after, same, all, open', (probe_link_one_iff e n).1 answers),
)
