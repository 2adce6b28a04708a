-- ===== src/Usb/Settings/Backward/Accepted.antt =====
-- What the settings of a backward bridge promise, and what the bridge makes of them.
use ydyun_vdesktop_linux_dri.Base.{
  ℕ, ◌≤◌, ◌≡◌, ◌≢◌, refl, ◌⊎◌, inl, inr, true, false, not, ◌&&◌, ◌||◌, List, [], ◌∷◌, arith, ◌==◌,
  elem, All, Text, text_eq, text_eq_iff, one_of, codes, strip, lower_char, map, length, ok,
  >>=-eq-ok, raise_if-ok, ok_injective, subst, Bool-cases,
}
use ydyun_vdesktop_linux_dri.Base.Int.{ℤ, pos, negsuc}
use ydyun_vdesktop_linux_dri.Base.Floats.{float_between}
use ydyun_vdesktop_linux_dri.Base.Address.{is_address, split_on}
use ydyun_vdesktop_linux_dri.Usb.Errors.{
  controller, bridge_disabled, ops_not_allowed, unknown_compression, same_endpoints,
}
use ydyun_vdesktop_linux_dri.Usb.Bridge.Steps.{System, Reach}
use ydyun_vdesktop_linux_dri.Usb.Bridge.Bounds.{Reach-bounded}
use ydyun_vdesktop_linux_dri.Usb.Relay.{compression_modes}
use ydyun_vdesktop_linux_dri.Usb.Settings.{
  parse_bool, parse_port, parse_positive_int, validate_bind_host, parse_seconds,
}
use ydyun_vdesktop_linux_dri.Usb.Settings.Values.{
  parse_port_bounds, parse_positive_int_bounds, validate_bind_host-address, parse_seconds_bounds,
}
use ydyun_vdesktop_linux_dri.Usb.Settings.Connection.{ConfigFile, option_or, read_section}
use ydyun_vdesktop_linux_dri.Usb.Settings.Backward.{
  BackwardSettings, insert_op, allowed_item, op_of, op_set, all_allowed, parse_items, parse_ops,
  load_backward_settings, bridge_settings,
}

abbrev pub IsPort : ℕ → Type 0
IsPort n = (1 ≤ n) × (n ≤ 65535)

abbrev pub IsOp : ℕ → Type 0
IsOp n = (n ≡ 1) ⊎ (n ≡ 2)

pub record IsBackwardSettings (s : BackwardSettings) : Type 0 where
  pub hosts : (is_address s.listen_host ≡ true) × (is_address s.proxy_host ≡ true)
  pub ports : IsPort s.listen_port × IsPort s.proxy_port
  pub timeouts :
      (float_between 2 s.frame_timeout 600 ≡ true) × (float_between 2 s.attach_timeout 600 ≡ true)
  pub queue : (1 ≤ s.max_pending) × (s.max_pending ≤ 256)
  pub some_op : 1 ≤ length s.allowed_ops
  pub ops : All IsOp s.allowed_ops
  pub compression : (s.compression ≡ codes "off") ⊎ (s.compression ≡ codes "lz4")
  pub apart : (s.listen_host ≢ s.proxy_host) ⊎ (s.listen_port ≢ s.proxy_port)

insert_op-IsOp : (n : ℕ) (ops : List ℕ) → IsOp n → All IsOp ops → All IsOp (insert_op n ops)
insert_op-IsOp n ops h hs = elim (Bool-cases (elem n ops)) [
  | inl there ↦ rw there hs
  | inr new ↦ rw new (h, hs)
]

insert_op-some : (n : ℕ) (ops : List ℕ) → 1 ≤ length (insert_op n ops)
insert_op-some n [] = omega arith
insert_op-some n (op ∷ ops) = elim (Bool-cases (elem n (op ∷ ops))) [
  | inl there ↦ rw there (omega arith)
  | inr new ↦ rw new (omega arith)
]

allowed_item-IsOp : (n : ℤ) → allowed_item n ≡ true → IsOp (op_of n)
allowed_item-IsOp (pos n) h = ground arith
allowed_item-IsOp (negsuc n) h = absurd (ground arith)

op_set-IsOp : (ns : List ℤ) → all_allowed ns ≡ true → All IsOp (op_set ns)
unfolding all_allowed op_set
op_set-IsOp [] h = tt
op_set-IsOp (n ∷ ns) h =
    insert_op-IsOp (op_of n) (op_set ns) (allowed_item-IsOp n (ground arith))
      (op_set-IsOp ns (ground arith))

op_set-some : (ns : List ℤ) → 1 ≤ length ns → 1 ≤ length (op_set ns)
unfolding op_set
op_set-some [] h = absurd (omega arith)
op_set-some (n ∷ ns) h = insert_op-some (op_of n) (op_set ns)

parse_ops-IsOp :
    (raw : Text) {ops : List ℕ} → parse_ops raw ≡ ok ops → (1 ≤ length ops) × All IsOp ops
unfolding parse_ops
parse_ops-IsOp raw {ops} e =
    let (ns, parsed, e1) = >>=-eq-ok (parse_items (split_on b',' raw)) _ e in
    let (fine, e2) =
      raise_if-ok (length ns == 0 || not (all_allowed ns)) (controller ops_not_allowed) e1 in
    subst (λ ops. (1 ≤ length ops) × All IsOp ops) (ok_injective refl e2)
      (op_set-some ns (ground arith), op_set-IsOp ns (ground arith))

compression-modes :
    (s : Text) → not (one_of s compression_modes) ≡ false → (s ≡ codes "off") ⊎ (s ≡ codes "lz4")
compression-modes s h = elim (Bool-cases (text_eq s (codes "off"))) [
  | inl off ↦ inl ((text_eq_iff s (codes "off")).0 off)
  | inr other ↦ inr ((text_eq_iff s (codes "lz4")).0 (ground arith))
]

ends-apart :
    (host host' : Text) (port port' : ℕ)
    → (text_eq host host' && port == port') ≡ false
    → (host ≢ host') ⊎ (port ≢ port')
ends-apart host host' port port' h = elim (Bool-cases (port == port')) [
  | inl same ↦ inl (λ e. let e' = (text_eq_iff host host').1 e in absurd (ground arith))
  | inr other ↦ inr (λ e. ground arith)
]

-- Backward settings that are loaded bind two addresses, with ports from 1 to 65535, that are not the
-- same endpoint, have timeouts from 1 to 300 seconds, a queue of 1 to 256 links, operations that are
-- 1 or 2, one at least, and `off` or `lz4` for their compression.
pub load_backward_settings-IsBackwardSettings :
    (file : ConfigFile) (s : BackwardSettings)
    → load_backward_settings file ≡ ok s
    → IsBackwardSettings s
unfolding load_backward_settings
load_backward_settings-IsBackwardSettings file s e =
    let ((section, sections), found, e1) = >>=-eq-ok (read_section file (codes "backward")) _ e in
    let (enabled, b, e2) =
      >>=-eq-ok (parse_bool (option_or section (codes "enabled") (codes "no"))) _ e1 in
    let (on, e3) = raise_if-ok (not enabled) (controller bridge_disabled) e2 in
    let (listen, h1, e4) =
      >>=-eq-ok (validate_bind_host (option_or section (codes "listen_host") (codes "0.0.0.0"))) _
        e3 in
    let (proxy, h2, e5) =
      >>=-eq-ok (validate_bind_host (option_or section (codes "proxy_host") (codes "127.0.0.1"))) _
        e4 in
    let (port, h3, e6) =
      >>=-eq-ok (parse_port (option_or section (codes "listen_port") (codes "3246"))) _ e5 in
    let (port', h4, e7) =
      >>=-eq-ok (parse_port (option_or section (codes "proxy_port") (codes "3247"))) _ e6 in
    let (frame, h5, e8) =
      >>=-eq-ok (parse_seconds (option_or section (codes "frame_timeout") (codes "10")) 2 600) _
        e7 in
    let (queue, h6, e9) =
      >>=-eq-ok (parse_positive_int (option_or section (codes "max_pending") (codes "16")) 256) _
        e8 in
    let (ops, h7, e10) =
      >>=-eq-ok (parse_ops (option_or section (codes "allowed_ops") (codes "1,2"))) _ e9 in
    let (auto, h8, e11) =
      >>=-eq-ok (parse_bool (option_or section (codes "auto_attach") (codes "no"))) _ e10 in
    let (attach, h9, e12) =
      >>=-eq-ok (parse_seconds (option_or section (codes "attach_timeout") (codes "30")) 2 600) _
        e11 in
    let compression =
      map lower_char (strip (option_or section (codes "compression") (codes "off"))) in
    let (mode, e13) =
      raise_if-ok (not (one_of compression compression_modes)) (controller unknown_compression)
        e12 in
    let (differ, e14) =
      raise_if-ok (text_eq listen proxy && port == port') (controller same_endpoints) e13 in
    let (some_op, all_ops) = parse_ops-IsOp _ h7 in
    subst IsBackwardSettings (ok_injective refl e14) (record {
      hosts = (validate_bind_host-address _ h1, validate_bind_host-address _ h2);
      ports = (parse_port_bounds _ h3, parse_port_bounds _ h4);
      timeouts = (parse_seconds_bounds _ 2 600 h5, parse_seconds_bounds _ 2 600 h9);
      queue = parse_positive_int_bounds _ 256 h6;
      some_op = some_op;
      ops = all_ops;
      compression = compression-modes compression mode;
      apart = ends-apart listen proxy port port' differ;
    })

-- A bridge that runs with settings that were loaded holds 256 pending links at most, in every order
-- of its threads.
pub load_backward_settings-pending :
    (file : ConfigFile) (s : BackwardSettings) (system : System)
    → load_backward_settings file ≡ ok s
    → Reach (bridge_settings s) system
    → length system.bridge.pending ≤ 256
unfolding bridge_settings
load_backward_settings-pending file s system e r =
    let v = load_backward_settings-IsBackwardSettings file s e in
    omega (arith, Reach-bounded v.queue.0 r, v.queue)
