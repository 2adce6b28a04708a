-- ===== src/Usb/Settings/Backward.antt =====
-- linux/src/ydyun_usbctl.py: BackwardSettings and load_backward_settings.
pub mod Accepted
use ydyun_vdesktop_linux_dri.Base.{
  ℕ, ◌≤◌, ◌<◌, ◌≡◌, refl, ◌⊎◌, inl, inr, Bool, true, false, not, ◌&&◌, ◌||◌, List, [], ◌∷◌, Option,
  none, some, arith, ltb, ◌==◌, elem, All, Text, text_eq, text_eq_iff, one_of, codes, strip,
  lower_char, map, length, Result, err, ok, raise_if, ◌>>=◌, ◌>>◌, >>=-eq-ok, raise_if-ok,
  ok_injective, if◌then◌else◌, sym, subst,
}
use ydyun_vdesktop_linux_dri.Base.Int.{ℤ, pos, negsuc}
use ydyun_vdesktop_linux_dri.Base.Decimal.{int_text}
use ydyun_vdesktop_linux_dri.Base.Floats.{Float, float_between}
use ydyun_vdesktop_linux_dri.Base.Address.{is_address, split_on}
use ydyun_vdesktop_linux_dri.Usb.Errors.{
  UsbError, controller, bridge_disabled, ops_not_integers, ops_not_allowed, unknown_compression,
  same_endpoints,
}
use ydyun_vdesktop_linux_dri.Usb.Backward.{backward_allowed_ops}
use ydyun_vdesktop_linux_dri.Usb.Bridge.{BridgeSettings}
use ydyun_vdesktop_linux_dri.Usb.Bridge.Steps.{System, Reach}
use ydyun_vdesktop_linux_dri.Usb.Bridge.Bounds.{Reach-bounded}
use ydyun_vdesktop_linux_dri.Usb.Relay.{compression_modes}
use ydyun_vdesktop_linux_dri.Usb.Settings.{
  parse_bool, parse_port, parse_positive_int, validate_bind_host, parse_seconds,
}
use ydyun_vdesktop_linux_dri.Usb.Settings.Values.{
  parse_port_bounds, parse_positive_int_bounds, validate_bind_host-address, parse_seconds_bounds,
}
use ydyun_vdesktop_linux_dri.Usb.Settings.Connection.{ConfigFile, Section, option_or, read_section}

pub record BackwardSettings : Type 0 where
  pub listen_host : Text
  pub listen_port : ℕ
  pub proxy_host : Text
  pub proxy_port : ℕ
  pub frame_timeout : Float
  pub max_pending : ℕ
  pub allowed_ops : List ℕ
  pub auto_attach : Bool
  pub attach_timeout : Float
  pub compression : Text

-- `frozenset`: a number that is there already is not added.
abbrev pub insert_op : ℕ → List ℕ → List ℕ
insert_op n ops = if elem n ops then ops else n ∷ ops

-- One item of the list of operations: -1 and the like are integers, but not among those allowed.
abbrev pub allowed_item : ℤ → Bool
allowed_item (pos n) = elem n backward_allowed_ops
allowed_item (negsuc n) = false

unfoldable parse_items : List Text → Result UsbError (List ℤ)
parse_items [] = ok []
parse_items (item ∷ items) =
    let rest = parse_items items in
    if length (strip item) == 0 then rest else elim (int_text (strip item)) [
      | none ↦ err (controller ops_not_integers)
      | some n ↦ (rest >>= λ ns. ok (n ∷ ns))
    ]

unfoldable all_allowed : List ℤ → Bool
all_allowed [] = true
all_allowed (n ∷ ns) = allowed_item n && all_allowed ns

abbrev pub op_of : ℤ → ℕ
op_of (pos n) = n
op_of (negsuc n) = 0

unfoldable op_set : List ℤ → List ℕ
op_set [] = []
op_set (n ∷ ns) = insert_op (op_of n) (op_set ns)

unfoldable pub parse_ops : Text → Result UsbError (List ℕ)
unfolding parse_items all_allowed op_set
parse_ops raw = do
  numbers ← parse_items (split_on b',' raw)
  raise_if (length numbers == 0 || not (all_allowed numbers)) (controller ops_not_allowed)
  ok (op_set numbers)

unfoldable pub load_backward_settings : ConfigFile → Result UsbError BackwardSettings
load_backward_settings file = do
  (section, sections) ← read_section file (codes "backward")
  enabled ← parse_bool (option_or section (codes "enabled") (codes "no"))
  raise_if (not enabled) (controller bridge_disabled)
  listen_host ← validate_bind_host (option_or section (codes "listen_host") (codes "0.0.0.0"))
  proxy_host ← validate_bind_host (option_or section (codes "proxy_host") (codes "127.0.0.1"))
  listen_port ← parse_port (option_or section (codes "listen_port") (codes "3246"))
  proxy_port ← parse_port (option_or section (codes "proxy_port") (codes "3247"))
  frame_timeout ← parse_seconds (option_or section (codes "frame_timeout") (codes "10")) 2 600
  max_pending ← parse_positive_int (option_or section (codes "max_pending") (codes "16")) 256
  allowed_ops ← parse_ops (option_or section (codes "allowed_ops") (codes "1,2"))
  auto_attach ← parse_bool (option_or section (codes "auto_attach") (codes "no"))
  attach_timeout ← parse_seconds (option_or section (codes "attach_timeout") (codes "30")) 2 600
  let compression = map lower_char (strip (option_or section (codes "compression") (codes "off")))
  raise_if (not (one_of compression compression_modes)) (controller unknown_compression)
  raise_if (text_eq listen_host proxy_host && listen_port == proxy_port) (controller same_endpoints)
  ok (record {
    listen_host = listen_host;
    listen_port = listen_port;
    proxy_host = proxy_host;
    proxy_port = proxy_port;
    frame_timeout = frame_timeout;
    max_pending = max_pending;
    allowed_ops = allowed_ops;
    auto_attach = auto_attach;
    attach_timeout = attach_timeout;
    compression = compression;
  })

-- The part of the settings that the bridge's own steps look at.
unfoldable pub bridge_settings : BackwardSettings → BridgeSettings
bridge_settings s = record {
  max_pending = s.max_pending;
  allowed_ops = s.allowed_ops;
  auto_attach = s.auto_attach;
}
