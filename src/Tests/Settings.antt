-- ===== src/Tests/Settings.antt =====
-- Configuration files that are loaded and refused, and a vendor header.
use ydyun_vdesktop_linux_dri.Base.Address.{is_address, is_ipv4, split_on, is_ipv6}
use ydyun_vdesktop_linux_dri.Usb.Names.{validate_busid, bad_in_busid}
use ydyun_vdesktop_linux_dri.Base.{
  ℕ, ◌≡◌, ◌≤◌, refl, true, false, some, [], ◌∷◌, List, codes, ok, err, length, ltb, any, strip, ◌*◌,
  ◌^◌, drop_spaces, is_space, lower_char,
}
use ydyun_vdesktop_linux_dri.Base.Int.{pos}
use ydyun_vdesktop_linux_dri.Base.Floats.{finite, float_text, float_between}
use ydyun_vdesktop_linux_dri.Base.Decimal.{str_nat, int_text, str_int, int_strip}
use ydyun_vdesktop_linux_dri.Usb.Errors.{controller, same_endpoints, invalid_host}
use ydyun_vdesktop_linux_dri.Usb.Settings.{
  validate_host, bad_in_host, parse_port, parse_seconds, parse_bool, validate_bind_host, in_range,
  parse_positive_int,
}
use ydyun_vdesktop_linux_dri.Usb.Settings.Connection.{
  ConfigFile, Settings, IsSettings, load_settings, load_settings-IsSettings, read_section,
}
use ydyun_vdesktop_linux_dri.Usb.Settings.Backward.{
  BackwardSettings, load_backward_settings, parse_ops,
}
use ydyun_vdesktop_linux_dri.Usb.Settings.Backward.Accepted.{
  IsBackwardSettings, load_backward_settings-IsBackwardSettings, load_backward_settings-pending,
}
use ydyun_vdesktop_linux_dri.Usb.Settings.Header.{
  build_vendor_proxy_header, vendor_proxy_header_size,
}
use ydyun_vdesktop_linux_dri.Usb.Settings.Header.Layout.{
  header_of, build_vendor_proxy_header-layout,
}
use ydyun_vdesktop_linux_dri.Usb.Bridge.Steps.{System, start, here, next, accept_remote}

abbrev file : ConfigFile
file = some (
    (
      codes "connection",
      (codes "remote_host", codes " vm.example ") ∷ (codes "reconnect_seconds", codes "0.5") ∷ [],
    )
    ∷ (codes "devices", (codes "1-1", codes "mouse ") ∷ [])
    ∷ [])

abbrev loaded : Settings
loaded = record {
  remote_host = codes "vm.example";
  remote_port = 3240;
  devices = record { busid = codes "1-1"; name = codes "mouse" } ∷ [];
  reconnect_seconds = finite false (2 ^ 1073);
  detach_on_exit = true;
  command_timeout = finite false (30 * 2 ^ 1074);
  local_devices = [];
}

file-loaded : load_settings file ≡ ok loaded
unfolding load_settings validate_host strip drop_spaces is_space bad_in_host parse_port int_text
    parse_seconds float_text lower_char float_between validate_busid bad_in_busid parse_bool
file-loaded = refl

load_settings-IsSettings_example : IsSettings loaded
load_settings-IsSettings_example = load_settings-IsSettings file loaded file-loaded

abbrev backward_file : ConfigFile
backward_file = some (
    (
      codes "backward",
      (codes "enabled", codes "Yes")
          ∷ (codes "allowed_ops", codes " 1 , ,1")
          ∷ (codes "compression", codes "LZ4")
          ∷ [],
    )
    ∷ [])

abbrev backward_loaded : BackwardSettings
backward_loaded = record {
  listen_host = codes "0.0.0.0";
  listen_port = 3246;
  proxy_host = codes "127.0.0.1";
  proxy_port = 3247;
  frame_timeout = finite false (10 * 2 ^ 1074);
  max_pending = 16;
  allowed_ops = 1 ∷ [];
  auto_attach = false;
  attach_timeout = finite false (30 * 2 ^ 1074);
  compression = codes "lz4";
}

backward_file-loaded : load_backward_settings backward_file ≡ ok backward_loaded
unfolding load_backward_settings read_section parse_bool strip drop_spaces is_space lower_char
    validate_bind_host is_address is_ipv4 is_ipv6 split_on parse_port int_text int_strip in_range
    parse_seconds float_text float_between parse_positive_int parse_ops
backward_file-loaded = refl

load_backward_settings-IsBackwardSettings_example : IsBackwardSettings backward_loaded
load_backward_settings-IsBackwardSettings_example =
    load_backward_settings-IsBackwardSettings backward_file backward_loaded backward_file-loaded

same_endpoints_refused :
    load_backward_settings (
      some (
        (
          codes "backward",
          (codes "enabled", codes "1")
              ∷ (codes "proxy_host", codes "0.0.0.0")
              ∷ (codes "proxy_port", codes "3246")
              ∷ [],
        )
        ∷ []))
    ≡ err (controller same_endpoints)
unfolding load_backward_settings read_section parse_bool strip drop_spaces is_space lower_char
    validate_bind_host is_address is_ipv4 is_ipv6 split_on parse_port int_text int_strip in_range
    parse_seconds float_text float_between parse_positive_int parse_ops
same_endpoints_refused = refl

abbrev header_bytes : List ℕ
header_bytes = header_of 3246 (codes "10.0.0.7") (codes "443")

header_built : build_vendor_proxy_header (codes " 10.0.0.7") (pos 443) (pos 3246) ≡ ok header_bytes
unfolding build_vendor_proxy_header validate_host strip drop_spaces is_space bad_in_host str_nat
    parse_port int_text str_int
header_built = refl

header_refused :
    build_vendor_proxy_header (codes "a/b") (pos 443) (pos 3246) ≡ err (controller invalid_host)
unfolding build_vendor_proxy_header validate_host strip drop_spaces is_space bad_in_host is_address
    is_ipv4 split_on is_ipv6
header_refused = refl

-- The scope of an IPv6 address can hold any character that a shell reads.
scope_accepted : validate_host (codes "fe80::1%;$(x)") ≡ ok (codes "fe80::1%;$(x)")
unfolding validate_host strip drop_spaces is_space bad_in_host is_address is_ipv4 split_on is_ipv6
scope_accepted = refl

-- A vendor connection is accepted by the bridge with these settings.
abbrev accepted : System
accepted = record start { accepted = 10 ∷ []; bridge = record (start.bridge) { reading = 10 ∷ [] } }

load_backward_settings-pending_example : length accepted.bridge.pending ≤ 256
load_backward_settings-pending_example =
    load_backward_settings-pending backward_file backward_loaded accepted backward_file-loaded
      (next here (accept_remote 10 refl))

build_vendor_proxy_header-layout_example :
    (port : ℕ) × (link : ℕ) × (header_bytes
      ≡ header_of link (strip (codes " 10.0.0.7")) (str_nat port))
    × (length header_bytes ≡ vendor_proxy_header_size)
    × (pos 443 ≡ pos port)
    × (pos 3246 ≡ pos link)
    × ((1 ≤ port) × (port ≤ 65535))
    × ((1 ≤ link) × (link ≤ 65535))
    × ((1 ≤ length (strip (codes " 10.0.0.7"))) × (length (strip (codes " 10.0.0.7")) ≤ 33))
    × (any (λ c. ltb 127 c) (strip (codes " 10.0.0.7")) ≡ false)
build_vendor_proxy_header-layout_example =
    build_vendor_proxy_header-layout (codes " 10.0.0.7") (pos 443) (pos 3246) header_bytes
      header_built
