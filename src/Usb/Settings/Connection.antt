-- ===== src/Usb/Settings/Connection.antt =====
-- linux/src/ydyun_usbctl.py: Settings and load_settings, on what `configparser` has read.
use ydyun_vdesktop_linux_dri.Base.{
  ℕ, ◌≤◌, ◌≡◌, refl, Bool, true, List, [], ◌∷◌, Option, none, some, All, Text, text_eq, codes,
  strip, Result, err, ok, ◌>>=◌, >>=-eq-ok, ok_injective, if◌then◌else◌, subst,
}
use ydyun_vdesktop_linux_dri.Base.Floats.{Float, float_between}
use ydyun_vdesktop_linux_dri.Usb.Errors.{UsbError, controller, config_not_found, missing_section}
use ydyun_vdesktop_linux_dri.Usb.Names.{validate_busid, IsBusid, validate_busid-IsBusid}
use ydyun_vdesktop_linux_dri.Usb.Watch.{DeviceSpec}
use ydyun_vdesktop_linux_dri.Usb.Settings.{parse_bool, parse_port, validate_host, parse_seconds}
use ydyun_vdesktop_linux_dri.Usb.Settings.Values.{
  parse_port_bounds, IsHostName, validate_host-IsHostName, parse_seconds_bounds,
}

-- The options of a section with their values, those of DEFAULT among them.
abbrev pub Section : Type 0
Section = List (Text × Text)

-- The sections by name; none where the file could not be read.
abbrev pub ConfigFile : Type 0
ConfigFile = Option (List (Text × Section))

abbrev find : List (Text × Section) → Text → Option Section
find [] name = none
find ((key, section) ∷ sections) name =
    if text_eq key name then some section else find sections name

-- `section.get(key, default)`
abbrev pub option_or : Section → Text → Text → Text
option_or [] key default' = default'
option_or ((name, value) ∷ options) key default' =
    if text_eq name key then value else option_or options key default'

abbrev pub required_section : Option Section → Result UsbError Section
required_section none = err (controller missing_section)
required_section (some section) = ok section

-- The section that a command reads, and all sections.
unfoldable pub read_section : ConfigFile → Text → Result UsbError (Section × List (Text × Section))
read_section none name = err (controller config_not_found)
read_section (some sections) name = do
  section ← required_section (find sections name)
  ok (section, sections)

pub record Settings : Type 0 where
  pub remote_host : Text
  pub remote_port : ℕ
  pub devices : List DeviceSpec
  pub reconnect_seconds : Float
  pub detach_on_exit : Bool
  pub command_timeout : Float
  pub local_devices : List DeviceSpec

-- The devices of a section: each option is a bus ID, its value a name for it.
unfoldable pub load_devices : Section → Result UsbError (List DeviceSpec)
load_devices [] = ok []
load_devices ((key, value) ∷ items) = do
  busid ← validate_busid key
  devices ← load_devices items
  ok (record { busid = busid; name = strip value } ∷ devices)

abbrev pub items : Option Section → Section
items none = []
items (some section) = section

unfoldable pub load_settings : ConfigFile → Result UsbError Settings
unfolding read_section load_devices
load_settings file = do
  (section, sections) ← read_section file (codes "connection")
  host ← validate_host (option_or section (codes "remote_host") [])
  port ← parse_port (option_or section (codes "remote_port") (codes "3240"))
  reconnect ← parse_seconds (option_or section (codes "reconnect_seconds") (codes "5")) 1 7200
  timeout ← parse_seconds (option_or section (codes "command_timeout") (codes "30")) 2 600
  devices ← load_devices (items (find sections (codes "devices")))
  local_devices ← load_devices (items (find sections (codes "local_devices")))
  detach ← parse_bool (option_or section (codes "detach_on_exit") (codes "yes"))
  ok (record {
    remote_host = host;
    remote_port = port;
    devices = devices;
    reconnect_seconds = reconnect;
    detach_on_exit = detach;
    command_timeout = timeout;
    local_devices = local_devices;
  })

abbrev pub HasBusid : DeviceSpec → Type 0
HasBusid spec = IsBusid spec.busid

-- What the settings promise; times are bounded in half seconds.
pub record IsSettings (s : Settings) : Type 0 where
  pub host : IsHostName s.remote_host
  pub port : (1 ≤ s.remote_port) × (s.remote_port ≤ 65535)
  pub reconnect : float_between 1 s.reconnect_seconds 7200 ≡ true
  pub timeout : float_between 2 s.command_timeout 600 ≡ true
  pub devices : All HasBusid s.devices
  pub local_devices : All HasBusid s.local_devices

load_devices-IsBusid :
    (section : Section) {specs : List DeviceSpec}
    → load_devices section ≡ ok specs
    → All HasBusid specs
unfolding load_devices
load_devices-IsBusid [] e = subst (All HasBusid) (ok_injective refl e) tt
load_devices-IsBusid ((key, value) ∷ items) e =
    let (busid, valid, e1) = >>=-eq-ok (validate_busid key) _ e in
    let (devices, loaded, e2) = >>=-eq-ok (load_devices items) _ e1 in
    subst (All HasBusid) (ok_injective refl e2)
      ((validate_busid-IsBusid key busid valid).1, load_devices-IsBusid items loaded)

-- Settings that are loaded name a host that is one word with no slash in it, and an address if it has
-- a character of a shell or a URL, a port from 1 to 65535, a pause from 0.5 to 3600 seconds, a timeout from 1 to 300
-- seconds, and devices whose bus IDs keep the promises of a bus ID.
pub load_settings-IsSettings :
    (file : ConfigFile) (s : Settings) → load_settings file ≡ ok s → IsSettings s
unfolding load_settings
load_settings-IsSettings file s e =
    let ((section, sections), found, e1) = >>=-eq-ok (read_section file (codes "connection")) _ e in
    let (host, h, e2) =
      >>=-eq-ok (validate_host (option_or section (codes "remote_host") [])) _ e1 in
    let (port, p, e3) =
      >>=-eq-ok (parse_port (option_or section (codes "remote_port") (codes "3240"))) _ e2 in
    let (reconnect, r, e4) =
      >>=-eq-ok (parse_seconds (option_or section (codes "reconnect_seconds") (codes "5")) 1 7200) _
        e3 in
    let (timeout, t, e5) =
      >>=-eq-ok (parse_seconds (option_or section (codes "command_timeout") (codes "30")) 2 600) _
        e4 in
    let (devices, d, e6) =
      >>=-eq-ok (load_devices (items (find sections (codes "devices")))) _ e5 in
    let (local_devices, l, e7) =
      >>=-eq-ok (load_devices (items (find sections (codes "local_devices")))) _ e6 in
    let (detach, b, e8) =
      >>=-eq-ok (parse_bool (option_or section (codes "detach_on_exit") (codes "yes"))) _ e7 in
    subst IsSettings (ok_injective refl e8) (record {
      host = (validate_host-IsHostName _ h).1;
      port = parse_port_bounds _ p;
      reconnect = parse_seconds_bounds _ 1 7200 r;
      timeout = parse_seconds_bounds _ 2 600 t;
      devices = load_devices-IsBusid _ d;
      local_devices = load_devices-IsBusid _ l;
    })
