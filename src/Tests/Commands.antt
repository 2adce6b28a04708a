-- ===== src/Tests/Commands.antt =====
-- Runs of the commands and the probes of linux/src/ydyun_usbctl.py on small machines.
use ydyun_vdesktop_linux_dri.Base.Floats.{finite}
use ydyun_vdesktop_linux_dri.Base.{
  ℕ, ◌≡◌, refl, ◌⊎◌, ◌↔◌, Bool, true, false, List, [], ◌∷◌, ◌++◌, none, some, All, Text, codes, ok,
  err, leb, ◌&&◌, strip, drop_spaces, is_space,
}
use ydyun_vdesktop_linux_dri.Usb.Errors.{os_error}
use ydyun_vdesktop_linux_dri.Usb.Socket.{chunk, recv_exact, recv_loop, recv}
use ydyun_vdesktop_linux_dri.Usb.Probe.{
  Endpoint, probe_protocol, probe_link_protocol, link_passed_over, probe_link_one, check_remote,
}
use ydyun_vdesktop_linux_dri.Usb.Probe.Attempts.{IsPassed}
use ydyun_vdesktop_linux_dri.Usb.Probe.Answers.{LinkAnswers, probe_link_protocol_iff}
use ydyun_vdesktop_linux_dri.Usb.Watch.{DeviceSpec}
use ydyun_vdesktop_linux_dri.Usb.Names.{validate_busid, IsBusid, bad_in_busid}
use ydyun_vdesktop_linux_dri.Usb.Settings.Connection.{ConfigFile, Settings, load_settings}
use ydyun_vdesktop_linux_dri.Usb.Script.{
  done, Action, process, write, connect, Machine, exited, find_usbip, modprobe,
}
use ydyun_vdesktop_linux_dri.Usb.Script.Adds.{AddsFrom}
use ydyun_vdesktop_linux_dri.Usb.Commands.{
  attach, attach_to_proxy, unexport_device, auto_detach, attach_argv, unbind_argv, drivers_probe,
}
use ydyun_vdesktop_linux_dri.Usb.Commands.Order.{attach_to_proxy_acts, unexport_device_acts}
use ydyun_vdesktop_linux_dri.Usb.Commands.Detach.{IsDetach, auto_detach-IsDetach}
use ydyun_vdesktop_linux_dri.Usb.Doctor.{doctor, IsReadOnly, doctor-IsReadOnly}
use ydyun_vdesktop_linux_dri.Usb.Main.{Routines, attach_one, configured, main}
use ydyun_vdesktop_linux_dri.Usb.Main.Configured.{on_attach, IsRefused, main-Configured}

-- An address that refuses the connection, and one that answers with two devices, in two chunks.
abbrev refusing : Endpoint
refusing = record { opens = true; connects = false; sends = λ n. true; socket = [] }

abbrev answering : Endpoint
answering = record {
  opens = true;
  connects = true;
  sends = λ n. true;
  socket = chunk (1 ∷ 17 ∷ 0 ∷ []) ∷ chunk (5 ∷ 0 ∷ 0 ∷ 0 ∷ 0 ∷ 0 ∷ 0 ∷ 0 ∷ 2 ∷ []) ∷ [];
}

abbrev closed_family : Endpoint
closed_family = record refusing { opens = false }

abbrev addresses : List Endpoint
addresses = refusing ∷ answering ∷ []

devices_counted : probe_protocol (some addresses) ≡ ok 2
unfolding probe_protocol recv_exact recv_loop recv
devices_counted = refl

-- A socket that cannot be made for one address ends the probe, though the next would answer.
family_not_supported : probe_protocol (some (closed_family ∷ answering ∷ [])) ≡ err os_error
unfolding probe_protocol
family_not_supported = refl

-- The peer of a link: its answer, its own request, and the number of devices.
abbrev linking : Endpoint
linking = record answering {
  socket =
      chunk (1 ∷ 17 ∷ 0 ∷ 8 ∷ 0 ∷ 0 ∷ 0 ∷ 0 ∷ [])
      ∷ chunk (1 ∷ 17 ∷ 0x80 ∷ 5 ∷ 0 ∷ 0 ∷ 0 ∷ 0 ∷ 0 ∷ 0 ∷ 0 ∷ 3 ∷ [])
      ∷ [];
}

link_counted : probe_link_protocol (some (answering ∷ linking ∷ [])) ≡ ok 3
unfolding probe_link_protocol recv_exact recv_loop recv
link_counted = refl

probe_link_protocol_iff_example : (probe_link_protocol (some (answering ∷ linking ∷ [])) ≡ ok 3) ↔ (
    (before : List Endpoint) × (e : Endpoint) × (after : List Endpoint) × ((answering ∷ linking
        ∷ [])
      ≡ before ++ (e ∷ after))
    × All (IsPassed link_passed_over probe_link_one) before
    × (e.opens ≡ true)
    × LinkAnswers e 3)
probe_link_protocol_iff_example = probe_link_protocol_iff (answering ∷ linking ∷ []) 3

-- A machine on which every process succeeds and prints the listing of one port.
abbrev listing : Text
listing = codes "Port 00: <Port in Use>\n  1-1 -> usbip://h:3240/1-1\n"

abbrev machine : Machine
machine = record {
  is_root = true;
  which_usbip = none;
  executable = λ path. true;
  ran = λ past. exited 0 listing;
  addresses = λ past. some (answering ∷ []);
  exists = λ path. true;
  writes = λ past. true;
}

abbrev usbip : Text
usbip = codes "/usr/sbin/usbip"

usbip_found : find_usbip machine ≡ ok usbip
unfolding find_usbip
usbip_found = refl

abbrev settings : Settings
settings = record {
  remote_host = codes "vm";
  remote_port = 3240;
  devices = record { busid = codes "1-1"; name = [] } ∷ [];
  reconnect_seconds = finite false 0;
  detach_on_exit = true;
  command_timeout = finite false 0;
  local_devices = [];
}

abbrev mouse : DeviceSpec
mouse = record { busid = codes "1-1"; name = [] }

abbrev loading : List Action
loading = process (modprobe (codes "usbip-core")) ∷ process (modprobe (codes "vhci-hcd")) ∷ []

abbrev proxy_actions : List Action
proxy_actions = loading ++ (process (attach_argv usbip 3247 (codes "127.0.0.1") (codes "1-1")) ∷ [])

proxy_attached :
    attach_to_proxy machine (codes "127.0.0.1") 3247 (codes " 1-1") [] ≡ (ok listing, proxy_actions)
unfolding attach_to_proxy validate_busid strip drop_spaces is_space bad_in_busid
proxy_attached = refl

attach_to_proxy_acts_example :
    (u : Text) × (busid : Text) × (find_usbip machine ≡ ok u)
    × (validate_busid (codes " 1-1") ≡ ok busid)
    × (machine.is_root ≡ true)
    × (proxy_actions
        ≡ []
          ++ (process (modprobe (codes "usbip-core"))
              ∷ process (modprobe (codes "vhci-hcd"))
              ∷ process (attach_argv u 3247 (codes "127.0.0.1") busid)
              ∷ []))
attach_to_proxy_acts_example =
    attach_to_proxy_acts machine (codes "127.0.0.1") 3247 (codes " 1-1") listing [] proxy_actions
      proxy_attached

abbrev attach_actions : List Action
attach_actions =
    loading
    ++ (connect (codes "vm") 3240
        ∷ process (attach_argv usbip 3240 (codes "vm") (codes "1-1"))
        ∷ [])

attached : attach machine settings mouse [] ≡ (ok listing, attach_actions)
unfolding attach check_remote
attached = refl

abbrev unexport_actions : List Action
unexport_actions =
    process (unbind_argv usbip (codes "1-1")) ∷ write drivers_probe (codes "1-1") ∷ []

unexported : unexport_device machine mouse [] ≡ (ok listing, unexport_actions)
unfolding unexport_device validate_busid strip drop_spaces is_space bad_in_busid
unexported = refl

unexport_device_acts_example :
    (u : Text) × (busid : Text) × (find_usbip machine ≡ ok u)
    × (validate_busid (codes "1-1") ≡ ok busid)
    × (machine.exists drivers_probe ≡ true)
    × (unexport_actions
        ≡ [] ++ (process (unbind_argv u (codes "1-1")) ∷ write drivers_probe busid ∷ []))
unexport_device_acts_example =
    unexport_device_acts machine mouse listing [] unexport_actions unexported

abbrev is_digit : ℕ → Bool
is_digit c = leb b'0' c && leb c b'9'

auto_detach-IsDetach_example :
    AddsFrom
      (IsDetach machine is_digit (codes "1-1") usbip [])
      []
      (auto_detach machine is_digit (codes "1-1") [])
auto_detach-IsDetach_example =
    auto_detach-IsDetach machine is_digit (codes "1-1") usbip [] usbip_found

doctor-IsReadOnly_example : AddsFrom IsReadOnly [] (doctor machine (codes "x86_64") settings [])
doctor-IsReadOnly_example = doctor-IsReadOnly machine (codes "x86_64") settings []

abbrev routines : Routines
routines = record {
  bridge = λ s. done 0;
  watching = λ s once. done 0;
  exporting = λ s spec. done [];
  export_watching = λ s once. done 0;
}

abbrev config : ConfigFile
config = some (
    (codes "connection", (codes "remote_host", codes "vm") ∷ [])
    ∷ (codes "devices", (codes "1-1", codes "mouse") ∷ [])
    ∷ [])

main-Configured_example :
    IsRefused []
      (main machine is_digit (codes "x86_64") routines config (attach_one (codes "1-1")) [])
    ⊎ ((s : Settings) × (spec : DeviceSpec) × (load_settings config ≡ ok s)
        × (configured s.devices (codes "1-1") ≡ some spec)
        × (spec.busid ≡ codes "1-1")
        × IsBusid (codes "1-1"))
main-Configured_example =
    main-Configured machine is_digit (codes "x86_64") routines config [] (attach_one (codes "1-1"))
      (λ s. s.devices) (codes "1-1") (on_attach (codes "1-1"))
