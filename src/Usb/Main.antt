-- ===== src/Usb/Main.antt =====
-- linux/src/ydyun_usbctl.py: main, on a command line that `build_parser` has accepted. The routines
-- that run on, and an export, are given from outside: other modules model them.
pub mod Configured
use ydyun_vdesktop_linux_dri.Base.{
  ℕ, Bool, List, [], ◌∷◌, Option, none, some, text_eq, Text, Result, err, ok, if◌then◌else◌, ◌++◌,
}
use ydyun_vdesktop_linux_dri.Usb.Errors.{UsbError, controller, device_not_configured}
use ydyun_vdesktop_linux_dri.Usb.Watch.{DeviceSpec}
use ydyun_vdesktop_linux_dri.Usb.Settings.Connection.{ConfigFile, Settings, load_settings}
use ydyun_vdesktop_linux_dri.Usb.Settings.Backward.{BackwardSettings, load_backward_settings}
use ydyun_vdesktop_linux_dri.Usb.Script.{
  Action, connect, Machine, Script, done, raise, lift, ◌>>=◌, ◌>>◌, try_connect,
}
use ydyun_vdesktop_linux_dri.Usb.Probe.{Endpoint, probe_protocol, probe_link_protocol}
use ydyun_vdesktop_linux_dri.Usb.Commands.{
  list_remote, list_ports, list_local, attach, detach, unexport_device,
}
use ydyun_vdesktop_linux_dri.Usb.Doctor.{doctor}

-- The subcommands with their arguments.
pub data Command : Type 0 where
  check probe probe_link list_devices local_list diagnose port backward : Command
  attach_one export_one unexport_one : Text → Command
  detach_one : Text → Command
  watch_all export_all : Bool → Command

-- The routines that other modules model.
pub record Routines : Type 0 where
  pub bridge : BackwardSettings → Script ℕ
  pub watching : Settings → Bool → Script ℕ
  pub exporting : Settings → DeviceSpec → Script Text
  pub export_watching : Settings → Bool → Script ℕ

-- `{item.busid: item for item in devices}` and the test for the key: the last of equal keys counts.
unfoldable pub configured : List DeviceSpec → Text → Option DeviceSpec
configured [] busid = none
configured (spec ∷ specs) busid = elim (configured specs busid) [
  | some later ↦ some later
  | none ↦ if text_eq spec.busid busid then some spec else none
]

abbrev pub required : Option DeviceSpec → Result UsbError DeviceSpec
required none = err (controller device_not_configured)
required (some spec) = ok spec

-- A probe: the connection is an action, its outcome that of the probe.
unfoldable pub probing :
    (Option (List Endpoint) → Result UsbError ℕ) → Machine → Settings → Script ℕ
probing attempt m s past =
    let past' = past ++ (connect s.remote_host s.remote_port ∷ []) in
    (attempt (m.addresses past'), past')

-- After the work of a command that prints: status 0.
abbrev pub then_zero : {A : Type 0} → Script A → Script ℕ
then_zero script = script >>= λ _. done 0

unfoldable pub run_command :
    Machine → (ℕ → Bool) → Text → Routines → ConfigFile → Settings → Command → Script ℕ
unfolding configured probing
run_command m is_digit architecture r file s backward =
    lift (load_backward_settings file) >>= λ b. r.bridge b
run_command m is_digit architecture r file s check =
    then_zero (try_connect m s.remote_host s.remote_port)
run_command m is_digit architecture r file s probe = then_zero (probing probe_protocol m s)
run_command m is_digit architecture r file s probe_link =
    then_zero (probing probe_link_protocol m s)
run_command m is_digit architecture r file s list_devices = then_zero (list_remote m s)
run_command m is_digit architecture r file s local_list = then_zero (list_local m)
run_command m is_digit architecture r file s diagnose = doctor m architecture s
run_command m is_digit architecture r file s port = then_zero (list_ports m)
run_command m is_digit architecture r file s (attach_one busid) =
    then_zero (lift (required (configured s.devices busid)) >>= λ spec. attach m s spec)
run_command m is_digit architecture r file s (detach_one index) =
    then_zero (detach m is_digit index)
run_command m is_digit architecture r file s (watch_all once) = r.watching s once
run_command m is_digit architecture r file s (export_one busid) =
    then_zero (lift (required (configured s.local_devices busid)) >>= λ spec. r.exporting s spec)
run_command m is_digit architecture r file s (unexport_one busid) =
    then_zero
      (lift (required (configured s.local_devices busid)) >>= λ spec. unexport_device m spec)
run_command m is_digit architecture r file s (export_all once) = r.export_watching s once

-- `except ControllerError`: status 1; other exceptions are not caught.
abbrev pub caught : Result UsbError ℕ × List Action → Result UsbError ℕ × List Action
caught (ok status, past) = (ok status, past)
caught (err (controller reason), past) = (ok 1, past)
caught (err other, past) = (err other, past)

unfoldable pub main : Machine → (ℕ → Bool) → Text → Routines → ConfigFile → Command → Script ℕ
unfolding run_command
main m is_digit architecture r file command past =
    caught (
      (lift (load_settings file) >>= λ s. run_command m is_digit architecture r file s command)
        past)
