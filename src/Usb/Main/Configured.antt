-- ===== src/Usb/Main/Configured.antt =====
-- Which bus IDs of a command line main acts on.
use ydyun_vdesktop_linux_dri.Base.{
  ℕ, ◌≡◌, refl, subst, ◌≢◌, sym, ◌∙◌, ap, ◌⊎◌, inl, inr, Bool, List, [], ◌∷◌, none, some, arith,
  All, text_eq, text_eq_iff, Bool-cases, Option-cases, Text, Result, err, ok, Result-cases,
}
use ydyun_vdesktop_linux_dri.Usb.Errors.{UsbError, controller, device_not_configured}
use ydyun_vdesktop_linux_dri.Usb.Names.{IsBusid}
use ydyun_vdesktop_linux_dri.Usb.Watch.{DeviceSpec}
use ydyun_vdesktop_linux_dri.Usb.Settings.Connection.{
  ConfigFile, Settings, load_settings, HasBusid, IsSettings, load_settings-IsSettings,
}
use ydyun_vdesktop_linux_dri.Usb.Script.{Action, Machine}
use ydyun_vdesktop_linux_dri.Usb.Main.{
  Command, attach_one, export_one, unexport_one, Routines, configured, run_command, caught, main,
}

-- The device that is configured has the bus ID that was asked for, and is one of the devices.
configured-HasBusid :
    (specs : List DeviceSpec) (busid : Text) (spec : DeviceSpec)
    → All HasBusid specs
    → configured specs busid ≡ some spec
    → (spec.busid ≡ busid) × IsBusid busid
unfolding configured
configured-HasBusid [] busid spec all e = absurd (ground arith)
configured-HasBusid (first ∷ specs) busid spec all e =
    elim (Option-cases (configured specs busid)) [
      | inr (later, found) ↦
          let same : later ≡ spec = ground arith in
          configured-HasBusid specs busid spec all.1 (found ∙ ap some same)
      | inl nothing ↦ elim (Bool-cases (text_eq first.busid busid)) [
        | inr other ↦ absurd (ground arith)
        | inl same ↦
            let eq : first.busid ≡ busid = (text_eq_iff first.busid busid).0 same in
            let first_is : first ≡ spec = ground arith in
            (ap (λ x. x.busid) (sym first_is) ∙ eq, subst IsBusid eq all.0)
      ]
    ]

-- The commands that name a bus ID, with the part of the settings that has to have it.
pub data ActsOn : Command → (Settings → List DeviceSpec) → Text → Type 0 where
  on_attach : (busid : Text) → ActsOn (attach_one busid) (λ s. s.devices) busid
  on_export : (busid : Text) → ActsOn (export_one busid) (λ s. s.local_devices) busid
  on_unexport : (busid : Text) → ActsOn (unexport_one busid) (λ s. s.local_devices) busid

-- Nothing was done, and the command failed.
abbrev pub IsRefused : List Action → Result UsbError ℕ × List Action → Type 0
IsRefused past r = (r.1 ≡ past) × (r.0 ≢ ok 0)

caught-IsRefused : (e : UsbError) (past : List Action) → IsRefused past (caught (err e, past))
caught-IsRefused (controller reason) past = (refl, λ h. ground arith)
caught-IsRefused other past = (refl, λ h. ground arith)

ActsOn-refused :
    (m : Machine) (is_digit : ℕ → Bool) (architecture : Text) (r : Routines) (file : ConfigFile)
    (s : Settings) {command : Command} {field : Settings → List DeviceSpec} {busid : Text}
    (past : List Action)
    → ActsOn command field busid
    → configured (field s) busid ≡ none
    → run_command m is_digit architecture r file s command past
      ≡ (err (controller device_not_configured), past)
unfolding run_command
ActsOn-refused m is_digit architecture r file s past (on_attach busid) h = rw h refl
ActsOn-refused m is_digit architecture r file s past (on_export busid) h = rw h refl
ActsOn-refused m is_digit architecture r file s past (on_unexport busid) h = rw h refl

ActsOn-devices :
    {command : Command} {field : Settings → List DeviceSpec} {busid : Text} (s : Settings)
    → ActsOn command field busid
    → IsSettings s
    → All HasBusid (field s)
ActsOn-devices s (on_attach busid) v = v.devices
ActsOn-devices s (on_export busid) v = v.local_devices
ActsOn-devices s (on_unexport busid) v = v.local_devices

-- `attach`, `export` and `unexport` of a bus ID fail without a process, a write or a connection,
-- unless the configuration file could be loaded and has a device with just this bus ID, which then keeps
-- the promises of a bus ID.
pub main-Configured :
    (m : Machine) (is_digit : ℕ → Bool) (architecture : Text) (r : Routines) (file : ConfigFile)
    (past : List Action) (command : Command) (field : Settings → List DeviceSpec) (busid : Text)
    → ActsOn command field busid
    → IsRefused past (main m is_digit architecture r file command past)
      ⊎ ((s : Settings) × (spec : DeviceSpec) × (load_settings file ≡ ok s)
          × (configured (field s) busid ≡ some spec)
          × (spec.busid ≡ busid)
          × IsBusid busid)
unfolding main
main-Configured m is_digit architecture r file past command field busid on =
    elim (Result-cases (load_settings file)) [
      | inr (e, bad) ↦ inl (rw bad (caught-IsRefused e past))
      | inl (s, good) ↦ elim (Option-cases (configured (field s) busid)) [
        | inl nothing ↦ inl (
            rw (good, ActsOn-refused m is_digit architecture r file s past on nothing)
              (caught-IsRefused (controller device_not_configured) past))
        | inr (spec, found) ↦
            let (same, valid) =
              configured-HasBusid (field s) busid spec
                (ActsOn-devices s on (load_settings-IsSettings file s good)) found in
            inr (s, spec, good, found, same, valid)
      ]
    ]
