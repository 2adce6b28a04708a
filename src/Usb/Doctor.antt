-- ===== src/Usb/Doctor.antt =====
-- linux/src/ydyun_usbctl.py: _module_available and doctor, the checks of a deployment.
use ydyun_vdesktop_linux_dri.Base.{
  ℕ, ◌==◌, ◌≡◌, refl, ◌⊎◌, inl, inr, Bool, true, false, ◌&&◌, List, [], ◌∷◌, ◌++◌, if◌then◌else◌,
  length, Text, codes, one_of, Result, err, ok,
}
use ydyun_vdesktop_linux_dri.Usb.Errors.{UsbError, controller}
use ydyun_vdesktop_linux_dri.Usb.Settings.Connection.{Settings}
use ydyun_vdesktop_linux_dri.Usb.Script.{
  Action, process, Machine, Ran, exited, Script, done, ◌>>=◌, find_usbip, run_checked,
  checked_output,
}
use ydyun_vdesktop_linux_dri.Usb.Script.Adds.{Adds, >>=-Adds, lift-Adds, AddsFrom}
use ydyun_vdesktop_linux_dri.Usb.Commands.{port_argv, list_local_argv}

abbrev pub dry_run : Text → List Text
dry_run name = codes "/sbin/modprobe" ∷ codes "-n" ∷ codes "-q" ∷ name ∷ []

abbrev ended_well : Ran → Bool
ended_well (exited status output) = status == 0
ended_well other = false

-- A timeout and an OSError count as not available.
unfoldable pub module_available : Machine → Text → Script Bool
module_available m name past =
    let past' = past ++ (process (dry_run name) ∷ []) in (ok (ended_well (m.ran past')), past')

-- `except ControllerError` reports a failure; an OSError is not caught.
abbrev reported : Result UsbError Text × List Action → Result UsbError Bool × List Action
reported (ok output, past) = (ok true, past)
reported (err (controller reason), past) = (ok false, past)
reported (err other, past) = (err other, past)

unfoldable pub query : Machine → List Text → Script Bool
unfolding run_checked
query m argv past = reported (run_checked m argv past)

-- Each Boolean is a report: PASS or FAIL.
unfoldable pub local_reports : Machine → Settings → Script (List Bool)
unfolding module_available
local_reports m s =
    if length s.local_devices == 0
    then done []
    else (module_available m (codes "usbip-host") >>= λ available. done (available ∷ []))

unfoldable pub usbip_reports : Machine → Result UsbError Text → Script (List Bool)
unfolding query
usbip_reports m (err e) = done (false ∷ false ∷ [])
usbip_reports m (ok usbip) = do
  vhci ← query m (port_argv usbip)
  local_usb ← query m (list_local_argv usbip)
  done (vhci ∷ local_usb ∷ [])

abbrev is_found : Result UsbError Text → Bool
is_found (err e) = false
is_found (ok usbip) = true

abbrev all_pass : List Bool → Bool
all_pass [] = true
all_pass (report ∷ reports) = report && all_pass reports

-- The status: 1 if a report is FAIL.
unfoldable verdict : Machine → Text → Bool → Bool → List Bool → List Bool → ℕ
verdict m architecture core vhci locals queries =
    let first =
      one_of architecture (codes "x86_64" ∷ codes "amd64" ∷ [])
      ∷ is_found (find_usbip m)
      ∷ core
      ∷ vhci
      ∷ [] in
    if all_pass (first ++ (locals ++ queries)) then 0 else 1

unfoldable pub doctor : Machine → Text → Settings → Script ℕ
unfolding local_reports usbip_reports module_available find_usbip verdict
doctor m architecture s = do
  core ← module_available m (codes "usbip-core")
  vhci ← module_available m (codes "vhci-hcd")
  locals ← local_reports m s
  queries ← usbip_reports m (find_usbip m)
  done (verdict m architecture core vhci locals queries)

-- A dry run of modprobe, the listing of the ports or the listing of the local devices.
abbrev pub IsReadOnly : Action → Type 0
IsReadOnly a =
    ((name : Text) × (a ≡ process (dry_run name)))
    ⊎ (((usbip : Text) × (a ≡ process (port_argv usbip)))
        ⊎ ((usbip : Text) × (a ≡ process (list_local_argv usbip))))

module_available-Adds : (m : Machine) (name : Text) → Adds IsReadOnly (module_available m name)
unfolding module_available
module_available-Adds m name past = (process (dry_run name) ∷ [], refl, (inl (name, refl), tt))

query-Adds :
    (m : Machine) (argv : List Text) → IsReadOnly (process argv) → Adds IsReadOnly (query m argv)
unfolding query run_checked
query-Adds m argv p past = by_answer (checked_output (m.ran (past ++ (process argv ∷ []))))
  where
    by_answer :
        (r : Result UsbError Text)
        → AddsFrom IsReadOnly past (reported (r, past ++ (process argv ∷ [])))
    by_answer (ok out) = (process argv ∷ [], refl, (p, tt))
    by_answer (err e) = by_error e
      where
        by_error :
            (e : UsbError)
            → AddsFrom IsReadOnly past (reported (err e, past ++ (process argv ∷ [])))
        by_error (controller r) = (process argv ∷ [], refl, (p, tt))
        by_error other = (process argv ∷ [], refl, (p, tt))

done-Adds : {A : Type 0} (a : A) → Adds IsReadOnly (done a)
done-Adds a = lift-Adds IsReadOnly (ok a)

local_reports-Adds : (m : Machine) (s : Settings) → Adds IsReadOnly (local_reports m s)
unfolding local_reports
local_reports-Adds m s = by_test (length s.local_devices == 0)
  where
    by_test :
        (test : Bool)
        → Adds IsReadOnly (
            if test
            then done []
            else (module_available m (codes "usbip-host") >>= λ available. done (available ∷ [])))
    by_test true = done-Adds {A = List Bool} []
    by_test false =
        >>=-Adds IsReadOnly (module_available m (codes "usbip-host")) (λ a. done (a ∷ []))
          (module_available-Adds m (codes "usbip-host"))
          (λ a past after e. done-Adds {A = List Bool} (a ∷ []))

usbip_reports-Adds :
    (m : Machine) (usbip : Result UsbError Text) → Adds IsReadOnly (usbip_reports m usbip)
unfolding usbip_reports
usbip_reports-Adds m (err e) = done-Adds (false ∷ false ∷ [])
usbip_reports-Adds m (ok usbip) =
    >>=-Adds IsReadOnly (query m (port_argv usbip)) _
      (query-Adds m (port_argv usbip) (inr (inl (usbip, refl))))
      (λ vhci past after e.
        >>=-Adds IsReadOnly (query m (list_local_argv usbip)) _
          (query-Adds m (list_local_argv usbip) (inr (inr (usbip, refl))))
          (λ local past' after' e'. done-Adds (vhci ∷ local ∷ [])))

-- The doctor only reads: whatever the machine answers, it runs nothing but modprobe with `-n -q`,
-- `usbip port` and `usbip list --local`; it writes nothing and connects nowhere.
pub doctor-IsReadOnly :
    (m : Machine) (architecture : Text) (s : Settings) → Adds IsReadOnly (doctor m architecture s)
unfolding doctor
doctor-IsReadOnly m architecture s =
    let ending : Bool → Bool → List Bool → List Bool → Script ℕ =
      λ core vhci locals queries. done (verdict m architecture core vhci locals queries) in
    let queried : Bool → Bool → List Bool → Script ℕ =
      λ core vhci locals. usbip_reports m (find_usbip m) >>= ending core vhci locals in
    let local' : Bool → Bool → Script ℕ = λ core vhci. local_reports m s >>= queried core vhci in
    let second : Bool → Script ℕ = λ core. module_available m (codes "vhci-hcd") >>= local' core in
    >>=-Adds IsReadOnly (module_available m (codes "usbip-core")) second
      (module_available-Adds m (codes "usbip-core"))
      (λ core past after e.
        >>=-Adds IsReadOnly (module_available m (codes "vhci-hcd")) (local' core)
          (module_available-Adds m (codes "vhci-hcd"))
          (λ vhci past' after' e'.
            >>=-Adds IsReadOnly (local_reports m s) (queried core vhci) (local_reports-Adds m s)
              (λ locals past2 after2 e2.
                >>=-Adds IsReadOnly (usbip_reports m (find_usbip m)) (ending core vhci locals)
                  (usbip_reports-Adds m (find_usbip m))
                  (λ queries past3 after3 e3.
                    done-Adds (verdict m architecture core vhci locals queries)))))
