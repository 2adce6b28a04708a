-- ===== src/Usb/Script.antt =====
-- linux/src/ydyun_usbctl.py: find_usbip, run_checked, the modules and the connection test, as actions
-- on a machine. The machine's answer to an action may depend on all actions before it.
pub mod Adds
use ydyun_vdesktop_linux_dri.Base.{
  ℕ, ◌==◌, Bool, true, false, not, ◌&&◌, List, [], ◌∷◌, ◌++◌, Option, none, some, length,
  if◌then◌else◌, Text, codes, Result, err, ok,
}
use ydyun_vdesktop_linux_dri.Usb.Errors.{
  UsbError, controller, os_error, value_error, command_failed, needs_root, no_usbip,
}
use ydyun_vdesktop_linux_dri.Usb.Probe.{Endpoint, check_remote}

-- A process that is run, a write to a file of sysfs, a connection that is tried.
pub data Action : Type 0 where
  process : List Text → Action
  write : Text → Text → Action
  connect : Text → ℕ → Action

-- How a process ends: with a status and its output, by the timeout, it cannot be started, or its
-- output is no text in the locale's encoding (UnicodeDecodeError, a ValueError).
pub data Ran : Type 0 where
  exited : ℕ → Text → Ran
  timed_out : Ran
  not_started : Ran
  undecodable : Ran

-- The actions so far are given to each answer, the newest last.
pub record Machine : Type 0 where
  pub is_root : Bool
  pub which_usbip : Option Text
  pub executable : Text → Bool
  pub ran : List Action → Ran
  pub addresses : List Action → Option (List Endpoint)
  pub exists : Text → Bool
  pub writes : List Action → Bool

-- Code that acts: from the actions so far to its result and the actions afterwards.
abbrev pub Script : Type 0 → Type 0
Script A = List Action → Result UsbError A × List Action

abbrev pub done : {A : Type 0} → A → Script A
done a past = (ok a, past)

abbrev pub raise : {A : Type 0} → UsbError → Script A
raise e past = (err e, past)

abbrev continue :
    {A B : Type 0}
    → (A → Script B)
    → Result UsbError A × List Action
    → Result UsbError B × List Action
continue next (err e, past) = (err e, past)
continue next (ok a, past) = next a past

infixl 5 ◌>>=◌
abbrev pub ◌>>=◌ : {A B : Type 0} → Script A → (A → Script B) → Script B
(first >>= next) past = continue next (first past)

infixl 5 ◌>>◌
abbrev pub ◌>>◌ : {B : Type 0} → Script (Unit {0}) → Script B → Script B
first >> rest = first >>= λ _. rest

-- A computation that does not act.
abbrev pub lift : {A : Type 0} → Result UsbError A → Script A
lift r past = (r, past)

-- The candidates of `find_usbip`, in order.
first_usable : (Text → Bool) → List (Option Text) → Result UsbError Text
first_usable executable [] = err (controller no_usbip)
first_usable executable (none ∷ candidates) = first_usable executable candidates
first_usable executable (some path ∷ candidates) =
    let rest = first_usable executable candidates in
    if not (length path == 0) && executable path then ok path else rest

unfoldable pub find_usbip : Machine → Result UsbError Text
unfolding first_usable
find_usbip m =
    first_usable m.executable
      (m.which_usbip ∷ some (codes "/usr/sbin/usbip") ∷ some (codes "/usr/bin/usbip") ∷ [])

abbrev pub checked_output : Ran → Result UsbError Text
checked_output (exited status output) =
    if status == 0 then ok output else err (controller command_failed)
checked_output timed_out = err (controller command_failed)
checked_output not_started = err os_error
checked_output undecodable = err value_error

unfoldable pub run_checked : Machine → List Text → Script Text
run_checked m argv past =
    let past' = past ++ (process argv ∷ []) in (checked_output (m.ran past'), past')

abbrev pub modprobe : Text → List Text
modprobe name = codes "/sbin/modprobe" ∷ name ∷ []

unfoldable pub load_all : Machine → List Text → Script (Unit {0})
unfolding run_checked
load_all m [] = done tt
load_all m (name ∷ names) = run_checked m (modprobe name) >>= λ _. load_all m names

abbrev pub modules : List Text
modules = codes "usbip-core" ∷ codes "vhci-hcd" ∷ []

abbrev pub export_modules : List Text
export_modules = codes "usbip-core" ∷ codes "usbip-host" ∷ []

-- ensure_modules and ensure_export_modules, by their list of modules.
unfoldable pub ensure : Machine → List Text → Script (Unit {0})
unfolding load_all
ensure m names = if m.is_root then load_all m names else raise (controller needs_root)

-- check_remote on what the machine resolves and connects.
unfoldable pub try_connect : Machine → Text → ℕ → Script (Unit {0})
try_connect m host port past =
    let past' = past ++ (connect host port ∷ []) in (check_remote (m.addresses past'), past')
