-- ===== src/Usb/Watch.antt =====
-- linux/src/ydyun_usbctl.py: `watch` and `export_watch`, which keep configured devices attached or
-- exported. What `usbip` answers is an argument: each listing and each call returns or raises an
-- exception. A stop signal is the end of the list of passes.
pub mod Members
pub mod Caught
pub mod Configured
pub mod Sorted
pub mod Shutdown
use ydyun_vdesktop_linux_dri.Base.{
  ℕ, Bool, true, false, ◌&&◌, ◌||◌, not, List, [], ◌∷◌, ◌++◌, Option, none, some, leb, ltb, ◌==◌,
  if◌then◌else◌, length, Text, text_eq, one_of, Result, ok, err, ◌>>=◌,
}
use ydyun_vdesktop_linux_dri.Usb.Errors.{
  UsbError, controller, no_devices, stop_iteration, command_failed,
}
use ydyun_vdesktop_linux_dri.Usb.Ports.{port_indexes_for_busids, busids_in_ports}

-- A remote device, or a local one.
pub record DeviceSpec : Type 0 where
  pub busid : Text
  pub name : Text

-- What a call of `attach`, `detach`, `export_device` or `unexport_device` does: it returns or raises.
abbrev pub Answer : Type 0
Answer = Result UsbError (Unit {0})

-- The answer to the next call.
unfoldable pub next_result : List Answer → Answer × List Answer
next_result [] = (err (controller command_failed), [])
next_result (answer ∷ answers) = (answer, answers)

abbrev pub returns : Answer → Bool
returns (ok u) = true
returns (err e) = false

-- The exception that `except ControllerError` lets out.
abbrev pub let_out : UsbError → Option UsbError
let_out (controller reason) = none
let_out other = some other

abbrev pub escapes {ℓ} : {A : Type ℓ} → Result UsbError A → Option UsbError
escapes (ok a) = none
escapes (err e) = let_out e

-- A call, and whether it returned.
pub record Call : Type 0 where
  pub busid : Text
  pub returned : Bool

-- The calls of a loop over the devices, the set at its end, and the exception that went out of it.
pub record Attempted : Type 0 where
  pub calls : List Call
  pub members : List Text
  pub escaped : Option UsbError

abbrev pub behind : List Call → Attempted → Attempted
behind calls a = record a { calls = calls ++ a.calls }

-- `for spec in devices`
unfoldable pub attempt_all : List DeviceSpec → List Answer → List Text → Attempted
attempt_all [] answers members = record { calls = []; members = members; escaped = none }
attempt_all (spec ∷ specs) answers members = elim (one_of spec.busid members) [
  | true ↦ attempt_all specs answers members
  | false ↦
      let answer = (next_result answers).0 in
      let call : Call = record { busid = spec.busid; returned = returns answer } in
      elim (escapes answer) [
        | some e ↦ record { calls = call ∷ []; members = members; escaped = some e }
        | none ↦ behind (call ∷ []) (
            attempt_all specs (next_result answers).1
              (if returns answer then members ++ spec.busid ∷ [] else members))
      ]
]

-- A pass: what the listing gives, and the answers to the calls of `attach`.
pub record Pass : Type 0 where
  pub listing : Result UsbError Text
  pub answers : List Answer

-- `attached.intersection_update(present)`, unless the listing failed.
unfoldable pub refresh : Result UsbError Text → List Text → List Text
refresh (err e) attached = attached
refresh (ok output) attached = busids_in_ports output attached

unfoldable pub watch_pass : List DeviceSpec → Pass → List Text → Attempted
watch_pass devices pass attached = elim (escapes pass.listing) [
  | some e ↦ record { calls = []; members = attached; escaped = some e }
  | none ↦ attempt_all devices pass.answers (refresh pass.listing attached)
]

unfoldable pub watch_passes :
    List DeviceSpec → Bool → List Pass → List Text → Result UsbError (List Text)
watch_passes devices once [] attached = ok attached
watch_passes devices once (pass ∷ passes) attached =
    elim (watch_pass devices pass attached).escaped [
      | some e ↦ err e
      | none ↦
          let attached' = (watch_pass devices pass attached).members in
          let later = watch_passes devices once passes attached' in
          if once then ok attached' else later
    ]

-- The end of a watch: the calls that it makes, and the exception that went out.
pub record Stopped : Type 0 where
  pub called : List Text
  pub escaped : Option UsbError

abbrev pub with_call : Text → Stopped → Stopped
with_call name s = record s { called = name ∷ s.called }

-- `detach` for one port after the other.
unfoldable pub detach_ports : List Text → List Answer → Stopped
detach_ports [] answers = record { called = []; escaped = none }
detach_ports (port ∷ ports) answers = elim (escapes (next_result answers).0) [
  | some e ↦ record { called = port ∷ []; escaped = some e }
  | none ↦ with_call port (detach_ports ports (next_result answers).1)
]

unfoldable pub detach_found : Result UsbError (List Text) → List Answer → Stopped
detach_found (ok ports) answers = detach_ports ports answers
detach_found (err e) answers = record { called = []; escaped = let_out e }

unfoldable pub shut_down :
    (ℕ → Bool) → Bool → Result UsbError Text → List Answer → List Text → Stopped
shut_down is_digit detach_on_exit listing answers attached =
    if detach_on_exit && not (length attached == 0)
    then detach_found (listing >>= λ output. port_indexes_for_busids is_digit output attached)
        answers
    else record { called = []; escaped = none }

-- The calls are those of `detach`, by their ports.
unfoldable pub watch :
    (ℕ → Bool)
    → List DeviceSpec
    → Bool
    → Bool
    → List Pass
    → Result UsbError Text
    → List Answer
    → Stopped
watch is_digit devices detach_on_exit once passes listing answers =
    if length devices == 0
    then record { called = []; escaped = some (controller no_devices) }
    else elim (watch_passes devices once passes []) [
      | err e ↦ record { called = []; escaped = some e }
      | ok attached ↦ shut_down is_digit detach_on_exit listing answers attached
    ]

unfoldable pub export_passes : List DeviceSpec → Bool → List (List Answer) → List Text → Attempted
export_passes devices once [] exported = record { calls = []; members = exported; escaped = none }
export_passes devices once (answers ∷ passes) exported =
    elim (attempt_all devices answers exported).escaped [
      | some e ↦ attempt_all devices answers exported
      | none ↦
          let pass = attempt_all devices answers exported in
          let later = behind pass.calls (export_passes devices once passes pass.members) in
          if once then pass else later
    ]

-- The order of `sorted` on texts.
unfoldable pub text_leb : Text → Text → Bool
text_leb [] t = true
text_leb (c ∷ s) [] = false
text_leb (c ∷ s) (d ∷ t) = ltb c d || (c == d && text_leb s t)

unfoldable pub insert : Text → List Text → List Text
insert s [] = s ∷ []
insert s (t ∷ ts) = if text_leb s t then s ∷ t ∷ ts else t ∷ insert s ts

unfoldable pub sorted : List Text → List Text
sorted [] = []
sorted (s ∷ ss) = insert s (sorted ss)

-- `next(item for item in settings.local_devices if item.busid == busid)`
unfoldable pub find_spec : Text → List DeviceSpec → Result UsbError DeviceSpec
find_spec busid [] = err stop_iteration
find_spec busid (spec ∷ specs) = if text_eq spec.busid busid then ok spec else find_spec busid specs

-- `unexport_device` for one exported bus ID after the other.
unfoldable pub unexport_all : List DeviceSpec → List Text → List Answer → Stopped
unexport_all devices [] answers = record { called = []; escaped = none }
unexport_all devices (busid ∷ busids) answers = elim (find_spec busid devices) [
  | err e ↦ record { called = []; escaped = some e }
  | ok spec ↦ elim (escapes (next_result answers).0) [
    | some e ↦ record { called = spec.busid ∷ []; escaped = some e }
    | none ↦ with_call spec.busid (unexport_all devices busids (next_result answers).1)
  ]
]

-- The calls are those of `unexport_device`, by their bus IDs.
unfoldable pub export_watch : List DeviceSpec → Bool → List (List Answer) → List Answer → Stopped
export_watch devices once passes answers =
    if length devices == 0
    then record { called = []; escaped = some (controller no_devices) }
    else elim (export_passes devices once passes []).escaped [
      | some e ↦ record { called = []; escaped = some e }
      | none ↦ unexport_all devices (sorted (export_passes devices once passes []).members) answers
    ]
