-- ===== src/Usb/Export.antt =====
-- linux/src/ydyun_usbctl.py: the export of a local device, with the writes to sysfs that it makes. What
-- sysfs holds, whether a write returns or raises OSError, and what `modprobe` and `usbip` answer, are
-- arguments. Names in sysfs and the text of `bDeviceClass` are taken to be ASCII.
pub mod Restore
use ydyun_vdesktop_linux_dri.Base.{
  ℕ, Bool, true, false, ◌||◌, not, List, [], ◌∷◌, ◌++◌, map, Option, none, some, if◌then◌else◌,
  Text, codes, text_eq, one_of, strip, lower_char, Result, ok, err, ◌>>=◌, ◌>>◌, raise_if,
}
use ydyun_vdesktop_linux_dri.Usb.Errors.{
  UsbError, controller, missing_device, unreadable_class, hub_refused, unresolved_driver,
  unexpected_driver, sysfs_write,
}
use ydyun_vdesktop_linux_dri.Usb.Names.{validate_busid}

-- A driver's directory: its name, and whether it lies directly under the directory of USB drivers.
pub record Driver : Type 0 where
  pub name : Text
  pub expected_place : Bool

-- An interface of the device as sysfs shows it. `driver` is none where the link cannot be resolved.
pub record Entry : Type 0 where
  pub interface : Text
  pub is_dir : Bool
  pub has_link : Bool
  pub driver : Option Driver

pub record Binding : Type 0 where
  pub interface : Text
  pub driver : Text

-- One round of the loop over the interfaces.
unfoldable pub entry_binding : Entry → Result UsbError (List Binding)
entry_binding entry = if not entry.is_dir || not entry.has_link then ok [] else elim entry.driver [
  | none ↦ err (controller unresolved_driver)
  | some driver ↦
      if driver.expected_place
      then ok (record { interface = entry.interface; driver = driver.name } ∷ [])
      else err (controller unexpected_driver)
]

unfoldable pub entries_bindings : List Entry → Result UsbError (List Binding)
entries_bindings [] = ok []
entries_bindings (entry ∷ entries) = do
  first ← entry_binding entry
  later ← entries_bindings entries
  ok (first ++ later)

unfoldable pub local_interface_bindings : Text → Bool → List Entry → Result UsbError (List Binding)
local_interface_bindings busid present entries = do
  _ ← validate_busid busid
  raise_if (not present) (controller missing_device)
  entries_bindings entries

-- `bDeviceClass` is 9 for a hub.
abbrev pub hub_classes : List Text
hub_classes = codes "09" ∷ codes "0x09" ∷ codes "09\n" ∷ []

unfoldable pub ensure_exportable_usb_device : Text → Bool → Option Text → Result UsbError (Unit {0})
ensure_exportable_usb_device busid present device_class = do
  _ ← validate_busid busid
  raise_if (not present) (controller missing_device)
  elim device_class [
    | none ↦ err (controller unreadable_class)
    | some text ↦
        raise_if (one_of (map lower_char (strip text)) hub_classes) (controller hub_refused)
  ]

-- A write of an interface's name to the file `unbind` or `bind` of a driver.
pub data Write : Type 0 where
  unbind bind : Binding → Write

abbrev pub is_host : Binding → Bool
is_host binding = text_eq binding.driver (codes "usbip-host")

-- The answer to the next write.
unfoldable pub next_answer : List Bool → Bool × List Bool
next_answer [] = (false, [])
next_answer (answer ∷ answers) = (answer, answers)

-- The interfaces that have been released, those whose release has failed, and the writes.
pub record Released : Type 0 where
  pub released : List Binding
  pub failed : List Binding
  pub writes : List Write

-- `_release_local_usb_drivers`, up to the first write that raises.
unfoldable pub unbind_all : List Binding → List Bool → Released
unbind_all [] answers = record { released = []; failed = []; writes = [] }
unbind_all (binding ∷ bindings) answers = elim (is_host binding) [
  | true ↦ unbind_all bindings answers
  | false ↦
      let (returned, answers') = next_answer answers in
      let later = unbind_all bindings answers' in
      if returned
      then record {
        released = binding ∷ later.released;
        failed = later.failed;
        writes = unbind binding ∷ later.writes;
      }
      else record { released = []; failed = binding ∷ []; writes = unbind binding ∷ [] }
]

-- `_restore_local_usb_drivers`: the writes, which may fail. `exists` tells whether the interface and
-- the driver's file `bind` are there.
unfoldable pub restore_local_usb_drivers : (Binding → Bool) → List Binding → List Write
restore_local_usb_drivers exists [] = []
restore_local_usb_drivers exists (binding ∷ bindings) =
    let later = restore_local_usb_drivers exists bindings in
    if is_host binding || not (exists binding) then later else bind binding ∷ later

unfoldable pub release_local_usb_drivers :
    (Binding → Bool) → List Bool → List Binding → Result UsbError (List Binding) × List Write
release_local_usb_drivers exists answers bindings =
    let done = unbind_all bindings answers in
    elim done.failed [
      | [] ↦ (ok bindings, done.writes)
      | b ∷ bs ↦ (
        err (controller sysfs_write),
        done.writes ++ restore_local_usb_drivers exists done.released,
      )
    ]

-- What an export finds. `bind_raises` is the exception of `usbip bind`: ControllerError, or one that
-- `run_checked` lets out, as OSError of a process that cannot be started.
pub record Found : Type 0 where
  pub present : Bool
  pub device_class : Option Text
  pub modules : Result UsbError (Unit {0})
  pub still_present : Bool
  pub entries : List Entry
  pub answers : List Bool
  pub exists : Binding → Bool
  pub bind_raises : Option UsbError

-- `except ControllerError`: the restoration; other exceptions go out with nothing restored.
abbrev pub bind_raised :
    Found → List Binding → List Write → UsbError → Result UsbError (Unit {0}) × List Write
bind_raised found bindings writes (controller reason) =
    (err (controller reason), writes ++ restore_local_usb_drivers found.exists bindings)
bind_raised found bindings writes other = (err other, writes)

-- `usbip bind`, and the restoration if it fails.
pub bind_device : Found → List Binding → List Write → Result UsbError (Unit {0}) × List Write
bind_device found bindings writes = elim found.bind_raises [
  | none ↦ (ok tt, writes)
  | some e ↦ bind_raised found bindings writes e
]

unfoldable pub bind_released :
    Found → Result UsbError (List Binding) × List Write → Result UsbError (Unit {0}) × List Write
bind_released found (err e, writes) = (err e, writes)
bind_released found (ok bindings, writes) = bind_device found bindings writes

-- The part of an export before its first write.
unfoldable pub export_bindings : Text → Found → Result UsbError (List Binding)
export_bindings busid found = do
  ensure_exportable_usb_device busid found.present found.device_class
  found.modules
  local_interface_bindings busid found.still_present found.entries

unfoldable pub export_device : Text → Found → Result UsbError (Unit {0}) × List Write
export_device busid found = elim (export_bindings busid found) [
  | err e ↦ (err e, [])
  | ok bindings ↦
      bind_released found (release_local_usb_drivers found.exists found.answers bindings)
]
