-- ===== src/Usb/Export/Restore.antt =====
-- A failed export puts back what it has released.
use ydyun_vdesktop_linux_dri.Base.{
  ◌≤◌, ◌≡◌, inl, inr, Bool, true, false, List, [], ◌++◌, map, All, some, arith, length, take, Text,
  Result, ok, err, Result-cases, strip, lower_char, one_of,
}
use ydyun_vdesktop_linux_dri.Usb.Errors.{UsbError, controller}
use ydyun_vdesktop_linux_dri.Usb.Export.{
  Binding, Write, unbind, is_host, Released, restore_local_usb_drivers, Found, export_bindings,
  export_device, ensure_exportable_usb_device, hub_classes,
}

abbrev pub unbinds : List Binding → List Write
unbinds = map unbind

-- How far the release of the drivers has come. The interfaces that are released are not bound to
-- usbip-host, and their writes have returned; one more may have failed, which ends the release.
pub record Progress (bindings : List Binding) (answers : List Bool) (r : Released) : Type 0 where
  pub all_written : r.writes ≡ unbinds (r.released ++ r.failed)
  pub not_host : All (λ b. is_host b ≡ false) (r.released ++ r.failed)
  pub one_failure : length r.failed ≤ 1
  pub returned : All (λ a. a ≡ true) (take (length r.released) answers)
  -- With no failure, a restoration of all bindings is one of the released.
  pub complete :
      r.failed ≡ []
      → (exists : Binding → Bool)
      → restore_local_usb_drivers exists bindings ≡ restore_local_usb_drivers exists r.released

-- The writes of an export that has returned, and of one that has failed.
abbrev pub Balanced : Found → Result UsbError (Unit {0}) → List Write → Type 0
Balanced found (ok u) writes =
    (released : List Binding) × (writes ≡ unbinds released)
    × All (λ b. is_host b ≡ false) released
    × All (λ a. a ≡ true) (take (length released) found.answers)
Balanced found (err (controller reason)) writes =
    (released : List Binding) × (failed : List Binding) × (writes
      ≡ unbinds (released ++ failed) ++ restore_local_usb_drivers found.exists released)
    × (length failed ≤ 1)
    × All (λ b. is_host b ≡ false) (released ++ failed)
    × All (λ a. a ≡ true) (take (length released) found.answers)
Balanced found (err other) writes =
    (released : List Binding) × (writes ≡ unbinds released)
    × All (λ b. is_host b ≡ false) released
    × All (λ a. a ≡ true) (take (length released) found.answers)

hub-not_exportable :
    (busid text : Text) (present : Bool)
    → one_of (map lower_char (strip text)) hub_classes ≡ true
    → (e : UsbError) × (ensure_exportable_usb_device busid present (some text) ≡ err e)
unfolding ensure_exportable_usb_device
hub-not_exportable busid text present h =
    elim (Result-cases (ensure_exportable_usb_device busid present (some text))) [
      | inr refused ↦ refused
      | inl (u, accepted) ↦ absurd (ground arith)
    ]

-- A device whose class is that of a hub is not exported, and nothing is written for it.
pub export_device-hub :
    (busid text : Text) (found : Found)
    → found.device_class ≡ some text
    → one_of (map lower_char (strip text)) hub_classes ≡ true
    → ((e : UsbError) × ((export_device busid found).0 ≡ err e))
      × ((export_device busid found).1 ≡ [])
unfolding export_device export_bindings
export_device-hub busid text found c h =
    let (e, refused) = hub-not_exportable busid text found.present h in
    (
      (e, rw (export_device, export_bindings, c, refused)),
      rw (export_device, export_bindings, c, refused),
    )
