-- ===== src/Tests/Export.antt =====
-- Runs of the export of local devices of linux/src/ydyun_usbctl.py.
use ydyun_vdesktop_linux_dri.Base.{
  ◌≡◌, refl, true, false, [], ◌∷◌, some, none, Text, codes, strip, drop_spaces, is_space,
  lower_char, ok, err,
}
use ydyun_vdesktop_linux_dri.Usb.Errors.{controller, sysfs_write}
use ydyun_vdesktop_linux_dri.Usb.Names.{validate_busid, bad_in_busid, in_shell_chars}
use ydyun_vdesktop_linux_dri.Usb.Export.{
  next_answer, Driver, Entry, Binding, unbind, bind, Found, export_device, export_bindings,
  ensure_exportable_usb_device, local_interface_bindings, entries_bindings, entry_binding,
  release_local_usb_drivers, unbind_all, restore_local_usb_drivers, bind_released,
}

abbrev usbhid : Driver
usbhid = record { name = codes "usbhid"; expected_place = true }

abbrev entry : Text → Entry
entry interface = record {
  interface = interface;
  is_dir = true;
  has_link = true;
  driver = some usbhid;
}

-- The second of two interfaces refuses its release.
abbrev refusing : Found
refusing = record {
  present = true;
  device_class = some (codes "00\n");
  modules = ok tt;
  still_present = true;
  entries = entry (codes "1-1:1.0") ∷ entry (codes "1-1:1.1") ∷ [];
  answers = true ∷ false ∷ [];
  exists = λ b. true;
  bind_raises = none;
}

abbrev held : Text → Binding
held interface = record { interface = interface; driver = codes "usbhid" }

rolled_back : export_device (codes "1-1") refusing ≡ (
  err (controller sysfs_write),
  unbind (held (codes "1-1:1.0"))
      ∷ unbind (held (codes "1-1:1.1"))
      ∷ bind (held (codes "1-1:1.0"))
      ∷ [],
)
unfolding export_device export_bindings ensure_exportable_usb_device local_interface_bindings
    entries_bindings entry_binding release_local_usb_drivers unbind_all next_answer
    restore_local_usb_drivers bind_released validate_busid bad_in_busid in_shell_chars strip
    drop_spaces is_space lower_char
rolled_back = refl
