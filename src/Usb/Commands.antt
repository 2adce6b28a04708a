-- ===== src/Usb/Commands.antt =====
-- linux/src/ydyun_usbctl.py: list_remote, list_ports, list_local, attach, attach_to_proxy, detach,
-- unexport_device and _auto_detach, with every process that they start.
pub mod Order
pub mod Detach
use ydyun_vdesktop_linux_dri.Base.{
  ℕ, Bool, true, false, not, List, [], ◌∷◌, ◌++◌, Option, if◌then◌else◌, Text, codes, Result, err,
  ok,
}
use ydyun_vdesktop_linux_dri.Base.Decimal.{str_nat}
use ydyun_vdesktop_linux_dri.Usb.Errors.{
  UsbError, controller, no_drivers_probe, not_a_port_index, sysfs_write,
}
use ydyun_vdesktop_linux_dri.Usb.Names.{validate_busid}
use ydyun_vdesktop_linux_dri.Usb.Ports.{is_index, port_indexes_for_busids}
use ydyun_vdesktop_linux_dri.Usb.Watch.{DeviceSpec}
use ydyun_vdesktop_linux_dri.Usb.Settings.Connection.{Settings}
use ydyun_vdesktop_linux_dri.Usb.Script.{
  Action, process, write, Machine, Script, done, raise, lift, ◌>>=◌, ◌>>◌, find_usbip, run_checked,
  modules, ensure, try_connect,
}

abbrev pub list_remote_argv : Text → Settings → List Text
list_remote_argv usbip s =
    usbip
    ∷ codes "--tcp-port"
    ∷ str_nat s.remote_port
    ∷ codes "list"
    ∷ codes "--remote"
    ∷ s.remote_host
    ∷ []

abbrev pub port_argv : Text → List Text
port_argv usbip = usbip ∷ codes "port" ∷ []

abbrev pub list_local_argv : Text → List Text
list_local_argv usbip = usbip ∷ codes "list" ∷ codes "--local" ∷ []

abbrev pub attach_argv : Text → ℕ → Text → Text → List Text
attach_argv usbip port host busid =
    usbip
    ∷ codes "--tcp-port"
    ∷ str_nat port
    ∷ codes "attach"
    ∷ codes "--remote"
    ∷ host
    ∷ codes "--busid"
    ∷ busid
    ∷ []

abbrev pub detach_argv : Text → Text → List Text
detach_argv usbip port = usbip ∷ codes "detach" ∷ codes "--port" ∷ port ∷ []

abbrev pub unbind_argv : Text → Text → List Text
unbind_argv usbip busid = usbip ∷ codes "unbind" ∷ codes "--busid" ∷ busid ∷ []

unfoldable pub list_remote : Machine → Settings → Script Text
unfolding find_usbip run_checked
list_remote m s = do usbip ← lift (find_usbip m); run_checked m (list_remote_argv usbip s)

unfoldable pub list_ports : Machine → Script Text
unfolding find_usbip run_checked
list_ports m = do usbip ← lift (find_usbip m); run_checked m (port_argv usbip)

unfoldable pub list_local : Machine → Script Text
unfolding find_usbip run_checked
list_local m = do usbip ← lift (find_usbip m); run_checked m (list_local_argv usbip)

unfoldable pub attach : Machine → Settings → DeviceSpec → Script Text
unfolding find_usbip run_checked ensure try_connect
attach m s spec = do
  ensure m modules
  try_connect m s.remote_host s.remote_port
  usbip ← lift (find_usbip m)
  run_checked m (attach_argv usbip s.remote_port s.remote_host spec.busid)

unfoldable pub attach_to_proxy : Machine → Text → ℕ → Text → Script Text
unfolding find_usbip run_checked ensure
attach_to_proxy m host port raw = do
  ensure m modules
  busid ← lift (validate_busid raw)
  usbip ← lift (find_usbip m)
  run_checked m (attach_argv usbip port host busid)

unfoldable pub detach : Machine → (ℕ → Bool) → Text → Script Text
unfolding find_usbip run_checked
detach m is_digit port = do
  (if is_index is_digit port then done tt else raise (controller not_a_port_index))
  usbip ← lift (find_usbip m)
  run_checked m (detach_argv usbip port)

abbrev pub drivers_probe : Text
drivers_probe = codes "/sys/bus/usb/drivers_probe"

unfoldable pub write_sysfs : Machine → Text → Text → Script (Unit {0})
write_sysfs m path value past =
    let past' = past ++ (write path value ∷ []) in
    ((if m.writes past' then ok tt else err (controller sysfs_write)), past')

unfoldable pub probe_local_usb_device : Machine → Text → Script (Unit {0})
unfolding write_sysfs
probe_local_usb_device m raw =
    if not (m.exists drivers_probe)
    then raise (controller no_drivers_probe)
    else (lift (validate_busid raw) >>= λ busid. write_sysfs m drivers_probe busid)

unfoldable pub unexport_device : Machine → DeviceSpec → Script Text
unfolding find_usbip run_checked probe_local_usb_device
unexport_device m spec = do
  usbip ← lift (find_usbip m)
  output ← run_checked m (unbind_argv usbip spec.busid)
  probe_local_usb_device m spec.busid
  done output

unfoldable pub detach_all : Machine → (ℕ → Bool) → List Text → Script (Unit {0})
unfolding detach
detach_all m is_digit [] = done tt
detach_all m is_digit (port ∷ ports) = detach m is_digit port >>= λ _. detach_all m is_digit ports

unfoldable pub auto_detach : Machine → (ℕ → Bool) → Text → Script (Unit {0})
unfolding list_ports detach_all
auto_detach m is_digit busid = do
  output ← list_ports m
  ports ← lift (port_indexes_for_busids is_digit output (busid ∷ []))
  detach_all m is_digit ports
