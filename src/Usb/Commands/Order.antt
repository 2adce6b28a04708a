-- ===== src/Usb/Commands/Order.antt =====
-- The order of what the commands do, and what they never do.
use ydyun_vdesktop_linux_dri.Base.{
  ℕ, ◌≡◌, refl, sym, ◌∙◌, ap, inl, inr, true, List, [], ◌∷◌, ◌++◌, append_assoc, Bool-cases, Text,
  codes, Result, err, ok,
}
use ydyun_vdesktop_linux_dri.Usb.Errors.{UsbError}
use ydyun_vdesktop_linux_dri.Usb.Names.{validate_busid}
use ydyun_vdesktop_linux_dri.Usb.Watch.{DeviceSpec}
use ydyun_vdesktop_linux_dri.Usb.Settings.Connection.{Settings}
use ydyun_vdesktop_linux_dri.Usb.Script.{
  Action, process, write, connect, Machine, Script, lift, ◌>>=◌, find_usbip, run_checked, modprobe,
  modules, load_all, ensure, try_connect,
}
use ydyun_vdesktop_linux_dri.Usb.Commands.{
  attach_argv, unbind_argv, attach, attach_to_proxy, drivers_probe, write_sysfs,
  probe_local_usb_device, unexport_device,
}

-- Where a script of two parts returns, both have.
pub >>=-returns :
    {A B : Type 0} (first : Script A) (next : A → Script B) {past after : List Action} {b : B}
    → (first >>= next) past ≡ (ok b, after)
    → (a : A) × (between : List Action) × (first past ≡ (ok a, between))
      × (next a between ≡ (ok b, after))
>>=-returns {A} {B} first next {past} {after} {b} h = go (first past) refl
  where
    go :
        (r : Result UsbError A × List Action)
        → first past ≡ r
        → (a : A) × (between : List Action) × (first past ≡ (ok a, between))
          × (next a between ≡ (ok b, after))
    go (err e, between) same = let h' = rw same at h in absurd (cc (ap (λ p. p.0) h'))
    go (ok a, between) same = (a, between, same, rw same at h)

run_checked-acts :
    (m : Machine) (argv : List Text) (past : List Action) {after : List Action} {out : Text}
    → run_checked m argv past ≡ (ok out, after)
    → after ≡ past ++ (process argv ∷ [])
unfolding run_checked
run_checked-acts m argv past h = sym (ap (λ p. p.1) h)

pub lift-acts :
    {A : Type 0} (r : Result UsbError A) {past after : List Action} {a : A}
    → lift r past ≡ (ok a, after)
    → (r ≡ ok a) × (past ≡ after)
lift-acts r h = (ap (λ p. p.0) h, ap (λ p. p.1) h)

ensure-acts :
    (m : Machine) (past : List Action) {after : List Action} {u : Unit {0}}
    → ensure m modules past ≡ (ok u, after)
    → (m.is_root ≡ true)
      × (after
          ≡ past
            ++ (process (modprobe (codes "usbip-core"))
                ∷ process (modprobe (codes "vhci-hcd"))
                ∷ []))
unfolding ensure load_all
ensure-acts m past h = elim (Bool-cases m.is_root) [
  | inr user ↦ let h' = rw user at h in absurd (cc (ap (λ p. p.0) h'))
  | inl root ↦
      let (out, mid, h1, h2) =
        >>=-returns (run_checked m (modprobe (codes "usbip-core"))) _ (rw root at h) in
      let (out', mid', h3, h4) = >>=-returns (run_checked m (modprobe (codes "vhci-hcd"))) _ h2 in
      (
        root,
        sym (ap (λ p. p.1) h4)
            ∙ run_checked-acts m _ mid h3
            ∙ ap (λ l. l ++ (process (modprobe (codes "vhci-hcd")) ∷ []))
                (run_checked-acts m _ past h1)
            ∙ append_assoc past _ _,
      )
]

-- An attach through the bridge's own proxy that returns has, as root, loaded the two modules and run
-- `usbip attach` once with a checked bus ID, and done nothing else: it has not tried the connection
-- first, which the proxy would have taken for the attach.
pub attach_to_proxy_acts :
    (m : Machine) (host : Text) (port : ℕ) (raw out : Text) (past after : List Action)
    → attach_to_proxy m host port raw past ≡ (ok out, after)
    → (usbip : Text) × (busid : Text) × (find_usbip m ≡ ok usbip)
      × (validate_busid raw ≡ ok busid)
      × (m.is_root ≡ true)
      × (after
          ≡ past
            ++ (process (modprobe (codes "usbip-core"))
                ∷ process (modprobe (codes "vhci-hcd"))
                ∷ process (attach_argv usbip port host busid)
                ∷ []))
unfolding attach_to_proxy
attach_to_proxy_acts m host port raw out past after h =
    let (u, mid, h1, h2) = >>=-returns (ensure m modules) _ h in
    let (root, loaded) = ensure-acts m past h1 in
    let (busid, mid2, h3, h4) = >>=-returns (lift (validate_busid raw)) _ h2 in
    let (valid, same) = lift-acts (validate_busid raw) h3 in
    let (usbip, mid3, h5, h6) = >>=-returns (lift (find_usbip m)) _ h4 in
    let (found, same') = lift-acts (find_usbip m) h5 in
    (
      usbip,
      busid,
      found,
      valid,
      root,
      run_checked-acts m _ mid3 h6
          ∙ ap (λ l. l ++ (process (attach_argv usbip port host busid) ∷ []))
              (sym (same ∙ same') ∙ loaded)
          ∙ append_assoc past _ _,
    )

-- An attach that returns has, as root, loaded the two modules, tried a connection to the remote host,
-- and then run `usbip attach` once, and done nothing else.
pub attach_acts :
    (m : Machine) (s : Settings) (spec : DeviceSpec) (out : Text) (past after : List Action)
    → attach m s spec past ≡ (ok out, after)
    → (usbip : Text) × (find_usbip m ≡ ok usbip)
      × (m.is_root ≡ true)
      × (after
          ≡ past
            ++ (process (modprobe (codes "usbip-core"))
                ∷ process (modprobe (codes "vhci-hcd"))
                ∷ connect s.remote_host s.remote_port
                ∷ process (attach_argv usbip s.remote_port s.remote_host spec.busid)
                ∷ []))
unfolding attach try_connect
attach_acts m s spec out past after h =
    let (u, mid, h1, h2) = >>=-returns (ensure m modules) _ h in
    let (root, loaded) = ensure-acts m past h1 in
    let (v, mid2, h3, h4) = >>=-returns (try_connect m s.remote_host s.remote_port) _ h2 in
    let (usbip, mid3, h5, h6) = >>=-returns (lift (find_usbip m)) _ h4 in
    let (found, same) = lift-acts (find_usbip m) h5 in
    let tried : mid2 ≡ mid ++ (connect s.remote_host s.remote_port ∷ []) = sym (ap (λ p. p.1) h3) in
    let argv = attach_argv usbip s.remote_port s.remote_host spec.busid in
    (
      usbip,
      found,
      root,
      run_checked-acts m argv mid3 h6
          ∙ ap (λ l. l ++ (process argv ∷ []))
              (sym same
                ∙ tried
                ∙ ap (λ l. l ++ (connect s.remote_host s.remote_port ∷ [])) loaded
                ∙ append_assoc past _ _)
          ∙ append_assoc past _ _,
    )

write_sysfs-acts :
    (m : Machine) (path value : Text) (past : List Action) {after : List Action} {u : Unit {0}}
    → write_sysfs m path value past ≡ (ok u, after)
    → after ≡ past ++ (write path value ∷ [])
unfolding write_sysfs
write_sysfs-acts m path value past h = sym (ap (λ p. p.1) h)

probe_local_usb_device-acts :
    (m : Machine) (raw : Text) (past : List Action) {after : List Action} {u : Unit {0}}
    → probe_local_usb_device m raw past ≡ (ok u, after)
    → (busid : Text) × (validate_busid raw ≡ ok busid)
      × (m.exists drivers_probe ≡ true)
      × (after ≡ past ++ (write drivers_probe busid ∷ []))
unfolding probe_local_usb_device
probe_local_usb_device-acts m raw past h = elim (Bool-cases (m.exists drivers_probe)) [
  | inr missing ↦ let h' = rw missing at h in absurd (cc (ap (λ p. p.0) h'))
  | inl there ↦
      let (busid, mid, h1, h2) = >>=-returns (lift (validate_busid raw)) _ (rw there at h) in
      let (valid, same) = lift-acts (validate_busid raw) h1 in
      (
        busid,
        valid,
        there,
        write_sysfs-acts m drivers_probe busid mid h2
            ∙ ap (λ l. l ++ (write drivers_probe busid ∷ [])) (sym same),
      )
]

-- An unexport that returns has run `usbip unbind` and then, after it has succeeded, asked the kernel to
-- probe the device again, with the bus ID as it was checked, and done nothing else.
pub unexport_device_acts :
    (m : Machine) (spec : DeviceSpec) (out : Text) (past after : List Action)
    → unexport_device m spec past ≡ (ok out, after)
    → (usbip : Text) × (busid : Text) × (find_usbip m ≡ ok usbip)
      × (validate_busid spec.busid ≡ ok busid)
      × (m.exists drivers_probe ≡ true)
      × (after ≡ past ++ (process (unbind_argv usbip spec.busid) ∷ write drivers_probe busid ∷ []))
unfolding unexport_device
unexport_device_acts m spec out past after h =
    let (usbip, mid, h1, h2) = >>=-returns (lift (find_usbip m)) _ h in
    let (found, same) = lift-acts (find_usbip m) h1 in
    let (output, mid2, h3, h4) = >>=-returns (run_checked m (unbind_argv usbip spec.busid)) _ h2 in
    let (u, mid3, h5, h6) = >>=-returns (probe_local_usb_device m spec.busid) _ h4 in
    let (busid, valid, there, written) = probe_local_usb_device-acts m spec.busid mid2 h5 in
    (
      usbip,
      busid,
      found,
      valid,
      there,
      sym (ap (λ p. p.1) h6)
          ∙ written
          ∙ ap (λ l. l ++ (write drivers_probe busid ∷ []))
              (run_checked-acts m (unbind_argv usbip spec.busid) mid h3
                ∙ ap (λ l. l ++ (process (unbind_argv usbip spec.busid) ∷ [])) (sym same))
          ∙ append_assoc past _ _,
    )
