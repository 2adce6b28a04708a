-- ===== src/Usb/Watch/Configured.antt =====
-- The sets that `watch` and `export_watch` keep have configured devices only.
use ydyun_vdesktop_linux_dri.Base.{
  ◌≡◌, refl, inl, inr, Bool, true, ◌||◌, List, [], ◌∷◌, ◌++◌, arith, if◌then◌else◌, Bool-cases,
  Option-cases, Result, ok, err, ok_injective, subst, Text, one_of, ok, Result, Option-cases, subst,
  err, ok_injective,
}
use ydyun_vdesktop_linux_dri.Usb.Errors.{UsbError}
use ydyun_vdesktop_linux_dri.Usb.Watch.{
  DeviceSpec, Answer, next_result, returns, escapes, attempt_all, Pass, refresh, watch_pass,
  watch_passes, export_passes,
}
use ydyun_vdesktop_linux_dri.Usb.Watch.Members.{busids_of, one_of-when, busids_in_ports_lem}

-- Every member of this set is configured.
abbrev pub AreConfigured : List DeviceSpec → List Text → Type 0
AreConfigured devices members =
    (busid : Text) → one_of busid members ≡ true → one_of busid (busids_of devices) ≡ true

-- A new member is one of the devices.
attempt_all_named :
    (busid : Text) (specs : List DeviceSpec) (answers : List Answer) (members : List Text)
    → one_of busid (attempt_all specs answers members).members ≡ true
    → (one_of busid members || one_of busid (busids_of specs)) ≡ true
unfolding attempt_all
attempt_all_named busid [] answers members h = ground arith
attempt_all_named busid (spec ∷ specs) answers members h =
    elim (Bool-cases (one_of spec.busid members)) [
      | inl old ↦
          let later = attempt_all_named busid specs answers members (rw (attempt_all, old) at h) in
          ground (arith, later)
      | inr new ↦
          let (answer, answers') = next_result answers in
          let members' = if returns answer then members ++ spec.busid ∷ [] else members in
          elim (Option-cases (escapes answer)) [
            | inr (e, out) ↦ let old = rw (attempt_all, new, out) at h in ground (arith, old)
            | inl caught ↦
                let later =
                  attempt_all_named busid specs answers' members'
                    (rw (attempt_all, new, caught) at h) in
                let grown = one_of-when busid spec.busid members (returns answer) in
                ground (arith, rw grown at later)
          ]
    ]

pub attempt_all-AreConfigured :
    (devices : List DeviceSpec) (answers : List Answer) (members : List Text)
    → AreConfigured devices members
    → AreConfigured devices (attempt_all devices answers members).members
attempt_all-AreConfigured devices answers members v busid h =
    let named = attempt_all_named busid devices answers members h in
    elim (Bool-cases (one_of busid members)) [ inl old ↦ v busid old | inr new ↦ rw new at named ]

refresh-AreConfigured :
    (devices : List DeviceSpec) (listing : Result UsbError Text) (attached : List Text)
    → AreConfigured devices attached
    → AreConfigured devices (refresh listing attached)
unfolding refresh
refresh-AreConfigured devices (err e) attached v busid h = v busid h
refresh-AreConfigured devices (ok output) attached v busid h =
    v busid (ground (arith, busids_in_ports_lem output busid attached))

watch_pass-AreConfigured :
    (devices : List DeviceSpec) (pass : Pass) (attached : List Text)
    → AreConfigured devices attached
    → AreConfigured devices (watch_pass devices pass attached).members
unfolding watch_pass
watch_pass-AreConfigured devices pass attached v = elim (Option-cases (escapes pass.listing)) [
  | inr (e, out) ↦ rw (watch_pass, out) v
  | inl caught ↦
      rw (watch_pass, caught)
        (attempt_all-AreConfigured devices pass.answers _
          (refresh-AreConfigured devices pass.listing attached v))
]

pub watch_passes-AreConfigured :
    (devices : List DeviceSpec) (once : Bool) (passes : List Pass) (attached left : List Text)
    → AreConfigured devices attached
    → watch_passes devices once passes attached ≡ ok left
    → AreConfigured devices left
unfolding watch_passes
watch_passes-AreConfigured devices once [] attached left v h =
    subst (AreConfigured devices) (ok_injective refl h) v
watch_passes-AreConfigured devices once (pass ∷ passes) attached left v h =
    let w = watch_pass-AreConfigured devices pass attached v in
    elim (Option-cases (watch_pass devices pass attached).escaped) [
      | inr (e, out) ↦ cc (rw (watch_passes, out) at h)
      | inl caught ↦ elim (Bool-cases once) [
        | inl one ↦
            let same = rw (watch_passes, caught, one) at h in
            subst (AreConfigured devices) (ok_injective refl same) w
        | inr more ↦
            watch_passes-AreConfigured devices once passes _ left w
              (rw (watch_passes, caught, more) at h)
      ]
    ]

pub export_passes-AreConfigured :
    (devices : List DeviceSpec) (once : Bool) (passes : List (List Answer)) (exported : List Text)
    → AreConfigured devices exported
    → AreConfigured devices (export_passes devices once passes exported).members
unfolding export_passes
export_passes-AreConfigured devices once [] exported v = v
export_passes-AreConfigured devices once (answers ∷ passes) exported v =
    let pass = attempt_all devices answers exported in
    let w = attempt_all-AreConfigured devices answers exported v in
    elim (Option-cases pass.escaped) [
      | inr (e, out) ↦ rw (export_passes, out) w
      | inl caught ↦ elim (Bool-cases once) [
        | inl one ↦ rw (export_passes, caught, one) w
        | inr more ↦
            rw (export_passes, caught, more)
              (export_passes-AreConfigured devices once passes pass.members w)
      ]
    ]
