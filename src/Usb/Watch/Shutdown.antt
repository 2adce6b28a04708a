-- ===== src/Usb/Watch/Shutdown.antt =====
-- What `watch` and `export_watch` do when they stop.
use ydyun_vdesktop_linux_dri.Base.{
  ℕ, ◌≤◌, ◌≡◌, refl, sym, ◌∙◌, inl, inr, Bool, true, false, List, [], ◌∷◌, Option, none, arith,
  ◌==◌, length, Bool-cases, Text, text_eq, text_eq_iff, one_of, contains, Result, ok, err,
  Result-cases, Option-cases, >>=-eq-ok, ◌>>=◌, All,
}
use ydyun_vdesktop_linux_dri.Usb.Ports.{names_one, split_lines, port_indexes_for_busids}
use ydyun_vdesktop_linux_dri.Usb.Ports.Blocks.{Listed, port_indexes-Listed}
use ydyun_vdesktop_linux_dri.Usb.Errors.{UsbError}
use ydyun_vdesktop_linux_dri.Usb.Watch.{
  DeviceSpec, Answer, Pass, next_result, escapes, watch_passes, detach_ports, detach_found,
  shut_down, watch, export_passes, sorted, find_spec, unexport_all, export_watch,
}
use ydyun_vdesktop_linux_dri.Usb.Watch.Members.{busids_of, succeeded, export_passes_members}
use ydyun_vdesktop_linux_dri.Usb.Watch.Caught.{
  IsCaught, next_result-IsCaught, export_passes-IsCaught,
}
use ydyun_vdesktop_linux_dri.Usb.Watch.Configured.{
  AreConfigured, watch_passes-AreConfigured, export_passes-AreConfigured,
}
use ydyun_vdesktop_linux_dri.Usb.Watch.Sorted.{IsAscending, sorted-IsAscending, one_of-sorted}

-- What is contained in a line, is one of the wanted.
named :
    (wanted : List Text) (line : Text)
    → names_one wanted line ≡ true
    → (busid : Text) × (one_of busid wanted ≡ true) × (names_one (busid ∷ []) line ≡ true)
named [] line h = cc
named (w ∷ wanted) line h = elim (Bool-cases (contains w line)) [
  | inl here ↦ (w, rw ((text_eq_iff w w).1 refl), rw here)
  | inr other ↦
      let (busid, one, names) = named wanted line (rw other at h) in
      (busid, rw one (ground arith), names)
]

Listed-one :
    (wanted : List Text) (lines : List Text) (current : Option Text) (port : Text)
    → Listed wanted current lines port
    → (busid : Text) × (one_of busid wanted ≡ true) × Listed (busid ∷ []) current lines port
Listed-one wanted [] current port listed = absurd listed
Listed-one wanted (line ∷ lines) current port (c, read, inl (at, n)) =
    let (busid, one, names) = named wanted line n in (busid, one, (c, read, inl (at, names)))
Listed-one wanted (line ∷ lines) current port (c, read, inr listed) =
    let (busid, one, later) = Listed-one wanted lines c port listed in
    (busid, one, (c, read, inr later))

-- The calls of `detach` are for ports that were found.
detach_ports_lem :
    (ports : List Text) (answers : List Answer) (port : Text)
    → one_of port (detach_ports ports answers).called ≡ true
    → one_of port ports ≡ true
unfolding detach_ports
detach_ports_lem [] answers port h = h
detach_ports_lem (p ∷ ports) answers port h =
    elim (Option-cases (escapes (next_result answers).0)) [
      | inr (e, out) ↦ let here = rw (detach_ports, out) at h in ground (arith, here)
      | inl caught ↦ elim (Bool-cases (text_eq port p)) [
        | inl same ↦ rw same
        | inr other ↦ rw other (
            detach_ports_lem ports (next_result answers).1 port
              (rw (detach_ports, caught, other) at h))
      ]
    ]

detach_found_lem :
    (found : Result UsbError (List Text)) (answers : List Answer) (port : Text)
    → one_of port (detach_found found answers).called ≡ true
    → (ports : List Text) × (found ≡ ok ports) × (one_of port ports ≡ true)
unfolding detach_found
detach_found_lem (ok ports) answers port h = (ports, refl, detach_ports_lem ports answers port h)
detach_found_lem (err e) answers port h = cc h

asked_for :
    (is_digit : ℕ → Bool) (detach_on_exit : Bool) (listing : Result UsbError Text)
    → (answers : List Answer) (attached : List Text) (port : Text)
    → one_of port (shut_down is_digit detach_on_exit listing answers attached).called ≡ true
    → (detach_on_exit ≡ true)
      × ((output : Text) × (ports : List Text) × (listing ≡ ok output)
          × (port_indexes_for_busids is_digit output attached ≡ ok ports)
          × (one_of port ports ≡ true))
unfolding shut_down
asked_for is_digit false listing answers attached port h = cc h
asked_for is_digit true listing answers attached port h = elim (Bool-cases (length attached == 0)) [
  | inl empty ↦ cc (rw (shut_down, empty) at h)
  | inr some_left ↦
      let (ports, found, one) =
        detach_found_lem (listing >>= λ output. port_indexes_for_busids is_digit output attached)
          answers port (rw (shut_down, some_left) at h) in
      let (output, read, picked) = >>=-eq-ok listing _ found in
      (refl, (output, ports, read, picked, one))
]

-- A port that `watch` detaches at its end is one whose block of the last listing has a line that
-- contains the bus ID of a configured device as a substring, and it detaches ports only if the
-- settings ask for it. A line with a longer bus ID counts: for a configured 1-1 the port of 1-10 may be
-- detached, be it configured or not.
pub watch_detaches :
    (is_digit : ℕ → Bool) (devices : List DeviceSpec) (detach_on_exit once : Bool)
    → (passes : List Pass) (listing : Result UsbError Text) (answers : List Answer) (port : Text)
    → one_of port (watch is_digit devices detach_on_exit once passes listing answers).called ≡ true
    → (detach_on_exit ≡ true)
      × ((output : Text) × (busid : Text) × (listing ≡ ok output)
          × (one_of busid (busids_of devices) ≡ true)
          × Listed (busid ∷ []) none (split_lines output) port)
unfolding watch
watch_detaches is_digit devices detach_on_exit once passes listing answers port h =
    elim (Bool-cases (length devices == 0)) [
      | inl empty ↦ cc (rw (watch, empty) at h)
      | inr filled ↦ elim (Result-cases (watch_passes devices once passes [])) [
        | inr (e, out) ↦ cc (rw (watch, filled, out) at h)
        | inl (attached, ended) ↦
            let (asked, (output, ports, read, found, one)) =
              asked_for is_digit detach_on_exit listing answers attached port
                (rw (watch, filled, ended) at h) in
            let (digits, listed) =
              (port_indexes-Listed is_digit output attached ports port found).0 one in
            let (busid, wanted, only) = Listed-one attached (split_lines output) none port listed in
            let configured =
              watch_passes-AreConfigured devices once passes [] attached (λ b never. cc) ended in
            (asked, (output, busid, read, configured busid wanted, only))
      ]
    ]

find_spec_configured :
    (busid : Text) (devices : List DeviceSpec)
    → one_of busid (busids_of devices) ≡ true
    → (spec : DeviceSpec) × (find_spec busid devices ≡ ok spec) × (spec.busid ≡ busid)
unfolding find_spec
find_spec_configured busid [] h = cc
find_spec_configured busid (spec ∷ specs) h = elim (Bool-cases (text_eq spec.busid busid)) [
  | inl same ↦ (spec, rw same, (text_eq_iff spec.busid busid).0 same)
  | inr other ↦ elim (Bool-cases (text_eq busid spec.busid)) [
    | inl same ↦ cc (
      rw ((text_eq_iff busid spec.busid).0 same) at other,
      (text_eq_iff spec.busid spec.busid).1 refl,
    )
    | inr fresh ↦
        let (found, read, same) = find_spec_configured busid specs (rw fresh at h) in
        (found, rw other read, same)
  ]
]

unexport_all_lem :
    (devices : List DeviceSpec) (busids : List Text) (answers : List Answer)
    → AreConfigured devices busids
    → All IsCaught answers
    → unexport_all devices busids answers ≡ record { called = busids; escaped = none }
unfolding unexport_all
unexport_all_lem devices [] answers v h = refl
unexport_all_lem devices (busid ∷ busids) answers v h =
    let (spec, found, same) =
      find_spec_configured busid devices (v busid (rw ((text_eq_iff busid busid).1 refl))) in
    let (caught, others) = next_result-IsCaught answers h in
    let later =
      unexport_all_lem devices busids (next_result answers).1 (λ b k. v b (rw k (ground arith)))
        others in
    rw (unexport_all, found, caught, later, same)

-- With devices configured, an `export_watch` whose calls raise no exception but ControllerError ends
-- without an exception once it is stopped, and has then called `unexport_device` for exactly the bus
-- IDs for which a call of `export_device` has returned, in ascending order of their texts.
pub export_watch_returns :
    (devices : List DeviceSpec) (once : Bool) (passes : List (List Answer)) (answers : List Answer)
    → 1 ≤ length devices
    → All (All IsCaught) passes
    → All IsCaught answers
    → let end = export_watch devices once passes answers in
      (end.escaped ≡ none)
      × IsAscending end.called
      × ((busid : Text)
          → one_of busid end.called ≡ succeeded busid (export_passes devices once passes []).calls)
unfolding export_watch
export_watch_returns devices once passes answers h p a =
    let exported = (export_passes devices once passes []).members in
    let configured = export_passes-AreConfigured devices once passes [] (λ b never. cc) in
    let filled : (length devices == 0) ≡ false = ground arith in
    let caught = export_passes-IsCaught devices once passes [] p in
    let ended =
      unexport_all_lem devices (sorted exported) answers
        (λ b k. configured b (sym (one_of-sorted b exported) ∙ k)) a in
    rw (export_watch, filled, caught, ended)
      (
        refl,
        sorted-IsAscending exported,
        λ b. one_of-sorted b exported ∙ export_passes_members b devices once passes [],
      )
