-- ===== src/Usb/Watch/Members.antt =====
-- The sets that `watch` and `export_watch` keep.
use ydyun_vdesktop_linux_dri.Base.{
  ◌≡◌, refl, ap, ◌∙◌, inl, inr, Bool, true, false, ◌||◌, ◌&&◌, not, List, [], ◌∷◌, ◌++◌, map, none,
  some, arith, if◌then◌else◌, any, any-append, Bool-cases, Option-cases, Result, ok, err, Text,
  text_eq, text_eq_iff, one_of, contains, ok, Result, Option-cases, err,
}
use ydyun_vdesktop_linux_dri.Usb.Errors.{UsbError}
use ydyun_vdesktop_linux_dri.Usb.Ports.{busids_in_ports}
use ydyun_vdesktop_linux_dri.Usb.Ports.Blocks.{one_of-append}
use ydyun_vdesktop_linux_dri.Usb.Watch.{
  DeviceSpec, Call, Answer, next_result, returns, escapes, attempt_all, Pass, refresh, watch_pass,
  export_passes,
}

abbrev pub busids_of : List DeviceSpec → List Text
busids_of = map (λ spec. spec.busid)

-- A call for this bus ID has returned.
abbrev pub succeeded : Text → List Call → Bool
succeeded busid calls = any (λ call. call.returned && text_eq busid call.busid) calls

abbrev pub called : Text → List Call → Bool
called busid calls = any (λ call. text_eq busid call.busid) calls

pub one_of-when :
    (busid m : Text) (ms : List Text) (test : Bool)
    → one_of busid (if test then ms ++ m ∷ [] else ms)
      ≡ (one_of busid ms || (test && text_eq busid m))
one_of-when busid m ms true = one_of-append busid ms m
one_of-when busid m ms false = ground arith

or_assoc : (a b c : Bool) → ((a || b) || c) ≡ (a || (b || c))
or_assoc a b c = ground arith

escaped-refused :
    (answer : Answer) (e : UsbError) → escapes answer ≡ some e → returns answer ≡ false
escaped-refused (ok u) e h = cc h
escaped-refused (err x) e h = refl

attempt_all_members :
    (busid : Text) (specs : List DeviceSpec) (answers : List Answer) (members : List Text)
    → one_of busid (attempt_all specs answers members).members
      ≡ (one_of busid members || succeeded busid (attempt_all specs answers members).calls)
unfolding attempt_all
attempt_all_members busid [] answers members = ground arith
attempt_all_members busid (spec ∷ specs) answers members =
    elim (Bool-cases (one_of spec.busid members)) [
      | inl old ↦ rw (attempt_all, old) (attempt_all_members busid specs answers members)
      | inr new ↦
          let (answer, answers') = next_result answers in
          let members' = if returns answer then members ++ spec.busid ∷ [] else members in
          elim (Option-cases (escapes answer)) [
            | inr (e, out) ↦ rw (attempt_all, new, out, escaped-refused answer e out) (ground arith)
            | inl caught ↦
                rw (attempt_all, new, caught)
                  (attempt_all_members busid specs answers' members'
                    ∙ rw (one_of-when busid spec.busid members (returns answer)) (
                        or_assoc (one_of busid members) (returns answer && text_eq busid spec.busid)
                          _))
          ]
    ]

same_member :
    (a b : Text) (ms : List Text) {v : Bool}
    → text_eq a b ≡ true
    → one_of b ms ≡ v
    → one_of a ms ≡ v
same_member a b ms same h = rw ((text_eq_iff a b).0 same) h

-- Where no exception goes out, the call is made exactly for the devices that are not in the set.
attempt_all_calls :
    (busid : Text) (specs : List DeviceSpec) (answers : List Answer) (members : List Text)
    → (attempt_all specs answers members).escaped ≡ none
    → called busid (attempt_all specs answers members).calls
      ≡ (not (one_of busid members) && one_of busid (busids_of specs))
unfolding attempt_all
attempt_all_calls busid [] answers members h = ground arith
attempt_all_calls busid (spec ∷ specs) answers members h =
    elim (Bool-cases (one_of spec.busid members)) [
      | inl old ↦
          rw (attempt_all, old)
            (attempt_all_calls busid specs answers members (rw (attempt_all, old) at h)
              ∙ elim (Bool-cases (text_eq busid spec.busid)) [
                | inl same ↦ rw (same, same_member busid spec.busid members same old) (ground arith)
                | inr other ↦ rw other (ground arith)
              ])
      | inr new ↦
          let (answer, answers') = next_result answers in
          let members' = if returns answer then members ++ spec.busid ∷ [] else members in
          elim (Option-cases (escapes answer)) [
            | inr (e, out) ↦ cc (rw (attempt_all, new, out) at h)
            | inl caught ↦
                rw (attempt_all, new, caught)
                  (let later =
                      attempt_all_calls busid specs answers' members'
                        (rw (attempt_all, new, caught) at h) in
                    let grown = one_of-when busid spec.busid members (returns answer) in
                    elim (Bool-cases (text_eq busid spec.busid)) [
                      | inl same ↦
                          rw (same, same_member busid spec.busid members same new) (ground arith)
                      | inr other ↦
                          let kept : one_of busid members' ≡ one_of busid members =
                            grown ∙ rw other (ground arith) in
                          rw (other, later, kept) (ground arith)
                    ])
          ]
    ]

pub busids_in_ports_lem :
    (output busid : Text) (busids : List Text)
    → one_of busid (busids_in_ports output busids) ≡ (one_of busid busids && contains busid output)
unfolding busids_in_ports
busids_in_ports_lem output busid [] = refl
busids_in_ports_lem output busid (b ∷ busids) =
    let later = busids_in_ports_lem output busid busids in
    elim (Bool-cases (text_eq busid b)) [
      | inl same ↦
          let alike : contains busid output ≡ contains b output =
            ap (λ x. contains x output) ((text_eq_iff busid b).0 same) in
          elim (Bool-cases (contains b output)) [
            | inl seen ↦ rw (seen, alike ∙ seen, same) (ground arith)
            | inr gone ↦ rw (gone, later, alike ∙ gone) (ground arith)
          ]
      | inr other ↦ elim (Bool-cases (contains b output)) [
        | inl seen ↦ rw (seen, other, later) (ground arith)
        | inr gone ↦ rw (gone, other, later) (ground arith)
      ]
    ]

-- What a pass keeps of the set: all of it where the listing failed.
abbrev pub remains : Result UsbError Text → Text → List Text → Bool
remains (err e) busid attached = one_of busid attached
remains (ok output) busid attached = one_of busid attached && contains busid output

refresh-remains :
    (listing : Result UsbError Text) (busid : Text) (attached : List Text)
    → one_of busid (refresh listing attached) ≡ remains listing busid attached
unfolding refresh
refresh-remains (err e) busid attached = refl
refresh-remains (ok output) busid attached = busids_in_ports_lem output busid attached

-- A pass out of which no exception goes leaves in the set the devices that were in it and that the
-- listing, where it was read, contains as substrings, and those that the pass has attached; and it
-- calls `attach` for exactly the configured devices that are not in the set any more.
pub watch_pass_lem :
    (devices : List DeviceSpec) (pass : Pass) (attached : List Text) (busid : Text)
    → (watch_pass devices pass attached).escaped ≡ none
    → (one_of busid (watch_pass devices pass attached).members ≡ (
        remains pass.listing busid attached
        || succeeded busid (watch_pass devices pass attached).calls))
      × (called busid (watch_pass devices pass attached).calls
          ≡ (not (remains pass.listing busid attached) && one_of busid (busids_of devices)))
unfolding watch_pass
watch_pass_lem devices pass attached busid h = elim (Option-cases (escapes pass.listing)) [
  | inr (e, out) ↦ cc (rw (watch_pass, out) at h)
  | inl caught ↦
      let kept = refresh-remains pass.listing busid attached in
      let left = refresh pass.listing attached in
      rw (watch_pass, caught)
        (
          attempt_all_members busid devices pass.answers left ∙ rw kept,
          attempt_all_calls busid devices pass.answers left (rw (watch_pass, caught) at h)
              ∙ rw kept,
        )
]

-- All passes of an export.
pub export_passes_members :
    (busid : Text) (devices : List DeviceSpec) (once : Bool) (passes : List (List Answer))
    (exported : List Text)
    → one_of busid (export_passes devices once passes exported).members ≡ (
        one_of busid exported || succeeded busid (export_passes devices once passes exported).calls)
unfolding export_passes
export_passes_members busid devices once [] exported = ground arith
export_passes_members busid devices once (answers ∷ passes) exported =
    let pass = attempt_all devices answers exported in
    let now = attempt_all_members busid devices answers exported in
    elim (Option-cases pass.escaped) [
      | inr (e, out) ↦ rw (export_passes, out) now
      | inl caught ↦ elim (Bool-cases once) [
        | inl one ↦ rw (export_passes, caught, one) now
        | inr more ↦
            rw (export_passes, caught, more)
              (export_passes_members busid devices once passes pass.members
                ∙ rw (now, any-append _ pass.calls _) (or_assoc (one_of busid exported) _ _))
      ]
    ]
