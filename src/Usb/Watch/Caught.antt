-- ===== src/Usb/Watch/Caught.antt =====
-- Calls of `watch` and `export_watch` that raise ControllerError at most.
use ydyun_vdesktop_linux_dri.Base.{
  ◌≡◌, refl, inl, inr, Bool, List, [], ◌∷◌, none, Bool-cases, All, Text, one_of, All,
}
use ydyun_vdesktop_linux_dri.Usb.Watch.{
  DeviceSpec, Answer, next_result, escapes, attempt_all, export_passes,
}

-- An answer that lets no exception out either returns or is caught.
abbrev pub IsCaught : Answer → Type 0
IsCaught answer = escapes answer ≡ none

pub next_result-IsCaught :
    (answers : List Answer)
    → All IsCaught answers
    → IsCaught (next_result answers).0 × All IsCaught (next_result answers).1
unfolding next_result
next_result-IsCaught [] h = (refl, tt)
next_result-IsCaught (answer ∷ answers) h = h

-- Exceptions that the calls do not raise do not go out.
pub attempt_all-IsCaught :
    (specs : List DeviceSpec) (answers : List Answer) (members : List Text)
    → All IsCaught answers
    → (attempt_all specs answers members).escaped ≡ none
unfolding attempt_all
attempt_all-IsCaught [] answers members h = refl
attempt_all-IsCaught (spec ∷ specs) answers members h =
    elim (Bool-cases (one_of spec.busid members)) [
      | inl old ↦ rw (attempt_all, old) (attempt_all-IsCaught specs answers members h)
      | inr new ↦
          let (first, later) = next_result-IsCaught answers h in
          rw (attempt_all, new, first) (attempt_all-IsCaught specs (next_result answers).1 _ later)
    ]

pub export_passes-IsCaught :
    (devices : List DeviceSpec) (once : Bool) (passes : List (List Answer)) (exported : List Text)
    → All (All IsCaught) passes
    → (export_passes devices once passes exported).escaped ≡ none
unfolding export_passes
export_passes-IsCaught devices once [] exported h = refl
export_passes-IsCaught devices once (answers ∷ passes) exported (h, k) =
    let pass = attempt_all devices answers exported in
    let caught = attempt_all-IsCaught devices answers exported h in
    elim (Bool-cases once) [
      | inl one ↦ rw (export_passes, caught, one) caught
      | inr more ↦
          rw (export_passes, caught, more)
            (export_passes-IsCaught devices once passes pass.members k)
    ]
