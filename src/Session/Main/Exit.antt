-- ===== src/Session/Main/Exit.antt =====
-- The exit status of linux/src/ydyun_session.py and what has been printed with it.
use ydyun_vdesktop_linux_dri.Base.{
  ℕ, ◌≡◌, refl, ◌≤◌, ◌⊎◌, inl, inr, Bool, List, none, some, arith, ◌==◌, Text, Bool-cases, Result,
  err, ok, >>=-eq-ok, Result-cases, ◌∙◌, ap, ◌>>=◌,
}
use ydyun_vdesktop_linux_dri.Session.Json.{Json, Members, object}
use ydyun_vdesktop_linux_dri.Session.Fields.{
  SessionError, session, os_error, json_error, value_error, overflow_error, unicode_error,
}
use ydyun_vdesktop_linux_dri.Session.Descriptor.{SessionDescriptor, parse_session, route_count}
use ydyun_vdesktop_linux_dri.Session.Secrets.{redacted}
use ydyun_vdesktop_linux_dri.Session.Config.{File}
use ydyun_vdesktop_linux_dri.Session.Main.{
  Options, Input, Outcome, top_level, failed, emit, finish, main,
}

-- The outcome of a run that printed the session it had read.
abbrev pub IsPrinted : Input → Outcome → ℕ → Type 0
IsPrinted input o status =
    (raw : Members) × (d : SessionDescriptor) × (input ≡ ok (object raw))
    × (parse_session raw ≡ ok d)
    × (o.printed ≡ some (redacted d))
    × (((status ≡ 0) × (1 ≤ route_count d)) ⊎ ((status ≡ 2) × (route_count d ≡ 0)))

top_level-ok :
    (value : Json) (d : SessionDescriptor)
    → top_level value ≡ ok d
    → (raw : Members) × (value ≡ object raw) × (parse_session raw ≡ ok d)
top_level-ok (object raw) d e = (raw, refl, e)
top_level-ok other d e = absurd (ground arith)

-- The exceptions that main does not catch.
abbrev pub IsUncaught : SessionError → Type 0
IsUncaught value_error = Unit {0}
IsUncaught overflow_error = Unit {0}
IsUncaught unicode_error = Unit {0}
IsUncaught other = ⊥

-- What holds of a run by its exit: a status, or an exception that goes out.
abbrev pub IsExit : Input → Outcome → Result SessionError ℕ → Type 0
IsExit input o (ok status) = ((status ≡ 2) × (o.printed ≡ none)) ⊎ IsPrinted input o status
IsExit input o (err e) = IsUncaught e × (o.printed ≡ none)

failed-IsExit :
    (input : Input) (files : List File) (e : SessionError)
    → IsExit input (failed files e) (failed files e).exit
failed-IsExit input files (session fault) = inl (refl, refl)
failed-IsExit input files os_error = inl (refl, refl)
failed-IsExit input files json_error = inl (refl, refl)
failed-IsExit input files value_error = (tt, refl)
failed-IsExit input files overflow_error = (tt, refl)
failed-IsExit input files unicode_error = (tt, refl)

finish-IsExit :
    (input : Input) (raw : Members) (d : SessionDescriptor)
    (r : List File × Result SessionError (Unit {0}))
    → input ≡ ok (object raw)
    → parse_session raw ≡ ok d
    → IsExit input (finish d r) (finish d r).exit
finish-IsExit input raw d (files, err e) i p = failed-IsExit input files e
finish-IsExit input raw d (files, ok done) i p = elim (Bool-cases (route_count d == 0)) [
  | inl none' ↦ rw none' (inr (raw, d, i, p, refl, inr (refl, ground arith)))
  | inr some' ↦ rw some' (inr (raw, d, i, p, refl, inl (refl, ground arith)))
]

-- On every input main ends in one of four ways: with the status 0, after it has printed the session
-- that it read and that has a complete route; with 2, after a session that has none; with 2 and nothing
-- printed; or with one of the exceptions that it does not catch (ValueError, OverflowError,
-- UnicodeError) and nothing printed.
pub main_status :
    (creatable : Text → Bool) (files : List File) (options : Options) (input : Input)
    → IsExit input (main creatable files options input) (main creatable files options input).exit
unfolding main
main_status creatable files options input = elim (Result-cases (input >>= top_level)) [
  | inr (e, bad) ↦ rw bad (failed-IsExit input files e)
  | inl (d, good) ↦
      let (value, i, parsed) = >>=-eq-ok input _ good in
      let (raw, v, p) = top_level-ok value d parsed in
      rw good (
        finish-IsExit input raw d (emit creatable files options options.emit_loader_config d)
          (i ∙ ap ok v) p)
]
