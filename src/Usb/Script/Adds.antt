-- ===== src/Usb/Script/Adds.antt =====
-- What a script adds to the actions before it, whatever its result.
use ydyun_vdesktop_linux_dri.Base.{
  if◌then◌else◌, ℕ, ◌≡◌, refl, sym, ◌∙◌, ap, Bool, true, false, List, [], ◌∷◌, ◌++◌, append_assoc,
  append-nil, All, All-append, Text, Result, err, ok,
}
use ydyun_vdesktop_linux_dri.Usb.Errors.{UsbError, controller, needs_root}
use ydyun_vdesktop_linux_dri.Usb.Script.{
  Action, process, connect, Machine, Script, raise, lift, ◌>>=◌, run_checked, modprobe, load_all,
  ensure, try_connect,
}

module _ (P : Action → Type 0) where
  abbrev pub AddsFrom : {A : Type 0} → List Action → Result UsbError A × List Action → Type 0
  AddsFrom past r = (new : List Action) × (r.1 ≡ past ++ new) × All P new

  -- Every action that the script adds has the property.
  abbrev pub Adds : {A : Type 0} → Script A → Type 0
  Adds script = (past : List Action) → AddsFrom past (script past)

  pub lift-Adds : {A : Type 0} (r : Result UsbError A) → Adds (lift r)
  lift-Adds r past = ([], sym (append-nil past), tt)

  pub one-Adds :
      {A : Type 0} (a : Action) (answer : List Action → Result UsbError A)
      → P a
      → Adds (λ past. (answer (past ++ (a ∷ [])), past ++ (a ∷ [])))
  one-Adds a answer p past = (a ∷ [], refl, (p, tt))

  -- The second part may rely on what the first has returned.
  pub >>=-AddsFrom :
      {A B : Type 0} (first : Script A) (next : A → Script B) (past : List Action)
      → AddsFrom past (first past)
      → ((a : A) (after : List Action) → first past ≡ (ok a, after) → AddsFrom after (next a after))
      → AddsFrom past ((first >>= next) past)
  >>=-AddsFrom {A} {B} first next past h k = go (first past) refl h
    where
      go :
          (r : Result UsbError A × List Action)
          → first past ≡ r
          → AddsFrom past r
          → AddsFrom past ((first >>= next) past)
      go (err e, after) same (new, shape, all) = rw same (new, shape, all)
      go (ok a, after) same (new, shape, all) =
          let (new', shape', all') = k a after same in
          rw same (
            new ++ new',
            shape' ∙ ap (λ l. l ++ new') shape ∙ append_assoc past new new',
            All-append P new new' all all',
          )

  pub >>=-Adds :
      {A B : Type 0} (first : Script A) (next : A → Script B)
      → Adds first
      → ((a : A) (past after : List Action) → first past ≡ (ok a, after) → Adds (next a))
      → Adds (first >>= next)
  >>=-Adds first next h k past =
      >>=-AddsFrom first next past (h past) (λ a after e. k a past after e after)

  pub run_checked-Adds :
      (m : Machine) (argv : List Text) → P (process argv) → Adds (run_checked m argv)
  unfolding run_checked
  run_checked-Adds m argv p past = (process argv ∷ [], refl, (p, tt))

  pub load_all-Adds :
      (m : Machine) (names : List Text)
      → All (λ name. P (process (modprobe name))) names
      → Adds (load_all m names)
  unfolding load_all
  load_all-Adds m [] p = λ past. ([], sym (append-nil past), tt)
  load_all-Adds m (name ∷ names) p =
      >>=-Adds (run_checked m (modprobe name)) (λ _. load_all m names)
        (run_checked-Adds m (modprobe name) p.0) (λ out past after h. load_all-Adds m names p.1)

  pub ensure-Adds :
      (m : Machine) (names : List Text)
      → All (λ name. P (process (modprobe name))) names
      → Adds (ensure m names)
  unfolding ensure
  ensure-Adds m names p = by_root m.is_root
    where
      by_root :
          (root : Bool) → Adds (if root then load_all m names else raise (controller needs_root))
      by_root true = load_all-Adds m names p
      by_root false = λ past. ([], sym (append-nil past), tt)

  pub try_connect-Adds :
      (m : Machine) (host : Text) (port : ℕ)
      → P (connect host port)
      → Adds (try_connect m host port)
  unfolding try_connect
  try_connect-Adds m host port p past = (connect host port ∷ [], refl, (p, tt))
