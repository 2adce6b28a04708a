-- ===== src/Usb/Commands/Detach.antt =====
-- Which ports a detach of the bridge can touch.
use ydyun_vdesktop_linux_dri.Base.{
  ℕ, ◌≡◌, refl, subst, ok_injective, sym, ◌∙◌, ap, ◌⊎◌, inl, inr, Bool, true, false, List, [], ◌∷◌,
  ◌++◌, append-nil, none, arith, All, Text, text_eq, text_eq_iff, one_of, ok, if◌then◌else◌,
}
use ydyun_vdesktop_linux_dri.Usb.Errors.{controller, not_a_port_index}
use ydyun_vdesktop_linux_dri.Usb.Ports.{is_index, port_indexes_for_busids, split_lines}
use ydyun_vdesktop_linux_dri.Usb.Ports.Blocks.{Listed, port_indexes-Listed}
use ydyun_vdesktop_linux_dri.Usb.Script.{
  Action, process, Machine, done, raise, lift, find_usbip, run_checked, checked_output,
}
use ydyun_vdesktop_linux_dri.Usb.Script.Adds.{
  Adds, AddsFrom, lift-Adds, >>=-Adds, run_checked-Adds, >>=-AddsFrom,
}
use ydyun_vdesktop_linux_dri.Usb.Commands.{
  detach_argv, port_argv, detach, list_ports, detach_all, auto_detach,
}
use ydyun_vdesktop_linux_dri.Usb.Commands.Order.{lift-acts}

All-one_of :
    {Q : Text → Type 0} (found : List Text)
    → ((port : Text) → one_of port found ≡ true → Q port)
    → All Q found
All-one_of [] h = tt
All-one_of (port ∷ found) h =
    let self : text_eq port port ≡ true = (text_eq_iff port port).1 refl in
    (h port (ground arith), All-one_of found (λ p e. h p (ground arith)))

module _ (m : Machine) (is_digit : ℕ → Bool) (usbip : Text) (found : find_usbip m ≡ ok usbip)
    (P : Action → Type 0) where
  detach-Adds :
      (port : Text) → P (process (detach_argv usbip port)) → Adds P (detach m is_digit port)
  unfolding detach
  detach-Adds port p =
      >>=-Adds P (if is_index is_digit port then done tt else raise (controller not_a_port_index)) _
        check
        (λ u past after h.
          >>=-Adds P (lift (find_usbip m)) _ (lift-Adds P (find_usbip m)) (λ usbip' past' after' h'.
            let same : usbip ≡ usbip' = ok_injective found (lift-acts (find_usbip m) h').0 in
            run_checked-Adds P m (detach_argv usbip' port)
              (subst (λ x. P (process (detach_argv x port))) same p)))
    where
      check :
          Adds P (if is_index is_digit port then done tt else raise (controller not_a_port_index))
      check = by_test (is_index is_digit port)
        where
          by_test :
              (test : Bool) → Adds P (if test then done tt else raise (controller not_a_port_index))
          by_test true = λ past. ([], sym (append-nil past), tt)
          by_test false = λ past. ([], sym (append-nil past), tt)

  detach_all-Adds :
      (ports : List Text)
      → All (λ port. P (process (detach_argv usbip port))) ports
      → Adds P (detach_all m is_digit ports)
  unfolding detach_all
  detach_all-Adds [] h = λ past. ([], sym (append-nil past), tt)
  detach_all-Adds (port ∷ ports) h =
      >>=-Adds P (detach m is_digit port) (λ _. detach_all m is_digit ports) (detach-Adds port h.0)
        (λ out past after e. detach_all-Adds ports h.1)

list_ports-run :
    (m : Machine) (usbip : Text) (past : List Action)
    → find_usbip m ≡ ok usbip
    → list_ports m past ≡ (
      checked_output (m.ran (past ++ (process (port_argv usbip) ∷ []))),
      past ++ (process (port_argv usbip) ∷ []),
    )
unfolding list_ports run_checked
list_ports-run m usbip past found = rw found refl

-- What a detach of a bus ID may do: ask for the listing, and detach a port whose block of the listing
-- that was given has a line that contains the bus ID.
abbrev pub IsDetach : Machine → (ℕ → Bool) → Text → Text → List Action → Action → Type 0
IsDetach m is_digit busid usbip past a =
    (a ≡ process (port_argv usbip))
    ⊎ ((port : Text) × (output : Text) × (a ≡ process (detach_argv usbip port))
        × (checked_output (m.ran (past ++ (process (port_argv usbip) ∷ []))) ≡ ok output)
        × (is_index is_digit port ≡ true)
        × Listed (busid ∷ []) none (split_lines output) port)

-- The detach of a bus ID by the bridge, whatever comes of it, asks `usbip` for the listing of the
-- ports and detaches only ports whose index has digits only and whose block of this listing has a line
-- that contains the bus ID as a substring. This admits the port of a device with a longer bus ID: a
-- detach of 1-1 may detach the port of 1-10.
pub auto_detach-IsDetach :
    (m : Machine) (is_digit : ℕ → Bool) (busid usbip : Text) (past : List Action)
    → find_usbip m ≡ ok usbip
    → AddsFrom (IsDetach m is_digit busid usbip past) past (auto_detach m is_digit busid past)
unfolding auto_detach
auto_detach-IsDetach m is_digit busid usbip past found =
    >>=-AddsFrom P (list_ports m) _ past listed (λ output after e.
      >>=-AddsFrom P (lift (port_indexes_for_busids is_digit output (busid ∷ []))) _ after
        (lift-Adds P (port_indexes_for_busids is_digit output (busid ∷ [])) after)
        (λ ports after' e'.
          let picked = (lift-acts (port_indexes_for_busids is_digit output (busid ∷ [])) e').0 in
          detach_all-Adds m is_digit usbip found P ports
            (All-one_of ports (λ port there.
              let (digits, named) =
                (port_indexes-Listed is_digit output (busid ∷ []) ports port picked).0 there in
              inr (port, output, refl, output-checked output after e, digits, named)))
            after'))
  where
    P : Action → Type 0
    P = IsDetach m is_digit busid usbip past

    listed : AddsFrom P past (list_ports m past)
    listed =
        rw (list_ports-run m usbip past found)
          (process (port_argv usbip) ∷ [], refl, (inl refl, tt))

    output-checked :
        (output : Text) (after : List Action)
        → list_ports m past ≡ (ok output, after)
        → checked_output (m.ran (past ++ (process (port_argv usbip) ∷ []))) ≡ ok output
    output-checked output after e = ap (λ r. r.0) (sym (list_ports-run m usbip past found) ∙ e)
