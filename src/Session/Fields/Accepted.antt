-- ===== src/Session/Fields/Accepted.antt =====
-- What a field of a session descriptor can be once its check has returned.
use ydyun_vdesktop_linux_dri.Base.{
  ℕ, ◌≤◌, ◌≡◌, refl, sym, ◌∙◌, subst, Bool, true, false, ◌⊎◌, inl, inr, Option, none, some, arith,
  any, length, Text, elem, is_space, strip, Bool-cases, ok, >>=-eq-ok,
}
use ydyun_vdesktop_linux_dri.Base.Int.{ℤ, pos, negsuc}
use ydyun_vdesktop_linux_dri.Base.Address.{is_address}
use ydyun_vdesktop_linux_dri.Session.Json.{Json, given}
use ydyun_vdesktop_linux_dri.Session.Fields.{
  shown, text_field, bad_host_chars, check_host, host_field, int_value, check_port, port_field,
}

abbrev pub is_some {ℓ} : {A : Type ℓ} → Option A → Bool
is_some none = false
is_some (some a) = true

-- At least one character and no white space.
abbrev pub IsWord : Text → Type 0
IsWord s = (1 ≤ length s) × (any is_space s ≡ false)

-- A word that is an address, or has no character that a shell or a URL would read.
abbrev pub IsHost : Text → Type 0
IsHost s = IsWord s × ((is_address s ≡ true) ⊎ (any (λ c. elem c bad_host_chars) s ≡ false))

abbrev pub IsPort : ℕ → Type 0
IsPort n = (1 ≤ n) × (n ≤ 65535)

-- A value that may be None keeps a promise if it is there.
abbrev pub Maybe {ℓ} : {A : Type ℓ} → (A → Type 0) → Option A → Type 0
Maybe P none = Unit {0}
Maybe P (some a) = P a

pub text_field-IsWord :
    (value : Json) (r : Option Text)
    → text_field value ≡ ok r
    → Maybe IsWord r × (is_some r ≡ given value)
unfolding text_field
text_field-IsWord value none e = elim (Bool-cases (given value)) [
  | inl some' ↦
      let (raw, e1, e2) = >>=-eq-ok (shown value) _ (rw some' at e) in absurd (ground arith)
  | inr none' ↦ (tt, sym none')
]
text_field-IsWord value (some s) e = elim (Bool-cases (given value)) [
  | inl some' ↦
      let (raw, e1, e2) = >>=-eq-ok (shown value) _ (rw some' at e) in
      let same : strip raw ≡ s = ground arith in let e3 = rw same at e2 in (ground arith, sym some')
  | inr none' ↦ absurd (ground arith)
]

pub check_host-IsHost :
    (found r : Option Text)
    → Maybe IsWord found
    → check_host found ≡ ok r
    → Maybe IsHost r × (is_some r ≡ is_some found)
unfolding check_host
check_host-IsHost none none h e = (tt, refl)
check_host-IsHost none (some s) h e = absurd (ground arith)
check_host-IsHost (some host) none h e = absurd (ground arith)
check_host-IsHost (some host) (some s) h e =
    let same : host ≡ s = ground arith in
    let e' = rw same at e in
    let word : IsWord s = rw same at h in
    elim (Bool-cases (is_address s)) [
      | inl address ↦ ((word, inl address), refl)
      | inr name ↦ ((word, inr (ground arith)), refl)
    ]

pub host_field-IsHost :
    (value : Json) (r : Option Text)
    → host_field value ≡ ok r
    → Maybe IsHost r × (is_some r ≡ given value)
unfolding host_field
host_field-IsHost value r e =
    let (found, e1, e2) = >>=-eq-ok (text_field value) _ e in
    let (word, same) = text_field-IsWord value found e1 in
    let (host, same') = check_host-IsHost found r word e2 in (host, same' ∙ same)

check_port-IsPort :
    (n : ℤ) (r : Option ℕ) → check_port n ≡ ok r → Maybe IsPort r × (is_some r ≡ true)
unfolding check_port
check_port-IsPort (pos n) none e = absurd (ground arith)
check_port-IsPort (pos n) (some m) e = ground arith
check_port-IsPort (negsuc n) r e = absurd (ground arith)

pub port_field-IsPort :
    (value : Json) (r : Option ℕ)
    → port_field value ≡ ok r
    → Maybe IsPort r × (is_some r ≡ given value)
unfolding port_field
port_field-IsPort value r e = elim (Bool-cases (given value)) [
  | inl some' ↦
      let (n, e1, e2) = >>=-eq-ok (int_value value) _ (rw some' at e) in
      let (port, same) = check_port-IsPort n r e2 in (port, same ∙ sym some')
  | inr none' ↦
      let same : none ≡ r = ground arith in
      subst (λ o. Maybe IsPort o × (is_some o ≡ given value)) same (tt, sym none')
]
