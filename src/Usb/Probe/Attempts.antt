-- ===== src/Usb/Probe/Attempts.antt =====
-- The loop over the addresses of a host: which attempt gives the result.
use ydyun_vdesktop_linux_dri.Base.{
  ◌≡◌, refl, ◌∙◌, ap, ◌↔◌, Bool, true, List, [], ◌∷◌, ◌++◌, All, arith, Bool-cases, inl, inr,
  Result, err, ok, Result-cases,
}
use ydyun_vdesktop_linux_dri.Usb.Errors.{UsbError}
use ydyun_vdesktop_linux_dri.Usb.Probe.{Endpoint, try_each}

module _ {A : Type 0} (passed : UsbError → Bool) (attempt : Endpoint → Result UsbError A) where
  -- An address that was tried in vain.
  abbrev pub IsPassed : Endpoint → Type 0
  IsPassed e = (e.opens ≡ true) × ((x : UsbError) × (attempt e ≡ err x) × (passed x ≡ true))

  -- The first address that is not passed over, and the value that it gives.
  abbrev pub Gives : List Endpoint → A → Type 0
  Gives es value =
      (before : List Endpoint) × (e : Endpoint) × (after : List Endpoint) × (es
        ≡ before ++ (e ∷ after))
      × All IsPassed before
      × (e.opens ≡ true)
      × (attempt e ≡ ok value)

  found : (es : List Endpoint) (value : A) → try_each passed attempt es ≡ ok value → Gives es value
  unfolding try_each
  found [] value h = absurd (ground arith)
  found (e ∷ es) value h = elim (Bool-cases e.opens) [
    | inr shut ↦ absurd (ground arith)
    | inl open' ↦ elim (Result-cases (attempt e)) [
      | inl (v, good) ↦
          let same : v ≡ value = ground arith in ([], e, es, refl, tt, open', good ∙ ap ok same)
      | inr (x, bad) ↦ elim (Bool-cases (passed x)) [
        | inl over ↦
            let rest : try_each passed attempt es ≡ ok value = ground arith in
            let (before, e', after, same, all, open2, good) = found es value rest in
            (e ∷ before, e', after, ap (◌∷◌ e) same, ((open', (x, bad, over)), all), open2, good)
        | inr kept ↦ absurd (ground arith)
      ]
    ]
  ]

  gives :
      (before : List Endpoint) (e : Endpoint) (after : List Endpoint) (value : A)
      → All IsPassed before
      → e.opens ≡ true
      → attempt e ≡ ok value
      → try_each passed attempt (before ++ (e ∷ after)) ≡ ok value
  unfolding try_each
  gives [] e after value all open' good = rw (good, open') refl
  gives (e' ∷ before) e after value all open' good =
      let (open2, (x, bad, over)) = all.0 in
      rw (bad, open2, over) (gives before e after value all.1 open' good)

  pub try_each_iff :
      (es : List Endpoint) (value : A) → (try_each passed attempt es ≡ ok value) ↔ Gives es value
  try_each_iff es value = (found es value, back)
    where
      back : Gives es value → try_each passed attempt es ≡ ok value
      back (before, e, after, same, all, open', good) =
          ap (try_each passed attempt) same ∙ gives before e after value all open' good
