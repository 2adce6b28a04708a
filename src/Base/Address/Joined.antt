-- ===== src/Base/Address/Joined.antt =====
-- A text that is split at a character, joined again.
use Prim.Native.Nat.{ℕ}
use mathlib.Core.Path.{◌≡◌, refl, ap, ◌∙◌, sym}
use mathlib.Core.Logic.{inl, inr}
use mathlib.Core.List.{List, [], ◌∷◌, ◌++◌}
use native.Mathlib.Omega.{arith}
use ydyun_vdesktop_linux_dri.Base.Tests.{◌==◌, Bool-cases}
use ydyun_vdesktop_linux_dri.Base.Strings.{Text}
use ydyun_vdesktop_linux_dri.Base.Address.{split_on}

-- `separator.join(pieces)`
unfoldable pub join : ℕ → List Text → Text
join separator [] = []
join separator (piece ∷ []) = piece
join separator (piece ∷ next ∷ pieces) = piece ++ (separator ∷ join separator (next ∷ pieces))

pub split_on-cons :
    (separator : ℕ) (s : Text) → (p : Text) × (ps : List Text) × (split_on separator s ≡ p ∷ ps)
unfolding split_on
split_on-cons separator [] = ([], [], refl)
split_on-cons separator (c ∷ s) =
    let (p, ps, e) = split_on-cons separator s in
    elim (Bool-cases (c == separator)) [
      | inl cut ↦ ([], split_on separator s, rw cut refl)
      | inr kept ↦ (c ∷ p, ps, rw (kept, e) refl)
    ]

join-cons :
    (separator c : ℕ) (p : Text) (ps : List Text)
    → join separator ((c ∷ p) ∷ ps) ≡ c ∷ join separator (p ∷ ps)
unfolding join
join-cons separator c p [] = refl
join-cons separator c p (next ∷ ps) = refl

join-empty :
    (separator : ℕ) (p : Text) (ps : List Text)
    → join separator ([] ∷ p ∷ ps) ≡ separator ∷ join separator (p ∷ ps)
unfolding join
join-empty separator p ps = refl

pub join-split_on : (separator : ℕ) (s : Text) → join separator (split_on separator s) ≡ s
unfolding split_on join
join-split_on separator [] = refl
join-split_on separator (c ∷ s) =
    let (p, ps, e) = split_on-cons separator s in
    let whole : join separator (p ∷ ps) ≡ s =
      ap (join separator) (sym e) ∙ join-split_on separator s in
    elim (Bool-cases (c == separator)) [
      | inl cut ↦
          let same : c ≡ separator = ground arith in
          rw (cut, e)
            (join-empty separator p ps ∙ ap (◌∷◌ separator) whole ∙ ap (λ x. x ∷ s) (sym same))
      | inr kept ↦ rw (kept, e) (join-cons separator c p ps ∙ ap (◌∷◌ c) whole)
    ]
