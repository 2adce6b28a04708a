-- ===== src/Usb/Watch/Sorted.antt =====
-- Python's `sorted` on texts, against the lexicographic order.
use ydyun_vdesktop_linux_dri.Base.{
  ◌<◌, ◌≡◌, refl, ◌∙◌, ◌⊎◌, inl, inr, true, false, ◌||◌, List, [], ◌∷◌, arith, Bool-cases, Text,
  text_eq, one_of, ltb, ◌==◌,
}
use ydyun_vdesktop_linux_dri.Usb.Watch.{text_leb, insert, sorted}

-- The lexicographic order by code points.
abbrev pub IsBelow : Text → Text → Type 0
IsBelow [] t = Unit {0}
IsBelow (c ∷ s) [] = ⊥
IsBelow (c ∷ s) (d ∷ t) = (c < d) ⊎ ((c ≡ d) × IsBelow s t)

abbrev pub IsAscending : List Text → Type 0
IsAscending [] = Unit {0}
IsAscending (s ∷ []) = Unit {0}
IsAscending (s ∷ t ∷ ts) = IsBelow s t × IsAscending (t ∷ ts)

text_leb-true : (s t : Text) → text_leb s t ≡ true → IsBelow s t
unfolding text_leb
text_leb-true [] t h = tt
text_leb-true (c ∷ s) [] h = absurd (ground arith)
text_leb-true (c ∷ s) (d ∷ t) h = elim (Bool-cases (ltb c d)) [
  | inl less ↦ inl (ground arith)
  | inr more ↦ inr (ground (arith, rw more at h), text_leb-true s t (ground (arith, rw more at h)))
]

text_leb-false : (s t : Text) → text_leb s t ≡ false → IsBelow t s
unfolding text_leb
text_leb-false [] t h = absurd (ground arith)
text_leb-false (c ∷ s) [] h = tt
text_leb-false (c ∷ s) (d ∷ t) h = elim (Bool-cases (c == d)) [
  | inl same ↦ inr (ground (arith, same), text_leb-false s t (ground (arith, same, h)))
  | inr other ↦ inl (ground (arith, other, h))
]

insert-IsAscending : (s : Text) (ts : List Text) → IsAscending ts → IsAscending (insert s ts)
unfolding insert
insert-IsAscending s [] v = tt
insert-IsAscending s (t ∷ []) v = elim (Bool-cases (text_leb s t)) [
  | inl before ↦ rw (insert, before) (text_leb-true s t before, tt)
  | inr after ↦ rw (insert, after) (text_leb-false s t after, tt)
]
insert-IsAscending s (t ∷ u ∷ us) (below, v) = elim (Bool-cases (text_leb s t)) [
  | inl before ↦ rw (insert, before) (text_leb-true s t before, (below, v))
  | inr after ↦
      let later = insert-IsAscending s (u ∷ us) v in
      elim (Bool-cases (text_leb s u)) [
        | inl next ↦
            rw (insert, after, next) (text_leb-false s t after, (text_leb-true s u next, v))
        | inr far ↦ rw (insert, after, far) (below, rw (insert, far) at later)
      ]
]

pub sorted-IsAscending : (ss : List Text) → IsAscending (sorted ss)
unfolding sorted
sorted-IsAscending [] = tt
sorted-IsAscending (s ∷ ss) = insert-IsAscending s (sorted ss) (sorted-IsAscending ss)

one_of-insert :
    (b s : Text) (ts : List Text) → one_of b (insert s ts) ≡ (text_eq b s || one_of b ts)
unfolding insert
one_of-insert b s [] = refl
one_of-insert b s (t ∷ ts) = elim (Bool-cases (text_leb s t)) [
  | inl before ↦ rw before
  | inr behind ↦ rw (behind, one_of-insert b s ts) (ground arith)
]

pub one_of-sorted : (b : Text) (ss : List Text) → one_of b (sorted ss) ≡ one_of b ss
unfolding sorted
one_of-sorted b [] = refl
one_of-sorted b (s ∷ ss) = one_of-insert b s (sorted ss) ∙ rw (one_of-sorted b ss)
