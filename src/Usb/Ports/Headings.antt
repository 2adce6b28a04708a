-- ===== src/Usb/Ports/Headings.antt =====
-- Reading the index off a heading never fails.
use ydyun_vdesktop_linux_dri.Base.{
  ℕ, ◌≤◌, ◌≡◌, ◌≢◌, refl, sym, ap, ◌∙◌, inl, inr, Bool, true, false, ◌&&◌, List, [], ◌∷◌, ◌++◌,
  reverse, reverse-append, reverse-reverse, any, not, Option, none, some, arith, ◌==◌, ==_iff,
  Bool-cases, length, Text, is_space, drop_spaces, strip, starts_with, ok, any-reverse,
  reverse-append,
}
use ydyun_vdesktop_linux_dri.Usb.Ports.{
  word, behind_word, second_word, drop_colons, port_word, current_index, port_loop,
  port_indexes_for_busids, split_lines,
}

split_both : (a b : Bool) → (a && b) ≡ true → (a ≡ true) × (b ≡ true)
split_both a b h = ground arith

starts_with_splits : (p s : Text) → starts_with p s ≡ true → (rest : Text) × (s ≡ p ++ rest)
unfolding starts_with
starts_with_splits [] s h = (s, refl)
starts_with_splits (c ∷ p) [] h = cc
starts_with_splits (c ∷ p) (d ∷ s) h =
    let (same, more) = split_both (c == d) (starts_with p s) h in
    let (rest, e) = starts_with_splits p s more in (rest, cc ((==_iff c d).0 same, e))

-- Where the white space at the front has been taken off, none stands at the front.
drop_spaces_front : (s : Text) (c : ℕ) (t : Text) → drop_spaces s ≡ c ∷ t → is_space c ≡ false
unfolding drop_spaces
drop_spaces_front [] c t e = cc
drop_spaces_front (d ∷ s) c t e = elim (Bool-cases (is_space d)) [
  | inl space ↦ drop_spaces_front s c t (rw space at e)
  | inr other ↦ cc (rw other at e)
]

word_nonempty :
    (s : Text) → any (λ c. not (is_space c)) s ≡ true → 1 ≤ length (word (drop_spaces s))
unfolding drop_spaces word
word_nonempty [] h = cc
word_nonempty (c ∷ s) h = elim (Bool-cases (is_space c)) [
  | inl space ↦ rw space (word_nonempty s (rw space at h))
  | inr other ↦ rw (other, word, other) (omega arith)
]

ends_in_space :
    (blank : Text) (c : ℕ) (u : Text)
    → any (λ d. not (is_space d)) blank ≡ false
    → blank ++ reverse port_word ≡ c ∷ u
    → is_space c ≢ false
unfolding is_space
ends_in_space [] c u h e k = let same : c ≡ b' ' = cc in cc (rw same at k)
ends_in_space (d ∷ blank) c u h e k =
    let same : c ≡ d = cc in let white : is_space d ≡ false = rw same at k in cc (rw white at h)

-- A text whose end is not white space, and that starts with "Port ", has a second word.
second_word-port :
    (rest u : Text) (c : ℕ)
    → reverse (port_word ++ rest) ≡ c ∷ u
    → is_space c ≡ false
    → (index : Text) × (second_word (port_word ++ rest) ≡ ok index)
unfolding second_word drop_spaces behind_word is_space
second_word-port rest u c e h =
    let full : any (λ d. not (is_space d)) rest ≡ true =
      elim (Bool-cases (any (λ d. not (is_space d)) rest)) [
        | inl some_word ↦ some_word
        | inr blank ↦ absurd (
            ends_in_space (reverse rest) c u (any-reverse (λ d. not (is_space d)) rest ∙ blank)
              (sym (reverse-append port_word rest) ∙ e) h)
      ] in
    let size = word_nonempty rest full in (word (drop_spaces rest), ground (arith, size))

not_empty : (xs : Text) → [] ≢ xs ++ reverse port_word
not_empty [] e = cc
not_empty (x ∷ xs) e = cc

heading_word :
    (rest v w : Text)
    → v ≡ drop_spaces w
    → v ≡ reverse (port_word ++ rest)
    → (index : Text) × (second_word (port_word ++ rest) ≡ ok index)
heading_word rest [] w e k = absurd (not_empty (reverse rest) (k ∙ reverse-append port_word rest))
heading_word rest (c ∷ u) w e k =
    second_word-port rest u c (sym k) (drop_spaces_front w c u (sym e))

current_index_total :
    (current : Option Text) (line : Text)
    → (current' : Option Text) × (current_index current line ≡ ok current')
unfolding current_index
current_index_total current line = elim (Bool-cases (starts_with port_word (strip line))) [
  | inr other ↦ (current, rw other)
  | inl heading ↦
      let (rest, whole) = starts_with_splits port_word (strip line) heading in
      let w = reverse (drop_spaces line) in
      let end : reverse (strip line) ≡ drop_spaces w =
        unfold strip in reverse-reverse (drop_spaces w) in
      let (index, read) = heading_word rest (drop_spaces w) w refl (sym end ∙ ap reverse whole) in
      (some (reverse (drop_colons (reverse index))), rw (heading, whole, read))
]

port_loop_total :
    (is_digit : ℕ → Bool) (wanted lines : List Text) (current : Option Text) (ms : List Text)
    → (found : List Text) × (port_loop is_digit wanted lines current ms ≡ ok found)
unfolding port_loop
port_loop_total is_digit wanted [] current ms = (ms, refl)
port_loop_total is_digit wanted (line ∷ lines) current ms =
    let (current', read) = current_index_total current line in
    rw read (port_loop_total is_digit wanted lines current' _)

-- Whatever `usbip port` prints, the ports are found without an exception: a line that starts with
-- "Port " has a second word.
pub port_indexes_total :
    (is_digit : ℕ → Bool) (output : Text) (busids : List Text)
    → (found : List Text) × (port_indexes_for_busids is_digit output busids ≡ ok found)
unfolding port_indexes_for_busids
port_indexes_total is_digit output busids =
    port_loop_total is_digit busids (split_lines output) none []
