-- ===== src/Usb/Ports/Substrings.antt =====
-- Bus IDs are looked for as substrings of a line, and a bus ID can be part of another.
use ydyun_vdesktop_linux_dri.Base.{
  ℕ, ◌≡◌, refl, inl, inr, Bool, true, List, [], ◌∷◌, Option, none, arith, Bool-cases, Text, one_of,
  starts_with, contains, ok,
}
use ydyun_vdesktop_linux_dri.Usb.Ports.{port_indexes_for_busids, split_lines}
use ydyun_vdesktop_linux_dri.Usb.Ports.Blocks.{Listed, port_indexes-Listed}

starts_with_trans :
    (a b c : Text) → starts_with a b ≡ true → starts_with b c ≡ true → starts_with a c ≡ true
unfolding starts_with
starts_with_trans [] b c h k = refl
starts_with_trans (x ∷ a) [] c h k = cc
starts_with_trans (x ∷ a) (y ∷ b) [] h k = cc
starts_with_trans (x ∷ a) (y ∷ b) (z ∷ c) h k = ground (arith, starts_with_trans a b c)

contains-starts_with :
    (a b c : Text) → contains a b ≡ true → starts_with b c ≡ true → contains a c ≡ true
unfolding contains starts_with
contains-starts_with [] b [] h k = refl
contains-starts_with [] b (z ∷ c) h k = refl
contains-starts_with (x ∷ a) [] c h k = cc
contains-starts_with (x ∷ a) (y ∷ b) [] h k = cc
contains-starts_with (x ∷ a) (y ∷ b) (z ∷ c) h k = elim (Bool-cases (starts_with (x ∷ a) (y ∷ b))) [
  | inl here ↦ rw (starts_with_trans (x ∷ a) (y ∷ b) (z ∷ c) here k)
  | inr later ↦
      let rest : starts_with b c ≡ true = ground (arith, k) in
      rw (contains-starts_with (x ∷ a) b c (rw later at h) rest) (ground arith)
]

pub contains_trans :
    (a b c : Text) → contains a b ≡ true → contains b c ≡ true → contains a c ≡ true
unfolding contains
contains_trans a b [] h k = contains-starts_with a b [] h k
contains_trans a b (z ∷ c) h k = elim (Bool-cases (starts_with b (z ∷ c))) [
  | inl here ↦ contains-starts_with a b (z ∷ c) h here
  | inr later ↦ ground (arith, contains_trans a b c h (rw later at k))
]

Listed-contains :
    (a b : Text) (lines : List Text) (current : Option Text) (port : Text)
    → contains a b ≡ true
    → Listed (b ∷ []) current lines port
    → Listed (a ∷ []) current lines port
Listed-contains a b [] current port h listed = listed
Listed-contains a b (line ∷ lines) current port h (c, read, how) = (
  c,
  read,
  elim how [
    | inl (at, n) ↦ inl (at, ground (arith, contains_trans a b line h))
    | inr listed ↦ inr (Listed-contains a b lines c port h listed)
  ],
)

-- A bus ID that is a substring of another one, as "1-1" is of "1-10" and "1-1.2", also picks every
-- port that the other one picks: whatever the listing, the ports of the longer bus ID are among those
-- that are found for the shorter one.
pub port_indexes-contains :
    (is_digit : ℕ → Bool) (output short long : Text) (found_short found_long : List Text)
    (port : Text)
    → contains short long ≡ true
    → port_indexes_for_busids is_digit output (short ∷ []) ≡ ok found_short
    → port_indexes_for_busids is_digit output (long ∷ []) ≡ ok found_long
    → one_of port found_long ≡ true
    → one_of port found_short ≡ true
port_indexes-contains is_digit output short long found_short found_long port h s l e =
    let (digits, listed) =
      (port_indexes-Listed is_digit output (long ∷ []) found_long port l).0 e in
    (port_indexes-Listed is_digit output (short ∷ []) found_short port s).1
      (digits, Listed-contains short long (split_lines output) none port h listed)
