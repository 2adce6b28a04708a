-- ===== src/Usb/Ports/Blocks.antt =====
-- Which VHCI ports are picked from a listing: those with a wanted bus ID in a line of their block.
use ydyun_vdesktop_linux_dri.Base.{
  ℕ, ◌≡◌, refl, sym, ap, ◌∙◌, ◌⊎◌, inl, inr, ◌↔◌, Bool, true, false, ◌&&◌, ◌||◌, not, List, [], ◌∷◌,
  ◌++◌, Option, none, some, arith, if◌then◌else◌, any-append, Bool-cases, Text, text_eq,
  text_eq_iff, one_of, ok, >>=-eq-ok, subst,
}
use ydyun_vdesktop_linux_dri.Usb.Ports.{
  current_index, names_one, is_index, add_match, port_loop, port_indexes_for_busids, split_lines,
}

split_and : (a b : Bool) → (a && b) ≡ true → (a ≡ true) × (b ≡ true)
split_and a b h = ground arith

-- A line contains a wanted bus ID as a substring, and the last "Port" line that is not behind it has
-- this index.
abbrev pub Listed : List Text → Option Text → List Text → Text → Type 0
Listed wanted current [] port = ⊥
Listed wanted current (line ∷ lines) port =
    (current' : Option Text) × (current_index current line ≡ ok current')
    × (((current' ≡ some port) × (names_one wanted line ≡ true))
        ⊎ Listed wanted current' lines port)

pub one_of-append :
    (port : Text) (ms : List Text) (m : Text)
    → one_of port (ms ++ m ∷ []) ≡ (one_of port ms || text_eq port m)
one_of-append port ms m = any-append (text_eq port) ms (m ∷ []) ∙ ground arith

-- A port is added once.
one_of-grown :
    (port c : Text) (ms : List Text) (test : Bool)
    → one_of port (if test && not (one_of c ms) then ms ++ c ∷ [] else ms)
      ≡ (one_of port ms || (test && text_eq port c))
one_of-grown port c ms false = ground arith
one_of-grown port c ms true = elim (Bool-cases (one_of c ms)) [
  | inr new ↦ rw new (one_of-append port ms c)
  | inl old ↦ elim (Bool-cases (text_eq port c)) [
    | inr other ↦ rw (old, other) (ground arith)
    | inl same ↦ rw (old, (text_eq_iff port c).0 same) (ground (arith, old))
  ]
]

module _ (is_digit : ℕ → Bool) (wanted : List Text) where
  -- What a line adds to the ports that are found.
  add_match_lem :
      (line : Text) (current : Option Text) (ms : List Text) (port : Text)
      → (one_of port (add_match is_digit wanted line current ms) ≡ true) ↔ (
          (one_of port ms ≡ true)
          ⊎ ((is_index is_digit port ≡ true)
              × (current ≡ some port)
              × (names_one wanted line ≡ true)))
  unfolding add_match
  add_match_lem line none ms port = (λ h. inl h, elim [ inl h ↦ h | inr (d, e, n) ↦ cc ])
  add_match_lem line (some c) ms port =
      let same = text_eq_iff port c in
      let test = names_one wanted line && is_index is_digit c in
      let grown = one_of-grown port c ms test in
      (
        λ h. elim (Bool-cases (one_of port ms)) [
          | inl old ↦ inl old
          | inr new ↦
              let both = split_and test (text_eq port c) (rw (grown, new) at h) in
              let named = split_and (names_one wanted line) (is_index is_digit c) both.0 in
              let e : port ≡ c = same.0 both.1 in inr (rw e named.1, ap some (sym e), named.0)
        ],
        elim [
          | inl h ↦ grown ∙ rw h
          | inr (d, e, n) ↦
              let e' : c ≡ port = cc in
              grown ∙ rw (e', n, d, (text_eq_iff port port).1 refl) (ground arith)
        ],
      )

  port_loop_lem :
      (lines : List Text) (current : Option Text) (ms found : List Text) (port : Text)
      → port_loop is_digit wanted lines current ms ≡ ok found
      → (one_of port found ≡ true) ↔ (
          (one_of port ms ≡ true)
          ⊎ ((is_index is_digit port ≡ true) × Listed wanted current lines port))
  unfolding port_loop
  port_loop_lem [] current ms found port h =
      let same : ms ≡ found = cc in
      (λ e. inl (rw same e), elim [ inl e ↦ rw (← same) e | inr (d, never) ↦ absurd never ])
  port_loop_lem (line ∷ lines) current ms found port h =
      let (current', read, next) = >>=-eq-ok (current_index current line) _ h in
      let added = add_match_lem line current' ms port in
      let later =
        port_loop_lem lines current' (add_match is_digit wanted line current' ms) found port next in
      (
        λ e. elim (later.0 e) [
          | inr (d, listed) ↦ inr (d, (current', read, inr listed))
          | inl found' ↦ elim (added.0 found') [
            | inl old ↦ inl old
            | inr (d, at, n) ↦ inr (d, (current', read, inl (at, n)))
          ]
        ],
        elim [
          | inl old ↦ later.1 (inl (added.1 (inl old)))
          | inr (d, (c, read', how)) ↦
              let e : c ≡ current' = cc in
              elim how [
                | inl (at, n) ↦ later.1 (inl (added.1 (inr (d, sym e ∙ at, n))))
                | inr listed ↦ later.1 (inr (d, subst (λ x. Listed wanted x lines port) e listed))
              ]
        ],
      )

-- A port is picked exactly if its index consists of digits and a line of the listing contains a wanted
-- bus ID as a substring under the heading "Port" with this index, the heading's own line included. A
-- line that has only a longer bus ID counts: for 1-1 the port of 1-10 is picked too.
pub port_indexes-Listed :
    (is_digit : ℕ → Bool) (output : Text) (busids found : List Text) (port : Text)
    → port_indexes_for_busids is_digit output busids ≡ ok found
    → (one_of port found ≡ true)
      ↔ ((is_index is_digit port ≡ true) × Listed busids none (split_lines output) port)
unfolding port_indexes_for_busids
port_indexes-Listed is_digit output busids found port h =
    let both = port_loop_lem is_digit busids (split_lines output) none [] found port h in
    (λ e. elim (both.0 e) [ inl never ↦ cc | inr listed ↦ listed ], λ listed. both.1 (inr listed))
