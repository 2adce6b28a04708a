-- ===== src/Base/Address.antt =====
-- Python's `ipaddress.ip_address`, as far as a text is accepted by it or not.
pub mod Slashes
pub mod Joined
use Prim.Native.Nat.{ℕ, zero, suc, ◌+◌, ◌-◌, ◌*◌}
use mathlib.Core.Path.{◌≡◌, refl}
use mathlib.Core.Bool.{Bool, true, false, not, ◌&&◌, ◌||◌}
use mathlib.Core.Option.{Option, none, some}
use mathlib.Core.List.{List, [], ◌∷◌, ◌++◌, reverse}
use native.Mathlib.Omega.{arith}
use ydyun_vdesktop_linux_dri.Base.Tests.{leb, ltb, ◌==◌, if◌then◌else◌}
use ydyun_vdesktop_linux_dri.Base.Lists.{length, get_or, take, drop, any}
use ydyun_vdesktop_linux_dri.Base.Strings.{Text, codes, elem}

-- The piece up to the separator joins the first piece of the rest.
abbrev cons_piece : ℕ → List Text → List Text
cons_piece c [] = (c ∷ []) ∷ []
cons_piece c (piece ∷ pieces) = (c ∷ piece) ∷ pieces

-- `s.split(separator)` of one character.
unfoldable pub split_on : ℕ → Text → List Text
split_on separator [] = [] ∷ []
split_on separator (c ∷ s) =
    let rest = split_on separator s in if c == separator then [] ∷ rest else cons_piece c rest

abbrev pub is_ascii_digit : ℕ → Bool
is_ascii_digit c = leb b'0' c && leb c b'9'

abbrev is_hex_digit : ℕ → Bool
is_hex_digit c = is_ascii_digit c || (leb b'a' c && leb c b'f') || (leb b'A' c && leb c b'F')

-- The value of decimal digits.
number_of : Text → ℕ → ℕ
number_of [] n = n
number_of (c ∷ s) n = number_of s (n * 10 + (c - b'0'))

abbrev every : (ℕ → Bool) → Text → Bool
every p s = not (any (λ c. not (p c)) s)

-- `_parse_octet`: one to three digits, no leading zero, 255 at most.
unfoldable is_octet : Text → Bool
unfolding number_of
is_octet s =
    every is_ascii_digit s
    && leb 1 (length s)
    && leb (length s) 3
    && (length s == 1 || not (get_or s 0 0 == b'0'))
    && leb (number_of s 0) 255

unfoldable all_pieces : (Text → Bool) → List Text → Bool
all_pieces p [] = true
all_pieces p (piece ∷ pieces) = p piece && all_pieces p pieces

unfoldable pub is_ipv4 : Text → Bool
unfolding is_octet all_pieces
is_ipv4 s = length (split_on b'.' s) == 4 && all_pieces is_octet (split_on b'.' s)

-- `_parse_hextet`: one to four hexadecimal digits.
is_hextet : Text → Bool
is_hextet s = every is_hex_digit s && leb 1 (length s) && leb (length s) 4

-- Where the last piece has a dot, it has to be an IPv4 address and stands for two pieces.
last_pieces : List Text → Option (List Text)
unfolding is_octet all_pieces
last_pieces [] = none
last_pieces (piece ∷ []) =
    if not (elem b'.' piece)
    then some (piece ∷ [])
    else if is_ipv4 piece
    then some ((b'0' ∷ []) ∷ (b'0' ∷ []) ∷ [])
    else none
last_pieces (piece ∷ next ∷ pieces) = elim (last_pieces (next ∷ pieces)) [
  | none ↦ none
  | some rest ↦ some (piece ∷ rest)
]

-- The places, counted from `i`, of the empty pieces before the last piece.
empty_places : ℕ → List Text → List ℕ
empty_places i [] = []
empty_places i (piece ∷ []) = []
empty_places i (piece ∷ next ∷ pieces) =
    let rest = empty_places (suc i) (next ∷ pieces) in if length piece == 0 then i ∷ rest else rest

-- An empty end of the text is only allowed next to the skipped pieces: then it counts for none.
abbrev one_end : ℕ → Text → Option ℕ
one_end n piece = if not (length piece == 0) then some n else if n == 1 then some 0 else none

hextets_fit : List Text → Option ℕ → Option ℕ → Bool
hextets_fit pieces (some high) (some low) =
    leb (high + low) 7
    && all_pieces is_hextet (take high pieces)
    && all_pieces is_hextet (drop (length pieces - low) pieces)
hextets_fit pieces high low = false

-- The places between the first piece and the last that are empty: at most one.
pieces_fit : List Text → List ℕ → Bool
pieces_fit pieces [] = length pieces == 8 && all_pieces is_hextet pieces
pieces_fit pieces (skip ∷ []) =
    hextets_fit pieces (one_end skip (get_or pieces 0 []))
      (one_end (length pieces - skip - 1) (get_or (reverse pieces) 0 []))
pieces_fit pieces (skip ∷ next ∷ places) = false

ipv6_pieces : Option (List Text) → Bool
ipv6_pieces none = false
ipv6_pieces (some pieces) =
    leb (length pieces) 9 && pieces_fit pieces (empty_places 1 (drop 1 pieces))

-- The address without its scope.
is_ipv6_bare : Text → Bool
is_ipv6_bare s = leb 3 (length (split_on b':' s)) && ipv6_pieces (last_pieces (split_on b':' s))

-- The scope behind the percent sign can be anything but empty, with no slash or percent sign.
is_ipv6_scoped : List Text → Bool
is_ipv6_scoped (bare ∷ []) = is_ipv6_bare bare
is_ipv6_scoped (bare ∷ scope ∷ []) = is_ipv6_bare bare && leb 1 (length scope)
is_ipv6_scoped other = false

unfoldable pub is_ipv6 : Text → Bool
unfolding is_ipv6_scoped is_ipv6_bare ipv6_pieces pieces_fit hextets_fit empty_places last_pieces
    is_hextet all_pieces is_octet
is_ipv6 s = not (elem b'/' s) && is_ipv6_scoped (split_on b'%' s)

-- `ipaddress.ip_address(s)` does not raise ValueError.
unfoldable pub is_address : Text → Bool
is_address s = is_ipv4 s || is_ipv6 s
