-- ===== src/Base/Decimal.antt =====
-- Python's `str` of an integer and `int` of a text.
pub mod RoundTrip
use Prim.Native.Nat.{ℕ, zero, suc, ◌+◌, ◌-◌, ◌*◌, ◌/◌, ◌%◌}
use mathlib.Core.Path.{◌≡◌, refl}
use mathlib.Core.Bool.{Bool, true, false, not, ◌&&◌}
use mathlib.Core.Option.{Option, none, some}
use mathlib.Core.List.{List, [], ◌∷◌, reverse}
use ydyun_vdesktop_linux_dri.Base.Tests.{leb, ltb, ◌==◌, if◌then◌else◌}
use ydyun_vdesktop_linux_dri.Base.Lists.{length}
use ydyun_vdesktop_linux_dri.Base.Int.{ℤ, pos, negsuc}
use ydyun_vdesktop_linux_dri.Base.Strings.{Text, codes, is_space}

-- The zeros of the other scripts whose digits Unicode 14 calls decimal; nine digits follow each.
unfoldable digit_zeros : Text
digit_zeros =
    0x660 ∷ 0x6f0 ∷ 0x7c0 ∷ 0x966 ∷ 0x9e6 ∷ 0xa66 ∷ 0xae6 ∷ 0xb66 ∷ 0xbe6 ∷ 0xc66 ∷ 0xce6 ∷ 0xd66
    ∷ 0xde6 ∷ 0xe50 ∷ 0xed0 ∷ 0xf20 ∷ 0x1040 ∷ 0x1090 ∷ 0x17e0 ∷ 0x1810 ∷ 0x1946 ∷ 0x19d0 ∷ 0x1a80
    ∷ 0x1a90 ∷ 0x1b50 ∷ 0x1bb0 ∷ 0x1c40 ∷ 0x1c50 ∷ 0xa620 ∷ 0xa8d0 ∷ 0xa900 ∷ 0xa9d0 ∷ 0xa9f0
    ∷ 0xaa50 ∷ 0xabf0 ∷ 0xff10 ∷ 0x104a0 ∷ 0x10d30 ∷ 0x11066 ∷ 0x110f0 ∷ 0x11136 ∷ 0x111d0 ∷ 0x112f0
    ∷ 0x11450 ∷ 0x114d0 ∷ 0x11650 ∷ 0x116c0 ∷ 0x11730 ∷ 0x118e0 ∷ 0x11950 ∷ 0x11c50 ∷ 0x11d50
    ∷ 0x11da0 ∷ 0x16a60 ∷ 0x16ac0 ∷ 0x16b50 ∷ 0x1d7ce ∷ 0x1d7d8 ∷ 0x1d7e2 ∷ 0x1d7ec ∷ 0x1d7f6
    ∷ 0x1e140 ∷ 0x1e2f0 ∷ 0x1e950 ∷ 0x1fbf0 ∷ []

unfoldable find_digit : Text → ℕ → Option ℕ
find_digit [] c = none
find_digit (z ∷ zs) c = if leb z c && ltb c (z + 10) then some (c - z) else find_digit zs c

unfoldable pub digit_value : ℕ → Option ℕ
unfolding find_digit digit_zeros
digit_value c = if leb b'0' c && leb c b'9' then some (c - b'0') else find_digit digit_zeros c

-- Digits, with single underscores between them; `after` tells that a digit stands before.
unfoldable scan_digits : Bool → Text → ℕ → Option ℕ
scan_digits after [] n = if after then some n else none
scan_digits after (c ∷ s) n = elim (digit_value c) [
  | some d ↦ scan_digits true s (n * 10 + d)
  | none ↦ elim (c == b'_' && after) [ true ↦ scan_digits false s n | false ↦ none ]
]

-- The spaces that `int` drops: those of `str.isspace` but the separators U+001C to U+001F.
unfoldable int_space : ℕ → Bool
int_space c = is_space c && not (leb 28 c && leb c 31)

unfoldable drop_int_spaces : Text → Text
drop_int_spaces [] = []
drop_int_spaces (c ∷ s) = elim (int_space c) [ true ↦ drop_int_spaces s | false ↦ c ∷ s ]

unfoldable pub int_strip : Text → Text
unfolding drop_int_spaces int_space
int_strip s = reverse (drop_int_spaces (reverse (drop_int_spaces s)))

abbrev pub negate : ℕ → ℤ
negate zero = pos zero
negate (suc n) = negsuc n

unfoldable count_digits : Text → ℕ
count_digits [] = 0
count_digits (c ∷ s) = if c == b'_' then count_digits s else suc (count_digits s)

-- More than 4300 digits are a ValueError too.
unfoldable unsigned : Text → Option ℕ
unsigned s = if ltb 4300 (count_digits s) then none else scan_digits false s 0

unfoldable signed : Text → Option ℤ
signed [] = none
signed (c ∷ s) = elim (c == b'-') [
  | true ↦ elim (unsigned s) [ some n ↦ some (negate n) | none ↦ none ]
  | false ↦ elim (unsigned (if c == b'+' then s else c ∷ s)) [ some n ↦ some (pos n) | none ↦ none ]
]

-- `int(s)` and `int(s, 10)`; `none` is ValueError.
unfoldable pub int_text : Text → Option ℤ
unfolding signed int_strip drop_int_spaces unsigned int_space count_digits scan_digits digit_value
    find_digit digit_zeros
int_text s = signed (int_strip s)

-- `out` are the digits already written, behind the one that is next.
unfoldable emit_digits : ℕ → ℕ → Text → Text
emit_digits zero n out = out
emit_digits (suc k) n out = elim (ltb n 10) [
  | true ↦ (48 + n) ∷ out
  | false ↦ emit_digits k (n / 10) ((48 + n % 10) ∷ out)
]

-- `str(n)`; each round has a smaller number, so n + 1 rounds are enough.
unfoldable pub str_nat : ℕ → Text
unfolding emit_digits
str_nat n = emit_digits (suc n) n []

unfoldable pub str_int : ℤ → Text
unfolding str_nat
str_int (pos n) = str_nat n
str_int (negsuc n) = b'-' ∷ str_nat (suc n)
