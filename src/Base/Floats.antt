-- ===== src/Base/Floats.antt =====
-- Python's `float`, a number of 64 bits: a finite one is a whole number of units of 2 ^ -1074.
use Prim.Native.Nat.{ℕ, zero, suc, ◌+◌, ◌-◌, ◌*◌, ◌/◌, ◌%◌, ◌^◌}
use mathlib.Core.Bool.{Bool, true, false, ◌&&◌, ◌||◌}
use mathlib.Core.Option.{Option, none, some}
use mathlib.Core.List.{[], ◌∷◌, map}
use ydyun_vdesktop_linux_dri.Base.Tests.{ltb, leb, ◌==◌, if◌then◌else◌}
use ydyun_vdesktop_linux_dri.Base.Lists.{take, any}
use ydyun_vdesktop_linux_dri.Base.Int.{ℤ, pos, negsuc}
use ydyun_vdesktop_linux_dri.Base.Strings.{Text, codes, lower_char, text_eq, one_of}
use ydyun_vdesktop_linux_dri.Base.Decimal.{negate, digit_value, int_strip}

-- The Boolean is the sign, true for a negative number.
pub data Float : Type 0 where
  nan : Float
  infinite : Bool → Float
  finite : Bool → ℕ → Float

-- The number of units in a half.
unfoldable half : ℕ
half = 2 ^ 1073

-- `int(x)` of a finite number cuts off the fraction.
unfoldable pub truncate : Bool → ℕ → ℤ
unfolding half
truncate negative units = if negative then negate (units / (2 * half)) else pos (units / (2 * half))

-- `low <= x <= high` with the bounds counted in halves, the lower one above zero.
unfoldable pub float_between : ℕ → Float → ℕ → Bool
unfolding half
float_between low (finite false units) high = leb (low * half) units && leb units (high * half)
float_between low x high = false

abbrev is_some_digit : Option ℕ → Bool
is_some_digit none = false
is_some_digit (some d) = true

unfoldable is_digit : ℕ → Bool
is_digit c = is_some_digit (digit_value c)

abbrev ascii_of : Option ℕ → ℕ → ℕ
ascii_of none c = c
ascii_of (some d) c = b'0' + d

-- The characters of a number: digits of every script as ASCII digits, and no underscore but
-- between two digits; `after` tells that a digit stands before.
unfoldable plain_chars : Bool → Text → Option Text
unfolding is_digit
plain_chars after [] = some []
plain_chars after (c ∷ s) =
    let rest = plain_chars (is_digit c) s in
    if c == b'_'
    then (if after && any is_digit (take 1 s) then rest else none)
    else elim rest [ some plain ↦ some (ascii_of (digit_value c) c ∷ plain) | none ↦ none ]

-- The ASCII digits at the front: the number that follows `n`, how many there are, and the rest.
unfoldable front_digits : ℕ → ℕ → Text → ℕ × ℕ × Text
front_digits n count [] = (n, count, [])
front_digits n count (c ∷ s) = elim (leb b'0' c && leb c b'9') [
  | true ↦ front_digits (n * 10 + (c - b'0')) (suc count) s
  | false ↦ (n, count, c ∷ s)
]

-- Digits to the end of the text, one at least.
abbrev whole : ℕ × ℕ × Text → Option ℕ
whole (n, suc count, []) = some n
whole other = none

unfoldable all_digits : Text → Option ℕ
unfolding front_digits
all_digits s = whole (front_digits 0 0 s)

unfoldable exponent_digits : Text → Option ℤ
unfolding all_digits front_digits
exponent_digits [] = none
exponent_digits (c ∷ s) =
    if c == b'-'
    then (elim (all_digits s) [ some n ↦ some (negate n) | none ↦ none ])
    else (elim (all_digits (if c == b'+' then s else c ∷ s)) [
      | some n ↦ some (pos n)
      | none ↦ none
    ])

-- What follows the digits of the mantissa: nothing, or `e` and an exponent.
unfoldable exponent_of : Text → Option ℤ
unfolding exponent_digits
exponent_of [] = some (pos 0)
exponent_of (c ∷ s) = if lower_char c == b'e' then exponent_digits s else none

-- The number of binary digits.
unfoldable binary_digits : ℕ → ℕ → ℕ
binary_digits zero n = 0
binary_digits (suc k) n = elim (n == 0) [ true ↦ 0 | false ↦ suc (binary_digits k (n / 2)) ]

-- `numerator / denominator` units, rounded to 53 binary digits, to the even one of two that are as near.
unfoldable rounded : ℕ → ℕ → ℕ
unfolding binary_digits
rounded numerator denominator =
    let unit = 2 ^ (binary_digits (numerator / denominator) (numerator / denominator) - 53) in
    let cut = numerator / (denominator * unit) in
    let rest = numerator % (denominator * unit) in
    let up =
      ltb (denominator * unit) (2 * rest) || (2 * rest == denominator * unit && cut % 2 == 1) in
    (if up then cut + 1 else cut) * unit

-- `m * 10 ^ exponent` in units of 2 ^ -1074.
unfoldable scaled : ℕ → ℤ → ℕ
unfolding rounded
scaled m (pos e) = rounded (m * 10 ^ e * (2 * half)) 1
scaled m (negsuc e) = rounded (m * (2 * half)) (10 ^ suc e)

-- From 2 ^ 1024 on, a number is too large for 64 bits.
abbrev float_of_units : Bool → ℕ → Float
float_of_units negative units =
    if leb (2 ^ 2098) units then infinite negative else finite negative units

abbrev minus_places : ℤ → ℕ → ℤ
minus_places (pos e) places = if leb places e then pos (e - places) else negate (places - e)
minus_places (negsuc e) places = negsuc (e + places)

abbrev decimal : Bool → ℕ × ℕ × Text → ℕ × ℕ × Text → Option Float
decimal negative (n, count, rest) (m, places, rest') =
    if count + places == 0 then none else elim (exponent_of rest') [
      | none ↦ none
      | some e ↦ some (float_of_units negative (scaled m (minus_places e places)))
    ]

abbrev mantissa : Bool → ℕ × ℕ × Text → Option Float
mantissa negative (n, count, []) = decimal negative (n, count, []) (n, 0, [])
mantissa negative (n, count, c ∷ rest) =
    if c == b'.'
    then decimal negative (n, count, []) (front_digits n 0 rest)
    else decimal negative (n, count, []) (n, 0, c ∷ rest)

abbrev unsigned_float : Bool → Text → Option Float
unsigned_float negative s =
    if one_of (map lower_char s) (codes "inf" ∷ codes "infinity" ∷ [])
    then some (infinite negative)
    else if text_eq (map lower_char s) (codes "nan")
    then some nan
    else mantissa negative (front_digits 0 0 s)

abbrev signed_float : Text → Option Float
signed_float [] = none
signed_float (c ∷ s) =
    if c == b'-'
    then unsigned_float true s
    else unsigned_float false (if c == b'+' then s else c ∷ s)

-- `float(s)`; `none` is ValueError.
unfoldable pub float_text : Text → Option Float
unfolding plain_chars is_digit front_digits exponent_of exponent_digits all_digits scaled rounded
    binary_digits half
float_text s = elim (plain_chars false (int_strip s)) [
  | none ↦ none
  | some plain ↦ signed_float plain
]
