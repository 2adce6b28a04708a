-- ===== src/Base/Decimal/RoundTrip.antt =====
-- `int` on what `str` gives for an integer.
use ydyun_vdesktop_linux_dri.Base.Decimal.{
  digit_value, scan_digits, emit_digits, str_nat, unsigned, count_digits, int_space,
  drop_int_spaces, signed, int_text, int_strip, str_int,
}
use Prim.Native.Nat.{ℕ, zero, suc, ◌+◌, ◌*◌, ◌/◌, ◌%◌, ◌^◌, ◌≤◌, ◌<◌}
use mathlib.Core.Path.{◌≡◌, refl, ap, ◌∙◌}
use mathlib.Core.Logic.{inl, inr}
use mathlib.Core.Bool.{Bool, true, false, not, ◌&&◌, ◌||◌}
use mathlib.Core.Option.{some}
use mathlib.Core.List.{[], ◌∷◌, reverse, reverse-reverse}
use native.Mathlib.Omega.{arith}
use ydyun_vdesktop_linux_dri.Base.Tests.{leb, ltb, ◌==◌, Bool-cases}
use ydyun_vdesktop_linux_dri.Base.Lists.{length, any}
use ydyun_vdesktop_linux_dri.Base.Int.{pos, ℤ, pos_part, neg_part, negsuc}
use ydyun_vdesktop_linux_dri.Base.Strings.{Text, is_space, any-reverse}

digit_value-ascii : (d : ℕ) → d < 10 → digit_value (48 + d) ≡ some d
unfolding digit_value
digit_value-ascii d h = ground arith

scan_digits-digit :
    (d n : ℕ) (s : Text) (after : Bool)
    → d < 10
    → scan_digits after ((48 + d) ∷ s) n ≡ scan_digits true s (n * 10 + d)
unfolding scan_digits
scan_digits-digit d n s after h = rw (scan_digits, digit_value-ascii d h) refl

scan_digits-emit_digits :
    (k n : ℕ) (out : Text) (after : Bool)
    → n < k
    → scan_digits after (emit_digits k n out) 0 ≡ scan_digits true out n
unfolding emit_digits
scan_digits-emit_digits zero n out after h = absurd (omega arith)
scan_digits-emit_digits (suc k) n out after h = elim (Bool-cases (ltb n 10)) [
  | inl small ↦
      rw (emit_digits, small)
        (scan_digits-digit n 0 out after (ground arith) ∙ ap (scan_digits true out) (omega arith))
  | inr large ↦
      let last : n % 10 < 10 = omega arith in
      let front : n / 10 < k = ground arith in
      let back : n / 10 * 10 + n % 10 ≡ n = omega arith in
      rw
        (
          emit_digits,
          large,
          scan_digits-emit_digits k (n / 10) ((48 + n % 10) ∷ out) after front,
          scan_digits-digit (n % 10) (n / 10) out true last,
          back,
        )
        refl
]

unfoldable pub not_digit : ℕ → Bool
not_digit c = not (leb 48 c && leb c 57)

emit_digits-digits :
    (k n : ℕ) (out : Text) → any not_digit out ≡ false → any not_digit (emit_digits k n out) ≡ false
unfolding emit_digits not_digit
emit_digits-digits zero n out h = h
emit_digits-digits (suc k) n out h = elim (Bool-cases (ltb n 10)) [
  | inl small ↦ rw (emit_digits, small) (ground arith)
  | inr large ↦
      let last : n % 10 < 10 = omega arith in
      rw (emit_digits, large) (emit_digits-digits k (n / 10) ((48 + n % 10) ∷ out) (ground arith))
]

-- Every round writes one digit, and the number is below ten to the digits written.
emit_digits-count :
    (k n m : ℕ) (out : Text) → n < 10 ^ suc m → length (emit_digits k n out) ≤ length out + suc m
unfolding emit_digits
emit_digits-count zero n m out h = omega arith
emit_digits-count (suc k) n zero out h =
    let small : ltb n 10 ≡ true = ground arith in rw (emit_digits, small) (omega arith)
emit_digits-count (suc k) n (suc m) out h = elim (Bool-cases (ltb n 10)) [
  | inl small ↦ rw (emit_digits, small) (omega arith)
  | inr large ↦
      let front : n / 10 < 10 ^ suc m = omega arith in
      rw (emit_digits, large)
        (omega (arith, emit_digits-count k (n / 10) m ((48 + n % 10) ∷ out) front))
]

emit_digits-some : (k n : ℕ) (out : Text) → 1 ≤ length out + k → 1 ≤ length (emit_digits k n out)
unfolding emit_digits
emit_digits-some zero n out h = omega arith
emit_digits-some (suc k) n out h = elim (Bool-cases (ltb n 10)) [
  | inl small ↦ rw (emit_digits, small) (omega arith)
  | inr large ↦
      rw (emit_digits, large) (emit_digits-some k (n / 10) ((48 + n % 10) ∷ out) (omega arith))
]

drop_int_spaces-digits : (s : Text) → any not_digit s ≡ false → drop_int_spaces s ≡ s
unfolding drop_int_spaces int_space is_space not_digit
drop_int_spaces-digits [] h = refl
drop_int_spaces-digits (c ∷ s) h = ground arith

count_digits_le : (s : Text) → count_digits s ≤ length s
unfolding count_digits
count_digits_le [] = omega arith
count_digits_le (c ∷ s) = ground (arith, count_digits_le s)

signed-digits :
    (s : Text) (n : ℕ)
    → any not_digit s ≡ false
    → 1 ≤ length s
    → unsigned s ≡ some n
    → signed s ≡ some (pos n)
unfolding signed not_digit
signed-digits [] n digits long e = absurd (omega arith)
signed-digits (c ∷ s) n digits long e =
    let minus : (c == b'-') ≡ false = ground arith in
    let plus : (c == b'+') ≡ false = ground arith in rw (signed, minus, plus, e) refl

str_nat-digits : (n : ℕ) → any not_digit (str_nat n) ≡ false
unfolding str_nat
str_nat-digits n = emit_digits-digits (suc n) n [] refl

-- A number below 10 ^ m, m at least 1, has m digits at most.
pub str_nat-count : (n m : ℕ) → n < 10 ^ suc m → length (str_nat n) ≤ suc m
unfolding str_nat
str_nat-count n m h = omega (arith, emit_digits-count (suc n) n m [] h)

pub str_nat-some : (n : ℕ) → 1 ≤ length (str_nat n)
unfolding str_nat
str_nat-some n = emit_digits-some (suc n) n [] (omega arith)

unsigned-str_nat : (n : ℕ) → length (str_nat n) ≤ 4300 → unsigned (str_nat n) ≡ some n
unfolding unsigned str_nat scan_digits
unsigned-str_nat n h =
    let few : ltb 4300 (count_digits (str_nat n)) ≡ false =
      ground (arith, count_digits_le (str_nat n)) in
    rw (unsigned, few, scan_digits-emit_digits (suc n) n [] false (omega arith)) refl

pub int_text-str_nat : (n : ℕ) → length (str_nat n) ≤ 4300 → int_text (str_nat n) ≡ some (pos n)
unfolding int_text int_strip
int_text-str_nat n h =
    let digits = str_nat-digits n in
    let digits' = any-reverse not_digit (str_nat n) ∙ digits in
    rw
      (
        drop_int_spaces-digits (str_nat n) digits,
        drop_int_spaces-digits (reverse (str_nat n)) digits',
        reverse-reverse (str_nat n),
      )
      (signed-digits (str_nat n) n digits (str_nat-some n) (unsigned-str_nat n h))

-- No character of a printed number is white space, a letter or a sign.
pub str_nat-ascii :
    (n : ℕ) (p : ℕ → Bool) → ((c : ℕ) → p c ≡ true → not_digit c ≡ true) → any p (str_nat n) ≡ false
str_nat-ascii n p weaker = any-weaken (str_nat n) (str_nat-digits n)
  where
    any-weaken : (s : Text) → any not_digit s ≡ false → any p s ≡ false
    any-weaken [] h = refl
    any-weaken (c ∷ s) h = ground (arith, any-weaken s, weaker c)

drop_int_spaces-none : (s : Text) → any int_space s ≡ false → drop_int_spaces s ≡ s
unfolding drop_int_spaces
drop_int_spaces-none [] h = refl
drop_int_spaces-none (c ∷ s) h = ground arith

space_not_digit : (c : ℕ) → int_space c ≡ true → not_digit c ≡ true
unfolding int_space is_space not_digit
space_not_digit c h = ground arith

minus_no_space : int_space b'-' ≡ false
unfolding int_space is_space
minus_no_space = refl

int_strip-none : (s : Text) → any int_space s ≡ false → int_strip s ≡ s
unfolding int_strip
int_strip-none s h =
    rw (drop_int_spaces-none s h, drop_int_spaces-none (reverse s) (any-reverse int_space s ∙ h))
      (reverse-reverse s)

-- `int(str(n))` is n, unless n has more than 4300 digits.
pub int_text-str_int :
    (z : ℤ) → length (str_nat (pos_part z + neg_part z)) ≤ 4300 → int_text (str_int z) ≡ some z
unfolding str_int int_text
int_text-str_int (pos n) h = let same : n + 0 ≡ n = omega arith in int_text-str_nat n (rw same at h)
int_text-str_int (negsuc n) h =
    let same : 0 + suc n ≡ suc n = omega arith in
    let spaceless : any int_space (b'-' ∷ str_nat (suc n)) ≡ false =
      ap (λ b. b || any int_space (str_nat (suc n))) minus_no_space
      ∙ str_nat-ascii (suc n) int_space space_not_digit in
    rw
      (
        int_strip-none (b'-' ∷ str_nat (suc n)) spaceless,
        signed,
        unsigned-str_nat (suc n) (rw same at h),
      )
      refl
