-- ===== src/Base/Address/Slashes.antt =====
-- Slashes and the texts of addresses.
use Prim.Native.Nat.{ℕ}
use mathlib.Core.Path.{◌≡◌, refl, ◌∙◌, sym}
use mathlib.Core.Logic.{inl, inr}
use mathlib.Core.Bool.{Bool, true, false, ◌||◌}
use mathlib.Core.List.{List, [], ◌∷◌}
use native.Mathlib.Omega.{arith}
use ydyun_vdesktop_linux_dri.Base.Tests.{◌==◌, Bool-cases}
use ydyun_vdesktop_linux_dri.Base.Lists.{any}
use ydyun_vdesktop_linux_dri.Base.Strings.{Text, elem}
use ydyun_vdesktop_linux_dri.Base.Address.{
  split_on, cons_piece, is_ascii_digit, is_octet, all_pieces, is_ipv4, is_ipv6, is_address, every,
}

any-cons_piece :
    (p : ℕ → Bool) (c : ℕ) (pieces : List Text)
    → any (any p) (cons_piece c pieces) ≡ (p c || any (any p) pieces)
any-cons_piece p c [] = ground arith
any-cons_piece p c (piece ∷ pieces) = ground arith

-- A character other than the separator stands in a text if it stands in a piece of it.
any-split_on :
    (p : ℕ → Bool) (separator : ℕ) (s : Text)
    → p separator ≡ false
    → any (any p) (split_on separator s) ≡ any p s
unfolding split_on
any-split_on p separator [] h = refl
any-split_on p separator (c ∷ s) h = elim (Bool-cases (c == separator)) [
  | inl cut ↦
      let same : c ≡ separator = ground arith in
      rw (cut, any-split_on p separator s h, same, h) refl
  | inr kept ↦
      rw (kept, any-cons_piece p c (split_on separator s), any-split_on p separator s h) refl
]

no_slash_digits : (s : Text) → every is_ascii_digit s ≡ true → elem b'/' s ≡ false
no_slash_digits [] h = refl
no_slash_digits (c ∷ s) h = ground (arith, no_slash_digits s)

no_slash_octets :
    (pieces : List Text) → all_pieces is_octet pieces ≡ true → any (elem b'/') pieces ≡ false
unfolding all_pieces is_octet
no_slash_octets [] h = refl
no_slash_octets (piece ∷ pieces) h = ground (arith, no_slash_octets pieces, no_slash_digits piece)

pub is_address-no_slash : (s : Text) → is_address s ≡ true → elem b'/' s ≡ false
unfolding is_address is_ipv4 is_ipv6
is_address-no_slash s h = elim (Bool-cases (is_ipv4 s)) [
  | inl four ↦
      let octets : all_pieces is_octet (split_on b'.' s) ≡ true = ground arith in
      sym (any-split_on (λ d. d == b'/') b'.' s refl) ∙ no_slash_octets (split_on b'.' s) octets
  | inr other ↦ ground arith
]
