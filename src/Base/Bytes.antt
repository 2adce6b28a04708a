-- ===== src/Base/Bytes.antt =====
-- Byte strings as lists of numbers, and what the source uses of Python's `struct`.
use Prim.Native.Nat.{ℕ, zero, suc, ◌+◌, ◌*◌, ◌/◌, ◌%◌, ◌^◌, ◌<◌}
use mathlib.Core.Path.{◌≡◌, refl, ap}
use mathlib.Core.List.{List, [], ◌∷◌, reverse, reverse-reverse}
use native.Mathlib.Omega.{arith}
use native.Mathlib.Nat.{pow-suc}
use ydyun_vdesktop_linux_dri.Base.Lists.{length, take, drop, All}

abbrev pub IsByte : ℕ → Type 0
IsByte b = b < 256

-- `struct.pack` of one unsigned number, little-endian, on `w` bytes.
abbrev pub pack_le : ℕ → ℕ → List ℕ
pack_le zero n = []
pack_le (suc w) n = n % 256 ∷ pack_le w (n / 256)

abbrev pub unpack_le : List ℕ → ℕ
unpack_le [] = 0
unpack_le (b ∷ bs) = b + 256 * unpack_le bs

-- Network byte order.
abbrev pub pack_be : ℕ → ℕ → List ℕ
pack_be w n = reverse (pack_le w n)

abbrev pub unpack_be : List ℕ → ℕ
unpack_be bs = unpack_le (reverse bs)

-- `struct.unpack_from` of one number on `w` bytes at an offset; the caller has checked the length.
abbrev pub field_le : ℕ → ℕ → List ℕ → ℕ
field_le at w bs = unpack_le (take w (drop at bs))

abbrev pub field_be : ℕ → ℕ → List ℕ → ℕ
field_be at w bs = unpack_be (take w (drop at bs))

pub length-pack_le : (w n : ℕ) → length (pack_le w n) ≡ w
length-pack_le zero n = refl
length-pack_le (suc w) n = ap suc (length-pack_le w (n / 256))

pub pack_le-IsByte : (w n : ℕ) → All IsByte (pack_le w n)
pack_le-IsByte zero n = tt
pack_le-IsByte (suc w) n = (omega arith, pack_le-IsByte w (n / 256))

pub unpack_le-pack_le : (w n : ℕ) → n < 256 ^ w → unpack_le (pack_le w n) ≡ n
unpack_le-pack_le zero n h = omega arith
unpack_le-pack_le (suc w) n h = omega (arith, unpack_le-pack_le w (n / 256) (omega arith))

pub unpack_le-lt : (bs : List ℕ) → All IsByte bs → unpack_le bs < 256 ^ length bs
unpack_le-lt [] h = omega arith
unpack_le-lt (b ∷ bs) h = omega (arith, unpack_le-lt bs h.1, pow-suc 256 (length bs))

pub pack_le-unpack_le : (bs : List ℕ) → All IsByte bs → pack_le (length bs) (unpack_le bs) ≡ bs
pack_le-unpack_le [] h = refl
pack_le-unpack_le (b ∷ bs) h = ground (arith, pack_le-unpack_le bs h.1)

pub unpack_be-pack_be : (w n : ℕ) → n < 256 ^ w → unpack_be (pack_be w n) ≡ n
unpack_be-pack_be w n h = rw (reverse-reverse (pack_le w n)) (unpack_le-pack_le w n h)
