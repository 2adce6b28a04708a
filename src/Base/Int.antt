-- ===== src/Base/Int.antt =====
-- Signed integers over the native numbers, under the library's names, and the `i` format of
-- `struct`: a 32-bit word in two's complement.
use Prim.Native.Nat.{ℕ, suc, ◌+◌, ◌-◌, ◌^◌, ◌≤◌, ◌<◌}
use mathlib.Core.Path.{◌≡◌, ap, ◌∙◌}
use mathlib.Core.Bool.{Bool}
use native.Mathlib.Omega.{arith}
use ydyun_vdesktop_linux_dri.Base.Bytes.{pack_le, unpack_le, unpack_le-pack_le}
use ydyun_vdesktop_linux_dri.Base.Tests.{ltb, leb, if◌then◌else◌}

-- `negsuc n` is -(n + 1).
pub data ℤ : Type 0 where
  pos : ℕ → ℤ
  negsuc : ℕ → ℤ

abbrev pub pos_part : ℤ → ℕ
pos_part (pos n) = n
pos_part (negsuc n) = 0

abbrev pub neg_part : ℤ → ℕ
neg_part (pos n) = 0
neg_part (negsuc n) = suc n

infix 50 ◌≤ℤ◌
abbrev pub ◌≤ℤ◌ : ℤ → ℤ → Type 0
a ≤ℤ b = pos_part a + neg_part b ≤ pos_part b + neg_part a

abbrev pub leb_ℤ : ℤ → ℤ → Bool
leb_ℤ a b = leb (pos_part a + neg_part b) (pos_part b + neg_part a)

-- The word that stands for an integer from -2 ^ 31 to 2 ^ 31 - 1, and the way back.
abbrev pub of_i32 : ℤ → ℕ
of_i32 (pos n) = n
of_i32 (negsuc n) = 2 ^ 32 - 1 - n

abbrev pub to_i32 : ℕ → ℤ
to_i32 n = if ltb n (2 ^ 31) then pos n else negsuc (2 ^ 32 - 1 - n)

abbrev pub IsI32 : ℤ → Type 0
IsI32 z = (negsuc (2 ^ 31 - 1) ≤ℤ z) × (z ≤ℤ pos (2 ^ 31 - 1))

pub to_i32-of_i32 : (z : ℤ) → IsI32 z → to_i32 (of_i32 z) ≡ z
to_i32-of_i32 (pos n) h = ground arith
to_i32-of_i32 (negsuc n) h = ground arith

pub of_i32-lt : (z : ℤ) → IsI32 z → of_i32 z < 2 ^ 32
of_i32-lt (pos n) h = omega arith
of_i32-lt (negsuc n) h = omega arith

-- `struct.unpack` of what `struct.pack` wrote for a signed 32-bit number.
pub to_i32-unpack_le : (z : ℤ) → IsI32 z → to_i32 (unpack_le (pack_le 4 (of_i32 z))) ≡ z
to_i32-unpack_le z h =
    ap to_i32 (unpack_le-pack_le 4 (of_i32 z) (of_i32-lt z h)) ∙ to_i32-of_i32 z h
