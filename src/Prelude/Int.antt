-- ===== src/Prelude/Int.antt =====
-- Go's signed integers, under the library's names (its ℤ stands on the unary ℕ). `wrap64` is the
-- two's-complement wrap-around of a 64-bit `int` or `int64`.
use zeroone.Prelude.Tests.{ltb, leb, if◌then◌else◌}
use Prim.Native.Nat.{ℕ, suc, ◌+◌, ◌-◌, ◌%◌, ◌^◌, ◌≤◌, ◌<◌}
use mathlib.Core.Path.{◌≡◌}
use mathlib.Core.Bool.{Bool, true, false}
use native.Mathlib.Omega.{arith}

-- `negsuc n` is -(n + 1).
pub data ℤ : Type 0 where
  pos : ℕ → ℤ
  negsuc : ℕ → ℤ

abbrev pub pos_part : ℤ → ℕ
pos_part (pos n) = n
pos_part (negsuc n) = 0

abbrev pub neg_part : ℤ → ℕ
neg_part (pos n) = 0
neg_part (negsuc n) = suc n

-- a - b, as an integer.
abbrev pub sub_ℕ : ℕ → ℕ → ℤ
sub_ℕ a b = if leb b a then pos (a - b) else negsuc (b - a - 1)

infix 50 ◌≤ℤ◌ ◌<ℤ◌
abbrev pub ◌≤ℤ◌ : ℤ → ℤ → Type 0
a ≤ℤ b = pos_part a + neg_part b ≤ pos_part b + neg_part a

abbrev pub ◌<ℤ◌ : ℤ → ℤ → Type 0
a <ℤ b = pos_part a + neg_part b < pos_part b + neg_part a

abbrev pub ltb_ℤ : ℤ → ℤ → Bool
ltb_ℤ a b = ltb (pos_part a + neg_part b) (pos_part b + neg_part a)

abbrev pub leb_ℤ : ℤ → ℤ → Bool
leb_ℤ a b = leb (pos_part a + neg_part b) (pos_part b + neg_part a)

abbrev pub eqb_ℤ : ℤ → ℤ → Bool
eqb_ℤ a b = if leb_ℤ a b then leb_ℤ b a else false

pub eqb_ℤ→eq : (a b : ℤ) → eqb_ℤ a b ≡ true → a ≡ b
eqb_ℤ→eq a b h = ground arith

pub eqb_ℤ_refl : (a : ℤ) → eqb_ℤ a a ≡ true
eqb_ℤ_refl a = ground arith

-- The 64-bit pattern of `a - b`, read as a signed number.
abbrev pub wrap64 : ℕ → ℕ → ℤ
wrap64 a b =
    let bits : ℕ = (a + (2 ^ 64 - b % 2 ^ 64)) % 2 ^ 64 in
    if ltb bits (2 ^ 63) then pos bits else negsuc (2 ^ 64 - bits - 1)

infixl 65 ◌+ℤ◌ ◌-ℤ◌
unfoldable pub ◌+ℤ◌ : ℤ → ℤ → ℤ
a +ℤ b = wrap64 (pos_part a + pos_part b) (neg_part a + neg_part b)

unfoldable pub ◌-ℤ◌ : ℤ → ℤ → ℤ
a -ℤ b = wrap64 (pos_part a + neg_part b) (neg_part a + pos_part b)

abbrev pub IsInt64 : ℕ → ℕ → Type 0
IsInt64 a b = (a < b + 2 ^ 63) × (b ≤ a + 2 ^ 63)

wrap64_parts : (a b : ℕ) → IsInt64 a b → pos_part (wrap64 a b) + b ≡ neg_part (wrap64 a b) + a
wrap64_parts a b h = ground arith

-- Where the exact sum is a 64-bit number, `+ℤ` is the exact sum.
pub +ℤ_parts :
    (a b : ℤ)
    → IsInt64 (pos_part a + pos_part b) (neg_part a + neg_part b)
    → pos_part (a +ℤ b) + neg_part a + neg_part b ≡ neg_part (a +ℤ b) + pos_part a + pos_part b
unfolding ◌+ℤ◌
+ℤ_parts a b h = omega (arith, wrap64_parts (pos_part a + pos_part b) (neg_part a + neg_part b) h)

pub -ℤ_parts :
    (a b : ℤ)
    → IsInt64 (pos_part a + neg_part b) (neg_part a + pos_part b)
    → pos_part (a -ℤ b) + neg_part a + pos_part b ≡ neg_part (a -ℤ b) + pos_part a + neg_part b
unfolding ◌-ℤ◌
-ℤ_parts a b h = omega (arith, wrap64_parts (pos_part a + neg_part b) (neg_part a + pos_part b) h)

pub eq_of_parts : (a b : ℤ) → pos_part a + neg_part b ≡ pos_part b + neg_part a → a ≡ b
eq_of_parts a b h = ground arith
