-- ===== src/Base/Int.antt =====
-- Signed integers over the native numbers, and Go's `int64`, `int` and `time.Duration`: an integer
-- with the wrap-around of 64-bit two's complement written out at each operation.
use Prim.Native.Nat.{ℕ, suc, ◌+◌, ◌-◌, ◌/◌, ◌%◌, ◌≤◌, ◌<◌}
use mathlib.Core.Path.{◌≡◌, refl}
use mathlib.Core.Bool.{Bool}
use native.Mathlib.Omega.{arith}
use prox.Base.Tests.{ltb, leb, ◌==◌, if◌then◌else◌}

-- `negsuc n` is -(n + 1).
pub data ℤ : Type 0 where
  pos : ℕ → ℤ
  negsuc : ℕ → ℤ

abbrev pub pos_part : ℤ → ℕ
pos_part (pos n) = n
pos_part (negsuc n) = 0

abbrev pub neg_part : ℤ → ℕ
neg_part (pos n) = 0
neg_part (negsuc n) = suc n

-- a - b as an integer.
abbrev pub sub_ℕ : ℕ → ℕ → ℤ
sub_ℕ a b = if leb b a then pos (a - b) else negsuc (b - a - 1)

infixl 65 ◌+ℤ◌ ◌-ℤ◌
infix 50 ◌≤ℤ◌ ◌<ℤ◌
unfoldable pub ◌+ℤ◌ : ℤ → ℤ → ℤ
a +ℤ b = sub_ℕ (pos_part a + pos_part b) (neg_part a + neg_part b)

unfoldable pub ◌-ℤ◌ : ℤ → ℤ → ℤ
a -ℤ b = sub_ℕ (pos_part a + neg_part b) (neg_part a + pos_part b)

abbrev pub ◌≤ℤ◌ : ℤ → ℤ → Type 0
a ≤ℤ b = pos_part a + neg_part b ≤ pos_part b + neg_part a

abbrev pub ◌<ℤ◌ : ℤ → ℤ → Type 0
a <ℤ b = pos_part a + neg_part b < pos_part b + neg_part a

abbrev pub ltb_ℤ : ℤ → ℤ → Bool
ltb_ℤ a b = ltb (pos_part a + neg_part b) (pos_part b + neg_part a)

abbrev pub eqb_ℤ : ℤ → ℤ → Bool
eqb_ℤ a b = (pos_part a + neg_part b) == (pos_part b + neg_part a)

pub +ℤ_parts :
    (a b : ℤ)
    → pos_part (a +ℤ b) + neg_part a + neg_part b ≡ neg_part (a +ℤ b) + pos_part a + pos_part b
unfolding ◌+ℤ◌
+ℤ_parts a b = ground arith

pub -ℤ_parts :
    (a b : ℤ)
    → pos_part (a -ℤ b) + neg_part a + pos_part b ≡ neg_part (a -ℤ b) + pos_part a + neg_part b
unfolding ◌-ℤ◌
-ℤ_parts a b = ground arith

pub eq_of_parts : (a b : ℤ) → pos_part a + neg_part b ≡ pos_part b + neg_part a → a ≡ b
eq_of_parts a b h = ground arith

abbrev pub two63 : ℕ
two63 = 9223372036854775808

abbrev pub two64 : ℕ
two64 = 18446744073709551616

-- The bit pattern of an integer, and the integer of a bit pattern.
abbrev pub to_u64 : ℤ → ℕ
to_u64 z = (pos_part z % two64 + (two64 - neg_part z % two64)) % two64

abbrev pub of_u64 : ℕ → ℤ
of_u64 n = if ltb n two63 then pos n else negsuc (two64 - n - 1)

-- The value that an `int64` holds after an operation whose exact result is `z`.
unfoldable pub wrap64 : ℤ → ℤ
wrap64 z = of_u64 (to_u64 z)

unfoldable pub add64 : ℤ → ℤ → ℤ
add64 a b = wrap64 (a +ℤ b)

unfoldable pub sub64 : ℤ → ℤ → ℤ
sub64 a b = wrap64 (a -ℤ b)

-- The values of an `int64`.
abbrev pub IsInt64 : ℤ → Type 0
IsInt64 z = (pos_part z < two63) × (neg_part z ≤ two63)

pub wrap64-IsInt64 : (z : ℤ) → IsInt64 (wrap64 z)
unfolding wrap64
wrap64-IsInt64 z = ground arith

pub wrap64_id : (z : ℤ) → IsInt64 z → wrap64 z ≡ z
unfolding wrap64
wrap64_id (pos n) h = ground arith
wrap64_id (negsuc n) h = ground arith

-- `x / k` on `int64` for a positive constant `k`: the quotient is cut towards zero.
unfoldable pub quot_ℤ : ℤ → ℕ → ℤ
quot_ℤ (pos n) k = pos (n / k)
quot_ℤ (negsuc n) k = sub_ℕ 0 (suc n / k)

-- One step up or down in the range of an `int64` that is not negative does not wrap.
pub add64_up :
    (z : ℤ)
    → neg_part z ≡ 0
    → pos_part z + 1 < two63
    → (pos_part (add64 z (pos 1)) ≡ pos_part z + 1) × (neg_part (add64 z (pos 1)) ≡ 0)
unfolding add64 wrap64 ◌+ℤ◌
add64_up (pos n) h k = ground arith
add64_up (negsuc n) h k = absurd (omega arith)

pub add64_down :
    (z : ℤ)
    → 0 < pos_part z
    → pos_part z < two63
    → (pos_part (add64 z (negsuc 0)) ≡ pos_part z - 1) × (neg_part (add64 z (negsuc 0)) ≡ 0)
unfolding add64 wrap64 ◌+ℤ◌
add64_down (pos n) h k = ground arith
add64_down (negsuc n) h k = absurd (omega arith)

pub sub64_down :
    (z : ℤ)
    → 0 < pos_part z
    → pos_part z < two63
    → (pos_part (sub64 z (pos 1)) ≡ pos_part z - 1) × (neg_part (sub64 z (pos 1)) ≡ 0)
unfolding sub64 wrap64 ◌-ℤ◌
sub64_down (pos n) h k = ground arith
sub64_down (negsuc n) h k = absurd (omega arith)

pub neg_part_zero : (z : ℤ) → 0 < pos_part z → neg_part z ≡ 0
neg_part_zero (pos n) h = refl
neg_part_zero (negsuc n) h = absurd (omega arith)
