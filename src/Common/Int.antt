-- ===== src/Common/Int.antt =====
-- Signed integers over the native numbers, and the arithmetic of `int64`.
use Prim.Native.Nat.{ℕ, suc, ◌+◌, ◌-◌, ◌%◌, ◌^◌, ◌≤◌, ◌<◌}
use mathlib.Core.Path.{◌≡◌}
use mathlib.Core.Logic.{◌↔◌}
use mathlib.Core.Bool.{Bool, true, false}
use native.Mathlib.Omega.{arith}
use dbpack.Common.Tests.{ltb, leb, ◌==◌, if◌then◌else◌}

-- `negsuc n` is -(n + 1).
pub data ℤ : Type 0 where
  pos : ℕ → ℤ
  negsuc : ℕ → ℤ

abbrev pub pos_part : ℤ → ℕ
pos_part (pos n) = n
pos_part (negsuc n) = 0

abbrev pub neg_part : ℤ → ℕ
neg_part (pos n) = 0
neg_part (negsuc n) = suc n

-- a - b, as an integer.
abbrev pub sub_ℕ : ℕ → ℕ → ℤ
sub_ℕ a b = if leb b a then pos (a - b) else negsuc (b - a - 1)

infix 50 ◌≤ℤ◌ ◌<ℤ◌ ◌==ℤ◌
abbrev pub ◌≤ℤ◌ : ℤ → ℤ → Type 0
a ≤ℤ b = pos_part a + neg_part b ≤ pos_part b + neg_part a

abbrev pub ◌<ℤ◌ : ℤ → ℤ → Type 0
a <ℤ b = pos_part a + neg_part b < pos_part b + neg_part a

abbrev pub ltb_ℤ : ℤ → ℤ → Bool
ltb_ℤ a b = ltb (pos_part a + neg_part b) (pos_part b + neg_part a)

abbrev pub leb_ℤ : ℤ → ℤ → Bool
leb_ℤ a b = leb (pos_part a + neg_part b) (pos_part b + neg_part a)

abbrev pub ◌==ℤ◌ : ℤ → ℤ → Bool
a ==ℤ b = (pos_part a + neg_part b) == (pos_part b + neg_part a)

pub eq_of_parts : (a b : ℤ) → pos_part a + neg_part b ≡ pos_part b + neg_part a → a ≡ b
eq_of_parts a b h = ground arith

pub ==ℤ_iff : (a b : ℤ) → ((a ==ℤ b) ≡ true) ↔ (a ≡ b)
==ℤ_iff a b = (λ h. eq_of_parts a b (ground arith), λ h. ground arith)

pub leb_ℤ-false : (a b : ℤ) → leb_ℤ a b ≡ false → b <ℤ a
leb_ℤ-false a b h = ground arith

-- The int64 whose 64 bits are those of an integer.
unfoldable pub wrap64 : ℤ → ℤ
wrap64 (pos n) = let r = n % 2 ^ 64 in if ltb r (2 ^ 63) then pos r else negsuc (2 ^ 64 - 1 - r)
wrap64 (negsuc n) = let r = n % 2 ^ 64 in if ltb r (2 ^ 63) then negsuc r else pos (2 ^ 64 - 1 - r)

-- The range of int64.
abbrev pub IsInt64 : ℤ → Type 0
IsInt64 z = (pos_part z < 2 ^ 63) × (neg_part z ≤ 2 ^ 63)

-- `a + b` and `a - b` on int64.
unfoldable pub add64 : ℤ → ℤ → ℤ
unfolding wrap64
add64 a b = wrap64 (sub_ℕ (pos_part a + pos_part b) (neg_part a + neg_part b))

unfoldable pub sub64 : ℤ → ℤ → ℤ
unfolding wrap64
sub64 a b = wrap64 (sub_ℕ (pos_part a + neg_part b) (neg_part a + pos_part b))

-- `a % n` for a positive `n`: the sign is that of `a`.
unfoldable pub rem64 : ℤ → ℕ → ℤ
rem64 (pos a) n = pos (a % n)
rem64 (negsuc a) n = sub_ℕ 0 (suc a % n)

pub wrap64-IsInt64 : (z : ℤ) → IsInt64 (wrap64 z)
unfolding wrap64
wrap64-IsInt64 (pos n) = ground arith
wrap64-IsInt64 (negsuc n) = ground arith

-- Where the result is in range nothing wraps.
pub add64_parts :
    (a b : ℤ)
    → pos_part a + pos_part b < 2 ^ 63 + neg_part a + neg_part b
    → neg_part a + neg_part b ≤ 2 ^ 63 + pos_part a + pos_part b
    → pos_part (add64 a b) + neg_part a + neg_part b
      ≡ neg_part (add64 a b) + pos_part a + pos_part b
unfolding add64
add64_parts a b h l = ground arith

pub sub64_parts :
    (a b : ℤ)
    → pos_part a + neg_part b < 2 ^ 63 + neg_part a + pos_part b
    → neg_part a + pos_part b ≤ 2 ^ 63 + pos_part a + neg_part b
    → pos_part (sub64 a b) + neg_part a + pos_part b
      ≡ neg_part (sub64 a b) + pos_part a + neg_part b
unfolding sub64
sub64_parts a b h l = ground arith
