-- ===== src/Uuid/Bits.antt =====
-- Lemmas on the bitwise or.
use dbpack.Common.{ℕ, zero, suc, ◌+◌, ◌*◌, ◌/◌, ◌%◌, ◌^◌, ◌≤◌, ◌<◌, ◌≡◌, refl, sym, ◌∙◌, ap, arith}
use Prim.Native.Nat.{digits, max, bit_or, bit_or-bitwise}
use native.Mathlib.Nat.{pow-suc}

abbrev or_digits : ℕ → ℕ → ℕ → ℕ
or_digits = digits (λ b. b) max

or_digits-fuel : (n m a b : ℕ) → a ≤ n → a ≤ m → or_digits n a b ≡ or_digits m a b
or_digits-fuel zero zero a b h k = refl
or_digits-fuel zero (suc m) zero b h k = refl
or_digits-fuel zero (suc m) (suc a) b h k = absurd (omega arith)
or_digits-fuel (suc n) zero zero b h k = refl
or_digits-fuel (suc n) zero (suc a) b h k = absurd (omega arith)
or_digits-fuel (suc n) (suc m) zero b h k = refl
or_digits-fuel (suc n) (suc m) (suc a) b h k =
    ap (λ x. x * 2 + max (suc a % 2) (b % 2))
      (or_digits-fuel n m (suc a / 2) (b / 2) (omega arith) (omega arith))

-- One digit of a positive number.
or_digits-step :
    (n a b : ℕ)
    → suc a ≤ n
    → or_digits n (suc a) b ≡ or_digits n (suc a / 2) (b / 2) * 2 + max (suc a % 2) (b % 2)
or_digits-step zero a b h = absurd (omega arith)
or_digits-step (suc n) a b h =
    ap (λ x. x * 2 + max (suc a % 2) (b % 2))
      (or_digits-fuel n (suc n) (suc a / 2) (b / 2) (omega arith) (omega arith))

max-zero : (d : ℕ) → max d 0 ≡ d
max-zero d = ground arith

or_digits-zero : (n a : ℕ) → a ≤ n → or_digits n a 0 ≡ a
or_digits-zero zero a h = omega arith
or_digits-zero (suc n) zero h = refl
or_digits-zero (suc n) (suc a) h =
    omega (arith, or_digits-zero n (suc a / 2) (omega arith), max-zero (suc a % 2))

or_digits-none : (n b : ℕ) → or_digits n 0 b ≡ b
or_digits-none zero b = refl
or_digits-none (suc n) b = refl

max_left : (d : ℕ) → max 0 d ≡ d
max_left d = ground arith

-- The digits of an even number and another one.
or_digits-even :
    (n c b : ℕ) → c * 2 ≤ n → or_digits n c (b / 2) ≡ c + b / 2 → or_digits n (c * 2) b ≡ c * 2 + b
or_digits-even n zero b h e = or_digits-none n b ∙ omega arith
or_digits-even n (suc c) b h e =
    let half : suc (suc (c * 2)) / 2 ≡ suc c = omega arith in
    let even : suc (suc (c * 2)) % 2 ≡ 0 = omega arith in
    let twice : suc c * 2 ≡ suc (suc (c * 2)) = omega arith in
    rw twice (
      or_digits-step n (suc (c * 2)) b (omega arith)
      ∙ rw (half, even, e) (omega (arith, max_left (b % 2))))

or_digits-disjoint :
    (k n w r : ℕ) → w * 2 ^ k ≤ n → r < 2 ^ k → or_digits n (w * 2 ^ k) r ≡ w * 2 ^ k + r
or_digits-disjoint zero n w r h l =
    let none : r ≡ 0 = omega arith in rw none (or_digits-zero n (w * 1) h ∙ omega arith)
or_digits-disjoint (suc k) n w r h l =
    let twice : w * 2 ^ suc k ≡ w * 2 ^ k * 2 = rw pow-suc (grind arith) in
    let less : r / 2 < 2 ^ k = let e = rw pow-suc at l in omega arith in
    rw twice (
      or_digits-even n (w * 2 ^ k) r (omega (arith, twice))
        (or_digits-disjoint k n w (r / 2) (omega (arith, twice)) less))

pub bit_or-disjoint : (k w r : ℕ) → r < 2 ^ k → bit_or (w * 2 ^ k) r ≡ w * 2 ^ k + r
bit_or-disjoint k w r l =
    bit_or-bitwise (w * 2 ^ k) r ∙ or_digits-disjoint k (w * 2 ^ k) w r (omega arith) l

-- The last digit of an odd number swallows that of the other one.
pub bit_or-odd : (m r : ℕ) → bit_or (suc (m * 2)) (suc (r * 2)) ≡ bit_or (suc (m * 2)) (r * 2)
bit_or-odd m r =
    let half : suc (r * 2) / 2 ≡ r * 2 / 2 = omega arith in
    let odd : suc (m * 2) % 2 ≡ 1 = omega arith in
    bit_or-bitwise (suc (m * 2)) (suc (r * 2))
    ∙ or_digits-step (suc (m * 2)) (m * 2) (suc (r * 2)) (omega arith)
    ∙ rw (half, odd) (omega arith)
    ∙ sym (or_digits-step (suc (m * 2)) (m * 2) (r * 2) (omega arith))
    ∙ sym (bit_or-bitwise (suc (m * 2)) (r * 2))
