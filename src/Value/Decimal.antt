-- ===== src/Value/Decimal.antt =====
-- Printing and parsing an int64 in decimal.
use dbpack.Common.{
  ℕ, zero, suc, ◌+◌, ◌-◌, ◌*◌, ◌/◌, ◌%◌, ◌^◌, ◌≤◌, ◌<◌, ◌≡◌, ◌≢◌, refl, sym, ◌∙◌, ap, [], ◌∷◌, ◌++◌,
  Bool, true, false, ◌&&◌, leb, arith, lt→ltb,
}
use dbpack.Common.Int.{ℤ, pos, negsuc, IsInt64}
use mathlib.Core.List.{append_assoc, append-nil}
use native.Mathlib.Decide.{dec_lt}
use native.Mathlib.Nat.{pow-suc}
use dbpack.Value.Text.{Bytes, all_digits, num_reg, number, unsign}
use dbpack.Value.{
  decimal, format_int, good, value, parse_digits, parse_unsigned, in_range, parse_int,
}

div_ten : (f n : ℕ) → n < 10 ^ suc f → n / 10 < 10 ^ f
div_ten f n h = let e = rw pow-suc at h in omega arith

parse_digit :
    (d acc : ℕ) (rest : Bytes)
    → d < 10
    → acc * 10 + d < 2 ^ 64
    → parse_digits ((48 + d) ∷ rest) acc ≡ parse_digits rest (acc * 10 + d)
unfolding parse_digits
parse_digit d acc rest h l = let e : 48 + d - 48 ≡ d = omega arith in rw e (ground arith)

decimal_small : (f n : ℕ) → n < 10 → decimal (suc f) n ≡ (48 + n) ∷ []
unfolding decimal
decimal_small f n h = rw (lt→ltb n 10 h)

decimal_big : (f n : ℕ) → 10 ≤ n → decimal (suc f) n ≡ decimal f (n / 10) ++ (48 + n % 10) ∷ []
unfolding decimal
decimal_big f n h = ground arith

parse_digits-decimal :
    (f n : ℕ) (rest : Bytes)
    → n < 10 ^ suc f
    → n < 2 ^ 64
    → parse_digits (decimal (suc f) n ++ rest) 0 ≡ parse_digits rest n
parse_digits-decimal zero n rest h l =
    rw (decimal_small zero n h)
      (parse_digit n 0 rest h (omega arith) ∙ ap (parse_digits rest) (omega arith))
parse_digits-decimal (suc f) n rest h l = elim (dec_lt n 10) [
  | yes small ↦
      rw (decimal_small (suc f) n small)
        (parse_digit n 0 rest small (omega arith) ∙ ap (parse_digits rest) (omega arith))
  | no big ↦
      rw (decimal_big (suc f) n (omega arith), append_assoc)
        (parse_digits-decimal f (n / 10) ((48 + n % 10) ∷ rest) (div_ten (suc f) n h) (omega arith)
          ∙ parse_digit (n % 10) (n / 10) rest (omega arith) (omega arith)
          ∙ ap (parse_digits rest) (omega arith))
]

all_digits-append :
    (s t : Bytes) → all_digits s ≡ true → all_digits t ≡ true → all_digits (s ++ t) ≡ true
unfolding all_digits
all_digits-append [] t h k = k
all_digits-append (c ∷ s) t h k = ground (arith, all_digits-append s t)

-- A digit that is not 0, and digits behind it.
leading : Bytes → Bool
unfolding all_digits
leading [] = false
leading (c ∷ cs) = leb 49 c && leb c 57 && all_digits cs

leading-append : (s t : Bytes) → leading s ≡ true → all_digits t ≡ true → leading (s ++ t) ≡ true
unfolding leading
leading-append [] t h k = cc
leading-append (c ∷ s) t h k = ground (arith, all_digits-append s t)

leading-decimal : (f n : ℕ) → 0 < n → n < 10 ^ f → leading (decimal f n) ≡ true
leading-decimal zero n h l = absurd (omega arith)
leading-decimal (suc f) n h l = elim (dec_lt n 10) [
  | yes small ↦ rw (decimal_small f n small) (unfold leading all_digits in ground arith)
  | no big ↦ rw (decimal_big f n (omega arith)) (
      leading-append (decimal f (n / 10)) ((48 + n % 10) ∷ [])
        (leading-decimal f (n / 10) (omega arith) (div_ten f n l))
        (unfold all_digits in ground arith))
]

number_of_leading : (s : Bytes) → leading s ≡ true → (number s ≡ true) × (unsign s ≡ s)
unfolding leading number unsign
number_of_leading [] h = cc
number_of_leading (c ∷ []) h = ground arith
number_of_leading (c ∷ d ∷ s) h = ground arith

-- The text of a positive number below 2 ^ 64.
module _ (m : ℕ) (h : 0 < m) (l : m < 2 ^ 64) where
  positive-leading : leading (decimal 20 m) ≡ true
  positive-leading = leading-decimal 20 m h (omega arith)

  parse_digits-positive : parse_digits (decimal 20 m) 0 ≡ value m
  parse_digits-positive =
      rw append-nil at (parse_digits-decimal 19 m [] (omega arith) l) ∙ unfold parse_digits in refl

parse_unsigned-leading : (s : Bytes) → leading s ≡ true → parse_unsigned s ≡ parse_digits s 0
unfolding parse_unsigned leading
parse_unsigned-leading [] h = cc
parse_unsigned-leading (c ∷ cs) h = refl

parse_int-leading : (s : Bytes) → leading s ≡ true → parse_int s ≡ in_range false (parse_unsigned s)
unfolding parse_int leading
parse_int-leading [] h = cc
parse_int-leading (c ∷ cs) h = ground arith

-- Every int64 is printed as `_numReg` has it.
pub num_reg-format_int : (z : ℤ) → IsInt64 z → num_reg (format_int z) ≡ true
unfolding num_reg format_int
num_reg-format_int (pos zero) h = unfold decimal in refl
num_reg-format_int (pos (suc n)) h =
    let (a, b) = number_of_leading _ (positive-leading (suc n) (omega arith) (omega arith)) in
    rw b a
num_reg-format_int (negsuc n) h =
    (number_of_leading _ (positive-leading (suc n) (omega arith) (omega arith))).0

-- `ParseInt` returns every int64 from its decimal text, with no error.
pub parse_int-format_int : (z : ℤ) → IsInt64 z → parse_int (format_int z) ≡ good z
unfolding format_int
parse_int-format_int (pos zero) h = unfold decimal parse_int in refl
parse_int-format_int (pos (suc n)) h =
    let lead = positive-leading (suc n) (omega arith) (omega arith) in
    parse_int-leading _ lead
    ∙ rw (parse_unsigned-leading _ lead, parse_digits-positive (suc n) (omega arith) (omega arith))
        (unfold in_range in ground arith)
parse_int-format_int (negsuc n) h =
    let lead = positive-leading (suc n) (omega arith) (omega arith) in
    let minus : parse_int (b'-' ∷ decimal 20 (suc n))
        ≡ in_range true (parse_unsigned (decimal 20 (suc n))) =
      unfold parse_int in refl in
    minus
    ∙ rw (parse_unsigned-leading _ lead, parse_digits-positive (suc n) (omega arith) (omega arith))
        (unfold in_range in ground arith)

leading→digits : (s : Bytes) → leading s ≡ true → all_digits s ≡ true
unfolding leading all_digits
leading→digits [] h = cc
leading→digits (c ∷ s) h = ground arith

-- The text of a number that is not negative has digits alone.
pub all_digits-format_int : (n : ℕ) → n < 2 ^ 63 → all_digits (format_int (pos n)) ≡ true
unfolding format_int
all_digits-format_int zero h = unfold decimal all_digits in refl
all_digits-format_int (suc n) h =
    leading→digits (decimal 20 (suc n)) (positive-leading (suc n) (omega arith) (omega arith))

-- The text of an int64 is not empty.
pub format_int-filled : (n : ℕ) → n < 2 ^ 63 → format_int (pos n) ≢ []
format_int-filled n h e =
    let bad : parse_int [] ≡ good (pos n) =
      ap parse_int (sym e) ∙ parse_int-format_int (pos n) (h, omega arith) in
    unfold parse_int in cc
