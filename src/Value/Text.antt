-- ===== src/Value/Text.antt =====
-- Byte strings: their order, and the patterns `_numReg` and `_floatReg` of pkg/misc/other.go.
use dbpack.Common.{
  ℕ, ◌≡◌, refl, List, [], ◌∷◌, Bool, true, false, not, ◌&&◌, ◌||◌, ltb, leb, ◌==◌, if◌then◌else◌,
  arith,
}

abbrev pub Bytes : Type 0
Bytes = List ℕ

abbrev pub is_digit : ℕ → Bool
is_digit c = leb 48 c && leb c 57

unfoldable pub all_digits : Bytes → Bool
all_digits [] = true
all_digits (c ∷ cs) = is_digit c && all_digits cs

-- `s < t` and `s == t` on strings.
unfoldable pub text_ltb : Bytes → Bytes → Bool
text_ltb s [] = false
text_ltb [] (d ∷ t) = true
text_ltb (c ∷ s) (d ∷ t) = ltb c d || (c == d && text_ltb s t)

unfoldable pub text_eq : Bytes → Bytes → Bool
text_eq [] [] = true
text_eq [] (d ∷ t) = false
text_eq (c ∷ s) [] = false
text_eq (c ∷ s) (d ∷ t) = c == d && text_eq s t

unfoldable pub unsign : Bytes → Bytes
unsign [] = []
unsign (c ∷ cs) = if c == b'-' then cs else c ∷ cs

-- `0|[1-9][0-9]*`
unfoldable pub number : Bytes → Bool
unfolding all_digits
number [] = false
number (c ∷ []) = is_digit c
number (c ∷ cs) = leb 49 c && leb c 57 && all_digits cs

-- `^-?(0|[1-9][0-9]*)$`
unfoldable pub num_reg : Bytes → Bool
unfolding number unsign
num_reg s = number (unsign s)

-- `[0-9]+`
some_digits : Bytes → Bool
unfolding all_digits
some_digits [] = false
some_digits (c ∷ cs) = all_digits (c ∷ cs)

-- `(.[0-9]+)?`, where the point stands for any character but a line feed.
fraction : Bytes → Bool
unfolding some_digits
fraction [] = true
fraction (c ∷ cs) = not (c == 10) && some_digits cs

-- `[0-9]*(.[0-9]+)?`: the digits are taken as far as they go, and if all are digits it matches.
digits_fraction : Bytes → Bool
unfolding fraction
digits_fraction [] = true
digits_fraction (c ∷ cs) =
    let rest = digits_fraction cs in if is_digit c then rest else fraction (c ∷ cs)

float_number : Bytes → Bool
unfolding digits_fraction fraction
float_number [] = false
float_number (c ∷ cs) = if c == 48 then fraction cs else leb 49 c && leb c 57 && digits_fraction cs

-- `^-?(0|[1-9][0-9]*)(.[0-9]+)?$`
unfoldable pub float_reg : Bytes → Bool
unfolding float_number unsign
float_reg s = float_number (unsign s)

pub text_eq→eq : (s t : Bytes) → text_eq s t ≡ true → s ≡ t
unfolding text_eq
text_eq→eq [] [] h = refl
text_eq→eq [] (d ∷ t) h = cc
text_eq→eq (c ∷ s) [] h = cc
text_eq→eq (c ∷ s) (d ∷ t) h = ground (arith, text_eq→eq s t)
