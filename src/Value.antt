-- ===== src/Value.antt =====
-- The dynamic values of conditions and their order, `Compare` of pkg/misc/other.go, with what it
-- uses of strconv: `%v` of an integer, and `ParseInt(s, 10, 64)`.
mod Text
pub mod Decimal
pub mod Order
mod Examples
unfoldable pub use Text.*
use dbpack.Common.{
  ℕ, zero, suc, ◌+◌, ◌-◌, ◌*◌, ◌/◌, ◌%◌, ◌^◌, List, [], ◌∷◌, ◌++◌, Bool, true, false, ◌&&◌, ◌||◌,
  ltb, leb, ◌==◌, if◌then◌else◌,
}
use dbpack.Common.Int.{ℤ, pos, negsuc, ltb_ℤ, ◌==ℤ◌}

-- The integer types of Go.
pub data Kind : Type 0 where
  int int8 int16 int32 int64 uint uint8 uint16 uint32 uint64 : Kind

-- An `interface{}` that holds an integer with its type, or a string. (Floats, times and byte slices
-- are not modelled.)
pub data Value : Type 0 where
  integer : Kind → ℤ → Value
  text : Bytes → Value

-- The decimal digits of a number below 10 ^ fuel.
unfoldable pub decimal : ℕ → ℕ → Bytes
decimal zero n = []
decimal (suc f) n =
    let front = decimal f (n / 10) in
    if ltb n 10 then (48 + n) ∷ [] else front ++ (48 + n % 10) ∷ []

-- `fmt.Sprintf("%v", z)` for an integer of at most 64 bits: twenty digits are enough.
unfoldable pub format_int : ℤ → Bytes
format_int (pos n) = decimal 20 n
format_int (negsuc n) = b'-' ∷ decimal 20 (suc n)

-- `fmt.Sprintf("%v", value)`
unfoldable pub format : Value → Bytes
format (integer k z) = format_int z
format (text s) = s

-- What `ParseInt` returns: the value; or a syntax error, with 0; or a range error, with the nearest
-- int64.
pub data Parsed : Type 0 where
  good : ℤ → Parsed
  syntax_error : Parsed
  range_error : ℤ → Parsed

-- The loop of `ParseUint`: `acc` is below 2 ^ 64, and the cutoff is 2 ^ 64 / 10 + 1.
pub data Digits : Type 0 where
  value : ℕ → Digits
  bad too_big : Digits

unfoldable pub parse_digits : Bytes → ℕ → Digits
parse_digits [] acc = value acc
parse_digits (c ∷ cs) acc =
    let acc' = acc * 10 + (c - 48) in
    let rest = parse_digits cs acc' in
    if is_digit c
    then (if leb (2 ^ 64 / 10 + 1) acc || leb (2 ^ 64) acc' then too_big else rest)
    else bad

unfoldable pub parse_unsigned : Bytes → Digits
unfolding parse_digits
parse_unsigned [] = bad
parse_unsigned (c ∷ cs) = parse_digits (c ∷ cs) 0

-- `-un`, for a number `un` up to 2 ^ 63.
unfoldable pub negated : ℕ → ℤ
negated zero = pos 0
negated (suc n) = negsuc n

unfoldable pub in_range : Bool → Digits → Parsed
unfolding negated
in_range neg bad = syntax_error
in_range true too_big = range_error (negated (2 ^ 63))
in_range false too_big = range_error (pos (2 ^ 63 - 1))
in_range true (value n) =
    if ltb (2 ^ 63) n then range_error (negated (2 ^ 63)) else good (negated n)
in_range false (value n) = if leb (2 ^ 63) n then range_error (pos (2 ^ 63 - 1)) else good (pos n)

-- `strconv.ParseInt(s, 10, 64)`
unfoldable pub parse_int : Bytes → Parsed
unfolding in_range parse_unsigned
parse_int [] = syntax_error
parse_int (c ∷ cs) =
    if c == b'+'
    then in_range false (parse_unsigned cs)
    else if c == b'-'
    then in_range true (parse_unsigned cs)
    else in_range false (parse_unsigned (c ∷ cs))

-- The value of `n, _ := ParseInt(...)`, whatever the error.
unfoldable pub value_of : Parsed → ℤ
value_of (good z) = z
value_of syntax_error = pos 0
value_of (range_error z) = z

-- The three-way comparison on int64.
unfoldable pub sign_ℤ : ℤ → ℤ → ℤ
sign_ℤ a b = if ltb_ℤ b a then pos 1 else if ltb_ℤ a b then negsuc 0 else pos 0

-- The three-way comparison on strings.
unfoldable pub sign_text : Bytes → Bytes → ℤ
sign_text s t = if text_ltb t s then pos 1 else if text_ltb s t then negsuc 0 else pos 0

-- The part of `Compare` behind the tests for two strings and for two times. Where both texts are
-- floats, `f1` and `f2` are both parsed from `s1`, and neither is greater.
unfoldable pub compare_texts : Bytes → Bytes → ℤ
unfolding sign_ℤ sign_text value_of
compare_texts s1 s2 =
    if num_reg s1 && num_reg s2
    then sign_ℤ (value_of (parse_int s1)) (value_of (parse_int s2))
    else if float_reg s1 && float_reg s2
    then pos 0
    else sign_text s1 s2

-- `Compare`: 1, -1 or 0.
unfoldable pub compare_values : Value → Value → ℤ
unfolding compare_texts sign_text
compare_values (text s) (text t) = sign_text s t
compare_values (integer k a) b = compare_texts (format (integer k a)) (format b)
compare_values (text s) (integer k b) = compare_texts (format (text s)) (format (integer k b))

-- A number for each type.
abbrev code_of : Kind → ℕ
code_of int = 0
code_of int8 = 1
code_of int16 = 2
code_of int32 = 3
code_of int64 = 4
code_of uint = 5
code_of uint8 = 6
code_of uint16 = 7
code_of uint32 = 8
code_of uint64 = 9

-- `a == b` on two interfaces: equal dynamic types and equal values.
unfoldable pub same_value : Value → Value → Bool
unfolding text_eq
same_value (integer j a) (integer k b) = code_of j == code_of k && a ==ℤ b
same_value (text s) (text t) = text_eq s t
same_value (integer k a) (text t) = false
same_value (text s) (integer k b) = false
