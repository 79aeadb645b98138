-- ===== src/Cond/NumberRange/Parse.antt =====
-- Reading a range that is written out, by `parseNumberRange`.
use dbpack.Common.{
  ℕ, ◌^◌, ◌<◌, ◌≡◌, ◌≢◌, refl, sym, ◌∙◌, ap, [], ◌∷◌, ◌++◌, true, false, some, arith,
}
use mathlib.Core.List.{append_assoc, append-nil}
use dbpack.Common.Int.{pos}
use dbpack.Value.{Bytes, all_digits, format_int}
use dbpack.Value.Decimal.{all_digits-format_int, format_int-filled, parse_int-format_int}
use dbpack.Cond.{ok}
use dbpack.Cond.NumberRange.Config.{
  number_text, has_suffix, parse_number, in_class, all_in_class, filled, groups_from, checked_range,
  parse_number_range,
}

has_suffix-digits : (s : Bytes) (c : ℕ) → all_digits s ≡ true → 57 < c → has_suffix s c ≡ false
unfolding has_suffix all_digits
has_suffix-digits [] c h l = refl
has_suffix-digits (d ∷ []) c h l = ground arith
has_suffix-digits (d ∷ e ∷ s) c h l = has_suffix-digits (e ∷ s) c (ground arith) l

parse_number-digits : (s : Bytes) → all_digits s ≡ true → parse_number s ≡ number_text s
unfolding parse_number
parse_number-digits s h = rw (
  has_suffix-digits s b'k' h (omega arith),
  has_suffix-digits s b'K' h (omega arith),
  has_suffix-digits s b'm' h (omega arith),
  has_suffix-digits s b'M' h (omega arith),
)

parse_number-format_int : (n : ℕ) → n < 2 ^ 63 → parse_number (format_int (pos n)) ≡ ok (pos n)
unfolding number_text
parse_number-format_int n h =
    parse_number-digits (format_int (pos n)) (all_digits-format_int n h)
    ∙ rw (parse_int-format_int (pos n) (h, omega arith), number_text)

all_in_class-digits : (s : Bytes) → all_digits s ≡ true → all_in_class s ≡ true
unfolding all_in_class in_class all_digits
all_in_class-digits [] h = refl
all_in_class-digits (c ∷ s) h = ground (arith, all_in_class-digits s)

filled_of : (s : Bytes) → s ≢ [] → filled s ≡ true
unfolding filled
filled_of [] h = absurd (h refl)
filled_of (c ∷ s) h = refl

groups_from-dash :
    (read t : Bytes)
    → filled read ≡ true
    → filled t ≡ true
    → all_in_class t ≡ true
    → groups_from read (b'-' ∷ t) ≡ some (read, t)
unfolding groups_from in_class
groups_from-dash read t f g h = rw (f, g, h)

groups_from-class :
    (read s : Bytes) (c : ℕ)
    → in_class c ≡ true
    → groups_from read (c ∷ s) ≡ groups_from (read ++ c ∷ []) s
unfolding groups_from
groups_from-class read s c h = rw h

groups_from-digits :
    (read s t : Bytes)
    → all_in_class s ≡ true
    → filled (read ++ s) ≡ true
    → filled t ≡ true
    → all_in_class t ≡ true
    → groups_from read (s ++ b'-' ∷ t) ≡ some (read ++ s, t)
unfolding all_in_class
groups_from-digits read [] t h f g k =
    groups_from-dash read t (ap filled (sym (append-nil read)) ∙ f) g k
    ∙ ap (λ x. some (x, t)) (sym (append-nil read))
groups_from-digits read (c ∷ s) t h f g k =
    groups_from-class read (s ++ b'-' ∷ t) c (ground arith)
    ∙ groups_from-digits (read ++ c ∷ []) s t (ground arith)
        (ap filled (append_assoc read (c ∷ []) s) ∙ f) g k
    ∙ ap (λ x. some (x, t)) (append_assoc read (c ∷ []) s)

-- `parseNumberRange` of the decimal texts of `m` and `n` with a dash between them returns the
-- range from `m` to `n`, for natural numbers `m < n < 2^63`.
pub parse_number_range-format_int :
    (m n : ℕ)
    → m < n
    → n < 2 ^ 63
    → parse_number_range (format_int (pos m) ++ b'-' ∷ format_int (pos n))
      ≡ ok (record { from = pos m; to = pos n })
unfolding parse_number_range checked_range
parse_number_range-format_int m n l h =
    let d : all_in_class (format_int (pos m)) ≡ true =
      all_in_class-digits (format_int (pos m)) (all_digits-format_int m (omega arith)) in
    let e : all_in_class (format_int (pos n)) ≡ true =
      all_in_class-digits (format_int (pos n)) (all_digits-format_int n h) in
    let split =
      groups_from-digits [] (format_int (pos m)) (format_int (pos n)) d
        (filled_of _ (format_int-filled m (omega arith))) (filled_of _ (format_int-filled n h)) e in
    rw
      (
        split,
        parse_number_range,
        parse_number-format_int m (omega arith),
        parse_number-format_int n h,
      )
      (ground arith)
