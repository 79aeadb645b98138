-- ===== src/Value/Order.antt =====
-- `Compare` of pkg/misc/other.go on integers.
use dbpack.Common.{◌≡◌, if◌then◌else◌}
use dbpack.Common.Int.{ℤ, pos, negsuc, IsInt64, ltb_ℤ}
use dbpack.Value.{integer, int64, format, value_of, compare_texts, compare_values}
use dbpack.Value.Decimal.{num_reg-format_int, parse_int-format_int}

-- `Compare` of two int64 is 1, -1 or 0 as the first is greater than, less than or equal to the
-- second.
pub compare_values-integer :
    (a b : ℤ)
    → IsInt64 a
    → IsInt64 b
    → compare_values (integer int64 a) (integer int64 b)
      ≡ (if ltb_ℤ b a then pos 1 else if ltb_ℤ a b then negsuc 0 else pos 0)
unfolding compare_values compare_texts format value_of
compare_values-integer a b ha hb = rw (
  num_reg-format_int a ha,
  num_reg-format_int b hb,
  parse_int-format_int a ha,
  parse_int-format_int b hb,
)
