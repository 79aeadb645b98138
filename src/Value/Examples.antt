-- ===== src/Value/Examples.antt =====
-- Runs of `Compare` and `ParseInt`, and their theorems at concrete inputs.
use dbpack.Common.{◌≡◌, refl, [], ◌∷◌}
use dbpack.Common.Int.{pos}
use dbpack.Value.{
  Bytes, integer, int64, text, good, range_error, format_int, parse_int, compare_values,
  compare_texts, value_of, float_reg, num_reg,
}

-- "1.5" and 2 compare as equal.
floats : compare_values (text (b'1' ∷ b'.' ∷ b'5' ∷ [])) (integer int64 (pos 2)) ≡ pos 0
unfolding compare_values compare_texts float_reg num_reg dbpack.Value.format dbpack.Value.format_int
    dbpack.Value.decimal
floats = refl
