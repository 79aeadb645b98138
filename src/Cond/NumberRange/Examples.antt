-- ===== src/Cond/NumberRange/Examples.antt =====
-- The theorems on `NumberRange` at concrete inputs: 0-1000 is the table 0, and 1000-2000 the table 1.
use dbpack.Common.{
  ℕ, zero, suc, ◌^◌, ◌<◌, ◌≡◌, ◌⊎◌, inl, inr, refl, List, [], ◌∷◌, ◌++◌, Bool, true, false, All,
  arith,
}
use dbpack.Common.Int.{ℤ, pos, ◌<ℤ◌}
use dbpack.Value.{Bytes, integer, int64, format_int}
use dbpack.Cond.{
  Result, ok, Op, eq, ne, lt, le, gt, ge, like, KeyCondition, Route, nothing, tables, Topology,
}
use dbpack.Cond.Sound.{Leads}
use dbpack.Cond.NumberRange.Config.{parse_number, parse_number_range}
use dbpack.Cond.NumberRange.Sound.{range_shard-Leads}
use dbpack.Cond.NumberRange.Between.{range_shard_range-Leads}
use dbpack.Cond.NumberRange.{
  Range, Ranges, NumberRange, range_shard, range_shard_range, calculate_range,
}

abbrev low : Range
low = record { from = pos 0; to = pos 1000 }

abbrev high : Range
high = record { from = pos 1000; to = pos 2000 }

abbrev two : Ranges
two = (pos 0, low) ∷ (pos 1, high) ∷ []

abbrev by_id : NumberRange
by_id = record {
  sharding_key = b'i' ∷ b'd' ∷ [];
  allow_full_scan = false;
  topology = record { table_slice = pos 0 ∷ pos 1 ∷ []; table_slice_len = 2 };
  ranges = two;
}

abbrev compared : Op → ℕ → KeyCondition
compared op n = record { key = b'i' ∷ b'd' ∷ []; op = op; value = integer int64 (pos n) }

-- "2m" is twenty thousand.
million : parse_number (b'2' ∷ b'm' ∷ []) ≡ ok (pos 20000)
unfolding parse_number dbpack.Value.parse_int dbpack.Common.Int.wrap64
    dbpack.Cond.NumberRange.Config.number_text dbpack.Cond.NumberRange.Config.mul64
million = refl

range_shard-Leads_example : Leads (range_shard by_id (compared gt 700)) (pos 1)
range_shard-Leads_example =
    range_shard-Leads by_id (compared gt 700) (pos 700) (pos 1500) (pos 1) refl
      (omega arith, omega arith) (λ e. cc) (inr (omega arith))
      (inr (inl (refl, (omega arith, omega arith))))

range_shard_range-Leads_example :
    Leads (range_shard_range by_id (compared gt 700) (compared le 1500)) (pos 1)
range_shard_range-Leads_example =
    range_shard_range-Leads by_id (compared gt 700) (compared le 1500) (pos 700) (pos 1500)
      (pos 1200) (pos 0) (pos 1) (pos 1) refl refl (omega arith, omega arith)
      (omega arith, omega arith) tt tt
      ((omega arith, omega arith), ((omega arith, omega arith), tt))
      (
        ((λ h. omega arith), ((λ h. omega arith), tt)),
        (((λ h. omega arith), ((λ h. omega arith), tt)), tt),
      )
      (inl (refl, (omega arith, omega arith))) (inr (inl (refl, (omega arith, omega arith))))
      (inr (inl (refl, (omega arith, omega arith)))) (omega arith) (omega arith)
