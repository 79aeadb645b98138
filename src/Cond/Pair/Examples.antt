-- ===== src/Cond/Pair/Examples.antt =====
-- The theorems on `And` and `Or` of two key conditions, at concrete inputs.
use dbpack.Common.{ℕ, ◌≡◌, inr, refl, [], ◌∷◌, false, arith}
use dbpack.Common.Int.{pos}
use dbpack.Value.{Bytes, integer, int, int64}
use dbpack.Cond.{
  Result, ok, Op, eq, ne, lt, le, gt, ge, KeyCondition, Route, all, nothing, missing, tables,
  Topology, equal_fold,
}
use dbpack.Cond.Sound.{Returns, Leads}
use dbpack.Cond.NumberMod.{NumberMod, number_mod, mod_shard}
use dbpack.Cond.NumberMod.Sound.{IsFull}
use dbpack.Cond.NumberMod.Interface.{number_mod-IsSound}
use dbpack.Cond.Pair.Sound.{Row}
use dbpack.Cond.Pair.Laws.{pair_and-Leads}
use dbpack.Cond.Pair.{pair_and}

abbrev two : Topology
two = record { table_slice = pos 0 ∷ pos 1 ∷ []; table_slice_len = 2 }

two-IsFull : IsFull two
two-IsFull = record {
  some_table = omega arith;
  few_tables = omega arith;
  each_index = λ j h. grind arith;
}

abbrev by_id : NumberMod
by_id = record { sharding_key = b'i' ∷ b'd' ∷ []; allow_full_scan = false; topology = two }

abbrev compared : Op → ℕ → KeyCondition
compared op n = record { key = b'i' ∷ b'd' ∷ []; op = op; value = integer int64 (pos n) }

four_stands :
    Row
      (number_mod by_id)
      (number_mod-IsSound by_id two-IsFull)
      (b'i' ∷ b'd' ∷ [])
      (pos 4)
      (pos 4)
      (pos 0)
unfolding number_mod-IsSound number_mod
four_stands = (refl, inr refl)

fits_3 : (number_mod-IsSound by_id two-IsFull).Fits (pos 3)
unfolding number_mod-IsSound
fits_3 = omega arith

fits_7 : (number_mod-IsSound by_id two-IsFull).Fits (pos 7)
unfolding number_mod-IsSound
fits_7 = omega arith

pair_and-Leads_example : Leads (pair_and (number_mod by_id) (compared gt 3) (compared le 7)) (pos 0)
pair_and-Leads_example =
    pair_and-Leads (number_mod by_id) (number_mod-IsSound by_id two-IsFull) (compared gt 3)
      (compared le 7) (pos 3) (pos 7) (pos 4) (pos 4) (pos 0) refl refl refl tt tt
      ((omega arith, omega arith), fits_3) ((omega arith, omega arith), fits_7) (λ h. h) four_stands
      (omega arith) (omega arith)

shard_3 : Returns ((number_mod by_id).shard (compared eq 3))
unfolding number_mod mod_shard dbpack.Cond.NumberMod.number_of dbpack.Cond.NumberMod.shard_op
    equal_fold dbpack.Value.parse_int dbpack.Value.format dbpack.Value.format_int
    dbpack.Value.decimal
shard_3 = tt

-- id = 1 AND id = !0: the value of the second one is an int, and no table is searched.
two_types :
    pair_and
      (number_mod by_id)
      (compared eq 1)
      (record (compared eq 1) { value = integer int (pos 1) })
    ≡ ok nothing
unfolding pair_and dbpack.Value.same_value
two_types = refl
