-- ===== src/Cond/Shard/Examples.antt =====
-- Runs of `Shard`, and its theorems at concrete inputs: four tables by the column "uid".
use dbpack.Common.{
  ℕ, zero, suc, ◌+◌, ◌%◌, ◌^◌, ◌<◌, ◌≡◌, ◌⊎◌, inl, inr, refl, List, [], ◌∷◌, Bool, true, false, All,
  arith, Bool-cases,
}
use dbpack.Common.Int.{ℤ, pos, IsInt64}
use dbpack.Value.{Bytes, Value, integer, int64}
use dbpack.Cond.{
  Result, ok, panic, Op, eq, ne, lt, le, gt, ge, KeyCondition, Connective, conj, disj, Condition,
  key, complex, truth, Conditions, nil, cons, Topology, In, equal_fold,
}
use dbpack.Cond.NumberMod.{NumberMod, number_mod}
use dbpack.Cond.NumberMod.Interface.{number_mod-IsSound}
use dbpack.Cond.Samples.{four-IsFull, uid, by_uid}
use dbpack.Cond.Shard.Spec.{Routable}
use dbpack.Cond.Shard.Routes.{World}
use dbpack.Cond.Shard.Sound.{shard-In, shard-Returns}
use dbpack.Cond.Shard.Mod.{number_mod_shard-In}
use dbpack.Cond.Shard.{shard}

abbrev compared : Op → ℕ → Condition
compared op n = key (record { key = uid; op = op; value = integer int64 (pos n) })

-- uid >= 5 AND uid < 7 AND (uid = 6 OR uid = 9)
abbrev where_clause : Condition
where_clause = complex conj (
    cons (compared ge 5) (
      cons (compared lt 7)
        (cons (complex disj (cons (compared eq 6) (cons (compared eq 9) nil))) nil)))

abbrev column : Bytes → ℤ
column k = pos 6

where_clause-Routable : Routable (number_mod-IsSound by_uid four-IsFull) where_clause
unfolding number_mod-IsSound
where_clause-Routable = ground arith

run : shard (number_mod by_uid) where_clause ≡ ok (pos 1 ∷ pos 2 ∷ [])
unfolding shard number_mod dbpack.Cond.Shard.route_groups dbpack.Cond.Shard.Sort.sort_keys
    dbpack.Value.text_ltb dbpack.Value.format dbpack.Value.format_int dbpack.Value.decimal
    dbpack.Cond.Pair.pair_or dbpack.Cond.NumberMod.mod_shard equal_fold
    dbpack.Cond.NumberMod.number_of dbpack.Value.parse_int dbpack.Cond.NumberMod.shard_op
    dbpack.Cond.Slice.route_or dbpack.Value.text_eq dbpack.Cond.Pair.pair_and
    dbpack.Value.compare_values dbpack.Value.num_reg dbpack.Common.Int.add64 dbpack.Common.Int.rem64
    dbpack.Common.Int.sub64 dbpack.Cond.NumberMod.mod_shard_range dbpack.Cond.NumberMod.range_status
    dbpack.Cond.NumberMod.status_of dbpack.Cond.Pair.and_ge dbpack.Cond.Slice.route_and
run = refl

-- uid = 1 OR uid = 2 OR uid = 3
three_ored :
    shard
      (number_mod by_uid)
      (complex disj (cons (compared eq 1) (cons (compared eq 2) (cons (compared eq 3) nil))))
    ≡ panic
unfolding shard number_mod dbpack.Cond.Shard.route_groups dbpack.Cond.Shard.Sort.sort_keys
    dbpack.Value.text_ltb dbpack.Value.format dbpack.Value.format_int dbpack.Value.decimal
    dbpack.Cond.Pair.pair_or dbpack.Cond.NumberMod.mod_shard equal_fold
    dbpack.Cond.NumberMod.number_of dbpack.Value.parse_int dbpack.Cond.NumberMod.shard_op
    dbpack.Cond.Slice.route_or dbpack.Value.text_eq dbpack.Cond.Pair.pair_and
    dbpack.Value.compare_values dbpack.Value.num_reg dbpack.Common.Int.add64 dbpack.Common.Int.rem64
    dbpack.Common.Int.sub64 dbpack.Cond.NumberMod.mod_shard_range dbpack.Cond.NumberMod.range_status
    dbpack.Cond.NumberMod.status_of dbpack.Cond.Pair.and_ge dbpack.Cond.Slice.route_and
three_ored = refl

column-uid : (k : Bytes) → (equal_fold uid k ≡ false) ⊎ (column k ≡ pos 6)
column-uid k = inr refl

shard-Returns_example : (xs : List ℤ) × (shard (number_mod by_uid) where_clause ≡ ok xs)
shard-Returns_example =
    shard-Returns (number_mod by_uid) (number_mod-IsSound by_uid four-IsFull) where_clause
      where_clause-Routable

number_mod_shard-In_example :
    (xs : List ℤ) × (shard (number_mod by_uid) where_clause ≡ ok xs) × In (pos (6 % 4)) xs
number_mod_shard-In_example =
    number_mod_shard-In by_uid four-IsFull where_clause column 6 where_clause-Routable column-uid
      (omega arith, (omega arith, (inl refl, tt)))

row_6 : World (number_mod by_uid) (number_mod-IsSound by_uid four-IsFull) column (pos 6) (pos 2)
unfolding number_mod-IsSound number_mod
row_6 = (refl, λ k. inr refl)

shard-In_example : (xs : List ℤ) × (shard (number_mod by_uid) where_clause ≡ ok xs) × In (pos 2) xs
shard-In_example =
    shard-In (number_mod by_uid) (number_mod-IsSound by_uid four-IsFull) column (pos 6) (pos 2)
      where_clause where_clause-Routable row_6 (omega arith, (omega arith, (inl refl, tt)))
