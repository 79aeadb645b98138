-- ===== src/Cond/NumberMod/Examples.antt =====
-- The theorems on `NumberMod` at concrete inputs, and what it does with `<>`.
use dbpack.Common.{
  ℕ, zero, suc, ◌%◌, ◌^◌, ◌<◌, ◌≡◌, ◌⊎◌, inl, inr, refl, List, [], ◌∷◌, Bool, true, false, arith,
}
use dbpack.Common.Int.{ℤ, pos}
use dbpack.Value.{Bytes, integer, int64}
use dbpack.Cond.{ok, Op, ne, lt, ge, KeyCondition, tables, Topology, equal_fold}
use dbpack.Cond.Sound.{Leads}
use dbpack.Cond.NumberMod.Sound.{IsFull}
use dbpack.Cond.NumberMod.Interface.{mod_shard-Leads, mod_shard_range-Leads}
use dbpack.Cond.NumberMod.{NumberMod, mod_shard, mod_shard_range, number_of, shard_op}

abbrev three : Topology
three = record { table_slice = pos 0 ∷ pos 1 ∷ pos 2 ∷ []; table_slice_len = 3 }

three-IsFull : IsFull three
three-IsFull = record {
  some_table = omega arith;
  few_tables = omega arith;
  each_index = λ j h. grind arith;
}

abbrev by_id : NumberMod
by_id = record { sharding_key = b'i' ∷ b'd' ∷ []; allow_full_scan = false; topology = three }

abbrev compared : Op → ℕ → KeyCondition
compared op n = record { key = b'I' ∷ b'D' ∷ []; op = op; value = integer int64 (pos n) }

-- `id <> 4` is routed past the table 1, in which `id = 1` stands.
not_four : mod_shard by_id (compared ne 4) ≡ ok (tables (pos 0 ∷ pos 2 ∷ []))
unfolding mod_shard number_of shard_op equal_fold dbpack.Value.parse_int dbpack.Value.format
    dbpack.Value.format_int dbpack.Value.decimal dbpack.Common.Int.rem64
not_four = refl

mod_shard-Leads_example : Leads (mod_shard by_id (compared lt 2)) (pos 1)
mod_shard-Leads_example =
    mod_shard-Leads by_id three-IsFull (compared lt 2) (pos 2) (pos 1) (pos 1) refl (omega arith) tt
      refl (inr (omega arith))

mod_shard_range-Leads_example :
    Leads (mod_shard_range by_id (compared ge 4) (compared lt 6)) (pos 2)
mod_shard_range-Leads_example =
    mod_shard_range-Leads by_id three-IsFull (compared ge 4) (compared lt 6) (pos 4) (pos 6) (pos 5)
      (pos 2) refl refl (omega arith) (omega arith) tt tt refl (inr (omega arith, omega arith))
