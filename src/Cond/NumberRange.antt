-- ===== src/Cond/NumberRange.antt =====
-- Sharding by ranges of numbers, `NumberRange` of pkg/cond/algo_number_range.go.
pub mod Config
pub mod Sound
pub mod Between
pub mod Gaps
mod Parse
mod Examples
use dbpack.Common.{ℕ, zero, suc, List, [], ◌∷◌, Bool, true, false, ◌&&◌, if◌then◌else◌}
use dbpack.Common.Int.{ℤ, pos, negsuc, pos_part, ◌==ℤ◌, ltb_ℤ, leb_ℤ, add64, sub64}
use dbpack.Value.{Bytes}
use dbpack.Cond.{
  Result, ok, err, panic, stuck, ◌>>=◌, Op, eq, ne, lt, le, gt, ge, like, KeyCondition, Route, all,
  nothing, tables, Topology, ShardingAlgorithm, equal_fold,
}
use dbpack.Cond.NumberMod.{
  number_of, Status, status0, status1, status2, status3, status4, status5, status6, status_of,
}

pub record Range : Type 0 where
  pub from : ℤ
  pub to : ℤ

-- `map[int]*Range`, as its entries in the order that a loop meets them.
abbrev pub Ranges : Type 0
Ranges = List (ℤ × Range)

pub record NumberRange : Type 0 where
  pub sharding_key : Bytes
  pub allow_full_scan : Bool
  pub topology : Topology
  pub ranges : Ranges

-- `for idx, rg := range shard.ranges { if test(rg) { result = append(result, idx) } }`
unfoldable pub select : (Range → Bool) → Ranges → List ℤ
select test [] = []
select test ((idx, rg) ∷ rs) = let rest = select test rs in if test rg then idx ∷ rest else rest

-- `switch condition.Op` of `Shard`.
unfoldable pub shard_op : Ranges → Op → ℤ → Result Route
unfolding select
shard_op rs eq v = ok (tables (select (λ r. leb_ℤ r.from v && ltb_ℤ v r.to) rs))
shard_op rs ne v = ok all
shard_op rs lt v = ok (tables (select (λ r. ltb_ℤ r.from v) rs))
shard_op rs le v = ok (tables (select (λ r. leb_ℤ r.from v) rs))
shard_op rs gt v = ok (tables (select (λ r. ltb_ℤ v r.to) rs))
shard_op rs ge v = ok (tables (select (λ r. leb_ℤ v r.to) rs))
shard_op rs like v = ok (tables [])

-- `NumberRange.Shard`
unfoldable pub range_shard : NumberRange → KeyCondition → Result Route
range_shard s c =
    if equal_fold s.sharding_key c.key then (number_of c >>= shard_op s.ranges c.op) else ok all

-- `calculate`: the first range that the loop meets with the value in it, and -1 for none.
unfoldable pub calculate : Ranges → ℤ → ℤ
calculate [] v = negsuc 0
calculate ((idx, rg) ∷ rs) v =
    let rest = calculate rs v in if leb_ℤ rg.from v && leb_ℤ v rg.to then idx else rest

-- `for i := start; i <= stop; i++ { result = append(result, i) }`, with fuel for the rounds.
unfoldable pub indices : ℕ → ℤ → ℤ → Result (List ℤ)
indices zero i stop = if leb_ℤ i stop then stuck else ok []
indices (suc fuel) i stop =
    let rest = indices fuel (add64 i (pos 1)) stop in
    if leb_ℤ i stop then (rest >>= λ is. ok (i ∷ is)) else ok []

-- `calculateRange`, from the two numbers of `calculate`: the loop has `stop - start + 1` rounds.
unfoldable pub between : ℤ → ℤ → Result Route
unfolding indices
between start stop =
    if start ==ℤ negsuc 0 && stop ==ℤ negsuc 0
    then ok nothing
    else if leb_ℤ start stop
    then (indices (suc (pos_part (sub64 stop start))) start stop >>= λ is. ok (tables is))
    else ok nothing

unfoldable pub calculate_range : Ranges → ℤ → ℤ → Result Route
unfolding calculate between
calculate_range rs begin end = between (calculate rs begin) (calculate rs end)

-- `switch status` of `ShardRange`.
unfoldable pub range_by : Ranges → Status → ℤ → ℤ → Result Route
unfolding calculate_range select
range_by rs status0 v1 v2 = ok (tables [])
range_by rs status1 v1 v2 = calculate_range rs v1 v2
range_by rs status2 v1 v2 = calculate_range rs v1 v2
range_by rs status3 v1 v2 = calculate_range rs v1 v2
range_by rs status4 v1 v2 = calculate_range rs v1 v2
range_by rs status5 v1 v2 = ok (tables (select (λ r. ltb_ℤ r.from v2) rs))
range_by rs status6 v1 v2 = ok (tables (select (λ r. leb_ℤ r.from v2) rs))

-- `NumberRange.ShardRange`
unfoldable pub range_shard_range : NumberRange → KeyCondition → KeyCondition → Result Route
range_shard_range s c1 c2 =
    if equal_fold s.sharding_key c1.key
    then (do v1 ← number_of c1; v2 ← number_of c2; range_by s.ranges (status_of c1.op c2.op) v1 v2)
    else ok all

-- `*NumberRange` as a `ShardingAlgorithm`.
unfoldable pub number_range : NumberRange → ShardingAlgorithm
number_range s = record {
  has_sharding_key = equal_fold s.sharding_key;
  shard = range_shard s;
  shard_range = range_shard_range s;
  all_shards = s.topology.table_slice;
  allow_full_scan = s.allow_full_scan;
}
