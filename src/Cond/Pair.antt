-- ===== src/Cond/Pair.antt =====
-- `And` and `Or` on two key conditions, pkg/cond/shard.go.
pub mod Laws
pub mod Sound
pub mod Table
mod Examples
use dbpack.Common.{Bool, true, false, ◌||◌, if◌then◌else◌, List, []}
use dbpack.Common.Int.{ℤ, pos, negsuc, ◌==ℤ◌}
use dbpack.Value.{compare_values, same_value}
use dbpack.Cond.{
  Result, ok, panic, ◌>>=◌, Op, eq, ne, lt, le, gt, ge, like, KeyCondition, Route, all, nothing,
  missing, tables, ShardingAlgorithm,
}
use dbpack.Cond.Slice.{route_or}

-- `KeyCondition.Shard`: the slice of a route; the type assertion panics on a nil interface.
slice_of : ShardingAlgorithm → Route → Result (List ℤ)
slice_of alg all = ok alg.all_shards
slice_of alg nothing = ok []
slice_of alg missing = panic
slice_of alg (tables xs) = ok xs

unfoldable pub key_shard : ShardingAlgorithm → KeyCondition → Result (List ℤ)
unfolding slice_of
key_shard alg k = alg.shard k >>= slice_of alg

-- The slice as a condition.
unfoldable pub key_route : ShardingAlgorithm → KeyCondition → Result Route
unfolding key_shard
key_route alg k = key_shard alg k >>= λ xs. ok (tables xs)

-- `misc.Compare(k2.Value, k1.Value)` against the constants of a `switch`.
abbrev pub later : KeyCondition → KeyCondition → Bool
later k1 k2 = compare_values k2.value k1.value ==ℤ pos 1

abbrev pub same : KeyCondition → KeyCondition → Bool
same k1 k2 = compare_values k2.value k1.value ==ℤ pos 0

abbrev pub earlier : KeyCondition → KeyCondition → Bool
earlier k1 k2 = compare_values k2.value k1.value ==ℤ negsuc 0

module _ (alg : ShardingAlgorithm) (k1 k2 : KeyCondition) where
  -- `case opcode.EQ` of `And`, by the operator of `k2`; the other cases follow.
  unfoldable pub and_eq : Op → Result Route
  and_eq eq = if same_value k1.value k2.value then key_route alg k1 else ok nothing
  and_eq ne = if same_value k1.value k2.value then ok nothing else key_route alg k1
  and_eq lt = if earlier k1 k2 || same k1 k2 then ok nothing else key_route alg k1
  and_eq le = if earlier k1 k2 then ok nothing else key_route alg k1
  and_eq gt = if later k1 k2 || same k1 k2 then ok nothing else key_route alg k1
  and_eq ge = if later k1 k2 then ok nothing else key_route alg k1
  and_eq like = ok missing

  unfoldable pub and_ne : Op → Result Route
  and_ne eq = if same_value k1.value k2.value then ok nothing else key_route alg k2
  and_ne _ = ok missing

  unfoldable pub and_lt : Op → Result Route
  and_lt ne = if later k1 k2 || same k1 k2 then key_route alg k1 else alg.shard_range k1 k2
  and_lt eq = if later k1 k2 || same k1 k2 then ok nothing else key_route alg k2
  and_lt gt = if later k1 k2 || same k1 k2 then ok nothing else alg.shard_range k2 k1
  and_lt ge = if later k1 k2 || same k1 k2 then ok nothing else alg.shard_range k2 k1
  and_lt lt = if earlier k1 k2 then key_route alg k2 else key_route alg k1
  and_lt le = if later k1 k2 || same k1 k2 then key_route alg k1 else key_route alg k2
  and_lt like = ok missing

  unfoldable pub and_le : Op → Result Route
  and_le eq = if later k1 k2 then ok nothing else key_route alg k2
  and_le ne =
      if later k1 k2
      then key_route alg k1
      else if same k1 k2
      then key_route alg (record k1 { op = lt })
      else alg.shard_range k1 k2
  and_le lt = if later k1 k2 then key_route alg k1 else key_route alg k2
  and_le le = if earlier k1 k2 then key_route alg k2 else key_route alg k1
  and_le gt = if later k1 k2 || same k1 k2 then ok nothing else alg.shard_range k2 k1
  and_le ge =
      if later k1 k2
      then ok nothing
      else if same k1 k2
      then key_route alg (record k1 { op = eq })
      else alg.shard_range k2 k1
  and_le like = ok missing

  unfoldable pub and_gt : Op → Result Route
  and_gt eq = if later k1 k2 then key_route alg k2 else ok nothing
  and_gt ne = ok all
  and_gt gt = if later k1 k2 then key_route alg k2 else key_route alg k1
  and_gt ge = if later k1 k2 then key_route alg k2 else key_route alg k1
  and_gt lt = if earlier k1 k2 || same k1 k2 then ok nothing else alg.shard_range k1 k2
  and_gt le = if earlier k1 k2 || same k1 k2 then ok nothing else alg.shard_range k1 k2
  and_gt like = ok missing

  -- With `k2` an upper bound equal to the lower bound `k1`, the `case 0` is empty and `And` ends in
  -- `return nil, nil`.
  unfoldable pub and_ge : Op → Result Route
  and_ge eq = if later k1 k2 || same k1 k2 then key_route alg k2 else ok nothing
  and_ge ne = ok all
  and_ge gt = if later k1 k2 || same k1 k2 then key_route alg k2 else key_route alg k1
  and_ge ge = if later k1 k2 then key_route alg k2 else key_route alg k1
  and_ge lt = if earlier k1 k2 || same k1 k2 then ok nothing else alg.shard_range k1 k2
  and_ge le =
      if earlier k1 k2 then ok nothing else if same k1 k2 then ok missing else alg.shard_range k1 k2
  and_ge like = ok missing

  by_op : Op → Result Route
  unfolding and_eq and_ne and_lt and_le and_gt and_ge
  by_op eq = and_eq k2.op
  by_op ne = and_ne k2.op
  by_op lt = and_lt k2.op
  by_op le = and_le k2.op
  by_op gt = and_gt k2.op
  by_op ge = and_ge k2.op
  by_op like = ok missing

  -- `And`
  unfoldable pub pair_and : Result Route
  unfolding by_op
  pair_and = by_op k1.op

-- The first argument of `Or`: a key condition, or the condition that an earlier call returned.
pub data Operand : Type 0 where
  key : KeyCondition → Operand
  route : Route → Operand

-- `Or`, whose second argument is a key condition. Where the first is none, `k1` is a nil pointer, and
-- its method `Or` finds no case for a slice and returns nil.
unfoldable pub pair_or : ShardingAlgorithm → Operand → KeyCondition → Result Route
unfolding key_route
pair_or alg (key k1) k2 = do
  cond1 ← key_route alg k1
  cond2 ← key_route alg k2
  route_or cond1 cond2
pair_or alg (route r) k2 = key_route alg k2 >>= λ cond2. ok missing
