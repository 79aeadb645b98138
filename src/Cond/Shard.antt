-- ===== src/Cond/Shard.antt =====
-- `Shard` of conditions, pkg/cond/shard.go, with the order of key conditions of condition.go.
mod Sort
pub mod Spec
pub mod Routes
pub mod Combine
mod Grouped
pub mod Sound
pub mod Point
pub mod Mod
mod Examples
pub use Sort.{op_name, less, sort_keys}
use dbpack.Common.{
  ℕ, zero, suc, ◌+◌, List, [], ◌∷◌, ◌++◌, Bool, true, false, ◌&&◌, ltb, if◌then◌else◌, length,
}
use dbpack.Common.Int.{ℤ}
use dbpack.Value.{Bytes, text_eq}
use dbpack.Cond.{
  Result, ok, err, panic, stuck, ◌>>=◌, KeyCondition, Connective, conj, disj, Condition, key,
  complex, truth, falsity, absent, Conditions, nil, cons, Route, all, nothing, missing, tables,
  ShardingAlgorithm,
}
use dbpack.Cond.Slice.{route_and, route_or}
use dbpack.Cond.Pair.{key_route, pair_and, pair_or, Operand}
use dbpack.Cond.Pair

-- The groups that the first loop of `ComplexCondition.Shard` fills: the routes of the nested
-- conditions, the key conditions, and how many conditions are true and how many false.
pub record Groups : Type 0 where
  pub result : List Route
  pub key_group : List KeyCondition
  pub true_group : ℕ
  pub false_group : ℕ

module _ (alg : ShardingAlgorithm) where
  -- `opcode.And`: neighbours with one key go to `And`, any other key condition is sharded alone.
  unfoldable pub and_keys : List KeyCondition → Result (List Route)
  and_keys [] = ok []
  and_keys (c ∷ []) = key_route alg c >>= λ r. ok (r ∷ [])
  and_keys (c1 ∷ c2 ∷ cs) =
      let alone = (do r ← key_route alg c1; rs ← and_keys (c2 ∷ cs); ok (r ∷ rs)) in
      let paired = (do r ← pair_and alg c1 c2; rs ← and_keys cs; ok (r ∷ rs)) in
      if text_eq c1.key c2.key then paired else alone

  -- `opcode.Or`: `c, err = Or(alg, c, keyGroup[i])`.
  unfoldable pub or_keys : Operand → List KeyCondition → Result Route
  or_keys (Operand.key k) [] = key_route alg k
  or_keys (Operand.route r) [] = ok r
  or_keys c (k ∷ ks) = pair_or alg c k >>= λ r. or_keys (Operand.route r) ks

  -- The conditions of `keyGroup`: none, one, or several, which are sorted.
  unfoldable pub keys_routes : Connective → List KeyCondition → Result (List Route)
  unfolding and_keys or_keys
  keys_routes op [] = ok []
  keys_routes op (k ∷ []) = key_route alg k >>= λ r. ok (r ∷ [])
  keys_routes conj (k ∷ l ∷ ks) = and_keys (k ∷ l ∷ ks)
  keys_routes disj (k ∷ l ∷ ks) = or_keys (Operand.key k) (l ∷ ks) >>= λ r. ok (r ∷ [])

  -- `c = c.And(result[i])` and `c = c.Or(result[i])`.
  unfoldable pub fold_routes : Connective → Route → List Route → Result Route
  fold_routes op c [] = ok c
  fold_routes conj c (r ∷ rs) = route_and c r >>= λ d. fold_routes conj d rs
  fold_routes disj c (r ∷ rs) = route_or c r >>= λ d. fold_routes disj d rs

  -- `c := result[0]` and the loop; an empty slice panics.
  unfoldable pub combine : Connective → List Route → Result Route
  unfolding fold_routes
  combine op [] = panic
  combine op (c ∷ rs) = fold_routes op c rs

  -- The type switch at the end: `nil` has no case, and its assertion panics.
  unfoldable pub final : Route → Result (List ℤ)
  final all = ok alg.all_shards
  final nothing = ok []
  final missing = panic
  final (tables xs) = ok xs

  -- `ComplexCondition.Shard` behind its first loop.
  unfoldable pub route_groups : Connective → Groups → Result (List ℤ)
  unfolding keys_routes combine final
  route_groups conj g = if ltb 0 g.false_group then ok [] else (do
    ks ← keys_routes conj (sort_keys g.key_group)
    r ← combine conj (g.result ++ ks)
    final r)
  route_groups disj g = if ltb 0 g.true_group then ok alg.all_shards else (do
    ks ← keys_routes disj (sort_keys g.key_group)
    r ← combine disj (g.result ++ ks)
    final r)

-- `Shard` of a condition, and the first loop of `ComplexCondition.Shard`.
unfoldable mutual
  pub shard : ShardingAlgorithm → Condition → Result (List ℤ)
  shard alg (key k) = Pair.key_shard alg k
  shard alg (complex op cs) = groups alg cs >>= route_groups alg op
  shard alg truth = ok alg.all_shards
  shard alg falsity = ok []
  shard alg absent = panic

  pub groups : ShardingAlgorithm → Conditions → Result Groups
  groups alg nil = ok (record { result = []; key_group = []; true_group = 0; false_group = 0 })
  groups alg (cons c cs) = enter alg c (groups alg cs)

  pub enter : ShardingAlgorithm → Condition → Result Groups → Result Groups
  enter alg (complex op cs) rest = (groups alg cs >>= route_groups alg op) >>= λ xs.
      rest >>= λ g. ok (record g { result = tables xs ∷ g.result })
  enter alg (key k) rest = rest >>= λ g. ok (record g { key_group = k ∷ g.key_group })
  enter alg truth rest = rest >>= λ g. ok (record g { true_group = suc g.true_group })
  enter alg falsity rest = rest >>= λ g. ok (record g { false_group = suc g.false_group })
  enter alg absent rest = rest
