-- ===== src/Cond/Pair/Laws.antt =====
-- The routes that `And` and `Or` of two key conditions return.
use dbpack.Common.{◌≡◌, refl, sym, ◌∙◌, ap, [], true, arith}
use mathlib.Core.Path.{subst₂}
use dbpack.Common.Int.{ℤ, pos, ◌<ℤ◌, IsInt64}
use dbpack.Value.{integer, int64}
use dbpack.Cond.{
  Result, ok, err, panic, stuck, ◌>>=◌, all, ne, lt, le, ge, KeyCondition, Route, nothing, missing,
  tables, ShardingAlgorithm, Holds, IsOrder, equal_fold,
}
use dbpack.Cond.Sound.{Returns, Leads, IsSound}
use dbpack.Cond.NumberMod.{NumberMod, number_mod, mod_shard_range, range_status, status_of}
use dbpack.Cond.Pair.{route, slice_of, pair_and, pair_or}
use dbpack.Cond.Pair.Sound.{comparison, Row, later-ltb, earlier-ltb, same-eq}
use dbpack.Cond.NumberMod.Sound.{number_of-int64}
use dbpack.Cond.Pair.Table.{IsPoint, pair_serves}

-- A key condition on an integer is a comparison.
as_comparison : (k : KeyCondition) (z : ℤ) → k.value ≡ integer int64 z → comparison k.key k.op z ≡ k
as_comparison k z e = ap (λ x. record k { value = x }) (sym e)

-- Over an algorithm that satisfies the interface `IsSound`, `And` of two comparisons of one column,
-- by =, <, <=, > or >=, with int64 by which the algorithm routes, and which are not `>= z` and
-- `<= z` for one `z`, returns a route that is not nil, with no error and no panic.
pub pair_and-Returns :
    (alg : ShardingAlgorithm) (s : IsSound alg) (k1 k2 : KeyCondition) (y z : ℤ)
    → k1.value ≡ integer int64 y
    → k2.value ≡ integer int64 z
    → k1.key ≡ k2.key
    → IsOrder k1.op
    → IsOrder k2.op
    → IsInt64 y × s.Fits y
    → IsInt64 z × s.Fits z
    → ¬ (IsPoint k1.op k2.op y z)
    → Returns (pair_and alg k1 k2)
pair_and-Returns alg s k1 k2 y z e1 e2 e o1 o2 f1 f2 n =
    subst₂ (λ a b. Returns (pair_and alg a b)) (as_comparison k1 y e1)
      (ap (λ c. comparison c k2.op z) e ∙ as_comparison k2 z e2)
      (pair_serves alg s k1.key (pos 0) (pos 0) (pos 0) y z f1.0 f2.0 f1.1 f2.1 k1.op k2.op o1 o2
        n).0

-- Over an algorithm that satisfies the interface `IsSound`, `And` of two comparisons of one
-- column, by =, <, <=, > or >=, with int64 by which the algorithm routes, and which are not `>=
-- z` and `<= z` for one `z`, returns a route that leads to the table of every row which both
-- select.
pub pair_and-Leads :
    (alg : ShardingAlgorithm) (s : IsSound alg) (k1 k2 : KeyCondition) (y z v w i : ℤ)
    → k1.value ≡ integer int64 y
    → k2.value ≡ integer int64 z
    → k1.key ≡ k2.key
    → IsOrder k1.op
    → IsOrder k2.op
    → IsInt64 y × s.Fits y
    → IsInt64 z × s.Fits z
    → ¬ (IsPoint k1.op k2.op y z)
    → Row alg s k1.key v w i
    → Holds k1.op y w
    → Holds k2.op z w
    → Leads (pair_and alg k1 k2) i
pair_and-Leads alg s k1 k2 y z v w i e1 e2 e o1 o2 f1 f2 n r h h' =
    subst₂ (λ a b. Leads (pair_and alg a b) i) (as_comparison k1 y e1)
      (ap (λ c. comparison c k2.op z) e ∙ as_comparison k2 z e2)
      ((pair_serves alg s k1.key v w i y z f1.0 f2.0 f1.1 f2.1 k1.op k2.op o1 o2 n).1 (r, h, h'))

-- `And` of `>= z` and `<= z`, for one int64 `z`, returns nil.
pub pair_and-point :
    (alg : ShardingAlgorithm) (k1 k2 : KeyCondition) (z : ℤ)
    → k1.value ≡ integer int64 z
    → k2.value ≡ integer int64 z
    → k1.op ≡ ge
    → k2.op ≡ le
    → IsInt64 z
    → pair_and alg k1 k2 ≡ ok missing
unfolding pair_and
pair_and-point alg k1 k2 z e1 e2 o1 o2 h =
    rw (o1, o2) (ground (arith, earlier-ltb k1 k2 z z e1 e2 h h, same-eq k1 k2 z z e1 e2 h h))

-- With `NumberMod`, `And` of `< y` and `<> z` on the sharding column, for int64 `z < y`, returns
-- the empty slice of tables.
pub pair_and-lt_ne :
    (s : NumberMod) (k1 k2 : KeyCondition) (y z : ℤ)
    → k1.value ≡ integer int64 y
    → k2.value ≡ integer int64 z
    → k1.op ≡ lt
    → k2.op ≡ ne
    → IsInt64 y
    → IsInt64 z
    → z <ℤ y
    → equal_fold s.sharding_key k1.key ≡ true
    → pair_and (number_mod s) k1 k2 ≡ ok (tables [])
unfolding pair_and number_mod mod_shard_range status_of range_status
pair_and-lt_ne s k1 k2 y z e1 e2 o1 o2 h1 h2 l k =
    rw (o1, o2)
      (ground (arith, later-ltb k1 k2 y z e1 e2 h1 h2, same-eq k1 k2 y z e1 e2 h1 h2, ranged))
  where
    ranged : mod_shard_range s k1 k2 ≡ ok (tables [])
    ranged =
        rw (k, number_of-int64 k1 y e1 h1, number_of-int64 k2 z e2 h2, o1)
          (ap (λ o. range_status s.topology.table_slice_len (status_of lt o) y z) o2)

-- `Or` of a condition that is not a key condition and a key condition that the algorithm routes
-- returns nil.
pub pair_or-route :
    (alg : ShardingAlgorithm) (r : Route) (k : KeyCondition)
    → Returns (alg.shard k)
    → pair_or alg (route r) k ≡ ok missing
unfolding pair_or slice_of
pair_or-route alg r k h = go (alg.shard k) h
  where
    go :
        (q : Result Route)
        → Returns q
        → (((q >>= slice_of alg) >>= λ xs. ok (tables xs)) >>= λ d. ok missing) ≡ ok missing
    go (ok all) h = refl
    go (ok nothing) h = refl
    go (ok missing) h = elim h [ ]
    go (ok (tables xs)) h = refl
    go (err e) h = elim h [ ]
    go panic h = elim h [ ]
    go stuck h = elim h [ ]
