-- ===== src/Cond/Shard/Point.antt =====
-- A column between two equal bounds: `ComplexCondition.Shard` panics.
use dbpack.Common.{◌≡◌, refl, [], ◌∷◌, true, ◌==◌, arith}
use dbpack.Common.Int.{ℤ, IsInt64}
use dbpack.Value.{Bytes, integer, int64, text_eq}
use dbpack.Cond.{panic, ge, le, KeyCondition, conj, key, complex, nil, cons, ShardingAlgorithm}
use dbpack.Cond.Pair.Laws.{pair_and-point}
use dbpack.Cond.Shard.{and_keys, keys_routes, fold_routes, combine, final, route_groups, shard}
use dbpack.Cond.Shard.Sort.{sort_keys-bounds}

text_eq-same : (s : Bytes) → text_eq s s ≡ true
unfolding text_eq
text_eq-same [] = refl
text_eq-same (c ∷ s) = let same : (c == c) ≡ true = ground arith in rw (same, text_eq-same s)

pub shard-point :
    (alg : ShardingAlgorithm) (name : Bytes) (z : ℤ)
    → IsInt64 z
    → shard alg (
        complex conj (
          cons
            (key (record { key = name; op = ge; value = integer int64 z }))
            (cons (key (record { key = name; op = le; value = integer int64 z })) nil)))
      ≡ panic
unfolding shard route_groups keys_routes and_keys combine fold_routes final
shard-point alg name z h =
    let lower : KeyCondition = record { key = name; op = ge; value = integer int64 z } in
    let upper : KeyCondition = record { key = name; op = le; value = integer int64 z } in
    rw
      (
        sort_keys-bounds name (integer int64 z) (integer int64 z),
        text_eq-same name,
        pair_and-point alg lower upper z refl refl refl refl h,
      )
      refl
