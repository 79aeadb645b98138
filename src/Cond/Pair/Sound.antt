-- ===== src/Cond/Pair/Sound.antt =====
-- What is stated of the route of two comparisons of one column, and lemmas on its parts.
use dbpack.Common.{ℕ, ◌≡◌, ◌⊎◌, inl, inr, refl, List, Bool, true, false, if◌then◌else◌, arith}
use mathlib.Core.Path.{subst}
use dbpack.Common.Int.{ℤ, pos, negsuc, ltb_ℤ, ◌==ℤ◌, IsInt64}
use dbpack.Value.{integer, int64, compare_values, same_value}
use dbpack.Value.Order.{compare_values-integer}
use dbpack.Cond.{
  Result, ok, err, panic, stuck, ◌>>=◌, Op, KeyCondition, Route, all, nothing, missing, tables,
  ShardingAlgorithm, Holds, IsOrder,
}
use dbpack.Cond.Sound.{Returns, Leads, IsSound, IsLower, IsUpper}
use dbpack.Cond.Pair.{key_route, slice_of, later, same, earlier}

-- The tests of `And` on two int64.
module _ (k1 k2 : KeyCondition) (y z : ℤ) where
  module _ (e1 : k1.value ≡ integer int64 y) (e2 : k2.value ≡ integer int64 z) (hy : IsInt64 y)
      (hz : IsInt64 z) where
    compared :
        compare_values k2.value k1.value
        ≡ (if ltb_ℤ y z then pos 1 else if ltb_ℤ z y then negsuc 0 else pos 0)
    compared = rw (e1, e2) (compare_values-integer z y hz hy)

    pub later-ltb : later k1 k2 ≡ ltb_ℤ y z
    later-ltb = rw compared (ground arith)

    pub earlier-ltb : earlier k1 k2 ≡ ltb_ℤ z y
    earlier-ltb = rw compared (ground arith)

    pub same-eq : same k1 k2 ≡ (y ==ℤ z)
    same-eq = rw compared (ground arith)

    pub same_value-eq : same_value k1.value k2.value ≡ (y ==ℤ z)
    same_value-eq = rw (e1, e2) (unfold same_value in refl)

-- `column op z` for an integer `z`.
abbrev pub comparison : List ℕ → Op → ℤ → KeyCondition
comparison c op z = record { key = c; op = op; value = integer int64 z }

module _ (alg : ShardingAlgorithm) (s : IsSound alg) where
  slice_of-Leads :
      (r : Result Route) (i v : ℤ)
      → s.Home v i
      → Leads r i
      → Leads (r >>= λ q. slice_of alg q >>= λ xs. ok (tables xs)) i
  unfolding slice_of
  slice_of-Leads (ok all) i v h l = s.all_leads v i h
  slice_of-Leads (ok nothing) i v h l = elim l [ ]
  slice_of-Leads (ok missing) i v h l = elim l [ ]
  slice_of-Leads (ok (tables xs)) i v h l = l
  slice_of-Leads (err e) i v h l = elim l [ ]
  slice_of-Leads panic i v h l = elim l [ ]
  slice_of-Leads stuck i v h l = elim l [ ]

  slice_of-Returns :
      (r : Result Route) → Returns r → Returns (r >>= λ q. slice_of alg q >>= λ xs. ok (tables xs))
  unfolding slice_of
  slice_of-Returns (ok all) l = tt
  slice_of-Returns (ok nothing) l = tt
  slice_of-Returns (ok missing) l = elim l [ ]
  slice_of-Returns (ok (tables xs)) l = tt
  slice_of-Returns (err e) l = elim l [ ]
  slice_of-Returns panic l = elim l [ ]
  slice_of-Returns stuck l = elim l [ ]

  key_route_lem :
      (k : KeyCondition)
      → key_route alg k ≡ (alg.shard k >>= λ q. slice_of alg q >>= λ xs. ok (tables xs))
  unfolding key_route
  key_route_lem k = go (alg.shard k)
    where
      go :
          (r : Result Route)
          → ((r >>= slice_of alg) >>= λ xs. ok (tables xs))
            ≡ (r >>= λ q. slice_of alg q >>= λ xs. ok (tables xs))
      go (ok q) = refl
      go (err e) = refl
      go panic = refl
      go stuck = refl

  -- The route returns, and leads to `i` where the row is selected.
  abbrev pub Serves : Result Route → Type 0 → ℤ → Type 0
  Serves r S i = Returns r × (S → Leads r i)

  pub serves-if :
      (b : Bool) (x y : Result Route) (S : Type 0) (i : ℤ)
      → (b ≡ true → Serves x S i)
      → (b ≡ false → Serves y S i)
      → Serves (if b then x else y) S i
  serves-if true x y S i h k = h refl
  serves-if false x y S i h k = k refl

  -- A row whose sharding column is `v` and whose column `c` is `w`, in the table `i`.
  abbrev pub Row : List ℕ → ℤ → ℤ → ℤ → Type 0
  Row c v w i = s.Home v i × ((alg.has_sharding_key c ≡ false) ⊎ (w ≡ v))

  module _ (c : List ℕ) (v w i : ℤ) where
    held :
        (op : Op) (z : ℤ)
        → Row c v w i
        → Holds op z w
        → (alg.has_sharding_key c ≡ false) ⊎ Holds op z v
    held op z r h = elim r.1 [ inl e ↦ inl e | inr e ↦ inr (subst (Holds op z) e h) ]

    pub key_serves :
        (op : Op) (z : ℤ)
        → IsOrder op
        → s.Fits z
        → Serves (key_route alg (comparison c op z)) (Row c v w i × Holds op z w) i
    key_serves op z o f = rw (key_route_lem (comparison c op z)) (
      slice_of-Returns _ (s.shard_returns (comparison c op z) z refl f),
      λ p.
          slice_of-Leads _ i v p.0.0
            (s.shard_leads (comparison c op z) z v i refl f o p.0.0 (held op z p.0 p.1)),
    )

    pub range_serves :
        (op op' : Op) (y z : ℤ)
        → IsLower op
        → IsUpper op'
        → s.Fits y
        → s.Fits z
        → Serves
            (alg.shard_range (comparison c op y) (comparison c op' z))
            (Row c v w i × Holds op y w × Holds op' z w)
            i
    range_serves op op' y z l u fy fz = (
      s.range_returns (comparison c op y) (comparison c op' z) y z refl refl fy fz l u,
      λ p.
          s.range_leads (comparison c op y) (comparison c op' z) y z v i refl refl fy fz l u p.0.0
            (elim p.0.1 [
              | inl e ↦ inl e
              | inr e ↦ inr (subst (Holds op y) e p.1, subst (Holds op' z) e p.2)
            ]),
    )
