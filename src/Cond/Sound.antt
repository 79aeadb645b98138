-- ===== src/Cond/Sound.antt =====
-- What the router needs of a `ShardingAlgorithm`: that it returns, and that it leads to every table
-- which may hold a row that the condition selects.
use dbpack.Common.{◌≡◌, ◌⊎◌, Bool, true, false, refl, if◌then◌else◌}
use dbpack.Common.Int.{ℤ}
use dbpack.Value.{integer, int64}
use dbpack.Cond.{
  Result, ok, err, panic, stuck, Op, lt, le, gt, ge, KeyCondition, Route, all, nothing, missing,
  tables, ShardingAlgorithm, In, Holds, IsOrder,
}

-- A route is returned, and it is no nil interface.
abbrev pub Returns : Result Route → Type 0
Returns (ok all) = Unit
Returns (ok nothing) = Unit
Returns (ok (tables xs)) = Unit
Returns (ok missing) = ⊥
Returns (err e) = ⊥
Returns panic = ⊥
Returns stuck = ⊥

-- A route is returned that leads to the table with index `i`.
abbrev pub Leads : Result Route → ℤ → Type 0
Leads (ok all) i = Unit
Leads (ok nothing) i = ⊥
Leads (ok (tables xs)) i = In i xs
Leads (ok missing) i = ⊥
Leads (err e) i = ⊥
Leads panic i = ⊥
Leads stuck i = ⊥

pub Leads-if :
    (b : Bool) (x y : Result Route) (i : ℤ)
    → (b ≡ true → Leads x i)
    → (b ≡ false → Leads y i)
    → Leads (if b then x else y) i
Leads-if true x y i h k = h refl
Leads-if false x y i h k = k refl

-- The bounds of a range: the lower one, and the upper one.
abbrev pub IsLower : Op → Type 0
IsLower gt = Unit
IsLower ge = Unit
IsLower _ = ⊥

abbrev pub IsUpper : Op → Type 0
IsUpper lt = Unit
IsUpper le = Unit
IsUpper _ = ⊥

-- `Home v i`: a row whose sharding column is `v` stands in the table `i`. `Fits z`: the algorithm
-- routes by the value `z`.
pub record IsSound (alg : ShardingAlgorithm) : Type 1 where
  pub Home : ℤ → ℤ → Type 0
  pub Fits : ℤ → Type 0
  pub all_leads : (v i : ℤ) → Home v i → In i alg.all_shards
  pub shard_returns :
      (c : KeyCondition) (z : ℤ) → c.value ≡ integer int64 z → Fits z → Returns (alg.shard c)
  pub shard_leads :
      (c : KeyCondition) (z v i : ℤ)
      → c.value ≡ integer int64 z
      → Fits z
      → IsOrder c.op
      → Home v i
      → (alg.has_sharding_key c.key ≡ false) ⊎ Holds c.op z v
      → Leads (alg.shard c) i
  pub range_returns :
      (c d : KeyCondition) (y z : ℤ)
      → c.value ≡ integer int64 y
      → d.value ≡ integer int64 z
      → Fits y
      → Fits z
      → IsLower c.op
      → IsUpper d.op
      → Returns (alg.shard_range c d)
  pub range_leads :
      (c d : KeyCondition) (y z v i : ℤ)
      → c.value ≡ integer int64 y
      → d.value ≡ integer int64 z
      → Fits y
      → Fits z
      → IsLower c.op
      → IsUpper d.op
      → Home v i
      → (alg.has_sharding_key c.key ≡ false) ⊎ Holds c.op y v × Holds d.op z v
      → Leads (alg.shard_range c d) i
