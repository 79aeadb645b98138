-- ===== src/Cond/NumberMod/Interface.antt =====
-- `NumberMod` as a `ShardingAlgorithm` that satisfies the interface `IsSound`.
use dbpack.Common.{◌%◌, ◌≡◌, ◌⊎◌, inl, inr, false, arith, Bool-cases}
use dbpack.Common.Int.{ℤ, pos, negsuc}
use dbpack.Value.{Kind, integer}
use dbpack.Cond.{KeyCondition, In, Holds, IsOrder, equal_fold}
use dbpack.Cond.Sound.{Returns, Leads, IsSound, IsLower, IsUpper}
use dbpack.Cond.NumberMod.{NumberMod, mod_shard, mod_shard_range, number_mod}
use dbpack.Cond.NumberMod.Sound.{
  ModHome, ModFits, IsFull, number_of-integer, shard_op-Returns, shard_op-Leads, range_serves,
}

module _ (s : NumberMod) (f : IsFull s.topology) where
  pub mod_shard-Returns :
      {t : Kind} (c : KeyCondition) (z : ℤ)
      → c.value ≡ integer t z
      → ModFits z
      → Returns (mod_shard s c)
  unfolding mod_shard
  mod_shard-Returns c (negsuc k) e h = elim h [ ]
  mod_shard-Returns c (pos k) e h = elim (Bool-cases (equal_fold s.sharding_key c.key)) [
    | inl b ↦ rw (b, number_of-integer c k e h) (shard_op-Returns s.topology f k h c.op)
    | inr b ↦ rw b tt
  ]

  -- Over a topology with every index from 0 on, `Shard` of `NumberMod` for a comparison by =, <,
  -- <=, > or >= with a natural number below 2^63 - 1 leads to the table `v % n` of every natural
  -- number `v` that the comparison selects; if it is on another column, of every natural number
  -- `v`.
  pub mod_shard-Leads :
      {t : Kind} (c : KeyCondition) (z v i : ℤ)
      → c.value ≡ integer t z
      → ModFits z
      → IsOrder c.op
      → ModHome s.topology.table_slice_len v i
      → (equal_fold s.sharding_key c.key ≡ false) ⊎ Holds c.op z v
      → Leads (mod_shard s c) i
  unfolding mod_shard
  mod_shard-Leads c (negsuc k) v i e h o m k' = elim h [ ]
  mod_shard-Leads c (pos k) (negsuc v) i e h o m k' = elim m [ ]
  mod_shard-Leads c (pos k) (pos v) i e h o m (inl b) = rw b tt
  mod_shard-Leads c (pos k) (pos v) i e h o m (inr w) =
      elim (Bool-cases (equal_fold s.sharding_key c.key)) [
        | inl b ↦ rw (b, number_of-integer c k e h, m) (shard_op-Leads s.topology f k h c.op v o w)
        | inr b ↦ rw b tt
      ]

  -- Over a topology with every index from 0 on, `ShardRange` of `NumberMod` for a lower bound (>
  -- or >=) and an upper bound (< or <=), natural numbers below 2^63 - 1, returns a route: its
  -- loops end within the fuel, with no error and no panic.
  pub mod_shard_range-Returns :
      {t u : Kind} (c d : KeyCondition) (y z : ℤ)
      → c.value ≡ integer t y
      → d.value ≡ integer u z
      → ModFits y
      → ModFits z
      → IsLower c.op
      → IsUpper d.op
      → Returns (mod_shard_range s c d)
  unfolding mod_shard_range
  mod_shard_range-Returns c d (negsuc a) z e e' h h' l u = elim h [ ]
  mod_shard_range-Returns c d (pos a) (negsuc b) e e' h h' l u = elim h' [ ]
  mod_shard_range-Returns c d (pos a) (pos b) e e' h h' l u =
      elim (Bool-cases (equal_fold s.sharding_key c.key)) [
        | inl k ↦
            rw (k, number_of-integer c a e h, number_of-integer d b e' h')
              (range_serves s.topology.table_slice_len a b f.few_tables h h' c.op d.op l u).0
        | inr k ↦ rw k tt
      ]

  -- Over a topology with every index from 0 on, `ShardRange` of `NumberMod` for a lower bound (>
  -- or >=) and an upper bound (< or <=), natural numbers below 2^63 - 1, leads to the table `v %
  -- n` of every natural number `v` between them; if the first is on another column, of every
  -- natural number `v`.
  pub mod_shard_range-Leads :
      {t u : Kind} (c d : KeyCondition) (y z v i : ℤ)
      → c.value ≡ integer t y
      → d.value ≡ integer u z
      → ModFits y
      → ModFits z
      → IsLower c.op
      → IsUpper d.op
      → ModHome s.topology.table_slice_len v i
      → (equal_fold s.sharding_key c.key ≡ false) ⊎ Holds c.op y v × Holds d.op z v
      → Leads (mod_shard_range s c d) i
  unfolding mod_shard_range
  mod_shard_range-Leads c d (negsuc a) z v i e e' h h' l u m w = elim h [ ]
  mod_shard_range-Leads c d (pos a) (negsuc b) v i e e' h h' l u m w = elim h' [ ]
  mod_shard_range-Leads c d (pos a) (pos b) (negsuc v) i e e' h h' l u m w = elim m [ ]
  mod_shard_range-Leads c d (pos a) (pos b) (pos v) i e e' h h' l u m (inl k) = rw k tt
  mod_shard_range-Leads c d (pos a) (pos b) (pos v) i e e' h h' l u m (inr w) =
      elim (Bool-cases (equal_fold s.sharding_key c.key)) [
        | inl k ↦
            rw (k, number_of-integer c a e h, number_of-integer d b e' h', m)
              ((range_serves s.topology.table_slice_len a b f.few_tables h h' c.op d.op l u).1 v w.0
                w.1)
        | inr k ↦ rw k tt
      ]

  pub all_shards-In :
      (v i : ℤ) → ModHome s.topology.table_slice_len v i → In i s.topology.table_slice
  all_shards-In (negsuc v) i m = elim m [ ]
  all_shards-In (pos v) i m =
      rw m (f.each_index (v % s.topology.table_slice_len) (let p = f.some_table in grind arith))

-- `NumberMod` over a full topology is sound: with values that are not negative and below the largest
-- int64, and rows that are not negative, `Shard` of a comparison and `ShardRange` of a lower and
-- an upper bound return, and lead to the table `v % n` of every row `v` that they select.
unfoldable pub number_mod-IsSound : (s : NumberMod) → IsFull s.topology → IsSound (number_mod s)
unfolding number_mod
number_mod-IsSound s f = record {
  Home = ModHome s.topology.table_slice_len;
  Fits = ModFits;
  all_leads = all_shards-In s f;
  shard_returns = mod_shard-Returns s f;
  shard_leads = mod_shard-Leads s f;
  range_returns = mod_shard_range-Returns s f;
  range_leads = mod_shard_range-Leads s f;
}
