-- ===== src/Optimize.antt =====
-- The plans of statements on a sharded table, package pkg/optimize: optimizeSelect,
-- optimizeUpdate, optimizeDelete and optimizeInsert.

pub mod Shards
pub mod Sound
pub mod Unsharded
pub mod Insert
mod Examples
use dbpack.Common.{
  ℕ, List, [], ◌∷◌, Option, none, some, Bool, true, false, not, ◌&&◌, map, if◌then◌else◌,
}
use dbpack.Common.Int.{ℤ}
use dbpack.Value.{Bytes, Value, text_eq, text_ltb}
use dbpack.Cond.{
  Error, unknown_table, full_scan, unknown_group, unsupported, Result, ok, err, panic, ◌>>=◌, eq,
  KeyCondition, ShardingAlgorithm, lower,
}
use dbpack.Cond.Pair.{key_shard}
use dbpack.Cond.Parse.{Expr, Evaluator}
use dbpack.Cond.Parse.Where.{where_tables}
use dbpack.Topo.{Topology, slice_topology, get_slice}

-- `Optimizer`: maps are lists of entries, and an executor is named by a number.
pub record Optimizer : Type 0 where
  pub global_tables : List Bytes
  pub executors : List ℕ
  pub db_group_executors : List (Bytes × ℕ)
  pub algorithms : List (Bytes × ShardingAlgorithm)
  pub topologies : List (Bytes × Topology)

-- `QueryOnSingleDBPlan`, `UpdatePlan` and `DeletePlan`: the fields in which they are not the
-- statement and its arguments.
pub record DbPlan : Type 0 where
  pub database : Bytes
  pub tables : List Bytes
  pub executor : ℕ

-- A `DirectQueryPlan`; a plan on one database; the plans on several.
pub data Plan : Type 0 where
  direct : ℕ → Plan
  single : DbPlan → Plan
  multi : List DbPlan → Plan

-- `m[key]` with its second result.
unfoldable pub find : {A : Type 0} → Bytes → List (Bytes × A) → Option A
find k [] = none
find k ((j, a) ∷ m) = let rest = find k m in if text_eq j k then some a else rest

abbrev pub found_or : {A : Type 0} → Error → Option A → Result A
found_or e none = err e
found_or e (some a) = ok a

unfoldable pub is_global : Bytes → List Bytes → Bool
is_global name [] = false
is_global name (t ∷ ts) = let rest = is_global name ts in if text_eq t name then true else rest

-- `strings.ToLower`
abbrev pub to_lower : Bytes → Bytes
to_lower s = map lower s

-- `sort.Strings`, as an insertion sort.
unfoldable pub insert_text : Bytes → List Bytes → List Bytes
insert_text s [] = s ∷ []
insert_text s (t ∷ ts) =
    let rest = insert_text s ts in if text_ltb s t then s ∷ t ∷ ts else t ∷ rest

unfoldable pub sort_texts : List Bytes → List Bytes
unfolding insert_text
sort_texts [] = []
sort_texts (s ∷ ss) = insert_text s (sort_texts ss)

abbrev pub keys : List (Bytes × List Bytes) → List Bytes
keys m = map (λ e. e.0) m

module _ (o : Optimizer) where
  -- The plan on one database.
  unfoldable pub db_plan : Bytes → List Bytes → Result DbPlan
  unfolding find
  db_plan k tables = found_or unknown_group (find k o.db_group_executors) >>= λ e.
      ok (record { database = k; tables = tables; executor = e })

  -- The loop over the databases.
  unfoldable pub db_plans : List (Bytes × List Bytes) → List Bytes → Result (List DbPlan)
  unfolding db_plan get_slice
  db_plans shards [] = ok []
  db_plans shards (k ∷ ks) =
      db_plan k (get_slice k shards) >>= λ p. db_plans shards ks >>= λ ps. ok (p ∷ ps)

  -- The plan for the tables by database: one plan, or a plan for each database in a given order.
  unfoldable pub plan_on : (List Bytes → List Bytes) → List (Bytes × List Bytes) → Result Plan
  unfolding db_plan db_plans
  plan_on order ((k, tables) ∷ []) = db_plan k tables >>= λ p. ok (single p)
  plan_on order shards = db_plans shards (order (keys shards)) >>= λ ps. ok (multi ps)

  -- The test for a full scan, and the tables by database.
  unfoldable pub shard_map :
      ShardingAlgorithm → Topology → List ℤ → Result (List (Bytes × List Bytes))
  unfolding slice_topology
  shard_map alg t shards =
      let (full, m) = slice_topology shards t in
      if full && not alg.allow_full_scan then err full_scan else ok m

  module _ (ev : Evaluator) (args : List Value) where
    -- The tables of a WHERE clause, by database.
    unfoldable pub where_map : Bytes → Expr → Result (List (Bytes × List Bytes))
    unfolding find where_tables shard_map
    where_map table clause = found_or unknown_table (find table o.algorithms) >>= λ alg.
        found_or unknown_table (find table o.topologies) >>= λ t.
        where_tables ev args alg clause >>= λ shards. shard_map alg t shards

    -- `o.executors[0]`
    unfoldable pub first_executor : List ℕ → Result Plan
    first_executor [] = panic
    first_executor (e ∷ es) = ok (direct e)

    -- `optimizeSelect`, less the primary key of the plan: the databases come in the order of their
    -- names.
    unfoldable pub optimize_select : Bytes → Expr → Result Plan
    unfolding is_global first_executor where_map plan_on sort_texts
    optimize_select table clause =
        if is_global (to_lower table) o.global_tables
        then first_executor o.executors
        else (where_map table clause >>= plan_on sort_texts)

    -- `optimizeUpdate` and `optimizeDelete`: in the order of the map.
    unfoldable pub optimize_update : Bytes → Expr → Result Plan
    unfolding where_map plan_on
    optimize_update table clause = where_map table clause >>= plan_on (λ ks. ks)

    unfoldable pub optimize_delete : Bytes → Expr → Result Plan
    unfolding where_map plan_on
    optimize_delete table clause = where_map table clause >>= plan_on (λ ks. ks)

  -- `v[0]`
  abbrev pub first_table : Bytes → ℕ → List Bytes → Result DbPlan
  first_table k e [] = panic
  first_table k e (t ∷ ts) = ok (record { database = k; tables = t ∷ []; executor = e })

  -- An `InsertPlan`: anything but one database "should never happen".
  unfoldable pub insert_plan : List (Bytes × List Bytes) → Result DbPlan
  unfolding find
  insert_plan ((k, tables) ∷ []) =
      found_or unknown_group (find k o.db_group_executors) >>= λ e. first_table k e tables
  insert_plan m = err unsupported

  -- `optimizeInsert`, for the primary key and its value, which comes from the statement or from the
  -- generator of the algorithm.
  unfoldable pub optimize_insert :
      Bytes → Bytes → (ShardingAlgorithm → Result Value) → Result DbPlan
  unfolding find shard_map key_shard insert_plan
  optimize_insert table pk pk_value = found_or unknown_table (find table o.algorithms) >>= λ alg.
      found_or unknown_table (find table o.topologies) >>= λ t. pk_value alg >>= λ v.
      key_shard alg (record { key = pk; op = eq; value = v }) >>= λ shards.
      shard_map alg t shards >>= insert_plan
