-- ===== src/Optimize/Sound.antt =====
-- The plan of a statement reaches the tables that its WHERE clause is routed to.
use dbpack.Common.{
  ◌≡◌, ◌⊎◌, inl, inr, refl, List, [], ◌∷◌, Bool, true, false, ◌&&◌, All, Member, some, Bool-cases,
  ◌∙◌, ==_iff, if◌then◌else◌, ◌==◌, length, ℕ,
}
use mathlib.Core.Path.{subst}
use dbpack.Common.Int.{ℤ}
use dbpack.Value.{Bytes, Value, text_eq, text_eq→eq}
use dbpack.Cond.{Result, ok, err, ShardingAlgorithm, In, full_scan}
use dbpack.Cond.Sound.{IsSound}
use dbpack.Cond.Build.{Ref, Heap, condition_of}
use dbpack.Cond.Build.Reads.{Dnf}
use dbpack.Cond.Shard.Spec.{Routable}
use dbpack.Cond.Shard.Routes.{World}
use dbpack.Cond.Parse.{Expr, Evaluator, parse_condition}
use dbpack.Cond.Parse.Spec.{Says, Selects}
use dbpack.Cond.Parse.Where.{where_tables, where_tables-In}
use dbpack.Topo.{Topology, get_slice, slice_topology, tables_by_db}
use dbpack.Optimize.{
  Optimizer, DbPlan, Plan, direct, single, multi, find, is_global, to_lower, sort_texts, keys,
  db_plan, db_plans, plan_on, shard_map, where_map, optimize_select, optimize_update,
  optimize_delete,
}
use dbpack.Optimize.Shards.{
  table_of, db_of, tables_by_db-Member, tables_by_db-keys, get_slice-keys, sort_texts-Member,
  sort_texts-All,
}

-- A plan reaches a table of a database.
abbrev pub ReachesOn : Bytes → Bytes → DbPlan → Type 0
ReachesOn db table p = (p.database ≡ db) × Member table p.tables

abbrev pub ReachesSome : Bytes → Bytes → List DbPlan → Type 0
ReachesSome db table [] = ⊥
ReachesSome db table (p ∷ ps) = ReachesOn db table p ⊎ ReachesSome db table ps

abbrev pub Reaches : Bytes → Bytes → Plan → Type 0
Reaches db table (direct e) = ⊥
Reaches db table (single p) = ReachesOn db table p
Reaches db table (multi ps) = ReachesSome db table ps

-- A plan is returned, and it reaches the table.
abbrev pub Planned : Result Plan → Bytes → Bytes → Type 0
Planned out db table = (p : Plan) × (out ≡ ok p) × Reaches db table p

full_or : {A : Type 0} (x y : A) (b : Bool) → (if b && false then x else y) ≡ y
full_or x y true = refl
full_or x y false = refl

module _ (o : Optimizer) where
  -- A database has an executor.
  abbrev pub HasGroup : Bytes → Type 0
  HasGroup k = (e : ℕ) × (find k o.db_group_executors ≡ some e)

  db_plan-group :
      (k : Bytes) (tables : List Bytes)
      → HasGroup k
      → (p : DbPlan) × (db_plan o k tables ≡ ok p) × (p.database ≡ k) × (p.tables ≡ tables)
  unfolding db_plan
  db_plan-group k tables (e, f) =
      (record { database = k; tables = tables; executor = e }, rw f, refl, refl)

  db_plans-groups :
      (m : List (Bytes × List Bytes)) (db table : Bytes) (ks : List Bytes)
      → All HasGroup ks
      → (ps : List DbPlan) × (db_plans o m ks ≡ ok ps)
        × (Member db ks → Member table (get_slice db m) → ReachesSome db table ps)
  unfolding db_plans
  db_plans-groups m db table [] g = ([], refl, λ h w. h)
  db_plans-groups m db table (k ∷ ks) g =
      let (p, e, database, tables) = db_plan-group k (get_slice k m) g.0 in
      let (ps, e', reach) = db_plans-groups m db table ks g.1 in
      (
        p ∷ ps,
        rw (e, e'),
        λ h w. elim h [
          | inl q ↦
              inl (rw (database, q), rw tables (subst (λ x. Member table (get_slice x m)) q w))
          | inr r ↦ inr (reach r w)
        ],
      )

  plan_on-reaches :
      (order : List Bytes → List Bytes) (m : List (Bytes × List Bytes)) (db table : Bytes)
      → ((ks : List Bytes) → All HasGroup ks → All HasGroup (order ks))
      → ((ks : List Bytes) → Member db ks → Member db (order ks))
      → All HasGroup (keys m)
      → Member table (get_slice db m)
      → Planned (plan_on o order m) db table
  unfolding plan_on get_slice
  plan_on-reaches order [] db table f g a h = elim (get_slice-keys db table [] h) [ ]
  plan_on-reaches order ((k, ts) ∷ []) db table f g a h =
      let (p, e, database, tables) = db_plan-group k ts a.0 in
      elim (Bool-cases (text_eq k db)) [
        | inl q ↦ (single p, rw e, (database ∙ text_eq→eq k db q, rw tables (rw q at h)))
        | inr q ↦ elim (rw q at h) [ ]
      ]
  plan_on-reaches order ((k, ts) ∷ (j, us) ∷ m) db table f g a h =
      let all = (k, ts) ∷ (j, us) ∷ m in
      let (ps, e, reach) = db_plans-groups all db table (order (keys all)) (f (keys all) a) in
      (multi ps, rw e, reach (g (keys all) (get_slice-keys db table all h)) h)

  -- A full scan is allowed, or it is none.
  abbrev pub MayScan : ShardingAlgorithm → Topology → List ℤ → Type 0
  MayScan alg t xs = (alg.allow_full_scan ≡ true) ⊎ ((length xs == t.table_slice_len) ≡ false)

  pub shard_map-scan :
      (alg : ShardingAlgorithm) (t : Topology) (xs : List ℤ)
      → MayScan alg t xs
      → shard_map o alg t xs ≡ ok (tables_by_db xs t [])
  unfolding shard_map slice_topology
  shard_map-scan alg t xs (inl e) = rw e (full_or _ _ (length xs == t.table_slice_len))
  shard_map-scan alg t xs (inr e) = rw e

  module _ (ev : Evaluator) (args : List Value) (name : Bytes) (clause : Expr)
      (alg : ShardingAlgorithm) (t : Topology) (xs : List ℤ) where
    where_map-scan :
        find name o.algorithms ≡ some alg
        → find name o.topologies ≡ some t
        → where_tables ev args alg clause ≡ ok xs
        → MayScan alg t xs
        → where_map o ev args name clause ≡ ok (tables_by_db xs t [])
    unfolding where_map
    where_map-scan fa ft e w = rw (fa, ft, e) (shard_map-scan alg t xs w)

    -- For a table that is not global, with an algorithm and a topology, whose WHERE clause is routed
    -- to tables that all have a database with executors, and need no full scan or one that is
    -- allowed: SELECT, UPDATE and DELETE get a plan, and it reaches each of these tables in its
    -- database.
    pub optimize_reaches :
        (i : ℤ)
        → find name o.algorithms ≡ some alg
        → find name o.topologies ≡ some t
        → where_tables ev args alg clause ≡ ok xs
        → MayScan alg t xs
        → All (λ j. HasGroup (db_of t j)) xs
        → In i xs
        → is_global (to_lower name) o.global_tables ≡ false
        → Planned (optimize_select o ev args name clause) (db_of t i) (table_of t i)
          × Planned (optimize_update o ev args name clause) (db_of t i) (table_of t i)
          × Planned (optimize_delete o ev args name clause) (db_of t i) (table_of t i)
    unfolding optimize_select optimize_update optimize_delete
    optimize_reaches i fa ft e w groups leads g =
        let m = tables_by_db xs t [] in
        let run = where_map-scan fa ft e w in
        let there = tables_by_db-Member xs t [] i leads in
        let dbs = tables_by_db-keys HasGroup xs t [] groups tt in
        let sorted =
          plan_on-reaches sort_texts m (db_of t i) (table_of t i) (sort_texts-All HasGroup)
            (sort_texts-Member (db_of t i)) dbs there in
        let plain =
          plan_on-reaches (λ ks. ks) m (db_of t i) (table_of t i) (λ ks a. a) (λ ks a. a) dbs
            there in
        (rw (g, run) sorted, rw run plain, rw run plain)

    -- The guard against full scans, for the three statements.
    pub optimize_full_scan :
        find name o.algorithms ≡ some alg
        → find name o.topologies ≡ some t
        → where_tables ev args alg clause ≡ ok xs
        → alg.allow_full_scan ≡ false
        → length xs ≡ t.table_slice_len
        → is_global (to_lower name) o.global_tables ≡ false
        → (optimize_select o ev args name clause ≡ err full_scan)
          × (optimize_update o ev args name clause ≡ err full_scan)
          × (optimize_delete o ev args name clause ≡ err full_scan)
    unfolding optimize_select optimize_update optimize_delete where_map shard_map slice_topology
    optimize_full_scan fa ft e scan l g =
        let full = (==_iff (length xs) t.table_slice_len).1 l in
        (rw (g, fa, ft, e, full, scan), rw (fa, ft, e, full, scan), rw (fa, ft, e, full, scan))

  -- For a table that is not global, with an algorithm that satisfies the interface `IsSound` and
  -- allows full scans, and a topology; a clause over columns and integers of which each AND can be
  -- distributed, whose condition can be routed, with int64 as its values, to tables that all have a
  -- database with executors; and a row that it selects, which stands in the table `i`: SELECT,
  -- UPDATE and DELETE get a plan that reaches this table in its database.
  pub optimize-row :
      (ev : Evaluator) (args : List Value) (name : Bytes) (clause : Expr) (kss : Dnf)
      (alg : ShardingAlgorithm) (s : IsSound alg) (t : Topology) (r : Ref) (h : Heap)
      (row : Bytes → ℤ) (v i : ℤ)
      → find name o.algorithms ≡ some alg
      → find name o.topologies ≡ some t
      → alg.allow_full_scan ≡ true
      → ((xs : List ℤ)
          → where_tables ev args alg clause ≡ ok xs
          → All (λ j. HasGroup (db_of t j)) xs)
      → is_global (to_lower name) o.global_tables ≡ false
      → Says ev args clause kss
      → parse_condition ev args clause [] ≡ ok (r, h)
      → Routable s (condition_of 3 h r)
      → World alg s row v i
      → Selects ev args row clause
      → Planned (optimize_select o ev args name clause) (db_of t i) (table_of t i)
        × Planned (optimize_update o ev args name clause) (db_of t i) (table_of t i)
        × Planned (optimize_delete o ev args name clause) (db_of t i) (table_of t i)
  optimize-row ev args name clause kss alg s t r h row v i fa ft scan groups g p run routable w
        sel =
      let (xs, e, leads) =
        where_tables-In ev args alg s row v i clause kss r h p run routable w sel in
      optimize_reaches ev args name clause alg t xs i fa ft e (inl scan) (groups xs e) leads g
