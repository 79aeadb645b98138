-- ===== src/Optimize/Insert.antt =====
-- A row is found where it was inserted: optimizeInsert and the plans of other statements.
use dbpack.Common.{
  ℕ, suc, ◌%◌, ◌^◌, ◌<◌, ◌≡◌, ◌⊎◌, inl, inr, refl, List, [], ◌∷◌, true, false, All, some, ◌==◌,
  arith,
}
use dbpack.Common.Int.{ℤ, pos, rem64}
use dbpack.Value.{Bytes, Value, integer, int64}
use dbpack.Cond.{ok, eq, KeyCondition, equal_fold, In}
use dbpack.Cond.Build.{Ref, Heap, condition_of}
use dbpack.Cond.Build.Reads.{Dnf}
use dbpack.Cond.NumberMod.{NumberMod, number_mod, mod_shard, shard_op}
use dbpack.Cond.NumberMod.Sound.{IsFull, number_of-integer}
use dbpack.Cond.NumberMod.Interface.{number_mod-IsSound}
use dbpack.Cond.Pair.{key_shard}
use dbpack.Cond.Shard.Spec.{Routable}
use dbpack.Cond.Parse.{Expr, Evaluator, parse_condition}
use dbpack.Cond.Parse.Spec.{Says, Selects}
use dbpack.Cond.Parse.Where.{where_tables, where_tables-In}
use dbpack.Topo.{Topology, get_slice, put_slice, tables_by_db}
use dbpack.Optimize.{
  Optimizer, find, is_global, to_lower, insert_plan, optimize_insert, optimize_select,
  optimize_update, optimize_delete,
}
use dbpack.Optimize.Shards.{table_of, db_of}
use dbpack.Optimize.Sound.{HasGroup, shard_map-scan, Planned, optimize-row}

-- `=` and a number: the row is in one table.
key_shard-equal :
    (s : NumberMod) (f : IsFull s.topology) (pk : Bytes) (v : ℕ)
    → equal_fold s.sharding_key pk ≡ true
    → suc v < 2 ^ 63
    → key_shard (number_mod s) (record { key = pk; op = eq; value = integer int64 (pos v) })
      ≡ ok (pos (v % s.topology.table_slice_len) ∷ [])
unfolding key_shard number_mod mod_shard shard_op rem64
key_shard-equal s f pk v same l =
    let k : KeyCondition = record { key = pk; op = eq; value = integer int64 (pos v) } in
    let some_tables : (s.topology.table_slice_len == 0) ≡ false = ground (arith, f.some_table) in
    rw (same, number_of-integer k v refl l, some_tables)

-- The plan of an INSERT into one table.
insert_into :
    (o : Optimizer) (t : Topology) (i : ℤ)
    → HasGroup o (db_of t i)
    → (e : ℕ) × (insert_plan o (tables_by_db (i ∷ []) t [])
        ≡ ok (record { database = db_of t i; tables = table_of t i ∷ []; executor = e }))
unfolding insert_plan tables_by_db put_slice get_slice
insert_into o t i (e, f) = (e, rw f)

All-In : (P : ℤ → Type 0) (i : ℤ) (xs : List ℤ) → All P xs → In i xs → P i
All-In P i [] h l = elim l [ ]
All-In P i (x ∷ xs) h l = elim l [ inl e ↦ rw e h.0 | inr r ↦ All-In P i xs h.1 r ]

-- For a table that is not global, sharded by remainder over a topology of `n` tables with every
-- index from 0 to `n - 1`, where full scans are allowed, and a clause over columns and integers of
-- which each AND can be distributed, whose condition can be routed, with int64 as its values, to
-- tables that all have a database with executors, and which selects a row with the natural number
-- `v` below 2^63 - 1 in its sharding column: an INSERT with `v` as the primary key, which is the
-- sharding column, gets the plan for the table `v % n`, and SELECT, UPDATE and DELETE with this
-- clause get plans that reach this table.
pub insert-found :
    (o : Optimizer) (ev : Evaluator) (args : List Value) (name pk : Bytes) (clause : Expr)
    (kss : Dnf) (s : NumberMod) (f : IsFull s.topology) (t : Topology) (r : Ref) (h : Heap)
    (row : Bytes → ℤ) (v : ℕ)
    → find name o.algorithms ≡ some (number_mod s)
    → find name o.topologies ≡ some t
    → s.allow_full_scan ≡ true
    → ((xs : List ℤ)
        → where_tables ev args (number_mod s) clause ≡ ok xs
        → All (λ j. HasGroup o (db_of t j)) xs)
    → is_global (to_lower name) o.global_tables ≡ false
    → equal_fold s.sharding_key pk ≡ true
    → suc v < 2 ^ 63
    → ((k : Bytes) → (equal_fold s.sharding_key k ≡ false) ⊎ (row k ≡ pos v))
    → Says ev args clause kss
    → parse_condition ev args clause [] ≡ ok (r, h)
    → Routable (number_mod-IsSound s f) (condition_of 3 h r)
    → Selects ev args row clause
    → let i = pos (v % s.topology.table_slice_len) in
      ((e : ℕ) × (optimize_insert o name pk (λ alg. ok (integer int64 (pos v)))
          ≡ ok (record { database = db_of t i; tables = table_of t i ∷ []; executor = e })))
      × Planned (optimize_select o ev args name clause) (db_of t i) (table_of t i)
      × Planned (optimize_update o ev args name clause) (db_of t i) (table_of t i)
      × Planned (optimize_delete o ev args name clause) (db_of t i) (table_of t i)
unfolding optimize_insert number_mod number_mod-IsSound
insert-found o ev args name pk clause kss s f t r h row v fa ft scan groups g same l column p run
      routable sel =
    let i = pos (v % s.topology.table_slice_len) in
    let (xs, run', leads) =
      where_tables-In ev args (number_mod s) (number_mod-IsSound s f) row (pos v) i clause kss r h p
        run routable (refl, column) sel in
    let (e, into) =
      insert_into o t i (All-In (λ j. HasGroup o (db_of t j)) i xs (groups xs run') leads) in
    let (a, b, c) =
      optimize-row o ev args name clause kss (number_mod s) (number_mod-IsSound s f) t r h row
        (pos v) i fa ft scan groups g p run routable (refl, column) sel in
    (
      (
        e,
        rw
            (
              fa,
              ft,
              key_shard-equal s f pk v same l,
              shard_map-scan o (number_mod s) t (i ∷ []) (inl scan),
            )
            into,
      ),
      a,
      b,
      c,
    )
