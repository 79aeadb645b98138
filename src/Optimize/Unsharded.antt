-- ===== src/Optimize/Unsharded.antt =====
-- A WHERE clause on a column by which a table is not sharded asks for a full scan.
use dbpack.Common.{◌≡◌, List, [], some, false, length}
use dbpack.Common.Int.{ℤ}
use dbpack.Value.{Bytes, Kind, Value}
use dbpack.Cond.{ok, err, Op, equal_fold, full_scan}
use dbpack.Cond.Build.{condition_of}
use dbpack.Cond.NumberMod.{NumberMod, mod_shard, number_mod}
use dbpack.Cond.Pair.{key_shard}
use dbpack.Cond.Shard.{shard}
use dbpack.Cond.Parse.{Expr, compared, column, binary, Evaluator}
use dbpack.Cond.Parse.Spec.{Is}
use dbpack.Cond.Parse.Sound.{parse_left}
use dbpack.Cond.Parse.Where.{where_tables}
use dbpack.Topo.{Topology}
use dbpack.Optimize.{
  Optimizer, find, is_global, to_lower, optimize_select, optimize_update, optimize_delete,
}
use dbpack.Optimize.Sound.{optimize_full_scan}

module _ (ev : Evaluator) (args : List Value) where
  unsharded_tables :
      (s : NumberMod) (op : Op) (c : Bytes) (e : Expr) (k : Kind) (z : ℤ)
      → Is ev args e k z
      → equal_fold s.sharding_key c ≡ false
      → where_tables ev args (number_mod s) (binary (compared op) (column c) e)
        ≡ ok s.topology.table_slice
  unfolding where_tables condition_of shard key_shard number_mod mod_shard
  unsharded_tables s op c e k z i n = rw (parse_left ev args op c e k z [] i, n)

  -- For a table that is not global, sharded by remainder, with as many indices as tables, and where
  -- full scans are not allowed: a WHERE clause that compares another column than the sharding column
  -- with an integer, by any operator, makes SELECT, UPDATE and DELETE return an error and no plan.
  pub optimize-unsharded :
      (o : Optimizer) (name : Bytes) (s : NumberMod) (t : Topology) (op : Op) (c : Bytes) (e : Expr)
      (k : Kind) (z : ℤ)
      → find name o.algorithms ≡ some (number_mod s)
      → find name o.topologies ≡ some t
      → s.allow_full_scan ≡ false
      → length s.topology.table_slice ≡ t.table_slice_len
      → is_global (to_lower name) o.global_tables ≡ false
      → equal_fold s.sharding_key c ≡ false
      → Is ev args e k z
      → (let clause = binary (compared op) (column c) e in
          (optimize_select o ev args name clause ≡ err full_scan)
          × (optimize_update o ev args name clause ≡ err full_scan)
          × (optimize_delete o ev args name clause ≡ err full_scan))
  unfolding number_mod
  optimize-unsharded o name s t op c e k z fa ft scan l g n i =
      optimize_full_scan o ev args name (binary (compared op) (column c) e) (number_mod s) t
        s.topology.table_slice fa ft (unsharded_tables s op c e k z i n) scan l g
