-- ===== src/Optimize/Examples.antt =====
-- Plans for a table of four parts in two databases, and their theorems at concrete statements.
use dbpack.Common.{
  ℕ, ◌%◌, ◌≡◌, ◌⊎◌, inl, inr, refl, sym, ◌∙◌, List, [], ◌∷◌, Bool, true, false, All, arith,
}
use mathlib.Core.Path.{subst}
use dbpack.Common.Int.{ℤ, pos}
use dbpack.Value.{Bytes, Value, integer, int64}
use dbpack.Cond.{
  Result, ok, err, panic, full_scan, eq, ne, lt, le, gt, ge, KeyCondition, equal_fold, ok-injective,
  unsupported, In,
}
use dbpack.Cond.Build.{key, condition_of}
use dbpack.Cond.Build.Reads.{Dnf}
use dbpack.Cond.NumberMod.{NumberMod, number_mod}
use dbpack.Cond.NumberMod.Interface.{number_mod-IsSound}
use dbpack.Cond.Samples.{four-IsFull, uid, by_uid}
use dbpack.Cond.Shard.Spec.{Routable}
use dbpack.Cond.Shard.Routes.{World}
use dbpack.Cond.Parse.{
  Expr, column, value, binary, compared, in_list, cons, nil, Evaluator, parse_condition,
}
use dbpack.Cond.Parse.Spec.{Says, column_left, Selects, compared_key}
use dbpack.Cond.Parse.Where.{where_tables}
use dbpack.Topo.{Topology}
use dbpack.Optimize.{
  Optimizer, DbPlan, Plan, single, multi, optimize_select, optimize_update, optimize_delete,
  optimize_insert,
}
use dbpack.Optimize.Shards.{table_of, db_of}
use dbpack.Optimize.Sound.{Planned, HasGroup, optimize-row}
use dbpack.Optimize.Unsharded.{optimize-unsharded}
use dbpack.Optimize.Insert.{insert-found}

abbrev no_functions : Evaluator
no_functions = record {
  eval = λ op l r args. err unsupported;
  eval_function = λ i args. err unsupported;
  unary_text = λ op s. err unsupported;
}

abbrev db : ℕ → Bytes
db n = b'd' ∷ n ∷ []

abbrev tb : ℕ → Bytes
tb n = b't' ∷ n ∷ []

abbrev topology : Topology
topology = record {
  db_name = b'd' ∷ [];
  table_name = b't' ∷ [];
  dbs = (db b'0', tb b'0' ∷ tb b'1' ∷ []) ∷ (db b'1', tb b'2' ∷ tb b'3' ∷ []) ∷ [];
  tables = (tb b'0', db b'0') ∷ (tb b'1', db b'0') ∷ (tb b'2', db b'1') ∷ (tb b'3', db b'1') ∷ [];
  table_index_map = (pos 0, tb b'0') ∷ (pos 1, tb b'1') ∷ (pos 2, tb b'2') ∷ (pos 3, tb b'3') ∷ [];
  table_slice = pos 0 ∷ pos 1 ∷ pos 2 ∷ pos 3 ∷ [];
  table_slice_len = 4;
}

abbrev no_scans : NumberMod
no_scans = record by_uid { allow_full_scan = false }

abbrev optimizer : Optimizer
optimizer = record {
  global_tables = (b'g' ∷ []) ∷ [];
  executors = 7 ∷ [];
  db_group_executors = (db b'0', 0) ∷ (db b'1', 1) ∷ [];
  algorithms = (b't' ∷ [], number_mod by_uid) ∷ (b's' ∷ [], number_mod no_scans) ∷ [];
  topologies = (b't' ∷ [], topology) ∷ (b's' ∷ [], topology) ∷ [];
}

abbrev number : ℕ → Expr
number n = value (integer int64 (pos n))

-- uid < 3
abbrev below_3 : Expr
below_3 = binary (compared lt) (column uid) (number 3)

abbrev below_3_dnf : Dnf
below_3_dnf = (compared_key uid lt int64 (pos 3) ∷ []) ∷ []

below_3-Says : Says no_functions [] below_3 below_3_dnf
unfolding dbpack.Cond.Parse.get_value
below_3-Says = column_left refl

below_3_run :
    parse_condition no_functions [] below_3 [] ≡ ok (key (compared_key uid lt int64 (pos 3)), [])
unfolding parse_condition dbpack.Cond.Parse.get_value dbpack.Cond.Parse.compare_columns
    dbpack.Cond.Parse.compare_sides
below_3_run = refl

below_3-Routable :
    Routable
      (number_mod-IsSound by_uid four-IsFull)
      (condition_of 3 [] (key (compared_key uid lt int64 (pos 3))))
unfolding number_mod-IsSound condition_of
below_3-Routable = ground arith

below_3_tables :
    where_tables no_functions [] (number_mod by_uid) below_3 ≡ ok (pos 2 ∷ pos 1 ∷ pos 0 ∷ [])
unfolding where_tables dbpack.Cond.Parse.get_value dbpack.Cond.Parse.compare_columns
    dbpack.Cond.Parse.compare_sides number_mod dbpack.Cond.NumberMod.mod_shard equal_fold
    dbpack.Cond.NumberMod.number_of dbpack.Value.parse_int dbpack.Cond.NumberMod.shard_op
    dbpack.Value.format dbpack.Value.format_int dbpack.Value.decimal dbpack.Common.Int.sub64
    dbpack.Cond.Pair.key_shard
below_3_tables = refl

below_3_groups :
    (xs : List ℤ)
    → where_tables no_functions [] (number_mod by_uid) below_3 ≡ ok xs
    → All (λ j. HasGroup optimizer (db_of topology j)) xs
unfolding dbpack.Optimize.find dbpack.Value.text_eq dbpack.Topo.get_index dbpack.Topo.get_text
below_3_groups xs e =
    subst (λ ys. All (λ j. HasGroup optimizer (db_of topology j)) ys)
      (ok-injective (sym below_3_tables ∙ e)) ((1, refl), ((0, refl), ((0, refl), tt)))

abbrev row : Bytes → ℤ
row k = pos 2

row_2 : World (number_mod by_uid) (number_mod-IsSound by_uid four-IsFull) row (pos 2) (pos 2)
unfolding number_mod-IsSound number_mod
row_2 = (refl, λ k. inr refl)

row_selected : Selects no_functions [] row below_3
unfolding dbpack.Cond.Parse.get_value
row_selected = (pos 3, (int64, refl), omega arith)

-- city = 3
abbrev city : Bytes
city = b'c' ∷ []

optimize-unsharded_example :
    (let clause = binary (compared eq) (column city) (number 3) in
      (optimize_select optimizer no_functions [] (b's' ∷ []) clause ≡ err full_scan)
      × (optimize_update optimizer no_functions [] (b's' ∷ []) clause ≡ err full_scan)
      × (optimize_delete optimizer no_functions [] (b's' ∷ []) clause ≡ err full_scan))
unfolding dbpack.Optimize.find dbpack.Value.text_eq dbpack.Optimize.is_global dbpack.Cond.lower
    equal_fold dbpack.Cond.Parse.get_value
optimize-unsharded_example =
    optimize-unsharded no_functions [] optimizer (b's' ∷ []) no_scans topology eq city (number 3)
      int64 (pos 3) refl refl refl refl refl refl refl

optimize-row_example :
    Planned
      (optimize_select optimizer no_functions [] (b't' ∷ []) below_3)
      (db_of topology (pos 2))
      (table_of topology (pos 2))
    × Planned
        (optimize_update optimizer no_functions [] (b't' ∷ []) below_3)
        (db_of topology (pos 2))
        (table_of topology (pos 2))
    × Planned
        (optimize_delete optimizer no_functions [] (b't' ∷ []) below_3)
        (db_of topology (pos 2))
        (table_of topology (pos 2))
unfolding dbpack.Optimize.find dbpack.Value.text_eq dbpack.Optimize.is_global dbpack.Cond.lower
    number_mod
optimize-row_example =
    optimize-row optimizer no_functions [] (b't' ∷ []) below_3 below_3_dnf (number_mod by_uid)
      (number_mod-IsSound by_uid four-IsFull) topology (key (compared_key uid lt int64 (pos 3))) []
      row (pos 2) (pos 2) refl refl refl below_3_groups refl below_3-Says below_3_run
      below_3-Routable row_2 row_selected

insert-found_example :
    ((e : ℕ) × (optimize_insert optimizer (b't' ∷ []) uid (λ alg. ok (integer int64 (pos 2)))
        ≡ ok (record {
          database = db_of topology (pos (2 % 4));
          tables = table_of topology (pos (2 % 4)) ∷ [];
          executor = e;
        })))
    × Planned
        (optimize_select optimizer no_functions [] (b't' ∷ []) below_3)
        (db_of topology (pos (2 % 4)))
        (table_of topology (pos (2 % 4)))
    × Planned
        (optimize_update optimizer no_functions [] (b't' ∷ []) below_3)
        (db_of topology (pos (2 % 4)))
        (table_of topology (pos (2 % 4)))
    × Planned
        (optimize_delete optimizer no_functions [] (b't' ∷ []) below_3)
        (db_of topology (pos (2 % 4)))
        (table_of topology (pos (2 % 4)))
unfolding dbpack.Optimize.find dbpack.Value.text_eq dbpack.Optimize.is_global dbpack.Cond.lower
    equal_fold
insert-found_example =
    insert-found optimizer no_functions [] (b't' ∷ []) uid below_3 below_3_dnf by_uid four-IsFull
      topology (key (compared_key uid lt int64 (pos 3))) [] row 2 refl refl refl below_3_groups refl
      refl (omega arith) (λ k. inr refl) below_3-Says below_3_run below_3-Routable row_selected
