-- ===== src/Cond/Parse/Where.antt =====
-- From a WHERE clause to the tables: ParseCondition and `Shard`, as the plans of SELECT, UPDATE and
-- DELETE call them.
use dbpack.Common.{◌≡◌, ◌↔◌, refl, sym, ap, ◌∙◌, List, [], Bool, true, false}
use mathlib.Core.Path.{subst}
use dbpack.Common.Int.{ℤ, IsInt64}
use dbpack.Value.{Bytes, Value, int64}
use dbpack.Cond.{Result, ok, ok-injective, panic, ◌>>=◌, ShardingAlgorithm, In}
use dbpack.Cond.Sound.{IsSound}
use dbpack.Cond.Build.{
  Ref, key, node, truth, falsity, absent, Heap, and_ref, or_ref, key_and, complex_and, key_or,
  complex_or, condition_of,
}
use dbpack.Cond.Build.Reads.{Dnf, Reads, one, many}
use dbpack.Cond.Shard.{shard}
use dbpack.Cond.Shard.Spec.{Satisfies, Routable}
use dbpack.Cond.Shard.Point.{shard-point}
use dbpack.Cond.Shard.Routes.{World}
use dbpack.Cond.Shard.Sound.{shard-In}
use dbpack.Cond.Parse.{
  Expr, column, binary, between, logic_and, logic_or, Evaluator, constant, parse_between,
  parse_condition,
}
use dbpack.Cond.Parse.Spec.{Is, Says, Selects}
use dbpack.Cond.Parse.Sound.{parse_condition-Reads}
use dbpack.Cond.Parse.Meaning.{Reads-Satisfies, Says-Selects}

-- The indices of the tables: a nil condition is no `ConditionShard`, and panics.
unfoldable pub where_tables : Evaluator → List Value → ShardingAlgorithm → Expr → Result (List ℤ)
unfolding parse_condition condition_of shard
where_tables ev args alg e =
    parse_condition ev args e [] >>= λ x. shard alg (condition_of 3 x.1 x.0)

module _ (ev : Evaluator) (args : List Value) where
  -- For a clause over columns and integers of which each AND can be distributed: ParseCondition
  -- returns a condition, and the rows that satisfy it are those that the clause selects.
  pub parse_condition-Selects :
      (e : Expr) (kss : Dnf) (h : Heap)
      → Says ev args e kss
      → (t : Ref) × (h' : Heap) × (parse_condition ev args e h ≡ ok (t, h'))
        × ((row : Bytes → ℤ) → Satisfies row (condition_of 3 h' t) ↔ Selects ev args row e)
  parse_condition-Selects e kss h p =
      let (t, h', fp, run, r, m) = parse_condition-Reads ev args e kss h p in
      (
        t,
        h',
        run,
        λ row.
            let (to, of) = Reads-Satisfies row 0 h' t kss fp r in
            let (to1, of1) = Says-Selects ev args row e kss p in (λ w. to1 (to w), λ w. of (of1 w)),
      )

  -- For a clause over columns and integers of which each AND can be distributed, whose condition
  -- can be routed, with int64 as its values, and a row that it selects: the list of tables is
  -- returned, with no error and no panic, and the table in which the row stands is in it.
  pub where_tables-In :
      (alg : ShardingAlgorithm) (s : IsSound alg) (row : Bytes → ℤ) (v i : ℤ) (e : Expr) (kss : Dnf)
      (t : Ref) (h : Heap)
      → Says ev args e kss
      → parse_condition ev args e [] ≡ ok (t, h)
      → Routable s (condition_of 3 h t)
      → World alg s row v i
      → Selects ev args row e
      → (xs : List ℤ) × (where_tables ev args alg e ≡ ok xs) × In i xs
  unfolding where_tables
  where_tables-In alg s row v i e kss t h p run routable w sel =
      let (t', h', run', iff) = parse_condition-Selects e kss [] p in
      let same = ok-injective (sym run' ∙ run) in
      let sat = subst (λ x. Satisfies row (condition_of 3 x.1 x.0)) same ((iff row).1 sel) in
      let (xs, r, leads) = shard-In alg s row v i (condition_of 3 h t) routable w sat in
      (xs, ap (λ q. q >>= λ x. shard alg (condition_of 3 x.1 x.0)) run ∙ r, leads)

  -- `column BETWEEN l AND r`, where both values are the same int64: the tables are not computed, the
  -- code panics, with every algorithm.
  pub where_tables-point_panics :
      (alg : ShardingAlgorithm) (name : Bytes) (l r : Expr) (z : ℤ)
      → Is ev args l int64 z
      → Is ev args r int64 z
      → IsInt64 z
      → where_tables ev args alg (between false (column name) l r) ≡ panic
  unfolding where_tables parse_condition parse_between condition_of
  where_tables-point_panics alg name l r z i j h = rw (i, j) (shard-point alg name z h)

  meet_constant :
      (h : Heap) (t : Ref) (kss : Dnf) (fp : List Ref) (b : Bool)
      → Reads h t kss fp
      → (and_ref 3 t (constant b) h ≡ ok (absent, h)) × (or_ref 3 t (constant b) h ≡ ok (absent, h))
  unfolding and_ref or_ref key_and key_or complex_and complex_or
  meet_constant h (key k) kss fp true r = (refl, refl)
  meet_constant h (key k) kss fp false r = (refl, refl)
  meet_constant h (node a) kss fp true (one c) = (rw c.0, rw c.0)
  meet_constant h (node a) kss fp false (one c) = (rw c.0, rw c.0)
  meet_constant h (node a) kss fp true (many g c n) = (rw g, rw g)
  meet_constant h (node a) kss fp false (many g c n) = (rw g, rw g)
  meet_constant h truth kss fp b (one c) = elim c [ ]
  meet_constant h falsity kss fp b (one c) = elim c [ ]
  meet_constant h absent kss fp b (one c) = elim c [ ]

  -- A clause over columns and integers of which each AND can be distributed, followed by AND or OR
  -- and a condition that is constantly true or false: no tables are computed, the code panics.
  pub where_tables-constant_panics :
      (alg : ShardingAlgorithm) (l r : Expr) (kss : Dnf) (b : Bool)
      → Says ev args l kss
      → ((h : Heap) → parse_condition ev args r h ≡ ok (constant b, h))
      → (where_tables ev args alg (binary logic_and l r) ≡ panic)
        × (where_tables ev args alg (binary logic_or l r) ≡ panic)
  unfolding where_tables parse_condition condition_of shard
  where_tables-constant_panics alg l r kss b p run =
      let (t, h, fp, run', reads, m) = parse_condition-Reads ev args l kss [] p in
      let (both, either) = meet_constant h t kss fp b reads in
      (rw (run', run h, both), rw (run', run h, either))
