-- ===== src/Cond/Parse/Examples.antt =====
-- Runs of `And`, `Or` and ParseCondition, and their theorems at concrete inputs.
use dbpack.Common.{ℕ, ◌≡◌, ◌↔◌, inl, inr, refl, List, [], ◌∷◌, true, false, arith}
use dbpack.Common.Int.{ℤ, pos}
use dbpack.Value.{Bytes, Value, integer, int64}
use dbpack.Cond.{
  Result, ok, panic, err, unsupported, Op, eq, ne, lt, le, gt, ge, KeyCondition, conj, disj, In,
}
use dbpack.Cond.Build.{
  Ref, key, node, truth, falsity, absent, Cell, Heap, and_ref, or_ref, condition_of,
}
use dbpack.Cond.Build.Reads.{Dnf, Reads, one, many}
use dbpack.Cond.Build.Loops.{product}
use dbpack.Cond.Build.And.{Joined, and_ref-product}
use dbpack.Cond.Build.Or.{or_ref-append}
use dbpack.Cond.Samples.{four-IsFull, uid, by_uid}
use dbpack.Cond.Parse.{
  compared, logic_and, logic_or, Expr, column, value, param, binary, between, in_list, parens,
  Exprs, nil, cons, Evaluator, key_of, parse_condition, constant, UnaryOp, BinaryOp,
}
use dbpack.Cond.Parse.Spec.{
  Is, no_more, more, Says, column_left, column_right, among, both, nested, compared_key, Selects,
}
use dbpack.Cond.Parse.Sound.{parse_condition-Reads}
use dbpack.Cond.Parse.Where.{
  where_tables, parse_condition-Selects, where_tables-In, where_tables-constant_panics,
  where_tables-point_panics,
}
use dbpack.Cond.Shard.Spec.{Satisfies, Routable}
use dbpack.Cond.Shard.Routes.{World}
use dbpack.Cond.NumberMod.{number_mod}
use dbpack.Cond.NumberMod.Interface.{number_mod-IsSound}

-- A module of functions of which none can be evaluated.
abbrev no_functions : Evaluator
no_functions = record {
  eval = λ op l r args. err unsupported;
  eval_function = λ i args. err unsupported;
  unary_text = λ op s. err unsupported;
}

abbrev uid_is : Op → ℕ → KeyCondition
uid_is op n = compared_key uid op int64 (pos n)

abbrev number : ℕ → Expr
number n = value (integer int64 (pos n))

abbrev uid_compared : Op → ℕ → Expr
uid_compared op n = binary (compared op) (column uid) (number n)

-- uid >= 5 AND ? > uid
abbrev bounds : Expr
bounds = binary logic_and (uid_compared ge 5) (binary (compared gt) (param 0) (column uid))

-- uid IN (5, 6)
abbrev listed : Expr
listed = in_list false (column uid) (cons (number 5) (cons (number 6) nil))

abbrev clause : Expr
clause = binary logic_and bounds (parens listed)

abbrev bounds_dnf : Dnf
bounds_dnf = (uid_is ge 5 ∷ uid_is lt 7 ∷ []) ∷ []

abbrev args : List Value
args = integer int64 (pos 7) ∷ []

number_value : (n : ℕ) → Is no_functions args (number n) int64 (pos n)
unfolding dbpack.Cond.Parse.get_value
number_value n = refl

bounds-Says : Says no_functions args bounds bounds_dnf
unfolding dbpack.Cond.Parse.get_value dbpack.Cond.Parse.flipped
bounds-Says = both (column_left refl) (column_right refl refl) (inl (omega arith, tt))

listed-Says : Says no_functions args listed ((uid_is eq 5 ∷ []) ∷ (uid_is eq 6 ∷ []) ∷ [])
unfolding dbpack.Cond.Parse.get_value dbpack.Cond.Parse.item_value
listed-Says = among (more refl (more refl no_more))

abbrev clause_dnf : Dnf
clause_dnf = product bounds_dnf ((uid_is eq 5 ∷ []) ∷ (uid_is eq 6 ∷ []) ∷ [])

clause-Says : Says no_functions args clause clause_dnf
clause-Says = both bounds-Says (nested listed-Says) (inr (inl (omega arith, (omega arith, tt))))

parse_condition-Reads_example :
    Joined (parse_condition no_functions args clause []) [] [] clause_dnf
parse_condition-Reads_example =
    parse_condition-Reads no_functions args clause clause_dnf [] clause-Says

parse_condition-Selects_example :
    (t : Ref) × (h' : Heap) × (parse_condition no_functions args clause [] ≡ ok (t, h'))
    × ((row : Bytes → ℤ)
        → Satisfies row (condition_of 3 h' t) ↔ Selects no_functions args row clause)
parse_condition-Selects_example =
    parse_condition-Selects no_functions args clause clause_dnf [] clause-Says

abbrev pair_cell : KeyCondition → KeyCondition → Cell
pair_cell k l = record { op = conj; conditions = key k ∷ key l ∷ [] }

-- (uid = 1 AND uid = 2) AND ((uid = 3 AND uid = 4) OR (uid = 5 AND uid = 6)): the receiver is
-- changed twice, and it is both parts of the result.
abbrev two_pairs : Heap
two_pairs =
    pair_cell (uid_is eq 1) (uid_is eq 2)
    ∷ pair_cell (uid_is eq 3) (uid_is eq 4)
    ∷ pair_cell (uid_is eq 5) (uid_is eq 6)
    ∷ record { op = disj; conditions = node 1 ∷ node 2 ∷ [] }
    ∷ []

receiver_twice :
    and_ref 3 (node 0) (node 3) two_pairs
    ≡ ok (
      node 4,
      record {
        op = conj;
        conditions =
            key (uid_is eq 1)
            ∷ key (uid_is eq 2)
            ∷ key (uid_is eq 3)
            ∷ key (uid_is eq 4)
            ∷ key (uid_is eq 5)
            ∷ key (uid_is eq 6)
            ∷ [];
      }
          ∷ pair_cell (uid_is eq 3) (uid_is eq 4)
          ∷ pair_cell (uid_is eq 5) (uid_is eq 6)
          ∷ record { op = disj; conditions = node 1 ∷ node 2 ∷ [] }
          ∷ record { op = disj; conditions = node 0 ∷ node 0 ∷ [] }
          ∷ [],
    )
unfolding and_ref dbpack.Cond.Build.complex_and dbpack.Cond.Build.cell_and_cell
    dbpack.Cond.Build.collect
receiver_twice = refl

-- uid = 1 AND uid = 2, and uid IN (3, 4)
abbrev pair_and_list : Heap
pair_and_list =
    pair_cell (uid_is eq 1) (uid_is eq 2)
    ∷ record { op = disj; conditions = key (uid_is eq 3) ∷ key (uid_is eq 4) ∷ [] }
    ∷ []

abbrev list_dnf : Dnf
list_dnf = (uid_is eq 3 ∷ []) ∷ (uid_is eq 4 ∷ []) ∷ []

abbrev pair_dnf : Dnf
pair_dnf = (uid_is eq 1 ∷ uid_is eq 2 ∷ []) ∷ []

pair-Reads : Reads pair_and_list (node 0) pair_dnf (node 0 ∷ [])
pair-Reads = one (refl, omega arith)

list-Reads :
    Reads pair_and_list (node 1) list_dnf (node 1 ∷ key (uid_is eq 3) ∷ key (uid_is eq 4) ∷ [])
list-Reads = many refl (refl, (refl, tt)) ((tt, (tt, tt)), ((tt, tt), (tt, tt)))

and_ref-product_example :
    Joined
      (and_ref 3 (node 0) (node 1) pair_and_list)
      pair_and_list
      (node 0 ∷ node 1 ∷ key (uid_is eq 3) ∷ key (uid_is eq 4) ∷ [])
      (product pair_dnf list_dnf)
and_ref-product_example =
    and_ref-product 0 pair_and_list (node 0) (node 1) pair_dnf list_dnf _ _ pair-Reads list-Reads
      ((λ e. omega arith, (tt, (tt, tt))), tt) (inr (inl (omega arith, (omega arith, tt))))

or_ref-append_example :
    Joined
      (or_ref 2 (node 0) (node 1) pair_and_list)
      pair_and_list
      (node 0 ∷ node 1 ∷ key (uid_is eq 3) ∷ key (uid_is eq 4) ∷ [])
      ((uid_is eq 1 ∷ uid_is eq 2 ∷ []) ∷ list_dnf)
or_ref-append_example =
    or_ref-append 0 pair_and_list (node 0) (node 1) pair_dnf list_dnf _ _ pair-Reads list-Reads
      ((λ e. omega arith, (tt, (tt, tt))), tt)

-- The conditions in memory behind the clause above, the last one first in meaning.
abbrev three_keys : KeyCondition → Cell
three_keys k = record { op = conj; conditions = key (uid_is ge 5) ∷ key (uid_is lt 7) ∷ key k ∷ [] }

abbrev parsed : Heap
parsed =
    pair_cell (uid_is ge 5) (uid_is lt 7)
    ∷ record { op = disj; conditions = key (uid_is eq 5) ∷ key (uid_is eq 6) ∷ [] }
    ∷ three_keys (uid_is eq 5)
    ∷ three_keys (uid_is eq 6)
    ∷ record { op = disj; conditions = node 2 ∷ node 3 ∷ [] }
    ∷ []

parsed_run : parse_condition no_functions args clause [] ≡ ok (node 4, parsed)
unfolding parse_condition dbpack.Cond.Parse.get_value dbpack.Cond.Parse.compare_columns
    dbpack.Cond.Parse.compare_sides dbpack.Cond.Parse.flipped dbpack.Cond.Parse.parse_in
    dbpack.Cond.Parse.parse_items dbpack.Cond.Parse.item_value and_ref dbpack.Cond.Build.key_and
    dbpack.Cond.Build.complex_and dbpack.Cond.Build.cell_and_cell dbpack.Cond.Build.cell_and_key
    dbpack.Cond.Build.collect
parsed_run = refl

parsed-Routable : Routable (number_mod-IsSound by_uid four-IsFull) (condition_of 3 parsed (node 4))
unfolding number_mod-IsSound condition_of
parsed-Routable = ground arith

abbrev row : Bytes → ℤ
row k = pos 6

row_6 : World (number_mod by_uid) (number_mod-IsSound by_uid four-IsFull) row (pos 6) (pos 2)
unfolding number_mod-IsSound number_mod
row_6 = (refl, λ k. inr refl)

row_selected : Selects no_functions args row clause
unfolding dbpack.Cond.Parse.get_value dbpack.Cond.Parse.item_value
row_selected = (
  ((pos 5, (int64, refl), omega arith), (pos 7, (int64, refl), omega arith)),
  inr (inl (int64, refl)),
)

where_tables-In_example :
    (xs : List ℤ) × (where_tables no_functions args (number_mod by_uid) clause ≡ ok xs)
    × In (pos 2) xs
where_tables-In_example =
    where_tables-In no_functions args (number_mod by_uid) (number_mod-IsSound by_uid four-IsFull)
      row (pos 6) (pos 2) clause clause_dnf (node 4) parsed clause-Says parsed_run parsed-Routable
      row_6 row_selected

-- uid >= 5 AND ? > uid AND 1
constant_value : (h : Heap) → parse_condition no_functions args (number 1) h ≡ ok (truth, h)
unfolding parse_condition dbpack.Cond.Parse.parse_value dbpack.Cond.Parse.is_zero
constant_value h = refl

where_tables-constant_panics_example :
    (where_tables no_functions args (number_mod by_uid) (binary logic_and bounds (number 1))
      ≡ panic)
    × (where_tables no_functions args (number_mod by_uid) (binary logic_or bounds (number 1))
        ≡ panic)
where_tables-constant_panics_example =
    where_tables-constant_panics no_functions args (number_mod by_uid) bounds (number 1) bounds_dnf
      true bounds-Says constant_value

-- uid BETWEEN 3 AND 3
where_tables-point_panics_example :
    where_tables no_functions args
      (number_mod by_uid)
      (between false (column uid) (number 3) (number 3))
    ≡ panic
where_tables-point_panics_example =
    where_tables-point_panics no_functions args (number_mod by_uid) uid (number 3) (number 3)
      (pos 3) (number_value 3) (number_value 3) (omega arith, omega arith)
