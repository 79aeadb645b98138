-- ===== src/Merge/Ordered.antt =====
-- Merging by ORDER BY, pkg/plan/result.go: the next row of each result is kept in a cell, and the
-- least cell gives the next row of the merged result.
pub mod Sorting
pub mod Pass
pub mod Filling
pub mod Choice
pub mod Ascending
pub mod Integers
pub mod Empty
pub mod Limited
use dbpack.Common.{
  ℕ, zero, suc, ◌+◌, List, [], ◌∷◌, ◌++◌, map, take, drop, Option, none, some, Bool, true, false,
  not, ◌&&◌, ltb, ◌==◌, if◌then◌else◌, length,
}
use dbpack.Common.Int.{ℤ, pos, negsuc, ltb_ℤ, ◌==ℤ◌}
use dbpack.Value.{Bytes, text_ltb, text_eq}
use dbpack.Cond.{Result, ok, panic, stuck, ◌>>=◌}

-- A value of a row: nil, int64, uint64, string, []uint8. (Floats and times are not modelled.)
pub data Datum : Type 0 where
  null : Datum
  int : ℤ → Datum
  uint : ℕ → Datum
  text bytes : Bytes → Datum

-- What `Decode` makes of a row: pointers to values, of which that to a NULL in the binary protocol is
-- nil, or an error.
abbrev pub Values : Type 0
Values = List (Option Datum)

abbrev pub Row : Type 0
Row = Option Values

-- -1, 0 or 1, from the tests for less and for equal.
abbrev pub three_way : Bool → Bool → ℤ
three_way true e = negsuc 0
three_way false true = pos 0
three_way false false = pos 1

-- `compare`; the assertion of the second type panics if it is another one.
unfoldable pub compare : Datum → Datum → Result ℤ
compare null null = ok (pos 0)
compare null d = ok (negsuc 0)
compare d null = ok (pos 1)
compare (int a) (int b) = ok (three_way (ltb_ℤ a b) (a ==ℤ b))
compare (uint a) (uint b) = ok (three_way (ltb a b) (a == b))
compare (text a) (text b) = ok (three_way (text_ltb a b) (text_eq a b))
compare (bytes a) (bytes b) = ok (three_way (text_ltb a b) (text_eq a b))
compare _ _ = panic

-- An `OrderField`, without the value, and with it.
pub record OrderField : Type 0 where
  pub asc : Bool
  pub field_value_index : ℕ

pub record FieldValue : Type 0 where
  pub asc : Bool
  pub value : Datum

-- `OrderByCell`
pub record OrderByCell : Type 0 where
  pub order_field : List FieldValue
  pub next : Bool
  pub row : Row

-- `values[of.fieldValueIndex].Val`
abbrev pub value_or_panic : Values → ℕ → Result Datum
value_or_panic [] i = panic
value_or_panic (none ∷ ds) zero = panic
value_or_panic (some d ∷ ds) zero = ok d
value_or_panic (d ∷ ds) (suc i) = value_or_panic ds i

-- `copyOrderFields`, and the values in them.
unfoldable pub values_in : List OrderField → Values → Result (List FieldValue)
values_in [] values = ok []
values_in (f ∷ fs) values = value_or_panic values f.field_value_index >>= λ d.
    values_in fs values >>= λ vs. ok (record { asc = f.asc; value = d } ∷ vs)

-- The values of a row; `log.Fatal`, where it cannot be decoded, is taken for a panic.
unfoldable pub field_values : List OrderField → Row → Result (List FieldValue)
unfolding values_in
field_values fs none = panic
field_values fs (some values) = values_in fs values

-- `OrderByCells.Less`
unfoldable pub less_cells : List FieldValue → List FieldValue → Result Bool
unfolding compare
less_cells [] ws = ok false
less_cells (v ∷ vs) [] = panic
less_cells (v ∷ vs) (w ∷ ws) =
    let rest = less_cells vs ws in
    (if v.asc then compare w.value v.value else compare v.value w.value) >>= λ res.
    if res ==ℤ pos 0 then rest else ok (ltb_ℤ (pos 0) res)

-- A result in the course of merging: the rows from its index on, its `endResult`, and its cell.
pub record OrderSource : Type 0 where
  pub left : List Row
  pub ended : Bool
  pub cell : Option OrderByCell

-- A cell of the slice that is sorted, and what the sources are once its `next` is set: the cell is a
-- pointer.
pub record Candidate : Type 0 where
  pub cell : OrderByCell
  pub after : List OrderSource

abbrev pub used : OrderByCell → OrderByCell
used c = record c { next = true }

abbrev pub put_before : OrderSource → Candidate → Candidate
put_before s k = record { cell = k.cell; after = s ∷ k.after }

-- The candidates among the cells: a nil cell panics.
abbrev pub add_candidate :
    OrderSource → Option OrderByCell → List OrderSource → List Candidate → Result (List Candidate)
add_candidate s none ss ks = panic
add_candidate s (some c) ss ks =
    if c.next
    then ok (map (put_before s) ks)
    else ok (
        record { cell = c; after = record s { cell = some (used c) } ∷ ss } ∷ map (put_before s) ks)

unfoldable pub candidates : List OrderSource → Result (List Candidate)
candidates [] = ok []
candidates (s ∷ ss) = candidates ss >>= add_candidate s s.cell ss

-- `sort.Sort`, as Go 1.18 sorts at most twelve elements: a pass over the elements six apart, in which
-- the two at one place, of the first six and of the others, change places if they are out of order, and
-- an insertion sort. (Its quicksort of more elements is left out; the insertion sort stands for it.)
unfoldable pub swap_cells :
    List Candidate → List Candidate → Result (List Candidate × List Candidate)
unfolding less_cells
swap_cells fs [] = ok (fs, [])
swap_cells [] (b ∷ bs) = ok ([], b ∷ bs)
swap_cells (f ∷ fs) (b ∷ bs) =
    let rest = swap_cells fs bs in
    less_cells b.cell.order_field f.cell.order_field >>= λ q.
    rest >>= λ (xs, ys). ok (if q then (b ∷ xs, f ∷ ys) else (f ∷ xs, b ∷ ys))

-- The insertion sort: what is sorted comes with its last element first.
unfoldable pub insert_cell : Candidate → List Candidate → Result (List Candidate)
unfolding less_cells
insert_cell k [] = ok (k ∷ [])
insert_cell k (d ∷ ds) =
    let rest = insert_cell k ds in
    less_cells k.cell.order_field d.cell.order_field >>= λ b.
    if b then (rest >>= λ es. ok (d ∷ es)) else ok (k ∷ d ∷ ds)

unfoldable pub sort_cells : List Candidate → List Candidate → Result (List Candidate)
unfolding insert_cell
sort_cells done [] = ok done
sort_cells done (k ∷ ks) = insert_cell k done >>= λ ds. sort_cells ds ks

unfoldable pub sorted_cells : List Candidate → Result (List Candidate)
unfolding swap_cells sort_cells
sorted_cells ks = swap_cells (take 6 ks) (drop 6 ks) >>= λ (fs, bs). sort_cells [] (fs ++ bs)

-- `cellSlice[0]`
abbrev pub last_of : List Candidate → Result Candidate
last_of [] = panic
last_of (k ∷ []) = ok k
last_of (k ∷ l ∷ ks) = last_of (l ∷ ks)

-- `compareOrderByCells`
unfoldable pub choose : List OrderSource → Result Candidate
unfolding candidates sorted_cells
choose ss = candidates ss >>= λ ks. sorted_cells ks >>= last_of

-- `countOrderByCells`
abbrev pub count_cell : Option OrderByCell → ℕ → Result ℕ
count_cell none n = panic
count_cell (some c) n = ok (if c.next then n else suc n)

unfoldable pub count_cells : List OrderSource → Result ℕ
count_cells [] = ok 0
count_cells (s ∷ ss) = count_cells ss >>= count_cell s.cell

abbrev pub all_ended : List OrderSource → Bool
all_ended [] = true
all_ended (s ∷ ss) = s.ended && all_ended ss

abbrev pub start : List (List Row) → List OrderSource
start [] = []
start (rs ∷ rss) = record { left = rs; ended = false; cell = none } ∷ start rss

abbrev pub total : List (List Row) → ℕ
total [] = 0
total (rs ∷ rss) = length rs + total rss

-- The loop behind the end of all results, over the cells that are left.
unfoldable pub leftover : ℕ → List OrderSource → List Row → Result (List Row)
unfolding choose count_cells
leftover zero ss rows = count_cells ss >>= λ n. if n == 0 then ok rows else stuck
leftover (suc f) ss rows = count_cells ss >>= λ n.
    if n == 0 then ok rows else (choose ss >>= λ k. leftover f k.after (rows ++ k.cell.row ∷ []))

-- What stands behind the loop of `mergeResultWithOrderByAndLimit`: where the count is not reached,
-- the cells that are left.
unfoldable pub limit_rest : ℕ → List OrderSource → List Row → Result (List Row)
unfolding leftover
limit_rest count ss rows =
    let rest = leftover (length ss) ss rows in if length rows == count then ok rows else rest

module _ (fields : List OrderField) where
  -- The visit of one result in a round.
  abbrev pub refill : List Row → Option OrderByCell → Result OrderSource
  refill [] cell = ok (record { left = []; ended = true; cell = cell })
  refill (r ∷ rs) cell = field_values fields r >>= λ vs. ok (record {
    left = rs;
    ended = false;
    cell = some (record { order_field = vs; next = false; row = r });
  })

  abbrev pub fill_source : List Row → Bool → Option OrderByCell → Result OrderSource
  fill_source left true cell = ok (record { left = left; ended = true; cell = cell })
  fill_source left false none = refill left none
  fill_source left false (some c) =
      if c.next
      then refill left (some c)
      else ok (record { left = left; ended = false; cell = some c })

  unfoldable pub fill : List OrderSource → Result (List OrderSource)
  unfolding field_values
  fill [] = ok []
  fill (s ∷ ss) = fill_source s.left s.ended s.cell >>= λ s'. fill ss >>= λ ss'. ok (s' ∷ ss')

  -- The loop of `mergeResultWithOrderBy`; each round appends a row.
  unfoldable pub order_loop : ℕ → List OrderSource → List Row → Result (List Row)
  unfolding fill choose leftover
  order_loop zero ss rows = stuck
  order_loop (suc f) ss rows = fill ss >>= λ ss'.
      if all_ended ss'
      then leftover (length ss') ss' rows
      else (choose ss' >>= λ k. order_loop f k.after (rows ++ k.cell.row ∷ []))

  -- `mergeResultWithOrderBy`
  unfoldable pub merge_ordered : List (List Row) → Result (List Row)
  unfolding order_loop
  merge_ordered [] = panic
  merge_ordered (rs ∷ rss) = order_loop (suc (total (rs ∷ rss))) (start (rs ∷ rss)) []

  -- The loop of `mergeResultWithOrderByAndLimit`, which ends where the count is reached.
  module _ (offset count : ℕ) where
    unfoldable pub order_limit_loop : ℕ → List OrderSource → ℕ → List Row → Result (List Row)
    unfolding fill choose limit_rest
    order_limit_loop zero ss n rows = stuck
    order_limit_loop (suc f) ss n rows = fill ss >>= λ ss'.
        if all_ended ss'
        then limit_rest count ss' rows
        else (choose ss' >>= λ k.
            let rows' = rows ++ k.cell.row ∷ [] in
            let taken = order_limit_loop f k.after (suc n) rows' in
            let skipped = order_limit_loop f k.after (suc n) rows in
            if ltb offset (suc n)
            then (if length rows' == count then limit_rest count k.after rows' else taken)
            else skipped)

    unfoldable pub merge_ordered_limit : List (List Row) → Result (List Row)
    unfolding order_limit_loop
    merge_ordered_limit [] = panic
    merge_ordered_limit (rs ∷ rss) =
        order_limit_loop (suc (total (rs ∷ rss))) (start (rs ∷ rss)) 0 []
