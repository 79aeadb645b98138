-- ===== src/Merge/Examples.antt =====
-- Runs of merging, and its theorems at concrete results.
use dbpack.Common.{ℕ, ◌≡◌, inl, inr, refl, List, [], ◌∷◌, some, Bool, true, All, ltb, arith}
use dbpack.Common.Int.{pos}
use dbpack.Cond.{ok, panic}
use dbpack.Merge.{merge_plain, merge_limit}
use dbpack.Merge.Plain.{tally, tally_all, merge_plain-tally}
use dbpack.Merge.Cut.{window}
use dbpack.Merge.Limit.{merge_limit-window}
use dbpack.Merge.Ordered.{OrderField, Datum, int, Row, merge_ordered, merge_ordered_limit}
use dbpack.Merge.Ordered.Filling.{IsSorted}
use dbpack.Merge.Ordered.Ascending.{IsResult, merge_ordered-IsSorted}
use dbpack.Merge.Ordered.Integers.{int_order}
use dbpack.Merge.Ordered.Limited.{merge_ordered_limit-window}
use dbpack.Merge.Ordered.Empty.{merge_ordered-empty_panics}

abbrev results : List (List ℕ)
results = (1 ∷ 4 ∷ 6 ∷ []) ∷ (2 ∷ []) ∷ []

merged : merge_plain (λ r. true) results ≡ ok (1 ∷ 2 ∷ 4 ∷ 6 ∷ [])
unfolding merge_plain
merged = refl

limited : merge_limit (λ r. true) 1 2 results ≡ ok (2 ∷ 4 ∷ [])
unfolding merge_limit
limited = refl

-- A row that cannot be decoded.
not_decoded : merge_plain (λ r. ltb r 6) results ≡ panic
unfolding merge_plain
not_decoded = refl

merge_plain-tally_example :
    (out : List ℕ) × (merge_plain (λ r. true) results ≡ ok out)
    × ((p : ℕ → Bool) → tally p out ≡ tally_all p results)
merge_plain-tally_example =
    merge_plain-tally (λ r. true) (1 ∷ 4 ∷ 6 ∷ []) ((2 ∷ []) ∷ [])
      ((refl, (refl, (refl, tt))), ((refl, tt), tt))

merge_limit-window_example :
    (out : List ℕ) × (merge_plain (λ r. true) results ≡ ok out)
    × (merge_limit (λ r. true) 1 2 results ≡ ok (window 1 2 out))
merge_limit-window_example =
    merge_limit-window 1 2 (λ r. true) (1 ∷ 4 ∷ 6 ∷ []) ((2 ∷ []) ∷ [])
      ((refl, (refl, (refl, tt))), ((refl, tt), tt))

-- Rows of a number and a text, by the number; those of the second result come from another database.
abbrev by_number : List OrderField
by_number = record { asc = true; field_value_index = 0 } ∷ []

abbrev row : ℕ → Row
row n = some (some (int (pos n)) ∷ some (Datum.text (b'r' ∷ [])) ∷ [])

abbrev ordered : List (List Row)
ordered = (row 1 ∷ row 4 ∷ []) ∷ (row 2 ∷ []) ∷ []

merged_by_number : merge_ordered by_number ordered ≡ ok (row 1 ∷ row 2 ∷ row 4 ∷ [])
unfolding merge_ordered
merged_by_number = refl

ordered-IsResult : All (IsResult (int_order by_number)) ordered
unfolding int_order
ordered-IsResult = (
  ((row 1, row 4 ∷ [], refl), (((refl, tt), ((refl, tt), tt)), ((refl, tt), (tt, tt)))),
  (((row 2, [], refl), (((refl, tt), tt), (tt, tt))), tt),
)

merge_ordered-IsSorted_example :
    (out : List Row) × (merge_ordered by_number ordered ≡ ok out)
    × IsSorted (int_order by_number) out
    × ((p : Row → Bool) → tally p out ≡ tally_all p ordered)
merge_ordered-IsSorted_example =
    merge_ordered-IsSorted (int_order by_number) (row 1 ∷ row 4 ∷ []) ((row 2 ∷ []) ∷ [])
      ordered-IsResult

merge_ordered-empty_panics_example : merge_ordered by_number ((row 1 ∷ []) ∷ [] ∷ []) ≡ panic
unfolding int_order
merge_ordered-empty_panics_example =
    merge_ordered-empty_panics (int_order by_number) (row 1 ∷ []) ([] ∷ [])
      (((refl, tt), tt), (tt, tt)) (inr (inl refl))

limited_by_number : merge_ordered_limit by_number 1 1 ordered ≡ ok (row 2 ∷ [])
unfolding merge_ordered_limit
limited_by_number = refl

-- With a count of 0 the cells that are left are appended behind the loop: every row is returned.
unlimited_by_number : merge_ordered_limit by_number 0 0 ordered ≡ ok (row 1 ∷ row 2 ∷ row 4 ∷ [])
unfolding merge_ordered_limit
unlimited_by_number = refl

merge_ordered_limit-window_example :
    (out : List Row) × (merge_ordered by_number ordered ≡ ok out)
    × (merge_ordered_limit by_number 1 1 ordered ≡ ok (window 1 1 out))
merge_ordered_limit-window_example =
    merge_ordered_limit-window (int_order by_number) 1 1 (row 1 ∷ row 4 ∷ []) ((row 2 ∷ []) ∷ [])
      (omega arith) ordered-IsResult
