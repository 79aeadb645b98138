-- ===== src/Merge/Ordered/Empty.antt =====
-- Merging by ORDER BY with a result without rows.
use dbpack.Common.{
  ℕ, zero, suc, ◌≡◌, ◌⊎◌, inl, inr, refl, List, [], ◌∷◌, Option, none, some, Bool, true, false, All,
  Member, Bool-cases, if◌then◌else◌, length,
}
use dbpack.Cond.{Result, ok, panic, ◌>>=◌}
use dbpack.Merge.Ordered.{
  Row, OrderField, OrderByCell, OrderSource, Candidate, fill, add_candidate, candidates, choose,
  count_cell, count_cells, all_ended, leftover, order_loop, start, merge_ordered,
}
use dbpack.Merge.Ordered.Sorting.{IsOrdered}

-- The cell of some result is nil.
abbrev HasNil : List OrderSource → Type 0
HasNil [] = ⊥
HasNil (s ∷ ss) = (s.cell ≡ none) ⊎ HasNil ss

add_candidate-none :
    (s : OrderSource) (ss : List OrderSource) (out : Result (List Candidate))
    → (out ≡ panic) ⊎ ((ks : List Candidate) × (out ≡ ok ks))
    → (out >>= add_candidate s none ss) ≡ panic
add_candidate-none s ss out (inl e) = rw e
add_candidate-none s ss out (inr (ks, e)) = rw e

if_ok : {A : Type 0} (b : Bool) (x y : A) → (z : A) × ((if b then ok x else ok y) ≡ ok z)
if_ok true x y = (x, refl)
if_ok false x y = (y, refl)

add_candidate-some :
    (s : OrderSource) (cell : Option OrderByCell) (ss : List OrderSource) (ks : List Candidate)
    → (add_candidate s cell ss ks ≡ panic)
      ⊎ ((ls : List Candidate) × (add_candidate s cell ss ks ≡ ok ls))
add_candidate-some s none ss ks = inl refl
add_candidate-some s (some c) ss ks = inr (if_ok c.next _ _)

candidates-cases :
    (ss : List OrderSource)
    → (candidates ss ≡ panic) ⊎ ((ks : List Candidate) × (candidates ss ≡ ok ks))
unfolding candidates
candidates-cases [] = inr ([], refl)
candidates-cases (s ∷ ss) = elim (candidates-cases ss) [
  | inl e ↦ inl (rw e)
  | inr (ks, e) ↦ rw e (add_candidate-some s s.cell ss ks)
]

candidates-nil : (ss : List OrderSource) → HasNil ss → candidates ss ≡ panic
unfolding candidates
candidates-nil [] h = elim h [ ]
candidates-nil (s ∷ ss) h = elim h [
  | inl e ↦ rw e (add_candidate-none s ss (candidates ss) (candidates-cases ss))
  | inr r ↦ rw (candidates-nil ss r)
]

count_cell-ok :
    (cell : Option OrderByCell) (n : ℕ)
    → (count_cell cell n ≡ panic) ⊎ ((m : ℕ) × (count_cell cell n ≡ ok m))
count_cell-ok none n = inl refl
count_cell-ok (some c) n = inr (_, refl)

count_cells-cases :
    (ss : List OrderSource) → (count_cells ss ≡ panic) ⊎ ((n : ℕ) × (count_cells ss ≡ ok n))
unfolding count_cells
count_cells-cases [] = inr (0, refl)
count_cells-cases (s ∷ ss) = elim (count_cells-cases ss) [
  | inl e ↦ inl (rw e)
  | inr (n, e) ↦ rw e (count_cell-ok s.cell n)
]

count_cells-nil : (ss : List OrderSource) → HasNil ss → count_cells ss ≡ panic
unfolding count_cells
count_cells-nil [] h = elim h [ ]
count_cells-nil (s ∷ ss) h = elim h [
  | inl e ↦ rw e (elim (count_cells-cases ss) [ inl q ↦ rw q | inr (n, q) ↦ rw q ])
  | inr r ↦ rw (count_cells-nil ss r)
]

leftover-nil :
    (f : ℕ) (ss : List OrderSource) (rows : List Row) → HasNil ss → leftover f ss rows ≡ panic
unfolding leftover
leftover-nil zero ss rows h = rw (count_cells-nil ss h)
leftover-nil (suc f) ss rows h = rw (count_cells-nil ss h)

module _ {fields : List OrderField} (o : IsOrdered fields) where
  -- The first round leaves the cell of a result without rows nil.
  fill-HasNil :
      (rss : List (List Row))
      → All (All o.Fits) rss
      → (ts : List OrderSource) × (fill fields (start rss) ≡ ok ts) × (Member [] rss → HasNil ts)
  unfolding fill
  fill-HasNil [] h = ([], refl, λ m. m)
  fill-HasNil ([] ∷ rss) h =
      let (ts, e, nil) = fill-HasNil rss h.1 in
      (record { left = []; ended = true; cell = none } ∷ ts, rw e, λ m. inl refl)
  fill-HasNil ((r ∷ rs) ∷ rss) h =
      let (vs, made) = o.made r h.0.0 in
      let (ts, e, nil) = fill-HasNil rss h.1 in
      let c : OrderByCell = record { order_field = vs; next = false; row = r } in
      (
        record { left = rs; ended = false; cell = some c } ∷ ts,
        rw (made, e),
        λ m. elim m [ inl q ↦ cc | inr w ↦ inr (nil w) ],
      )

  -- For results over rows that the fields of ORDER BY can compare, one of which has no rows: merging
  -- by ORDER BY panics.
  pub merge_ordered-empty_panics :
      (rs : List Row) (rss : List (List Row))
      → All (All o.Fits) (rs ∷ rss)
      → Member [] (rs ∷ rss)
      → merge_ordered fields (rs ∷ rss) ≡ panic
  unfolding merge_ordered order_loop choose
  merge_ordered-empty_panics rs rss h m =
      let (ts, e, nil) = fill-HasNil (rs ∷ rss) h in
      elim (Bool-cases (all_ended ts)) [
        | inl q ↦ rw (e, q) (leftover-nil (length ts) ts [] (nil m))
        | inr q ↦ rw (e, q, candidates-nil ts (nil m))
      ]
