-- ===== src/Merge/Ordered/Sorting.antt =====
-- The least cell comes first: `compareOrderByCells`, for rows that the order can compare.
use dbpack.Common.{
  ◌≡◌, ◌⊎◌, inl, inr, refl, ◌∙◌, List, [], ◌∷◌, Bool, true, false, All, Member, Bool-cases,
}
use mathlib.Core.Path.{subst}
use dbpack.Cond.{Result, ok, ok-injective}
use dbpack.Merge.Ordered.{
  Row, OrderField, FieldValue, OrderByCell, Candidate, field_values, less_cells, insert_cell,
  sort_cells, last_of,
}

-- An order of rows to which the comparison of their cells comes down, for the rows that `Fits` allows,
-- such as those with one type of value in a column.
pub record IsOrdered (fields : List OrderField) : Type 1 where
  pub Fits : Row → Type 0
  pub before : Row → Row → Bool
  pub made : (r : Row) → Fits r → (vs : List FieldValue) × (field_values fields r ≡ ok vs)
  pub agrees :
      (r q : Row) (vs ws : List FieldValue)
      → Fits r
      → Fits q
      → field_values fields r ≡ ok vs
      → field_values fields q ≡ ok ws
      → less_cells vs ws ≡ ok (before r q)
  pub asym : (r q : Row) → before r q ≡ true → before q r ≡ false
  pub trans : (p q r : Row) → before q p ≡ false → before r q ≡ false → before r p ≡ false

module _ {fields : List OrderField} (o : IsOrdered fields) where
  -- `r` may come first.
  abbrev pub Le : Row → Row → Type 0
  Le r q = o.before q r ≡ false

  Le-refl : (r : Row) → Le r r
  Le-refl r = elim (Bool-cases (o.before r r)) [ inl e ↦ o.asym r r e | inr e ↦ e ]

  -- A cell with the values of its row.
  abbrev pub Made : OrderByCell → Type 0
  Made c = o.Fits c.row × (field_values fields c.row ≡ ok c.order_field)

  -- `l` comes first in a list of candidates that is sorted with its last element first.
  pub record First (l : Candidate) (ks : List Candidate) : Type 0 where
    pub last : last_of ks ≡ ok l
    pub least : All (λ k. Le l.cell.row k.cell.row) ks
    pub made : All (λ k. Made k.cell) ks

  last_cons : (k l : Candidate) (ks : List Candidate) → last_of ks ≡ ok l → last_of (k ∷ ks) ≡ ok l
  last_cons k l [] e = cc
  last_cons k l (d ∷ ks) e = e

  last-Made :
      (ks : List Candidate) (l : Candidate)
      → last_of ks ≡ ok l
      → All (λ k. Made k.cell) ks
      → Made l.cell
  last-Made [] l e m = cc
  last-Made (k ∷ []) l e m = subst (λ x. Made x.cell) (ok-injective e) m.0
  last-Made (k ∷ d ∷ ks) l e m = last-Made (d ∷ ks) l e m.1

  -- What an insertion returns, for a list whose first one was `l`.
  abbrev Inserted : Result (List Candidate) → Candidate → Candidate → Type 0
  Inserted out k l =
      (ks : List Candidate) × (l' : Candidate) × (out ≡ ok ks)
      × First l' ks
      × Le l'.cell.row k.cell.row
      × Le l'.cell.row l.cell.row
      × ((l' ≡ k) ⊎ (l' ≡ l))

  -- The place of `k` is in front of `d`.
  kept :
      (k l d : Candidate) (ds : List Candidate)
      → Made k.cell
      → First l (d ∷ ds)
      → o.before k.cell.row d.cell.row ≡ false
      → Inserted (ok (k ∷ d ∷ ds)) k l
  kept k l d ds m f e =
      let le = o.trans l.cell.row d.cell.row k.cell.row f.least.0 e in
      (
        k ∷ d ∷ ds,
        l,
        refl,
        record { last = f.last; least = (le, f.least); made = (m, f.made) },
        le,
        Le-refl l.cell.row,
        inr refl,
      )

  insert-First :
      (k l : Candidate) (ds : List Candidate)
      → Made k.cell
      → First l ds
      → Inserted (insert_cell k ds) k l
  unfolding insert_cell
  insert-First k l [] m f = let e = f.last in cc
  insert-First k l (d ∷ []) m f =
      let same = o.agrees k.cell.row d.cell.row _ _ m.0 f.made.0.0 m.1 f.made.0.1 in
      elim (Bool-cases (o.before k.cell.row d.cell.row)) [
        | inl e ↦
            let le = o.asym k.cell.row d.cell.row e in
            (
              d ∷ k ∷ [],
              k,
              rw (same, e),
              record {
                last = refl;
                least = (le, (Le-refl k.cell.row, tt));
                made = (f.made.0, (m, tt));
              },
              Le-refl k.cell.row,
              subst (λ x. Le k.cell.row x.cell.row) (ok-injective f.last) le,
              inl refl,
            )
        | inr e ↦ rw same (rw e (kept k l d [] m f e))
      ]
  insert-First k l (d ∷ c ∷ ds) m f =
      let same = o.agrees k.cell.row d.cell.row _ _ m.0 f.made.0.0 m.1 f.made.0.1 in
      elim (Bool-cases (o.before k.cell.row d.cell.row)) [
        | inl e ↦
            let rest : First l (c ∷ ds) = record {
              last = f.last;
              least = f.least.1;
              made = f.made.1;
            } in
            let (ks, l', run, g, le, le', from) = insert-First k l (c ∷ ds) m rest in
            (
              d ∷ ks,
              l',
              rw (same, e, run),
              record {
                last = last_cons d l' ks g.last;
                least = (o.trans l'.cell.row l.cell.row d.cell.row le' f.least.0, g.least);
                made = (f.made.0, g.made);
              },
              le,
              le',
              from,
            )
        | inr e ↦ rw same (rw e (kept k l d (c ∷ ds) m f e))
      ]

  -- A sorted slice starts with one of its cells, which may come before each of them.
  abbrev Sorted : Result (List Candidate) → Candidate → List Candidate → Type 0
  Sorted out l ks =
      (es : List Candidate) × (l' : Candidate) × (out ≡ ok es)
      × (last_of es ≡ ok l')
      × Le l'.cell.row l.cell.row
      × All (λ k. Le l'.cell.row k.cell.row) ks
      × ((l' ≡ l) ⊎ Member l' ks)

  sort_cells-First :
      (done ks : List Candidate) (l : Candidate)
      → First l done
      → All (λ k. Made k.cell) ks
      → Sorted (sort_cells done ks) l ks
  unfolding sort_cells
  sort_cells-First done [] l f m = (done, l, refl, f.last, Le-refl l.cell.row, tt, inl refl)
  sort_cells-First done (k ∷ ks) l f m =
      let (ds, l1, run, g, le, le1, from) = insert-First k l done m.0 f in
      let (es, l2, run', last, le2, least, from') = sort_cells-First ds ks l1 g m.1 in
      (
        es,
        l2,
        rw (run, run'),
        last,
        o.trans l2.cell.row l1.cell.row l.cell.row le2 le1,
        (o.trans l2.cell.row l1.cell.row k.cell.row le2 le, least),
        elim from' [
          | inl e ↦ elim from [ inl q ↦ inr (inl (e ∙ q)) | inr q ↦ inl (e ∙ q) ]
          | inr h ↦ inr (inr h)
        ],
      )

  -- Of at least one candidate, sorting gives one first that may come before each of them.
  pub sort_cells-least :
      (k : Candidate) (ks : List Candidate)
      → All (λ d. Made d.cell) (k ∷ ks)
      → (es : List Candidate) × (l : Candidate) × (sort_cells [] (k ∷ ks) ≡ ok es)
        × (last_of es ≡ ok l)
        × All (λ d. Le l.cell.row d.cell.row) (k ∷ ks)
        × Member l (k ∷ ks)
  unfolding sort_cells insert_cell
  sort_cells-least k ks m =
      let first : First k (k ∷ []) = record {
        last = refl;
        least = (Le-refl k.cell.row, tt);
        made = (m.0, tt);
      } in
      let (es, l, run, last, le, least, from) = sort_cells-First (k ∷ []) ks k first m.1 in
      (es, l, run, last, (le, least), from)
