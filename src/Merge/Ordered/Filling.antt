-- ===== src/Merge/Ordered/Filling.antt =====
-- The filling of the cells in a round of merging by ORDER BY leaves the pending rows as they are.
use dbpack.Common.{
  ◌≡◌, ◌⊎◌, inl, inr, refl, sym, ◌∙◌, List, [], ◌∷◌, Option, none, some, Bool, true, false, ◌&&◌,
  All, if◌then◌else◌,
}
use dbpack.Cond.{ok}
use dbpack.Merge.Ordered.{
  Row, OrderField, OrderByCell, OrderSource, field_values, refill, fill_source, fill,
}
use dbpack.Merge.Ordered.Sorting.{IsOrdered, Le}

-- The rows of a result that are not in the merged one yet.
abbrev pub pending : List Row → Option OrderByCell → List Row
pending left none = left
pending left (some c) = if c.next then left else c.row ∷ left

abbrev pub pendings : List OrderSource → List (List Row)
pendings [] = []
pendings (s ∷ ss) = pending s.left s.cell ∷ pendings ss

pub and_true : (b c : Bool) → (b && c) ≡ true → (b ≡ true) × (c ≡ true)
and_true true c e = (refl, e)
and_true false c e = cc

pub and_false : (b c : Bool) → b ≡ true → (b && c) ≡ false → c ≡ false
and_false true c e q = q
and_false false c e q = cc

pub absurd_ended : {A : Type 0} (b : Bool) → b ≡ false → b ≡ true → A
absurd_ended true e q = cc
absurd_ended false e q = cc

pub if_true : {A : Type 0} (b : Bool) (x y : A) → b ≡ true → (if b then x else y) ≡ x
if_true true x y e = refl
if_true false x y e = cc

pub if_false : {A : Type 0} (b : Bool) (x y : A) → b ≡ false → (if b then x else y) ≡ y
if_false true x y e = cc
if_false false x y e = refl

module _ {fields : List OrderField} (o : IsOrdered fields) where
  abbrev pub IsSorted : List Row → Type 0
  IsSorted [] = Unit
  IsSorted (r ∷ rs) = All (Le o r) rs × IsSorted rs

  -- Rows that can be compared, in order.
  abbrev pub InOrder : List Row → Type 0
  InOrder rs = All o.Fits rs × IsSorted rs

  -- `r` may come before every row of the results.
  abbrev pub Leads : Row → List (List Row) → Type 0
  Leads r rss = All (λ rs. All (Le o r) rs) rss

  -- The cell of a result in front of a round, and behind the loop that fills the cells.
  abbrev pub OpenCell : List Row → Bool → Option OrderByCell → Type 0
  OpenCell left ended none = (ended ≡ false) × ((r : Row) × (rs : List Row) × (left ≡ r ∷ rs))
  OpenCell left ended (some c) =
      (c.next ≡ false) × (ended ≡ false) × (field_values fields c.row ≡ ok c.order_field)
      ⊎ (c.next ≡ true) × (ended ≡ true → left ≡ [])

  abbrev pub FullCell : List Row → Bool → Option OrderByCell → Type 0
  FullCell left ended none = ⊥
  FullCell left ended (some c) =
      (c.next ≡ false) × (ended ≡ false) × (field_values fields c.row ≡ ok c.order_field)
      ⊎ (c.next ≡ true) × (ended ≡ true) × (left ≡ [])

  abbrev pub Open : OrderSource → Type 0
  Open s = OpenCell s.left s.ended s.cell × InOrder (pending s.left s.cell)

  abbrev pub Full : OrderSource → Type 0
  Full s = FullCell s.left s.ended s.cell × InOrder (pending s.left s.cell)

  abbrev Filled : List Row → Bool → Option OrderByCell → Type 0
  Filled left ended cell =
      (s : OrderSource) × (fill_source fields left ended cell ≡ ok s)
      × Full s
      × (pending s.left s.cell ≡ pending left cell)

  refill-Full :
      (r : Row) (rs : List Row) (cell : Option OrderByCell)
      → InOrder (r ∷ rs)
      → (s : OrderSource) × (refill fields (r ∷ rs) cell ≡ ok s)
        × Full s
        × (pending s.left s.cell ≡ r ∷ rs)
  refill-Full r rs cell h =
      let (vs, e) = o.made r h.0.0 in
      (
        record {
          left = rs;
          ended = false;
          cell = some (record { order_field = vs; next = false; row = r });
        },
        rw e,
        (inl (refl, refl, e), h),
        refl,
      )

  fill_source-Full :
      (left : List Row) (ended : Bool) (cell : Option OrderByCell)
      → OpenCell left ended cell
      → InOrder (pending left cell)
      → Filled left ended cell
  fill_source-Full left true none h i = let e = h.0 in cc
  fill_source-Full left true (some c) (inl h) i = let e = h.1 in cc
  fill_source-Full left true (some c) (inr (n, f)) i =
      (record { left = left; ended = true; cell = some c }, refl, (inr (n, refl, f refl), i), refl)
  fill_source-Full [] false none h i = let e = h.1.2 in cc
  fill_source-Full (r ∷ rs) false none h i = refill-Full r rs none i
  fill_source-Full left false (some c) (inl (n, e, v)) i =
      (record { left = left; ended = false; cell = some c }, rw n, (inl (n, refl, v), i), refl)
  fill_source-Full [] false (some c) (inr (n, f)) i =
      (record { left = []; ended = true; cell = some c }, rw n, (inr (n, refl, refl), i), refl)
  fill_source-Full (r ∷ rs) false (some c) (inr (n, f)) i =
      let (s, e, full, same) = refill-Full r rs (some c) (rw n at i) in
      (s, if_true c.next _ _ n ∙ e, full, same ∙ sym (if_true c.next _ _ n))

  -- Filling the cells leaves the pending rows as they are.
  pub fill-Full :
      (ss : List OrderSource)
      → All Open ss
      → (ts : List OrderSource) × (fill fields ss ≡ ok ts)
        × All Full ts
        × (pendings ts ≡ pendings ss)
  unfolding fill
  fill-Full [] h = ([], refl, tt, refl)
  fill-Full (s ∷ ss) h =
      let (t, e, full, same) = fill_source-Full s.left s.ended s.cell h.0.0 h.0.1 in
      let (ts, e', fulls, sames) = fill-Full ss h.1 in
      (t ∷ ts, rw (e, e'), (full, fulls), rw (same, sames))

  pub Full-Open : (s : OrderSource) → Full s → Open s
  Full-Open s (h, i) = (cell-Open s.left s.ended s.cell h, i)
    where
      cell-Open :
          (left : List Row) (ended : Bool) (cell : Option OrderByCell)
          → FullCell left ended cell
          → OpenCell left ended cell
      cell-Open left ended none h = elim h [ ]
      cell-Open left ended (some c) (inl h) = inl h
      cell-Open left ended (some c) (inr (n, e, l)) = inr (n, λ q. l)
