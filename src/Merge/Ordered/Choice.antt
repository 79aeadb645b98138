-- ===== src/Merge/Ordered/Choice.antt =====
-- The choice in a round of merging by ORDER BY takes the first of the pending rows.
use dbpack.Common.{
  ◌+◌, ◌≡◌, inl, inr, refl, sym, ◌∙◌, ap, List, [], ◌∷◌, map, Option, none, some, Bool, true, false,
  All, All-map, Member, if◌then◌else◌, arith,
}
use mathlib.Core.Path.{subst}
use dbpack.Cond.{ok}
use dbpack.Merge.Plain.{tally, tally_all}
use dbpack.Merge.Ordered.{
  Row, OrderField, OrderByCell, OrderSource, Candidate, used, put_before, add_candidate, candidates,
  choose, count_cell, count_cells, all_ended,
}
use dbpack.Merge.Ordered.Sorting.{IsOrdered, Le, Made}
use dbpack.Merge.Ordered.Pass.{sorted_cells-least}
use dbpack.Merge.Ordered.Filling.{
  pending, pendings, and_true, and_false, absurd_ended, if_true, if_false, InOrder, Leads, FullCell,
  Open, Full, Full-Open,
}

module _ {fields : List OrderField} (o : IsOrdered fields) where
  -- What a candidate takes from the pending rows.
  pub record Takes (ss : List OrderSource) (k : Candidate) : Type 0 where
    pub made : Made o k.cell
    pub opens : All (Open o) k.after
    pub tallies :
        (p : Row → Bool)
        → tally_all p (pendings ss)
          ≡ (if p k.cell.row then 1 else 0) + tally_all p (pendings k.after)
    pub leads :
        (r : Row) → Leads o r (pendings ss) → Le o r k.cell.row × Leads o r (pendings k.after)

  pub record Offers (ss : List OrderSource) (ks : List Candidate) : Type 0 where
    pub takes : All (Takes ss) ks
    pub covers : (r : Row) → All (λ k. Le o r k.cell.row) ks → Leads o r (pendings ss)
    pub offered : all_ended ss ≡ false → (k : Candidate) × (rest : List Candidate) × (ks ≡ k ∷ rest)

  put_before-Takes :
      (s : OrderSource) (ss : List OrderSource) (k : Candidate)
      → Full o s
      → Takes ss k
      → Takes (s ∷ ss) (put_before s k)
  put_before-Takes s ss k full t = record {
    made = t.made;
    opens = (Full-Open o s full, t.opens);
    tallies = λ p. omega (arith, t.tallies p);
    leads = λ r h. let (a, b) = t.leads r h.1 in (a, (h.0, b));
  }

  map-put_before :
      (s : OrderSource) (ss : List OrderSource) (ks : List Candidate)
      → Full o s
      → All (Takes ss) ks
      → All (Takes (s ∷ ss)) (map (put_before s) ks)
  map-put_before s ss [] full t = tt
  map-put_before s ss (k ∷ ks) full t =
      (put_before-Takes s ss k full t.0, map-put_before s ss ks full t.1)

  unmap-put_before :
      (s : OrderSource) (r : Row) (ks : List Candidate)
      → All (λ k. Le o r k.cell.row) (map (put_before s) ks)
      → All (λ k. Le o r k.cell.row) ks
  unmap-put_before s r [] h = tt
  unmap-put_before s r (k ∷ ks) h = (h.0, unmap-put_before s r ks h.1)

  All-Le : (r q : Row) (rs : List Row) → Le o r q → All (Le o q) rs → All (Le o r) rs
  All-Le r q rs h a = All-map rs (λ x b. o.trans r q x h b) a

  -- The cell of one result, in front of what the others offer.
  add-Offers :
      (left : List Row) (ended : Bool) (cell : Option OrderByCell) (ss : List OrderSource)
      (ks : List Candidate)
      → Full o (record { left = left; ended = ended; cell = cell })
      → All (Open o) ss
      → Offers ss ks
      → (out : List Candidate) × (add_candidate
            (record { left = left; ended = ended; cell = cell })
            cell
            ss
            ks
          ≡ ok out)
        × Offers (record { left = left; ended = ended; cell = cell } ∷ ss) out
  add-Offers left ended none ss ks h opens f = elim h.0 [ ]
  add-Offers left ended (some c) ss ks h opens f =
      let s : OrderSource = record { left = left; ended = ended; cell = some c } in
      elim h.0 [
        | inl (n, e, v) ↦
            let same : pending left (some c) ≡ c.row ∷ left = if_false c.next _ _ n in
            let order = subst (InOrder o) same h.1 in
            let k : Candidate = record {
              cell = c;
              after = record { left = left; ended = ended; cell = some (used c) } ∷ ss;
            } in
            (
              k ∷ map (put_before s) ks,
              if_false c.next _ _ n,
              record {
                takes = (
                  record {
                    made = (order.0.0, v);
                    opens =
                        ((inr (refl, λ q. absurd_ended ended e q), (order.0.1, order.1.1)), opens);
                    tallies = λ p. omega (arith, ap (tally p) same);
                    leads = λ r w. let a = subst (All (Le o r)) same w.0 in (a.0, (a.1, w.1));
                  },
                  map-put_before s ss ks h f.takes,
                );
                covers = λ r w. (
                  subst (All (Le o r)) (sym same) (w.0, All-Le r c.row left w.0 order.1.0),
                  f.covers r (unmap-put_before s r ks w.1),
                );
                offered = λ q. (k, map (put_before s) ks, refl);
              },
            )
        | inr (n, e, l) ↦
            let same : pending left (some c) ≡ [] = if_true c.next _ _ n ∙ l in
            (
              map (put_before s) ks,
              if_true c.next _ _ n,
              record {
                takes = map-put_before s ss ks h f.takes;
                covers = λ r w.
                    (subst (All (Le o r)) (sym same) tt, f.covers r (unmap-put_before s r ks w));
                offered = λ q.
                    let (k, rest, eq) = f.offered (and_false ended (all_ended ss) e q) in
                    (put_before s k, map (put_before s) rest, ap (map (put_before s)) eq);
              },
            )
      ]

  All-Open : (ss : List OrderSource) → All (Full o) ss → All (Open o) ss
  All-Open [] h = tt
  All-Open (s ∷ ss) h = (Full-Open o s h.0, All-Open ss h.1)

  candidates-Offers :
      (ss : List OrderSource)
      → All (Full o) ss
      → (ks : List Candidate) × (candidates ss ≡ ok ks) × Offers ss ks
  unfolding candidates
  candidates-Offers [] h = ([], refl, record { takes = tt; covers = λ r w. tt; offered = λ q. cc })
  candidates-Offers (s ∷ ss) h =
      let (ks, e, f) = candidates-Offers ss h.1 in
      let (out, e', g) = add-Offers s.left s.ended s.cell ss ks h.0 (All-Open ss h.1) f in
      (out, rw (e, e'), g)

  All-Member :
      (P : Candidate → Type 0) (k : Candidate) (ks : List Candidate) → All P ks → Member k ks → P k
  All-Member P k [] h m = elim m [ ]
  All-Member P k (d ∷ ks) h m = elim m [
    | inl e ↦ subst P (sym e) h.0
    | inr r ↦ All-Member P k ks h.1 r
  ]

  -- A round chooses a pending row that may come before all others.
  pub choose-Takes :
      (ss : List OrderSource)
      → All (Full o) ss
      → all_ended ss ≡ false
      → (k : Candidate) × (choose ss ≡ ok k) × Takes ss k × Leads o k.cell.row (pendings ss)
  unfolding choose
  choose-Takes ss h q =
      let (ks, e, f) = candidates-Offers ss h in
      let (k, rest, eq) = f.offered q in
      let takes = subst (All (Takes ss)) eq f.takes in
      let (es, l, run, last, least, m) =
        sorted_cells-least o k rest (All-map (k ∷ rest) (λ d t. t.made) takes) in
      (
        l,
        rw (e, eq, run, last),
        All-Member (Takes ss) l (k ∷ rest) takes m,
        f.covers l.cell.row (subst (All (λ d. Le o l.cell.row d.cell.row)) (sym eq) least),
      )

  -- Where all results are ended nothing is pending, and no cell is left over.
  ended-cell :
      (left : List Row) (ended : Bool) (cell : Option OrderByCell)
      → FullCell o left ended cell
      → ended ≡ true
      → (count_cell cell 0 ≡ ok 0) × (pending left cell ≡ [])
  ended-cell left ended none h e = elim h [ ]
  ended-cell left ended (some c) (inl (n, f, v)) e = cc
  ended-cell left ended (some c) (inr (n, f, l)) e =
      (ap ok (if_true c.next _ _ n), if_true c.next _ _ n ∙ l)

  pub ended-pendings :
      (p : Row → Bool) (ss : List OrderSource)
      → All (Full o) ss
      → all_ended ss ≡ true
      → (count_cells ss ≡ ok 0) × (tally_all p (pendings ss) ≡ 0)
  unfolding count_cells
  ended-pendings p [] h e = (refl, refl)
  ended-pendings p (s ∷ ss) h e =
      let (a, b) = and_true s.ended (all_ended ss) e in
      let (count, none_left) = ended-cell s.left s.ended s.cell h.0.0 a in
      let (counts, nothing) = ended-pendings p ss h.1 b in
      (rw (counts, count), rw (none_left) (omega (arith, nothing)))
