-- ===== src/Merge/Ordered/Ascending.antt =====
-- Merging by ORDER BY gives all rows in order.
use dbpack.Common.{
  ℕ, zero, suc, ◌+◌, ◌<◌, ◌≡◌, inl, inr, refl, sym, ◌∙◌, ap, List, [], ◌∷◌, ◌++◌, Bool, true, All,
  All-map, Bool-cases, length, arith,
}
use mathlib.Core.Path.{subst}
use dbpack.Cond.{Result, ok}
use dbpack.Cond.Build.Loops.{append_nil, append_snoc}
use dbpack.Merge.Plain.{tally, tally_all, tally-append}
use dbpack.Merge.Ordered.{
  Row, OrderField, OrderSource, count_cells, all_ended, leftover, order_loop, start, total,
  merge_ordered,
}
use dbpack.Merge.Ordered.Sorting.{IsOrdered, Le}
use dbpack.Merge.Ordered.Filling.{pendings, IsSorted, InOrder, Leads, Open, fill-Full}
use dbpack.Merge.Ordered.Choice.{choose-Takes, ended-pendings}

module _ {fields : List OrderField} (o : IsOrdered fields) where
  -- What is merged comes before what is pending.
  abbrev pub Behind : List Row → List OrderSource → Type 0
  Behind rows ss = All (λ r. Leads o r (pendings ss)) rows

  pub All-snoc :
      (P : Row → Type 0) (rows : List Row) (r : Row) → All P rows → P r → All P (rows ++ r ∷ [])
  All-snoc P [] r h p = (p, tt)
  All-snoc P (q ∷ rows) r h p = (h.0, All-snoc P rows r h.1 p)

  pub IsSorted-snoc :
      (rows : List Row) (r : Row)
      → IsSorted o rows
      → All (λ q. Le o q r) rows
      → IsSorted o (rows ++ r ∷ [])
  IsSorted-snoc [] r h l = (tt, tt)
  IsSorted-snoc (q ∷ rows) r h l = (All-snoc (Le o q) rows r h.0 l.0, IsSorted-snoc rows r h.1 l.1)

  abbrev pub Merged : Result (List Row) → List Row → List OrderSource → Type 0
  Merged out rows ss =
      (ts : List Row) × (out ≡ ok ts)
      × IsSorted o ts
      × ((more : List Row) × (ts ≡ rows ++ more))
      × ((p : Row → Bool) → tally p ts ≡ tally p rows + tally_all p (pendings ss))

  pub leftover_none :
      (f : ℕ) (ss : List OrderSource) (rows : List Row)
      → count_cells ss ≡ ok 0
      → leftover f ss rows ≡ ok rows
  unfolding leftover
  leftover_none zero ss rows e = rw e
  leftover_none (suc f) ss rows e = rw e

  pub order_loop-Merged :
      (f : ℕ) (ss : List OrderSource) (rows : List Row)
      → tally_all (λ r. true) (pendings ss) < f
      → All (Open o) ss
      → IsSorted o rows
      → Behind rows ss
      → Merged (order_loop fields f ss rows) rows ss
  unfolding order_loop
  order_loop-Merged zero ss rows l opens sorted b = absurd (omega arith)
  order_loop-Merged (suc f) ss rows l opens sorted b =
      let (ts, e, full, same) = fill-Full o ss opens in
      let b' = subst (λ rss. All (λ r. Leads o r rss) rows) (sym same) b in
      let tallies = λ (p : Row → Bool). ap (tally_all p) same in
      elim (Bool-cases (all_ended ts)) [
        | inl q ↦
            let stop =
              leftover_none (length ts) ts rows (ended-pendings o (λ r. true) ts full q).0 in
            (
              rows,
              rw (e, q, stop),
              sorted,
              ([], sym (append_nil rows)),
              λ p. omega (arith, (ended-pendings o p ts full q).1, tallies p),
            )
        | inr q ↦
            let (k, run, t, first) = choose-Takes o ts full q in
            let more = t.tallies (λ r. true) in
            let behind_k = All-map rows (λ r w. (t.leads r w).0) b' in
            let after = All-map rows (λ r w. (t.leads r w).1) b' in
            let (out, run', s, (more_rows, longer), count) =
              order_loop-Merged f k.after (rows ++ k.cell.row ∷ [])
                (omega (arith, more, tallies (λ r. true))) t.opens
                (IsSorted-snoc rows k.cell.row sorted behind_k)
                (All-snoc (λ r. Leads o r (pendings k.after)) rows k.cell.row after
                  (t.leads k.cell.row first).1) in
            (
              out,
              rw (e, q, run, run'),
              s,
              (k.cell.row ∷ more_rows, longer ∙ append_snoc rows k.cell.row more_rows),
              λ p.
                  omega
                    (arith, count p, tally-append p rows (k.cell.row ∷ []), t.tallies p, tallies p),
            )
      ]

  -- A result with rows, which are in order.
  abbrev pub IsResult : List Row → Type 0
  IsResult rs = ((r : Row) × (ts : List Row) × (rs ≡ r ∷ ts)) × InOrder o rs

  pub start-Open : (rss : List (List Row)) → All IsResult rss → All (Open o) (start rss)
  start-Open [] h = tt
  start-Open (rs ∷ rss) h = (((refl, h.0.0), h.0.1), start-Open rss h.1)

  pub start-pendings : (rss : List (List Row)) → pendings (start rss) ≡ rss
  start-pendings [] = refl
  start-pendings (rs ∷ rss) = ap (λ l. rs ∷ l) (start-pendings rss)

  pub total-tally : (rss : List (List Row)) → tally_all (λ r. true) rss ≡ total rss
  total-tally [] = refl
  total-tally (rs ∷ rss) = omega (arith, total-tally rss, length-tally rs)
    where
      length-tally : (ts : List Row) → tally (λ r. true) ts ≡ length ts
      length-tally [] = refl
      length-tally (t ∷ ts) = omega (arith, length-tally ts)

  -- For at least one result, each with at least one row and in order, over rows that the fields of
  -- ORDER BY can compare: merging by ORDER BY ends, what it returns is in order, and as many of its
  -- rows pass a test as of all results, whatever the test.
  pub merge_ordered-IsSorted :
      (rs : List Row) (rss : List (List Row))
      → All IsResult (rs ∷ rss)
      → (out : List Row) × (merge_ordered fields (rs ∷ rss) ≡ ok out)
        × IsSorted o out
        × ((p : Row → Bool) → tally p out ≡ tally_all p (rs ∷ rss))
  unfolding merge_ordered
  merge_ordered-IsSorted rs rss h =
      let all = rs ∷ rss in
      let same = start-pendings all in
      let small = ap (tally_all (λ r. true)) same in
      let (out, run, s, longer, count) =
        order_loop-Merged (suc (total all)) (start all) [] (omega (arith, small, total-tally all))
          (start-Open all h) tt tt in
      (out, run, s, λ p. omega (arith, count p, ap (tally_all p) same))
