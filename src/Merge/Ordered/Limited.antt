-- ===== src/Merge/Ordered/Limited.antt =====
-- Merging by ORDER BY with a limit gives the part of the merged rows that the limit asks for.
use dbpack.Common.{
  ℕ, zero, suc, ◌<◌, ◌≤◌, ◌≡◌, ◌≢◌, sym, ◌∙◌, ap, List, [], ◌∷◌, ◌++◌, true, false, All, All-map,
  Bool-cases, inl, inr, length, length-append, ltb, ◌==◌, ==_iff, arith,
}
use mathlib.Core.Path.{subst}
use dbpack.Cond.{ok, ok-injective}
use dbpack.Merge.Plain.{tally_all}
use dbpack.Merge.Cut.{window, window_full, window_snoc, window_short}
use dbpack.Merge.Ordered.{
  Row, OrderField, OrderSource, all_ended, order_loop, start, total, merge_ordered, limit_rest,
  order_limit_loop, merge_ordered_limit,
}
use dbpack.Merge.Ordered.Sorting.{IsOrdered}
use dbpack.Merge.Ordered.Filling.{pendings, IsSorted, Leads, Open, fill-Full}
use dbpack.Merge.Ordered.Choice.{choose-Takes, ended-pendings}
use dbpack.Merge.Ordered.Ascending.{
  Behind, All-snoc, IsSorted-snoc, leftover_none, order_loop-Merged, IsResult, start-Open,
  start-pendings, total-tally, merge_ordered-IsSorted,
}

not_equal : (a b : ℕ) → a ≢ b → (a == b) ≡ false
not_equal a b n = elim (Bool-cases (a == b)) [ inl e ↦ absurd (n ((==_iff a b).0 e)) | inr e ↦ e ]

equal_not : (a b : ℕ) → (a == b) ≡ false → a ≢ b
equal_not a b e q = ground arith

too_few : (a b : ℕ) → ltb a (suc b) ≡ false → suc b ≤ a
too_few a b e = ground arith

module _ {fields : List OrderField} (o : IsOrdered fields) (offset count : ℕ) where
  loops :
      (f : ℕ) (ss : List OrderSource) (seen out : List Row)
      → tally_all (λ r. true) (pendings ss) < f
      → All (Open o) ss
      → IsSorted o seen
      → Behind o seen ss
      → length (window offset count seen) ≢ count
      → order_loop fields f ss seen ≡ ok out
      → order_limit_loop fields offset count f ss (length seen) (window offset count seen)
        ≡ ok (window offset count out)
  unfolding order_loop order_limit_loop limit_rest
  loops zero ss seen out l opens sorted b n e = absurd (omega arith)
  loops (suc f) ss seen out l opens sorted b n e =
      let (ts, filled, full, same) = fill-Full o ss opens in
      let b' = subst (λ rss. All (λ r. Leads o r rss) seen) (sym same) b in
      let rows = window offset count seen in
      elim (Bool-cases (all_ended ts)) [
        | inl q ↦
            let none_left = (ended-pendings o (λ r. true) ts full q).0 in
            let stop = rw (filled, q, leftover_none o (length ts) ts seen none_left) at e in
            rw
              (
                filled,
                q,
                not_equal (length rows) count n,
                leftover_none o (length ts) ts rows none_left,
              )
              (ap (λ x. ok (window offset count x)) (ok-injective stop))
        | inr q ↦
            let (k, run, t, first) = choose-Takes o ts full q in
            let r = k.cell.row in
            let e' : order_loop fields f k.after (seen ++ r ∷ []) ≡ ok out =
              rw (filled, q, run) at e in
            let more = t.tallies (λ r. true) in
            let small : tally_all (λ r. true) (pendings k.after) < f =
              omega (arith, more, ap (tally_all (λ r. true)) same) in
            let sorted' =
              IsSorted-snoc o seen r sorted (All-map seen (λ x w. (t.leads x w).0) b') in
            let b'' =
              All-snoc o (λ x. Leads o x (pendings k.after)) seen r
                (All-map seen (λ x w. (t.leads x w).1) b') (t.leads r first).1 in
            let long : length (seen ++ r ∷ []) ≡ suc (length seen) =
              omega (arith, length-append seen (r ∷ [])) in
            let next = λ (m : length (window offset count (seen ++ r ∷ [])) ≢ count).
              loops f k.after (seen ++ r ∷ []) out small t.opens sorted' b'' m e' in
            elim (Bool-cases (ltb offset (suc (length seen)))) [
              | inl w ↦
                  let win = window_snoc offset count seen r (ground arith) n in
                  elim (Bool-cases (length (rows ++ r ∷ []) == count)) [
                    | inl g ↦
                        let full_rows = (==_iff (length (rows ++ r ∷ [])) count).0 g in
                        let (us, run', _, (rest, longer), _) =
                          order_loop-Merged o f k.after (seen ++ r ∷ []) small t.opens sorted'
                            b'' in
                        let whole = sym (ok-injective (sym run' ∙ e')) ∙ longer in
                        let stays =
                          window_full offset count (seen ++ r ∷ []) rest
                            (ap length win ∙ full_rows) in
                        rw (filled, q, run, w, g)
                          (ap ok (sym (ap (window offset count) whole ∙ stays ∙ win)))
                    | inr g ↦
                        rw (filled, q, run, w, g)
                          (rw (long, win) at
                            (next (λ m.
                              equal_not (length (rows ++ r ∷ [])) count g
                                (sym (ap length win) ∙ m))))
                  ]
              | inr w ↦
                  let skip =
                    window_short offset count (seen ++ r ∷ [])
                      (omega (arith, long, too_few offset (length seen) w))
                    ∙ sym (
                        window_short offset count seen
                          (omega (arith, too_few offset (length seen) w))) in
                  rw (filled, q, run, w)
                    (rw (long, skip) at (next (λ m. n (sym (ap length skip) ∙ m))))
            ]
      ]

  -- For at least one result, each with at least one row and in order, over rows that the fields of
  -- ORDER BY can compare, and a count that is not 0: merging by ORDER BY with a limit returns the rows
  -- that merging by ORDER BY without one returns, less the first `offset` of them, and of the rest at
  -- most the first `count`.
  pub merge_ordered_limit-window :
      (rs : List Row) (rss : List (List Row))
      → 0 < count
      → All (IsResult o) (rs ∷ rss)
      → (out : List Row) × (merge_ordered fields (rs ∷ rss) ≡ ok out)
        × (merge_ordered_limit fields offset count (rs ∷ rss) ≡ ok (window offset count out))
  unfolding merge_ordered merge_ordered_limit
  merge_ordered_limit-window rs rss positive h =
      let all = rs ∷ rss in
      let (out, run, s, t) = merge_ordered-IsSorted o rs rss h in
      let empty : window offset count [] ≡ [] =
        window_short {Row = Row} offset count [] (omega arith) in
      let first =
        loops (suc (total all)) (start all) [] out
          (omega (arith, ap (tally_all (λ r. true)) (start-pendings o all), total-tally o all))
          (start-Open o all h) tt tt (λ m. let z = sym (ap length empty) ∙ m in omega (arith, z))
          run in
      (
        out,
        run,
        subst
            (λ x.
              order_limit_loop fields offset count (suc (total all)) (start all) 0 x
              ≡ ok (window offset count out))
            empty first,
      )
