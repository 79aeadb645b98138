-- ===== src/Merge/Limit.antt =====
-- Merging with a limit gives the part of the merged rows that the limit asks for.
use dbpack.Common.{
  ℕ, zero, suc, ◌<◌, ◌≤◌, ◌≡◌, ◌⊎◌, refl, sym, ◌∙◌, ap, List, [], ◌∷◌, ◌++◌, Bool, true, false, ltb,
  ◌==◌, ==_iff, if◌then◌else◌, length, length-append, inl, inr, Bool-cases, arith,
}
use mathlib.Core.Path.{subst}
use dbpack.Cond.{Result, ok, ok-injective}
use dbpack.Cond.Build.Loops.{append_snoc, append_nil}
use dbpack.Merge.{merge_plain, merge_limit, Source, Window, work, start, all_ended, in_front}
use dbpack.Merge.Decoded.{Decodable, merge_plain-pure, merge_limit-pure}
use dbpack.Merge.Pure.{
  pure_visit, pure_round, pure_merge_loop, pure_merge_plain, pure_limit_visit, pure_limit_round,
  pure_limit_loop, pure_merge_limit,
}
use dbpack.Merge.Cut.{window, window_full, window_snoc, window_short}
use dbpack.Merge.Plain.{round-work, pure_merge-tally}

append_assoc : {A : Type 0} (xs ys zs : List A) → (xs ++ ys) ++ zs ≡ xs ++ (ys ++ zs)
append_assoc [] ys zs = refl
append_assoc (x ∷ xs) ys zs = ap (λ l. x ∷ l) (append_assoc xs ys zs)

module _ {Row : Type 0} (offset count : ℕ) where
  -- A pure_round of the loop with the limit, from the rows seen before it: it does what the pure_round
  -- without a limit does, or the window is full and it has made progress.
  abbrev Follows : List (Source Row) → List Row → Window Row → List (Source Row) × List Row → Type 0
  Follows ss seen w (ss', new) =
      (w.sources ≡ ss')
        × (w.row_count ≡ length (seen ++ new))
        × (w.rows ≡ window offset count (seen ++ new))
      ⊎ (length w.rows ≡ count)
        × (w.rows ≡ window offset count (seen ++ new))
        × (work w.sources < work ss)

  in_front-Follows :
      (old s : Source Row) (ss : List (Source Row)) (seen : List Row) (w : Window Row)
      (rest : List (Source Row) × List Row)
      → work (s ∷ []) ≤ work (old ∷ [])
      → Follows ss seen w rest
      → Follows (old ∷ ss) seen (in_front s w) (s ∷ rest.0, rest.1)
  in_front-Follows old s ss seen w rest l (inl (a, n, r)) = inl (ap (λ x. s ∷ x) a, n, r)
  in_front-Follows old s ss seen w rest l (inr (c, r, m)) = inr (c, r, omega (arith, l, m))

  shift :
      (ss : List (Source Row)) (seen : List Row) (r : Row) (w : Window Row)
      (rest : List (Source Row) × List Row)
      → Follows ss (seen ++ r ∷ []) w rest
      → Follows ss seen w (rest.0, r ∷ rest.1)
  shift ss seen r w rest h = rw append_snoc at h

  length_snoc : (seen : List Row) (r : Row) → length (seen ++ r ∷ []) ≡ suc (length seen)
  length_snoc seen r = omega (arith, length-append seen (r ∷ []))

  -- The pure_visit of a result with a row, where the row is taken, and where it is not.
  taken :
      (seen : List Row) (r : Row)
      → offset ≤ length seen
      → (length (window offset count seen) == count) ≡ false
      → window offset count (seen ++ r ∷ []) ≡ window offset count seen ++ r ∷ []
  taken seen r l e =
      window_snoc offset count seen r l
        (λ q. let t = (==_iff (length (window offset count seen)) count).1 q in cc)

  skipped :
      (seen : List Row) (r : Row)
      → suc (length seen) ≤ offset
      → window offset count (seen ++ r ∷ []) ≡ window offset count seen
  skipped seen r l =
      window_short offset count (seen ++ r ∷ []) (omega (arith, length_snoc seen r))
      ∙ sym (window_short offset count seen (omega arith))

  abbrev Next : List (Source Row) → Type 0
  Next ss =
      (more : List Row)
      → Follows ss more (pure_limit_round offset count ss (length more) (window offset count more))
          (pure_round ss)

  Next-row :
      (ss : List (Source Row)) (seen : List Row) (r : Row) (rows : List Row)
      → Next ss
      → window offset count (seen ++ r ∷ []) ≡ rows
      → Follows ss seen
          (pure_limit_round offset count ss (suc (length seen)) rows)
          ((pure_round ss).0, r ∷ (pure_round ss).1)
  Next-row ss seen r rows next e =
      shift ss seen r _ (pure_round ss) (rw (length_snoc seen r, e) at (next (seen ++ r ∷ [])))

  visit-Follows :
      (rs : List Row) (b : Bool) (ss : List (Source Row)) (seen : List Row)
      → Next ss
      → Follows
          (record { left = rs; ended = b } ∷ ss)
          seen
          (pure_limit_visit offset count rs b ss
            (pure_limit_round offset count ss)
            (length seen)
            (window offset count seen))
          (pure_visit rs b (pure_round ss))
  visit-Follows rs true ss seen next =
      let s : Source Row = record { left = rs; ended = true } in
      in_front-Follows s s ss seen _ (pure_round ss) (omega arith) (next seen)
  visit-Follows [] false ss seen next =
      in_front-Follows (record { left = []; ended = false }) (record { left = []; ended = true }) ss
        seen _ (pure_round ss) (omega arith) (next seen)
  visit-Follows (r ∷ rs) false ss seen next =
      let old : Source Row = record { left = r ∷ rs; ended = false } in
      let s : Source Row = record { left = rs; ended = false } in
      elim (Bool-cases (ltb offset (suc (length seen)))) [
        | inl e ↦ elim (Bool-cases (length (window offset count seen) == count)) [
          | inl q ↦
              let full = (==_iff (length (window offset count seen)) count).0 q in
              rw (e, q)
                (inr (
                  full,
                  sym (window_full offset count seen (r ∷ (pure_round ss).1) full),
                  omega arith,
                ))
          | inr q ↦
              rw (e, q)
                (in_front-Follows old s ss seen _ ((pure_round ss).0, r ∷ (pure_round ss).1)
                  (omega arith) (Next-row ss seen r _ next (taken seen r (ground arith) q)))
        ]
        | inr e ↦ rw e (
            in_front-Follows old s ss seen _ ((pure_round ss).0, r ∷ (pure_round ss).1)
              (omega arith) (Next-row ss seen r _ next (skipped seen r (ground arith))))
      ]

  round-Follows : (ss : List (Source Row)) → Next ss
  unfolding pure_round pure_limit_round
  round-Follows [] seen = inl (refl, rw append_nil, rw append_nil)
  round-Follows (s ∷ ss) seen = visit-Follows s.left s.ended ss seen (round-Follows ss)

  -- A pure_round whose window is full changes no more than the sources.
  abbrev Kept : List (Source Row) → List Row → Window Row → Type 0
  Kept ss rows w =
      (w.rows ≡ rows)
      × (work w.sources ≤ work ss)
      × (all_ended w.sources ≡ false → work w.sources < work ss)

  visit-Kept :
      (rs : List Row) (b : Bool) (ss : List (Source Row)) (n : ℕ) (rows : List Row)
      → length rows ≡ count
      → ((m : ℕ) → Kept ss rows (pure_limit_round offset count ss m rows))
      → Kept
          (record { left = rs; ended = b } ∷ ss)
          rows
          (pure_limit_visit offset count rs b ss (pure_limit_round offset count ss) n rows)
  visit-Kept rs true ss n rows full next =
      let (r, l, m) = next n in (r, omega (arith, l), λ e. let k = m e in omega (arith, k))
  visit-Kept [] false ss n rows full next =
      let (r, l, m) = next n in (r, omega (arith, l), λ e. omega (arith, l))
  visit-Kept (r ∷ rs) false ss n rows full next = elim (Bool-cases (ltb offset (suc n))) [
    | inl e ↦
        let q = (==_iff (length rows) count).1 full in
        rw (e, q) (refl, omega arith, λ e. omega arith)
    | inr e ↦ let (k, l, m) = next (suc n) in rw e (k, omega (arith, l), λ e. omega (arith, l))
  ]

  round-Kept :
      (ss : List (Source Row)) (n : ℕ) (rows : List Row)
      → length rows ≡ count
      → Kept ss rows (pure_limit_round offset count ss n rows)
  unfolding pure_limit_round
  round-Kept [] n rows full = (refl, omega arith, λ e. cc)
  round-Kept (s ∷ ss) n rows full =
      visit-Kept s.left s.ended ss n rows full (λ m. round-Kept ss m rows full)

  limit_loop_full :
      (f : ℕ) (w : Window Row)
      → length w.rows ≡ count
      → work w.sources < f
      → pure_limit_loop offset count f w ≡ ok w.rows
  unfolding pure_limit_loop
  limit_loop_full zero w full l = absurd (omega arith)
  limit_loop_full (suc f) w full l =
      let w' = pure_limit_round offset count w.sources w.row_count w.rows in
      let (same, le, less) = round-Kept w.sources w.row_count w.rows full in
      elim (Bool-cases (all_ended w'.sources)) [
        | inl e ↦ rw e (ap ok same)
        | inr e ↦
            let m = less e in
            rw e (limit_loop_full f w' (ap length same ∙ full) (omega (arith, m)) ∙ ap ok same)
      ]

  merge_loop-more :
      (f : ℕ) (ss : List (Source Row)) (rows out : List Row)
      → pure_merge_loop f ss rows ≡ ok out
      → (more : List Row) × (out ≡ rows ++ more)
  unfolding pure_merge_loop
  merge_loop-more zero ss rows out e = cc
  merge_loop-more (suc f) ss rows out e = elim (Bool-cases (all_ended (pure_round ss).0)) [
    | inl q ↦ ((pure_round ss).1, sym (ok-injective (rw q at e)))
    | inr q ↦
        let (more, same) =
          merge_loop-more f (pure_round ss).0 (rows ++ (pure_round ss).1) out (rw q at e) in
        ((pure_round ss).1 ++ more, same ∙ append_assoc rows (pure_round ss).1 more)
  ]

  merge_loop-round :
      (f : ℕ) (ss : List (Source Row)) (rows out : List Row)
      → pure_merge_loop (suc f) ss rows ≡ ok out
      → (more : List Row) × (out ≡ (rows ++ (pure_round ss).1) ++ more)
  unfolding pure_merge_loop
  merge_loop-round f ss rows out e = elim (Bool-cases (all_ended (pure_round ss).0)) [
    | inl q ↦ ([], sym (ok-injective (rw q at e)) ∙ sym (append_nil (rows ++ (pure_round ss).1)))
    | inr q ↦ merge_loop-more f (pure_round ss).0 (rows ++ (pure_round ss).1) out (rw q at e)
  ]

  limit_step :
      (f : ℕ) (v w : Window Row)
      → pure_limit_round offset count v.sources v.row_count v.rows ≡ w
      → pure_limit_loop offset count (suc f) v
        ≡ (if all_ended w.sources then ok w.rows else pure_limit_loop offset count f w)
  unfolding pure_limit_loop
  limit_step f v w e =
      ap (λ x. if all_ended x.sources then ok x.rows else pure_limit_loop offset count f x) e

  same_window :
      (w : Window Row) (ss : List (Source Row)) (n : ℕ) (rows : List Row)
      → w.sources ≡ ss
      → w.row_count ≡ n
      → w.rows ≡ rows
      → w ≡ record { sources = ss; row_count = n; rows = rows }
  same_window w ss n rows a b c = rw (sym a, sym b, sym c)

  ended_or :
      (b : Bool) (x : List Row) (other : Result (List Row))
      → other ≡ ok x
      → (if b then ok x else other) ≡ ok x
  ended_or true x other e = refl
  ended_or false x other e = e

  -- The two loops, after the rows seen.
  loops :
      (f : ℕ) (ss : List (Source Row)) (seen out : List Row)
      → work ss < f
      → pure_merge_loop f ss seen ≡ ok out
      → pure_limit_loop offset count f
          (record { sources = ss; row_count = length seen; rows = window offset count seen })
        ≡ ok (window offset count out)
  unfolding pure_merge_loop
  loops zero ss seen out l e = absurd (omega arith)
  loops (suc f) ss seen out l e =
      let v : Window Row = record {
        sources = ss;
        row_count = length seen;
        rows = window offset count seen;
      } in
      let w = pure_limit_round offset count ss (length seen) (window offset count seen) in
      let ss' = (pure_round ss).0 in
      let new = (pure_round ss).1 in
      elim (round-Follows ss seen) [
        | inl (a, n, r) ↦
            let step = limit_step f v _ (same_window w ss' (length (seen ++ new)) _ a n r) in
            elim (Bool-cases (all_ended ss')) [
              | inl q ↦
                  step ∙ rw q (ap (λ x. ok (window offset count x)) (ok-injective (rw q at e)))
              | inr q ↦
                  let m = round-work ss q in
                  step ∙ rw q (loops f ss' (seen ++ new) out (omega (arith, m)) (rw q at e))
            ]
        | inr (full, r, m) ↦
            let (more, same) = merge_loop-round f ss seen out e in
            let window_same =
              window_full offset count (seen ++ new) more (sym (ap length r) ∙ full) in
            limit_step f v w refl
            ∙ ended_or (all_ended w.sources) w.rows (pure_limit_loop offset count f w)
                (limit_loop_full f w full (omega (arith, m)))
            ∙ ap ok r
            ∙ ap ok (sym window_same)
            ∙ ap (λ x. ok (window offset count x)) (sym same)
      ]

  pure_limit-window :
      (rs : List Row) (rss : List (List Row))
      → (out : List Row) × (pure_merge_plain (rs ∷ rss) ≡ ok out)
        × (pure_merge_limit offset count (rs ∷ rss) ≡ ok (window offset count out))
  unfolding pure_merge_plain pure_merge_limit
  pure_limit-window rs rss =
      let (out, run, t) = pure_merge-tally rs rss in
      let ss = start (rs ∷ rss) in
      let empty : window offset count [] ≡ [] =
        window_short {Row = Row} offset count [] (omega arith) in
      let first = loops (suc (work ss)) ss [] out (omega arith) run in
      (
        out,
        run,
        subst
            (λ x.
              pure_limit_loop offset count (suc (work ss))
                (record { sources = ss; row_count = 0; rows = x })
              ≡ ok (window offset count out))
            empty first,
      )

  -- For at least one result, whose rows can all be decoded, merging with a limit returns the rows that
  -- merging without one returns, less the first `offset` of them, and of the rest at most the first
  -- `count`.
  pub merge_limit-window :
      (decodes : Row → Bool) (rs : List Row) (rss : List (List Row))
      → Decodable decodes (rs ∷ rss)
      → (out : List Row) × (merge_plain decodes (rs ∷ rss) ≡ ok out)
        × (merge_limit decodes offset count (rs ∷ rss) ≡ ok (window offset count out))
  merge_limit-window decodes rs rss h =
      let (out, run, cut) = pure_limit-window rs rss in
      (
        out,
        merge_plain-pure decodes rs rss h ∙ run,
        merge_limit-pure decodes offset count rs rss h ∙ cut,
      )
