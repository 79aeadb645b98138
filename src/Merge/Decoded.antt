-- ===== src/Merge/Decoded.antt =====
-- Where every row can be decoded, merging is what it is without the panics.
use dbpack.Common.{
  ℕ, zero, suc, ◌≡◌, refl, List, [], ◌∷◌, ◌++◌, Bool, true, false, All, Bool-cases, inl, inr, ltb,
  ◌==◌, length,
}
use dbpack.Cond.{ok}
use dbpack.Merge.{
  Source, Window, work, start, visit, round, merge_loop, merge_plain, limit_visit, limit_round,
  limit_loop, merge_limit,
}
use dbpack.Merge.Pure.{
  pure_visit, pure_round, pure_merge_loop, pure_merge_plain, pure_limit_visit, pure_limit_round,
  pure_limit_loop, pure_merge_limit,
}

module _ {Row : Type 0} (decodes : Row → Bool) where
  abbrev pub Readable : List Row → Type 0
  Readable rs = All (λ r. decodes r ≡ true) rs

  -- Every row of the results can be decoded.
  abbrev pub Decodable : List (List Row) → Type 0
  Decodable rss = All Readable rss

  abbrev Left : List (Source Row) → Type 0
  Left ss = All (λ s. Readable s.left) ss

  start-Left : (rss : List (List Row)) → Decodable rss → Left (start rss)
  start-Left [] h = tt
  start-Left (rs ∷ rss) h = (h.0, start-Left rss h.1)

  round-pure :
      (ss : List (Source Row))
      → Left ss
      → (round decodes ss ≡ ok (pure_round ss)) × Left (pure_round ss).0
  unfolding round pure_round
  round-pure [] h = (refl, tt)
  round-pure (s ∷ ss) h =
      let (e, l) = round-pure ss h.1 in rw e (here s.left s.ended (pure_round ss) h.0 l)
    where
      here :
          (rs : List Row) (b : Bool) (rest : List (Source Row) × List Row)
          → Readable rs
          → Left rest.0
          → (visit decodes rs b (ok rest) ≡ ok (pure_visit rs b rest))
            × Left (pure_visit rs b rest).0
      here rs true rest h l = (refl, (h, l))
      here [] false rest h l = (refl, (tt, l))
      here (r ∷ rs) false rest h l = (rw h.0 refl, (h.1, l))

  merge_loop-pure :
      (f : ℕ) (ss : List (Source Row)) (rows : List Row)
      → Left ss
      → merge_loop decodes f ss rows ≡ pure_merge_loop f ss rows
  unfolding merge_loop pure_merge_loop
  merge_loop-pure zero ss rows h = refl
  merge_loop-pure (suc f) ss rows h =
      let (e, l) = round-pure ss h in
      rw (e, merge_loop-pure f (pure_round ss).0 (rows ++ (pure_round ss).1) l) refl

  pub merge_plain-pure :
      (rs : List Row) (rss : List (List Row))
      → Decodable (rs ∷ rss)
      → merge_plain decodes (rs ∷ rss) ≡ pure_merge_plain (rs ∷ rss)
  unfolding merge_plain pure_merge_plain
  merge_plain-pure rs rss h =
      merge_loop-pure (suc (work (start (rs ∷ rss)))) (start (rs ∷ rss)) []
        (start-Left (rs ∷ rss) h)

  module _ (offset count : ℕ) where
    limit_round-pure :
        (ss : List (Source Row)) (n : ℕ) (rows : List Row)
        → Left ss
        → (limit_round decodes offset count ss n rows
            ≡ ok (pure_limit_round offset count ss n rows))
          × Left (pure_limit_round offset count ss n rows).sources
    unfolding limit_round pure_limit_round
    limit_round-pure [] n rows h = (refl, tt)
    limit_round-pure (s ∷ ss) n rows h =
        here s.left s.ended ss n rows h.0 h.1 (λ m more. limit_round-pure ss m more h.1)
      where
        here :
            (rs : List Row) (b : Bool) (ss : List (Source Row)) (n : ℕ) (rows : List Row)
            → Readable rs
            → Left ss
            → ((m : ℕ) (more : List Row)
                → (limit_round decodes offset count ss m more
                    ≡ ok (pure_limit_round offset count ss m more))
                  × Left (pure_limit_round offset count ss m more).sources)
            → (limit_visit decodes offset count rs b ss (limit_round decodes offset count ss) n rows
                ≡ ok (
                    pure_limit_visit offset count rs b ss
                      (pure_limit_round offset count ss)
                      n
                      rows))
              × Left
                  (pure_limit_visit offset count rs b ss
                    (pure_limit_round offset count ss)
                    n
                    rows).sources
        here rs true ss n rows h l next = let (e, k) = next n rows in (rw e refl, (h, k))
        here [] false ss n rows h l next = let (e, k) = next n rows in (rw e refl, (tt, k))
        here (r ∷ rs) false ss n rows h l next =
            let (e, k) = next (suc n) (rows ++ r ∷ []) in
            let (e', k') = next (suc n) rows in
            elim (Bool-cases (ltb offset (suc n))) [
              | inl q ↦ elim (Bool-cases (length rows == count)) [
                | inl w ↦ rw (q, w) (refl, (h.1, l))
                | inr w ↦ rw (q, w, h.0, e) (refl, (h.1, k))
              ]
              | inr q ↦ rw (q, e') (refl, (h.1, k'))
            ]

    limit_loop-pure :
        (f : ℕ) (w : Window Row)
        → Left w.sources
        → limit_loop decodes offset count f w ≡ pure_limit_loop offset count f w
    unfolding limit_loop pure_limit_loop
    limit_loop-pure zero w h = refl
    limit_loop-pure (suc f) w h =
        let (e, l) = limit_round-pure w.sources w.row_count w.rows h in
        rw (e, limit_loop-pure f (pure_limit_round offset count w.sources w.row_count w.rows) l)
          refl

    pub merge_limit-pure :
        (rs : List Row) (rss : List (List Row))
        → Decodable (rs ∷ rss)
        → merge_limit decodes offset count (rs ∷ rss) ≡ pure_merge_limit offset count (rs ∷ rss)
    unfolding merge_limit pure_merge_limit
    merge_limit-pure rs rss h =
        limit_loop-pure (suc (work (start (rs ∷ rss))))
          (record { sources = start (rs ∷ rss); row_count = 0; rows = [] })
          (start-Left (rs ∷ rss) h)
