-- ===== src/Merge/Plain.antt =====
-- Merging without order and limit: it ends, and no row is lost or doubled.
use dbpack.Common.{
  ℕ, zero, suc, ◌+◌, ◌<◌, ◌≤◌, ◌≡◌, ◌∙◌, refl, List, [], ◌∷◌, ◌++◌, Bool, true, false, ◌&&◌,
  if◌then◌else◌, length, inl, inr, Bool-cases, arith,
}
use dbpack.Cond.{ok}
use dbpack.Merge.{merge_plain, Source, work, start, all_ended}
use dbpack.Merge.Decoded.{Decodable, merge_plain-pure}
use dbpack.Merge.Pure.{pure_visit, pure_round, pure_merge_loop, pure_merge_plain}

and_true : (b c : Bool) → (b && c) ≡ true → (b ≡ true) × (c ≡ true)
and_true true c e = (refl, e)
and_true false c e = cc

module _ {Row : Type 0} where
  -- How many rows pass a test.
  abbrev pub tally : (Row → Bool) → List Row → ℕ
  tally p [] = 0
  tally p (r ∷ rs) = (if p r then 1 else 0) + tally p rs

  abbrev pub tally_all : (Row → Bool) → List (List Row) → ℕ
  tally_all p [] = 0
  tally_all p (rs ∷ rss) = tally p rs + tally_all p rss

  abbrev tally_left : (Row → Bool) → List (Source Row) → ℕ
  tally_left p [] = 0
  tally_left p (s ∷ ss) = tally p s.left + tally_left p ss

  pub tally-append :
      (p : Row → Bool) (rs ts : List Row) → tally p (rs ++ ts) ≡ tally p rs + tally p ts
  tally-append p [] ts = omega arith
  tally-append p (r ∷ rs) ts = omega (arith, tally-append p rs ts)

  visit-tally :
      (p : Row → Bool) (rs : List Row) (b : Bool) (rest : List (Source Row) × List Row) (n : ℕ)
      → tally p rest.1 + tally_left p rest.0 ≡ n
      → tally p (pure_visit rs b rest).1 + tally_left p (pure_visit rs b rest).0 ≡ tally p rs + n
  visit-tally p rs true rest n h = omega (arith, h)
  visit-tally p [] false rest n h = omega (arith, h)
  visit-tally p (r ∷ rs) false rest n h = omega (arith, h)

  round-tally :
      (p : Row → Bool) (ss : List (Source Row))
      → tally p (pure_round ss).1 + tally_left p (pure_round ss).0 ≡ tally_left p ss
  unfolding pure_round
  round-tally p [] = refl
  round-tally p (s ∷ ss) =
      visit-tally p s.left s.ended (pure_round ss) (tally_left p ss) (round-tally p ss)

  visit-work_le :
      (rs : List Row) (b : Bool) (rest : List (Source Row) × List Row) (n : ℕ)
      → work rest.0 ≤ n
      → work (pure_visit rs b rest).0 ≤ length rs + (if b then 0 else 1) + n
  visit-work_le rs true rest n h = omega (arith, h)
  visit-work_le [] false rest n h = omega (arith, h)
  visit-work_le (r ∷ rs) false rest n h = omega (arith, h)

  round-work_le : (ss : List (Source Row)) → work (pure_round ss).0 ≤ work ss
  unfolding pure_round
  round-work_le [] = omega arith
  round-work_le (s ∷ ss) = visit-work_le s.left s.ended (pure_round ss) (work ss) (round-work_le ss)

  visit-work :
      (rs : List Row) (b : Bool) (rest : List (Source Row) × List Row) (n : ℕ)
      → work rest.0 ≤ n
      → (all_ended rest.0 ≡ false → work rest.0 < n)
      → all_ended (pure_visit rs b rest).0 ≡ false
      → work (pure_visit rs b rest).0 < length rs + (if b then 0 else 1) + n
  visit-work rs true rest n h k e = let l = k e in omega (arith, l)
  visit-work [] false rest n h k e = omega (arith, h)
  visit-work (r ∷ rs) false rest n h k e = omega (arith, h)

  -- A pure_round that does not end all results has made progress.
  pub round-work :
      (ss : List (Source Row))
      → all_ended (pure_round ss).0 ≡ false
      → work (pure_round ss).0 < work ss
  unfolding pure_round
  round-work [] e = cc
  round-work (s ∷ ss) e =
      visit-work s.left s.ended (pure_round ss) (work ss) (round-work_le ss) (round-work ss) e

  -- A result that is ended has no rows left.
  abbrev Drained : List (Source Row) → Type 0
  Drained [] = Unit
  Drained (s ∷ ss) = (s.ended ≡ true → s.left ≡ []) × Drained ss

  visit-Drained :
      (rs : List Row) (b : Bool) (rest : List (Source Row) × List Row)
      → (b ≡ true → rs ≡ [])
      → Drained rest.0
      → Drained (pure_visit rs b rest).0
  visit-Drained rs true rest h d = (h, d)
  visit-Drained [] false rest h d = (λ e. refl, d)
  visit-Drained (r ∷ rs) false rest h d = (λ e. cc, d)

  round-Drained : (ss : List (Source Row)) → Drained ss → Drained (pure_round ss).0
  unfolding pure_round
  round-Drained [] d = tt
  round-Drained (s ∷ ss) d = visit-Drained s.left s.ended (pure_round ss) d.0 (round-Drained ss d.1)

  start-Drained : (rss : List (List Row)) → Drained (start rss)
  start-Drained [] = tt
  start-Drained (rs ∷ rss) = (λ e. cc, start-Drained rss)

  Drained-tally :
      (p : Row → Bool) (ss : List (Source Row))
      → Drained ss
      → all_ended ss ≡ true
      → tally_left p ss ≡ 0
  Drained-tally p [] d e = refl
  Drained-tally p (s ∷ ss) d e =
      let (a, b) = and_true s.ended (all_ended ss) e in
      rw (d.0 a) (omega (arith, Drained-tally p ss d.1 b))

  start-tally :
      (p : Row → Bool) (rss : List (List Row)) → tally_left p (start rss) ≡ tally_all p rss
  start-tally p [] = refl
  start-tally p (rs ∷ rss) = omega (arith, start-tally p rss)

  merge_loop-tally :
      (f : ℕ) (ss : List (Source Row)) (rows : List Row)
      → work ss < f
      → Drained ss
      → (out : List Row) × (pure_merge_loop f ss rows ≡ ok out)
        × ((p : Row → Bool) → tally p out ≡ tally p rows + tally_left p ss)
  unfolding pure_merge_loop
  merge_loop-tally zero ss rows l d = absurd (omega arith)
  merge_loop-tally (suc f) ss rows l d =
      let new = (pure_round ss).1 in
      elim (Bool-cases (all_ended (pure_round ss).0)) [
        | inl e ↦ (
          rows ++ new,
          rw e,
          λ p. omega (
            arith,
            tally-append p rows new,
            round-tally p ss,
            Drained-tally p (pure_round ss).0 (round-Drained ss d) e,
          ),
        )
        | inr e ↦
            let less = round-work ss e in
            let (out, run, t) =
              merge_loop-tally f (pure_round ss).0 (rows ++ new) (omega (arith, less))
                (round-Drained ss d) in
            (out, rw e run, λ p. omega (arith, t p, tally-append p rows new, round-tally p ss))
      ]

  pub pure_merge-tally :
      (rs : List Row) (rss : List (List Row))
      → (out : List Row) × (pure_merge_plain (rs ∷ rss) ≡ ok out)
        × ((p : Row → Bool) → tally p out ≡ tally_all p (rs ∷ rss))
  unfolding pure_merge_plain
  pure_merge-tally rs rss =
      let ss = start (rs ∷ rss) in
      let (out, run, t) =
        merge_loop-tally (suc (work ss)) ss [] (omega arith) (start-Drained (rs ∷ rss)) in
      (out, run, λ p. omega (arith, t p, start-tally p (rs ∷ rss)))

  -- For at least one result, whose rows can all be decoded, merging without order and limit ends, and
  -- of the rows that it returns as many pass a test as of all results, whatever the test.
  pub merge_plain-tally :
      (decodes : Row → Bool) (rs : List Row) (rss : List (List Row))
      → Decodable decodes (rs ∷ rss)
      → (out : List Row) × (merge_plain decodes (rs ∷ rss) ≡ ok out)
        × ((p : Row → Bool) → tally p out ≡ tally_all p (rs ∷ rss))
  merge_plain-tally decodes rs rss h =
      let (out, run, t) = pure_merge-tally rs rss in
      (out, merge_plain-pure decodes rs rss h ∙ run, t)
