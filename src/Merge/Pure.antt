-- ===== src/Merge/Pure.antt =====
-- Merging of rows that can all be decoded, without the panics.
use dbpack.Common.{
  ℕ, zero, suc, List, [], ◌∷◌, ◌++◌, Bool, true, false, ltb, ◌==◌, if◌then◌else◌, length,
}
use dbpack.Cond.{Result, ok, panic, stuck}
use dbpack.Merge.{Source, Window, work, start, all_ended, in_front}

module _ {Row : Type 0} where
  abbrev pub pure_visit :
      List Row → Bool → List (Source Row) × List Row → List (Source Row) × List Row
  pure_visit rs true (ss, rows) = (record { left = rs; ended = true } ∷ ss, rows)
  pure_visit [] false (ss, rows) = (record { left = []; ended = true } ∷ ss, rows)
  pure_visit (r ∷ rs) false (ss, rows) = (record { left = rs; ended = false } ∷ ss, r ∷ rows)

  unfoldable pub pure_round : List (Source Row) → List (Source Row) × List Row
  pure_round [] = ([], [])
  pure_round (s ∷ ss) = pure_visit s.left s.ended (pure_round ss)

  unfoldable pub pure_merge_loop : ℕ → List (Source Row) → List Row → Result (List Row)
  unfolding pure_round
  pure_merge_loop zero ss rows = stuck
  pure_merge_loop (suc f) ss rows =
      let (ss', new) = pure_round ss in
      let rest = pure_merge_loop f ss' (rows ++ new) in
      if all_ended ss' then ok (rows ++ new) else rest

  unfoldable pub pure_merge_plain : List (List Row) → Result (List Row)
  unfolding pure_merge_loop
  pure_merge_plain [] = panic
  pure_merge_plain (rs ∷ rss) = let ss = start (rs ∷ rss) in pure_merge_loop (suc (work ss)) ss []

  module _ (offset count : ℕ) where
    abbrev pub pure_limit_visit :
        List Row
        → Bool
        → List (Source Row)
        → (ℕ → List Row → Window Row)
        → ℕ
        → List Row
        → Window Row
    pure_limit_visit rs true ss next n rows =
        in_front (record { left = rs; ended = true }) (next n rows)
    pure_limit_visit [] false ss next n rows =
        in_front (record { left = []; ended = true }) (next n rows)
    pure_limit_visit (r ∷ rs) false ss next n rows =
        let s : Source Row = record { left = rs; ended = false } in
        if ltb offset (suc n)
        then (if length rows == count
            then record { sources = s ∷ ss; row_count = suc n; rows = rows }
            else in_front s (next (suc n) (rows ++ r ∷ [])))
        else in_front s (next (suc n) rows)

    unfoldable pub pure_limit_round : List (Source Row) → ℕ → List Row → Window Row
    pure_limit_round [] n rows = record { sources = []; row_count = n; rows = rows }
    pure_limit_round (s ∷ ss) n rows =
        pure_limit_visit s.left s.ended ss (pure_limit_round ss) n rows

    unfoldable pub pure_limit_loop : ℕ → Window Row → Result (List Row)
    unfolding pure_limit_round
    pure_limit_loop zero w = stuck
    pure_limit_loop (suc f) w =
        let w' = pure_limit_round w.sources w.row_count w.rows in
        let rest = pure_limit_loop f w' in if all_ended w'.sources then ok w'.rows else rest

    unfoldable pub pure_merge_limit : List (List Row) → Result (List Row)
    unfolding pure_limit_loop
    pure_merge_limit [] = panic
    pure_merge_limit (rs ∷ rss) =
        let ss = start (rs ∷ rss) in
        pure_limit_loop (suc (work ss)) (record { sources = ss; row_count = 0; rows = [] })
