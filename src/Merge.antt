-- ===== src/Merge.antt =====
-- The results of a SELECT on several databases, merged into one: pkg/plan/result.go.
mod Pure
mod Decoded
pub mod Plain
pub mod Cut
pub mod Limit
pub mod Ordered
mod Examples
use dbpack.Common.{
  ℕ, zero, suc, ◌+◌, List, [], ◌∷◌, ◌++◌, Bool, true, false, ◌&&◌, ltb, ◌==◌, if◌then◌else◌, length,
}
use dbpack.Cond.{Result, ok, panic, stuck, ◌>>=◌}

module _ (Row : Type 0) where
  -- A result in the course of merging: the rows from its `rowIndexes[i]` on, and its `endResult[i]`.
  pub record Source : Type 0 where
    pub left : List Row
    pub ended : Bool

  -- The local variables of `mergeResultWithLimit` that a round changes.
  pub record Window : Type 0 where
    pub sources : List Source
    pub row_count : ℕ
    pub rows : List Row

-- The number of rows and of results that are not ended: enough rounds for a loop.
abbrev pub work_of : {Row : Type 0} → Source Row → ℕ
work_of s = length s.left + (if s.ended then 0 else 1)

module _ {Row : Type 0} where
  abbrev pub work : List (Source Row) → ℕ
  work [] = 0
  work (s ∷ ss) = work_of s + work ss

  abbrev pub start : List (List Row) → List (Source Row)
  start [] = []
  start (rs ∷ rss) = record { left = rs; ended = false } ∷ start rss

  -- `endCount == len(endResult)`
  abbrev pub all_ended : List (Source Row) → Bool
  all_ended [] = true
  all_ended (s ∷ ss) = s.ended && all_ended ss

  abbrev pub in_front : Source Row → Window Row → Window Row
  in_front s w = record w { sources = s ∷ w.sources }

-- `decodes` says whether `Decode` of a row returns no error; `log.Panic` panics on an error.
module _ {Row : Type 0} (decodes : Row → Bool) where
  -- The visit of one result, in front of what the results behind it become, with the rows that they
  -- give.
  abbrev pub visit :
      List Row
      → Bool
      → Result (List (Source Row) × List Row)
      → Result (List (Source Row) × List Row)
  visit rs true rest = rest >>= λ (ss, rows). ok (record { left = rs; ended = true } ∷ ss, rows)
  visit [] false rest = rest >>= λ (ss, rows). ok (record { left = []; ended = true } ∷ ss, rows)
  visit (r ∷ rs) false rest =
      if decodes r
      then (rest >>= λ (ss, rows). ok (record { left = rs; ended = false } ∷ ss, r ∷ rows))
      else panic

  -- One round of `mergeResultWithoutOrderByAndLimit`: the rows that it appends.
  unfoldable pub round : List (Source Row) → Result (List (Source Row) × List Row)
  round [] = ok ([], [])
  round (s ∷ ss) = visit s.left s.ended (round ss)

  -- The loop; the fuel bounds the rounds.
  unfoldable pub merge_loop : ℕ → List (Source Row) → List Row → Result (List Row)
  unfolding round
  merge_loop zero ss rows = stuck
  merge_loop (suc f) ss rows = round ss >>= λ (ss', new).
      let rest = merge_loop f ss' (rows ++ new) in if all_ended ss' then ok (rows ++ new) else rest

  -- `mergeResultWithoutOrderByAndLimit`; `results[0]` panics where there is none.
  unfoldable pub merge_plain : List (List Row) → Result (List Row)
  unfolding merge_loop
  merge_plain [] = panic
  merge_plain (rs ∷ rss) = let ss = start (rs ∷ rss) in merge_loop (suc (work ss)) ss []

  module _ (offset count : ℕ) where
    -- The visit of one result; `next` goes on with the results behind it, which `break` leaves as
    -- they are.
    abbrev pub limit_visit :
        List Row
        → Bool
        → List (Source Row)
        → (ℕ → List Row → Result (Window Row))
        → ℕ
        → List Row
        → Result (Window Row)
    limit_visit rs true ss next n rows =
        next n rows >>= λ w. ok (in_front (record { left = rs; ended = true }) w)
    limit_visit [] false ss next n rows =
        next n rows >>= λ w. ok (in_front (record { left = []; ended = true }) w)
    limit_visit (r ∷ rs) false ss next n rows =
        let s : Source Row = record { left = rs; ended = false } in
        let taken = next (suc n) (rows ++ r ∷ []) >>= λ w. ok (in_front s w) in
        if ltb offset (suc n)
        then (if length rows == count
            then ok (record { sources = s ∷ ss; row_count = suc n; rows = rows })
            else if decodes r
            then taken
            else panic)
        else (next (suc n) rows >>= λ w. ok (in_front s w))

    -- One round of `mergeResultWithLimit`: `break` ends the round, and not the loop around it.
    unfoldable pub limit_round : List (Source Row) → ℕ → List Row → Result (Window Row)
    limit_round [] n rows = ok (record { sources = []; row_count = n; rows = rows })
    limit_round (s ∷ ss) n rows = limit_visit s.left s.ended ss (limit_round ss) n rows

    unfoldable pub limit_loop : ℕ → Window Row → Result (List Row)
    unfolding limit_round
    limit_loop zero w = stuck
    limit_loop (suc f) w = limit_round w.sources w.row_count w.rows >>= λ w'.
        let rest = limit_loop f w' in if all_ended w'.sources then ok w'.rows else rest

    -- `mergeResultWithLimit`
    unfoldable pub merge_limit : List (List Row) → Result (List Row)
    unfolding limit_loop
    merge_limit [] = panic
    merge_limit (rs ∷ rss) =
        let ss = start (rs ∷ rss) in
        limit_loop (suc (work ss)) (record { sources = ss; row_count = 0; rows = [] })
