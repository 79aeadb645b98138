-- ===== src/Uuid/Segment.antt =====
-- Numbers from segments of a table, `SegmentWorker` of pkg/misc/uuid/segment.go.
use dbpack.Common.{
  ℕ, ◌+◌, ◌-◌, ◌^◌, ◌<◌, ◌≡◌, refl, List, [], ◌∷◌, Bool, true, false, All, All-map, if◌then◌else◌,
  ltb, Option, none, some, arith,
}
use dbpack.Common.Int.{ℤ, pos, negsuc, pos_part, ◌≤ℤ◌, leb_ℤ, add64}

pub record SegmentWorker : Type 0 where
  pub min : ℤ
  pub max : ℤ
  pub step : ℤ

-- Where the transaction on the table fails, if it does.
pub data Outcome : Type 0 where
  begin_fails query_fails update_fails commit_fails committed : Outcome

-- `max_id` in the row of the business id; a row that is missing reads as 0.
pub max_id : Option ℤ → ℤ
max_id none = pos 0
max_id (some m) = m

-- What a column of the type `int`, which has 32 bits, stores: the nearest number that fits. (A server
-- in strict mode refuses other numbers, which is the outcome `update_fails`.)
abbrev pub stored : ℤ → ℤ
stored (pos n) = if ltb n (2 ^ 31) then pos n else pos (2 ^ 31 - 1)
stored (negsuc n) = if ltb n (2 ^ 31) then negsuc n else negsuc (2 ^ 31 - 1)

-- `UPDATE segment SET max_id = ? WHERE business_id = ?`, which adds no row.
pub update : Option ℤ → ℤ → Option ℤ
update none m = none
update (some old) m = some (stored m)

-- `fetchSegmentFromDB`: whether it returns no error, the worker, and the row.
unfoldable pub fetch_segment : Outcome → SegmentWorker → Option ℤ → Bool × SegmentWorker × Option ℤ
unfolding max_id update
fetch_segment committed w row = (
  true,
  record w { min = max_id row; max = add64 (max_id row) w.step },
  update row (add64 (max_id row) w.step),
)
fetch_segment _ w row = (false, w, row)

-- `reload`, for the outcomes of its attempts; with no attempt left it still waits.
unfoldable pub reload : List Outcome → SegmentWorker → Option ℤ → Option (SegmentWorker × Option ℤ)
unfolding fetch_segment
reload [] w row = none
reload (o ∷ os) w row =
    let (good, w', row') = fetch_segment o w row in
    let rest = reload os w' row' in if good then some (w', row') else rest

increment : SegmentWorker × Option ℤ → ℤ × SegmentWorker × Option ℤ
increment (w, row) = let id = add64 w.min (pos 1) in (id, record w { min = id }, row)

advanced : Option (SegmentWorker × Option ℤ) → Option (ℤ × SegmentWorker × Option ℤ)
unfolding increment
advanced none = none
advanced (some s) = some (increment s)

-- One round of `ProduceID`, for the outcomes of the attempts of `reload`: the number that goes into
-- the channel.
unfoldable pub produce_id :
    List Outcome → SegmentWorker → Option ℤ → Option (ℤ × SegmentWorker × Option ℤ)
unfolding increment advanced reload
produce_id os w row =
    if leb_ℤ w.max w.min then advanced (reload os w row) else some (increment (w, row))

-- The segments that workers get from one row, in the order of their attempts.
unfoldable pub segments : List (Outcome × SegmentWorker) → Option ℤ → List (ℤ × ℤ)
unfolding fetch_segment
segments [] row = []
segments ((o, w) ∷ os) row =
    let (good, w', row') = fetch_segment o w row in
    let rest = segments os row' in if good then (w'.min, w'.max) ∷ rest else rest

-- The sum of the steps, which are not negative.
abbrev pub total : List (Outcome × SegmentWorker) → ℕ
total [] = 0
total ((o, w) ∷ os) = pos_part w.step + total os

abbrev pub IsForward : List (Outcome × SegmentWorker) → Type 0
IsForward = All (λ a. pos 0 ≤ℤ a.1.step)

-- Each segment ends before those that come after it start.
abbrev pub Ascending : List (ℤ × ℤ) → Type 0
Ascending [] = Unit
Ascending (s ∷ ss) = All (λ r. s.1 ≤ℤ r.0) ss × Ascending ss

granted :
    (m : ℕ) (step : ℤ)
    → pos 0 ≤ℤ step
    → m + pos_part step < 2 ^ 31
    → add64 (pos m) step ≡ pos (m + pos_part step)
unfolding add64
granted m (pos s) h l = ground arith
granted m (negsuc s) h l = absurd (omega arith)

stored-small : (n : ℕ) → n < 2 ^ 31 → stored (pos n) ≡ pos n
stored-small n l = ground arith

segments-from :
    (os : List (Outcome × SegmentWorker)) (m : ℕ)
    → IsForward os
    → m + total os < 2 ^ 31
    → All (λ r. pos m ≤ℤ r.0) (segments os (some (pos m)))
unfolding segments fetch_segment max_id update
segments-from [] m f l = tt
segments-from ((committed, w) ∷ os) m f l =
    rw (granted m w.step f.0 (omega arith), stored-small (m + pos_part w.step) (omega arith))
      (
        omega arith,
        All-map {P = λ r. pos (m + pos_part w.step) ≤ℤ r.0} _ (λ r h. omega arith)
            (segments-from os (m + pos_part w.step) f.1 (omega arith)),
      )
segments-from ((begin_fails, w) ∷ os) m f l = segments-from os m f.1 (omega arith)
segments-from ((query_fails, w) ∷ os) m f l = segments-from os m f.1 (omega arith)
segments-from ((update_fails, w) ∷ os) m f l = segments-from os m f.1 (omega arith)
segments-from ((commit_fails, w) ∷ os) m f l = segments-from os m f.1 (omega arith)

-- Where the table has a row for the business id, with a number that is not negative, and the steps
-- are not negative and their sum with it is below 2^31: the segments that any workers get from it, in
-- whatever order and with whatever failures, do not overlap, and each ends before the later ones.
pub segments-Ascending :
    (os : List (Outcome × SegmentWorker)) (m : ℕ)
    → IsForward os
    → m + total os < 2 ^ 31
    → Ascending (segments os (some (pos m)))
unfolding segments fetch_segment max_id update
segments-Ascending [] m f l = tt
segments-Ascending ((committed, w) ∷ os) m f l =
    rw (granted m w.step f.0 (omega arith), stored-small (m + pos_part w.step) (omega arith))
      (
        segments-from os (m + pos_part w.step) f.1 (omega arith),
        segments-Ascending os (m + pos_part w.step) f.1 (omega arith),
      )
segments-Ascending ((begin_fails, w) ∷ os) m f l = segments-Ascending os m f.1 (omega arith)
segments-Ascending ((query_fails, w) ∷ os) m f l = segments-Ascending os m f.1 (omega arith)
segments-Ascending ((update_fails, w) ∷ os) m f l = segments-Ascending os m f.1 (omega arith)
segments-Ascending ((commit_fails, w) ∷ os) m f l = segments-Ascending os m f.1 (omega arith)

-- Where the table has no row for the business id, every segment that a worker gets starts at 0.
pub segments-missing_row :
    (os : List (Outcome × SegmentWorker)) → All (λ r. r.0 ≡ pos 0) (segments os none)
unfolding segments fetch_segment max_id update
segments-missing_row [] = tt
segments-missing_row ((committed, w) ∷ os) = (refl, segments-missing_row os)
segments-missing_row ((begin_fails, w) ∷ os) = segments-missing_row os
segments-missing_row ((query_fails, w) ∷ os) = segments-missing_row os
segments-missing_row ((update_fails, w) ∷ os) = segments-missing_row os
segments-missing_row ((commit_fails, w) ∷ os) = segments-missing_row os
