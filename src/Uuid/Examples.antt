-- ===== src/Uuid/Examples.antt =====
-- Runs of `NextID`, and its theorems at concrete inputs.
use dbpack.Common.{◌*◌, ◌^◌, ◌≡◌, ◌≢◌, refl, [], ◌∷◌, true, false, arith, All, none, some, List}
use dbpack.Common.Int.{ℤ, pos}
use dbpack.Uuid.Distinct.{advance, HasWorker, next_id-distinct}
use dbpack.Uuid.Segment.{
  SegmentWorker, Outcome, committed, commit_fails, segments, Ascending, segments-Ascending,
  produce_id,
}
use dbpack.Uuid.{Package, SnowflakeWorker, next_id, generate_worker_id, init_worker}

abbrev first : Package
first = record { timestamp_and_sequence = 40; worker_id = pos (3 * 2 ^ 53) }

abbrev second : Package
second = record { timestamp_and_sequence = 40; worker_id = pos (4 * 2 ^ 53) }

first-HasWorker : HasWorker 3 first
first-HasWorker = (omega arith, refl, omega arith)

second-HasWorker : HasWorker 4 second
second-HasWorker = (omega arith, refl, omega arith)

-- An interface that is up and has no hardware address makes the package panic as it starts.
tunnel :
    generate_worker_id (record { is_up = true; is_loopback = false; hardware_addr = [] } ∷ []) 0
    ≡ none
unfolding generate_worker_id
tunnel = refl

-- `Init` refuses 1024.
too_large : init_worker (pos 1024) first ≡ none
unfolding init_worker
too_large = refl

next_id-distinct_example : (next_id (advance 2 first)).0 ≢ (next_id (advance 5 first)).0
next_id-distinct_example = next_id-distinct 3 2 5 first first-HasWorker (omega arith) (omega arith)

abbrev worker : ℤ → SnowflakeWorker
worker id = record { worker_id = id; timestamp_and_sequence = 41 }

abbrev unshifted : Package
unshifted = record { timestamp_and_sequence = 41; worker_id = pos 7 }

abbrev idle : SegmentWorker
idle = record { min = pos 0; max = pos 0; step = pos 1000 }

abbrev attempts : List (Outcome × SegmentWorker)
attempts = (committed, idle) ∷ (commit_fails, idle) ∷ (committed, idle) ∷ []

-- The first number of a worker, from a row at 3000.
produced :
    produce_id (commit_fails ∷ committed ∷ []) idle (some (pos 3000))
    ≡ some (pos 3001, record { min = pos 3001; max = pos 4000; step = pos 1000 }, some (pos 4000))
unfolding produce_id dbpack.Common.Int.add64
produced = refl

segments-Ascending_example : Ascending (segments attempts (some (pos 3000)))
segments-Ascending_example =
    segments-Ascending attempts 3000 (omega arith, (omega arith, (omega arith, tt))) (omega arith)
