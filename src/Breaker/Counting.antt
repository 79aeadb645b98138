-- ===== src/Breaker/Counting.antt =====
-- How many failures open the circuit breaker, how many successes close it, and what an open one does.
use dbpack.Common.{
  ℕ, suc, ◌+◌, ◌≤◌, ◌<◌, ◌≡◌, refl, ◌⊎◌, inl, inr, ◌≢◌, ◌∙◌, List, [], ◌∷◌, ◌++◌, true, false,
  length, arith,
}
use dbpack.Breaker.{
  closed, opened, half_open, Breaker, Step, ends, wakes, timer, pre_handle, post_handle, locked,
  forget, post_failure, post_success,
}

-- Calls that fail, each by the two readings of the clock.
unfoldable pub fail_all : List (ℕ × ℕ) → Breaker → Breaker
fail_all [] b = b
fail_all ((now, now') ∷ ts) b = fail_all ts (post_handle closed now now' true b)

-- Each failure comes within `timeout` of the one before it.
abbrev pub Timely : ℕ → ℕ → List (ℕ × ℕ) → Type 0
Timely timeout last [] = Unit
Timely timeout last ((now, now') ∷ ts) = (now ≤ last + timeout) × Timely timeout now' ts

-- A failure in the closed state, which comes in time and does not reach the threshold.
fail_counts :
    (now now' : ℕ) (b : Breaker)
    → b.state ≡ closed
    → (b.errors ≡ 0) ⊎ (now ≤ b.last_error + b.timeout)
    → suc b.errors ≢ b.error_threshold
    → post_handle closed now now' true b ≡ record b { errors = suc b.errors; last_error = now' }
unfolding post_handle locked forget post_failure
fail_counts now now' b c h n = ground arith

fail_opens :
    (now now' : ℕ) (b : Breaker)
    → b.state ≡ closed
    → (b.errors ≡ 0) ⊎ (now ≤ b.last_error + b.timeout)
    → suc b.errors ≡ b.error_threshold
    → (post_handle closed now now' true b).state ≡ opened
unfolding post_handle locked forget post_failure
fail_opens now now' b c h n = ground arith

-- Failures of a closed breaker, the first and each other one within the timeout after the one
-- before, which bring its errors to a number below the threshold, leave it closed with exactly
-- that number of errors.
pub fail_all-below :
    (ts : List (ℕ × ℕ)) (b : Breaker)
    → b.state ≡ closed
    → Timely b.timeout b.last_error ts
    → b.errors + length ts < b.error_threshold
    → ((fail_all ts b).state ≡ closed) × ((fail_all ts b).errors ≡ b.errors + length ts)
unfolding fail_all
fail_all-below [] b c h n = (c, omega arith)
fail_all-below ((now, now') ∷ ts) b c h n =
    let c' : Breaker = record b { errors = suc b.errors; last_error = now' } in
    ground (arith, fail_counts now now' b c (inr h.0) (omega arith), fail_all-below ts c' c h.1)

fail_all-reaches :
    (ts : List (ℕ × ℕ)) (now now' : ℕ) (b : Breaker)
    → b.state ≡ closed
    → (b.errors ≡ 0) ⊎ (now ≤ b.last_error + b.timeout)
    → Timely b.timeout now' ts
    → suc (b.errors + length ts) ≡ b.error_threshold
    → (fail_all ((now, now') ∷ ts) b).state ≡ opened
unfolding fail_all
fail_all-reaches [] now now' b c h r n = fail_opens now now' b c h (omega arith)
fail_all-reaches ((m, m') ∷ ts) now now' b c h r n =
    let c' : Breaker = record b { errors = suc b.errors; last_error = now' } in
    ground
      (arith, fail_counts now now' b c h (omega arith), fail_all-reaches ts m m' c' c (inr r.0) r.1)

-- Failures of a closed breaker without errors, as many as the error threshold, each but the first
-- within the timeout after the one before, leave it open, and `PreHandle` then refuses.
pub fail_all-opens :
    (now now' : ℕ) (ts : List (ℕ × ℕ)) (b : Breaker)
    → b.state ≡ closed
    → b.errors ≡ 0
    → Timely b.timeout now' ts
    → length ((now, now') ∷ ts) ≡ b.error_threshold
    → ((fail_all ((now, now') ∷ ts) b).state ≡ opened)
      × (pre_handle (fail_all ((now, now') ∷ ts) b) ≡ false)
fail_all-opens now now' ts b c z h n =
    let e = fail_all-reaches ts now now' b c (inl z) h (omega arith) in
    (e, unfold pre_handle in rw e)

-- A failure of a closed breaker with errors, more than the timeout after the last one and with a
-- threshold above one, sets the errors to one.
pub expired_failure :
    (now now' : ℕ) (b : Breaker)
    → b.state ≡ closed
    → 0 < b.errors
    → b.last_error + b.timeout < now
    → 1 < b.error_threshold
    → post_handle closed now now' true b ≡ record b { errors = 1; last_error = now' }
unfolding post_handle locked forget post_failure
expired_failure now now' b c h l n = ground arith

-- Calls that succeed.
pub succeed_all : List (ℕ × ℕ) → Breaker → Breaker
succeed_all [] b = b
succeed_all ((now, now') ∷ ts) b = succeed_all ts (post_handle half_open now now' false b)

success_counts :
    (now now' : ℕ) (b : Breaker)
    → b.state ≡ half_open
    → suc b.successes ≢ b.success_threshold
    → post_handle half_open now now' false b ≡ record b { successes = suc b.successes }
unfolding post_handle locked post_success
success_counts now now' b c n = ground arith

success_closes :
    (now now' : ℕ) (b : Breaker)
    → b.state ≡ half_open
    → suc b.successes ≡ b.success_threshold
    → post_handle half_open now now' false b
      ≡ record b { state = closed; errors = 0; successes = 0 }
unfolding post_handle locked post_success
success_closes now now' b c n = ground arith

-- In the half-open state fewer successes than are missing are counted and leave it half-open.
pub succeed_all-below :
    (ts : List (ℕ × ℕ)) (b : Breaker)
    → b.state ≡ half_open
    → b.successes + length ts < b.success_threshold
    → succeed_all ts b ≡ record b { successes = b.successes + length ts }
unfolding succeed_all
succeed_all-below [] b c h = ground arith
succeed_all-below ((now, now') ∷ ts) b c h =
    let c' : Breaker = record b { successes = suc b.successes } in
    ground (arith, success_counts now now' b c (omega arith), succeed_all-below ts c' c)

succeed_all-append :
    (ts us : List (ℕ × ℕ)) (b : Breaker)
    → succeed_all (ts ++ us) b ≡ succeed_all us (succeed_all ts b)
unfolding succeed_all
succeed_all-append [] us b = refl
succeed_all-append ((now, now') ∷ ts) us b = succeed_all-append ts us _

-- Successes of a half-open breaker, as many as are missing to the success threshold, close it
-- with both counters at 0 and nothing else changed, and `PreHandle` then passes.
pub succeed_all-closes :
    (ts : List (ℕ × ℕ)) (now now' : ℕ) (b : Breaker)
    → b.state ≡ half_open
    → suc (b.successes + length ts) ≡ b.success_threshold
    → (succeed_all (ts ++ (now, now') ∷ []) b
        ≡ record b { state = closed; errors = 0; successes = 0 })
      × (pre_handle (succeed_all (ts ++ (now, now') ∷ []) b) ≡ true)
unfolding pre_handle succeed_all post_handle
succeed_all-closes ts now now' b c h =
    let c' : Breaker = record b { successes = b.successes + length ts } in
    let e : succeed_all (ts ++ (now, now') ∷ []) b
        ≡ record b { state = closed; errors = 0; successes = 0 } =
      succeed_all-append ts ((now, now') ∷ []) b
      ∙ rw (succeed_all-below ts b c (omega arith)) (success_closes now now' c' c h) in
    (e, rw e)

-- Each step from an open breaker leaves it open, with the same timers and `PreHandle` refusing,
-- or makes it half-open, with both counters at 0 and `PreHandle` passing.
pub opened_until_timer :
    {b c : Breaker}
    → b.state ≡ opened
    → Step b c
    → (c.state ≡ opened) × (c.timers ≡ b.timers) × (pre_handle c ≡ false)
      ⊎ (c.state ≡ half_open) × (c.errors ≡ 0) × (c.successes ≡ 0) × (pre_handle c ≡ true)
unfolding timer post_handle locked forget post_failure post_success pre_handle
opened_until_timer {b} e (ends closed now now' false) = ground arith
opened_until_timer {b} e (ends closed now now' true) = ground arith
opened_until_timer {b} e (ends opened now now' failed) = ground arith
opened_until_timer {b} e (ends half_open now now' failed) = ground arith
opened_until_timer {b} e (wakes now t front back p h) = inr (refl, refl, refl, refl)
