-- ===== src/Breaker/Examples.antt =====
-- Runs of the circuit breaker, and its theorems at concrete inputs.
use dbpack.Common.{◌≡◌, refl, ◌⊎◌, [], ◌∷◌, true, false, arith}
use dbpack.Breaker.{
  closed, opened, half_open, Breaker, wakes, here, next, ends, new_filter, timer, pre_handle,
  post_handle,
}
use dbpack.Breaker.Invariant.{Inv, new_filter-Inv, Reach-Inv}
use dbpack.Breaker.Counting.{fail_all, fail_all-opens, opened_until_timer}

abbrev fresh : Breaker
fresh = record {
  error_threshold = 2;
  success_threshold = 2;
  timeout = 10;
  state = closed;
  errors = 0;
  successes = 0;
  last_error = 0;
  timers = [];
}

abbrev tripped : Breaker
tripped = record fresh { state = opened; timers = 18 ∷ [] }

abbrev trying : Breaker
trying = record fresh { state = half_open }

abbrev worn : Breaker
worn = record fresh { errors = 1; last_error = 5 }

trip : fail_all ((5, 5) ∷ (8, 8) ∷ []) fresh ≡ record tripped { last_error = 5 }
unfolding fail_all post_handle
trip = refl

abbrev woken : Breaker
woken = record fresh { error_threshold = 1; success_threshold = 1; state = half_open }

Reach-Inv_example : Inv woken
unfolding new_filter post_handle timer
Reach-Inv_example =
    Reach-Inv (new_filter-Inv 1 1 10)
      (next (next here (ends closed 5 5 true)) (wakes 20 15 [] [] refl (omega arith)))

fail_all-opens_example :
    ((fail_all ((5, 5) ∷ (8, 8) ∷ []) fresh).state ≡ opened)
    × (pre_handle (fail_all ((5, 5) ∷ (8, 8) ∷ []) fresh) ≡ false)
fail_all-opens_example = fail_all-opens 5 5 ((8, 8) ∷ []) fresh refl refl (omega arith, tt) refl

opened_until_timer_example :
    let c = timer (record tripped { timers = [] }) in
    (c.state ≡ opened) × (c.timers ≡ 18 ∷ []) × (pre_handle c ≡ false)
    ⊎ (c.state ≡ half_open) × (c.errors ≡ 0) × (c.successes ≡ 0) × (pre_handle c ≡ true)
opened_until_timer_example =
    opened_until_timer {b = tripped} refl (wakes 20 18 [] [] refl (omega arith))
