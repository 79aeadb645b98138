-- ===== src/Breaker/Invariant.antt =====
-- The invariant of the circuit breaker over every interleaving of calls and timers.
use dbpack.Common.{
  ℕ, zero, suc, ◌<◌, ◌≡◌, refl, ap, ◌⊎◌, inl, inr, ◌∷◌, Bool, true, false, length, length-append,
  arith,
}
use dbpack.Breaker.{
  State, closed, opened, half_open, Breaker, Step, ends, wakes, Reach, here, next, new_filter,
  timer, post_handle, locked, forget, post_failure, post_success,
}

-- How many timers are pending in each state.
abbrev pub pending : State → ℕ
pending opened = 1
pending _ = 0

-- A counter stays below its threshold, if that is positive; a threshold of 0 is never reached.
abbrev pub Below : ℕ → ℕ → Type 0
Below count threshold = (threshold ≡ 0) ⊎ (count < threshold)

zero-Below : (threshold : ℕ) → Below 0 threshold
zero-Below zero = inl refl
zero-Below (suc n) = inr (omega arith)

pub record Inv (b : Breaker) : Type 0 where
  pub one_timer : length b.timers ≡ pending b.state
  pub few_errors : Below b.errors b.error_threshold
  pub few_successes : Below b.successes b.success_threshold

pub new_filter-Inv : (e s t : ℕ) → Inv (new_filter e s t)
unfolding new_filter
new_filter-Inv e s t = record {
  one_timer = refl;
  few_errors = zero-Below e;
  few_successes = zero-Below s;
}

post_success-Inv : (b : Breaker) (s : State) → b.state ≡ s → Inv b → Inv (post_success b s)
unfolding post_success
post_success-Inv b half_open e v = ground (arith, v.few_errors, v.few_successes)
post_success-Inv b closed e v = v
post_success-Inv b opened e v = v

forget-Inv : (now : ℕ) (b : Breaker) → Inv b → Inv (forget now b)
unfolding forget
forget-Inv now b v = ground (arith, v.few_errors, v.few_successes)

post_failure-Inv :
    (now : ℕ) (b : Breaker) (s : State) → b.state ≡ s → Inv b → Inv (post_failure now b s)
unfolding post_failure
post_failure-Inv now b closed e v = ground (arith, v.few_errors, v.few_successes)
post_failure-Inv now b half_open e v = ground (arith, v.few_errors, v.few_successes)
post_failure-Inv now b opened e v = v

locked-Inv : (now now' : ℕ) (failed : Bool) (b : Breaker) → Inv b → Inv (locked now now' failed b)
unfolding locked
locked-Inv now now' false b v = post_success-Inv b b.state refl v
locked-Inv now now' true b v =
    post_failure-Inv now' (forget now b) (forget now b).state refl (forget-Inv now b v)

post_handle-Inv :
    (seen : State) (now now' : ℕ) (failed : Bool) (b : Breaker)
    → Inv b
    → Inv (post_handle seen now now' failed b)
unfolding post_handle
post_handle-Inv closed now now' false b v = v
post_handle-Inv closed now now' true b v = locked-Inv now now' true b v
post_handle-Inv opened now now' failed b v = locked-Inv now now' failed b v
post_handle-Inv half_open now now' failed b v = locked-Inv now now' failed b v

pending-le : (s : State) → pending s ≡ 0 ⊎ pending s ≡ 1
pending-le opened = inr refl
pending-le closed = inl refl
pending-le half_open = inl refl

pub Step-Inv : {b c : Breaker} → Inv b → Step b c → Inv c
Step-Inv {b} v (ends seen now now' failed) = post_handle-Inv seen now now' failed b v
Step-Inv {b} v (wakes now t front back e h) =
    unfold timer in
    record {
      one_timer = omega (
        arith,
        v.one_timer,
        ap length e,
        length-append front (t ∷ back),
        length-append front back,
        pending-le b.state,
      );
      few_errors = zero-Below b.error_threshold;
      few_successes = zero-Below b.success_threshold;
    }

-- From a breaker that satisfies the invariant every sequence of steps, in which calls end and
-- timers wake up, leads to one that does: one timer is pending if the breaker is open and none
-- otherwise, and each counter is below its threshold where that is not zero.
pub Reach-Inv : {b c : Breaker} → Inv b → Reach b c → Inv c
Reach-Inv v here = v
Reach-Inv v (next r s) = Step-Inv (Reach-Inv v r) s
