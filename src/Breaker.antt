-- ===== src/Breaker.antt =====
-- The circuit breaker filter, pkg/filter/breaker/breaker.go. Times are nanoseconds since some fixed
-- instant; an instant is passed to each call that reads the clock. `PostHandle` may read the
-- clock twice: the first reading decides the expiry and the second is stored.
pub mod Invariant
pub mod Counting
mod Examples
use dbpack.Common.{
  ℕ, ◌+◌, ◌≤◌, ◌≡◌, List, [], ◌∷◌, ◌++◌, Bool, true, false, ◌&&◌, ltb, ◌==◌, if◌then◌else◌,
}

-- The values `closed`, `open` and `halfOpen` of the field `state`.
pub data State : Type 0 where
  closed opened half_open : State

pub record Breaker : Type 0 where
  pub error_threshold : ℕ
  pub success_threshold : ℕ
  pub timeout : ℕ
  pub state : State
  pub errors : ℕ
  pub successes : ℕ
  pub last_error : ℕ
  -- The goroutines that `openBreaker` has started, by the instant at which each wakes.
  pub timers : List ℕ

-- `NewFilter`, with a timeout in nanoseconds. The Go zero time is instant 0.
pub new_filter : ℕ → ℕ → ℕ → Breaker
new_filter e s t = record {
  error_threshold = e;
  success_threshold = s;
  timeout = t;
  state = closed;
  errors = 0;
  successes = 0;
  last_error = 0;
  timers = [];
}

pub change_state : Breaker → State → Breaker
change_state b s = record b { errors = 0; successes = 0; state = s }

-- `go f.timer()` sleeps for the timeout from `now` on.
pub open_breaker : ℕ → Breaker → Breaker
unfolding change_state
open_breaker now b =
    let c = change_state b opened in record c { timers = (now + b.timeout) ∷ c.timers }

pub close_breaker : Breaker → Breaker
unfolding change_state
close_breaker b = change_state b closed

-- What `timer` does when its sleep is over.
pub timer : Breaker → Breaker
unfolding change_state
timer b = change_state b half_open

-- `PreHandle`: whether the call is let through.
pub pre_handle : Breaker → Bool
pre_handle b = elim b.state [ opened ↦ false | _ ↦ true ]

-- The branch of `PostHandle` for a call without an error.
post_success : Breaker → State → Breaker
unfolding close_breaker
post_success b half_open =
    let c = record b { successes = b.successes + 1 } in
    if c.successes == c.success_threshold then close_breaker c else c
post_success b _ = b

-- "if f.errors > 0 ... f.errors = 0": old errors are forgotten.
forget : ℕ → Breaker → Breaker
forget now b =
    if ltb 0 b.errors && ltb (b.last_error + b.timeout) now then record b { errors = 0 } else b

-- The `switch f.state` of `PostHandle` for a call with an error.
post_failure : ℕ → Breaker → State → Breaker
unfolding open_breaker
post_failure now b closed =
    let c = record b { errors = b.errors + 1 } in
    if c.errors == c.error_threshold then open_breaker now c else record c { last_error = now }
post_failure now b half_open = open_breaker now b
post_failure now b opened = b

-- What `PostHandle` does under the lock.
locked : ℕ → ℕ → Bool → Breaker → Breaker
unfolding post_success post_failure forget
locked now now' false b = post_success b b.state
locked now now' true b = let c = forget now b in post_failure now' c c.state

-- `PostHandle`; the Boolean says whether the call failed, and `seen` is the state that the atomic
-- load before the lock found, which another call may have changed since.
pub post_handle : State → ℕ → ℕ → Bool → Breaker → Breaker
unfolding locked
post_handle closed now now' false b = b
post_handle seen now now' failed b = locked now now' failed b

-- One step of the filter: the end of a call, or a timer that wakes.
pub data Step (b : Breaker) : Breaker → Type 0 where
  ends : (seen : State) (now now' : ℕ) (failed : Bool) → Step b (post_handle seen now now' failed b)
  wakes :
      (now t : ℕ) (front back : List ℕ)
      → b.timers ≡ front ++ t ∷ back
      → t ≤ now
      → Step b (timer (record b { timers = front ++ back }))

pub data Reach (b : Breaker) : Breaker → Type 0 where
  here : Reach b b
  next : {c d : Breaker} → Reach b c → Step c d → Reach b d
