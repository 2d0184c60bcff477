-- ===== src/Breaker/Invariant.antt =====
-- What holds of a breaker after any sequence of operations.
use openlabels.Prelude.{
  ℕ, ◌+◌, ◌<◌, ◌≡◌, refl, ◌≢◌, Bool, true, false, none, List, [], ◌∷◌, arith, if◌then◌else◌,
}
use openlabels.Breaker.{
  CircuitState, closed, open_, half_open, CircuitBreaker, CircuitBreakerConfig, init,
  record_success, record_failure, allow_request, reset, Operation, request, success, failure,
  resetting, perform, run, state_eq,
}

-- What a state promises about the counters.
abbrev StateFits : CircuitState → CircuitBreaker → Type 0
StateFits closed b = b.failure_count < b.config.failure_threshold
StateFits half_open b = b.success_count < b.config.success_threshold
StateFits open_ b = b.last_failure_time ≢ none

-- A closed breaker is below the failure threshold, a half-open one below the success threshold, an
-- open one has a failure time, and each recorded call was a success or a failure.
pub record IsValid (b : CircuitBreaker) : Type 0 where
  pub fits : StateFits b.state b
  pub counted : b.stats.total_calls ≡ b.stats.successful_calls + b.stats.failed_calls

module _ (b : CircuitBreaker) (f : 0 < b.config.failure_threshold)
    (s : 0 < b.config.success_threshold) (v : IsValid b) where
  record_success-IsValid : (now : ℕ) → IsValid (record_success now b)
  unfolding record_success
  record_success-IsValid now = ground arith

  record_failure-IsValid : (now now' : ℕ) → IsValid (record_failure now now' b)
  unfolding record_failure
  record_failure-IsValid now now' = ground arith

  allow_request-IsValid : (now : ℕ) → IsValid (allow_request now b).0
  unfolding allow_request
  allow_request-IsValid now = ground arith

  reset-IsValid : IsValid (reset b)
  unfolding reset
  reset-IsValid = ground arith

  perform-IsValid : (op : Operation) → IsValid (perform op b)
  unfolding perform
  perform-IsValid (request now) = allow_request-IsValid now
  perform-IsValid (success now) = record_success-IsValid now
  perform-IsValid (failure now now') = record_failure-IsValid now now'
  perform-IsValid resetting = reset-IsValid

-- No operation changes the configuration.
perform-config : (op : Operation) (b : CircuitBreaker) → (perform op b).config ≡ b.config
unfolding perform allow_request record_success record_failure reset
perform-config (request now) b = ground arith
perform-config (success now) b = ground arith
perform-config (failure now now') b = ground arith
perform-config resetting b = refl

-- With positive thresholds, the invariant of a breaker is kept by any sequence of requests, successes,
-- failures and resets, in whatever order their callers interleave.
pub run-IsValid :
    (ops : List Operation) (b : CircuitBreaker)
    → 0 < b.config.failure_threshold
    → 0 < b.config.success_threshold
    → IsValid b
    → IsValid (run ops b)
unfolding run
run-IsValid [] b f s v = v
run-IsValid (op ∷ ops) b f s v =
    let e = perform-config op b in
    run-IsValid ops (perform op b) (rw e f) (rw e s) (perform-IsValid b f s v op)

pub init-IsValid :
    (config : CircuitBreakerConfig) → 0 < config.failure_threshold → IsValid (init config)
unfolding init
init-IsValid config f = ground arith

-- The moves of the state machine, and staying.
abbrev pub may_move : CircuitState → CircuitState → Bool
may_move closed open_ = true
may_move open_ half_open = true
may_move half_open open_ = true
may_move half_open closed = true
may_move closed closed = true
may_move open_ open_ = true
may_move half_open half_open = true
may_move _ _ = false

-- A request, a success or a failure moves the state along the machine or leaves it: an open breaker is
-- never closed without a test, and a closed one never becomes half open. `state_changes` counts the
-- moves.
pub perform_moves :
    (op : Operation) (b : CircuitBreaker)
    → op ≢ resetting
    → (may_move b.state (perform op b).state ≡ true)
      × ((perform op b).stats.state_changes
          ≡ b.stats.state_changes + (if state_eq b.state (perform op b).state then 0 else 1))
unfolding perform allow_request record_success record_failure
perform_moves (request now) b h = (ground arith, ground arith)
perform_moves (success now) b h = (ground arith, ground arith)
perform_moves (failure now now') b h = (ground arith, ground arith)
perform_moves resetting b h = absurd (h refl)
