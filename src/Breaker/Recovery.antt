-- ===== src/Breaker/Recovery.antt =====
-- When a breaker blocks, trips and recovers.
use openlabels.Prelude.{
  ℕ, ◌+◌, ◌-◌, ◌≤◌, ◌<◌, ◌≡◌, ◌↔◌, true, false, some, List, [], ◌∷◌, arith, if◌then◌else◌, inl, inr,
  length, map, ltb, Option-cases,
}
use openlabels.Breaker.{
  closed, open_, half_open, CircuitBreaker, record_success, record_failure, allow_request,
  Operation, request, success, failure, perform, run,
}
use openlabels.Breaker.Invariant.{IsValid}

-- An open breaker whose last failure was at `t` refuses a request exactly while the recovery timeout has
-- not passed. It then counts the rejection and changes nothing else.
pub allow_request_open :
    (now t : ℕ) (b : CircuitBreaker)
    → b.state ≡ open_
    → b.last_failure_time ≡ some t
    → allow_request now b ≡ (
        if ltb (now - t) b.config.recovery_timeout
        then (
          record b { stats = record (b.stats) { rejected_calls = b.stats.rejected_calls + 1 } },
          false,
        )
        else (
          record b {
            state = half_open;
            success_count = 0;
            stats = record (b.stats) { state_changes = b.stats.state_changes + 1 };
          },
          true,
        ))
unfolding allow_request
allow_request_open now t b s l = ground arith

-- A valid breaker refuses a request exactly if it is open and its last failure is less than the timeout ago.
pub allow_request-eq-false_iff :
    (now : ℕ) (b : CircuitBreaker)
    → IsValid b
    → ((allow_request now b).1 ≡ false) ↔ (
        (t : ℕ) × (b.state ≡ open_)
        × (b.last_failure_time ≡ some t)
        × (now - t < b.config.recovery_timeout))
unfolding allow_request
allow_request-eq-false_iff now b v = (
  λ h. elim (Option-cases b.last_failure_time) [
    | inl e ↦ absurd (ground arith)
    | inr (t, e) ↦ (t, ground arith, e, ground arith)
  ],
  λ (t, s, l, lt). ground arith,
)

-- Calls that failed, with the two readings of the clock.
abbrev failing : List (ℕ × ℕ) → List Operation
failing = map (λ (t, t'). failure t t')

abbrev succeeding : List ℕ → List Operation
succeeding = map success

failing_open :
    (ts : List (ℕ × ℕ)) (b : CircuitBreaker) → b.state ≡ open_ → (run (failing ts) b).state ≡ open_
unfolding run perform record_failure
failing_open [] b s = s
failing_open ((t, t') ∷ ts) b s = failing_open ts (record_failure t t' b) (ground arith)

-- Failures in a row leave a closed breaker closed while their number, with those counted before, is
-- below the threshold, and open it when that is reached. From then on further failures keep it open.
pub failing_trips :
    (ts : List (ℕ × ℕ)) (b : CircuitBreaker)
    → b.state ≡ closed
    → b.failure_count < b.config.failure_threshold
    → (run (failing ts) b).state
      ≡ (if ltb (b.failure_count + length ts) b.config.failure_threshold then closed else open_)
unfolding run perform record_failure
failing_trips [] b s c = ground arith
failing_trips ((t, t') ∷ ts) b s c =
    ground
      (arith, failing_trips ts (record_failure t t' b), failing_open ts (record_failure t t' b))

-- Successes in a row leave a half-open breaker half open while their number, with those counted before,
-- is below the threshold, and close it when that is reached. From then on further successes keep it closed, with no
-- failure counted.
succeeding_closed :
    (ts : List ℕ) (b : CircuitBreaker)
    → b.state ≡ closed
    → b.failure_count ≡ 0
    → ((run (succeeding ts) b).state ≡ closed) × ((run (succeeding ts) b).failure_count ≡ 0)
unfolding run perform record_success
succeeding_closed [] b s c = (s, c)
succeeding_closed (t ∷ ts) b s c =
    succeeding_closed ts (record_success t b) (ground arith) (ground arith)

pub succeeding_recovers :
    (ts : List ℕ) (b : CircuitBreaker)
    → b.state ≡ half_open
    → b.success_count < b.config.success_threshold
    → (run (succeeding ts) b).state
      ≡ (if ltb (b.success_count + length ts) b.config.success_threshold then half_open else closed)
unfolding run perform record_success
succeeding_recovers [] b s c = ground arith
succeeding_recovers (t ∷ ts) b s c =
    ground (
      arith,
      succeeding_recovers ts (record_success t b),
      succeeding_closed ts (record_success t b),
    )

-- A breaker that is open, once the timeout has passed since its last failure, is closed by one admitted
-- request and `success_threshold` successes in a row.
pub open_recovers :
    (now t : ℕ) (ts : List ℕ) (b : CircuitBreaker)
    → b.state ≡ open_
    → b.last_failure_time ≡ some t
    → b.config.recovery_timeout ≤ now - t
    → 0 < b.config.success_threshold
    → length ts ≡ b.config.success_threshold
    → ((allow_request now b).1 ≡ true) × ((run (request now ∷ succeeding ts) b).state ≡ closed)
unfolding run perform
open_recovers now t ts b s l e p n =
    ground (arith, allow_request_open now t b s l, succeeding_recovers ts (allow_request now b).0)

half_open_request :
    (now : ℕ) (b : CircuitBreaker) → b.state ≡ half_open → allow_request now b ≡ (b, true)
unfolding allow_request
half_open_request now b s = ground arith

-- A half-open breaker admits every request, however many, and stays as it is: it does not hold
-- further requests back until the first one is answered.
pub half_open_admits :
    (ts : List ℕ) (now : ℕ) (b : CircuitBreaker)
    → b.state ≡ half_open
    → allow_request now (run (map request ts) b) ≡ (b, true)
unfolding run perform
half_open_admits [] now b s = half_open_request now b s
half_open_admits (t ∷ ts) now b s =
    rw (run, perform, half_open_request t b s) (half_open_admits ts now b s)
