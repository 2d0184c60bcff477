-- ===== src/Breaker/Examples.antt =====
-- Runs of the breaker, and its theorems at concrete inputs.
use openlabels.Prelude.{◌+◌, ◌≡◌, refl, true, none, some, List, [], ◌∷◌, arith, if◌then◌else◌}
use openlabels.Breaker.{
  CircuitBreaker, CircuitBreakerConfig, closed, open_, half_open, init, run, perform, allow_request,
  record_success, record_failure, Operation, request, success, failure, state_eq, no_stats,
}
use openlabels.Breaker.Invariant.{IsValid, run-IsValid, perform_moves, may_move}
use openlabels.Breaker.Recovery.{failing_trips, open_recovers}

abbrev config : CircuitBreakerConfig
config = record { failure_threshold = 2; success_threshold = 1; recovery_timeout = 60 }

abbrev history : List Operation
history =
    request 1 ∷ failure 2 2 ∷ request 3 ∷ failure 4 4 ∷ request 30 ∷ request 70 ∷ success 71 ∷ []

abbrev fresh : CircuitBreaker
fresh = record {
  config = config;
  state = closed;
  failure_count = 0;
  success_count = 0;
  last_failure_time = none;
  stats = no_stats;
}

abbrev tripped : CircuitBreaker
tripped = record fresh { state = open_; failure_count = 2; last_failure_time = some 4 }

abbrev testing : CircuitBreaker
testing = record fresh { state = half_open }

history_closes : (run history fresh).state ≡ closed
unfolding init run perform allow_request record_failure record_success
history_closes = refl

fresh-IsValid : IsValid fresh
fresh-IsValid = omega arith

tripped-IsValid : IsValid tripped
tripped-IsValid = record { fits = cc; counted = refl }

run-IsValid_example : IsValid (run history fresh)
run-IsValid_example = run-IsValid history fresh (omega arith) (omega arith) fresh-IsValid

perform_moves_example :
    (may_move open_ (perform (request 70) tripped).state ≡ true)
    × ((perform (request 70) tripped).stats.state_changes
        ≡ 0 + (if state_eq open_ (perform (request 70) tripped).state then 0 else 1))
perform_moves_example = perform_moves (request 70) tripped (cc)

failing_trips_example : (run (failure 5 5 ∷ failure 6 7 ∷ failure 8 8 ∷ []) fresh).state ≡ open_
failing_trips_example = failing_trips ((5, 5) ∷ (6, 7) ∷ (8, 8) ∷ []) fresh refl (omega arith)

open_recovers_example :
    ((allow_request 64 tripped).1 ≡ true)
    × ((run (request 64 ∷ success 65 ∷ []) tripped).state ≡ closed)
open_recovers_example =
    open_recovers 64 4 (65 ∷ []) tripped refl refl (omega arith) (omega arith) refl
