-- ===== src/Breaker.antt =====
-- Circuit breaker (src/openlabels/core/circuit_breaker.py). Every operation holds the breaker's lock, so
-- concurrent callers are a sequence of operations. `time.monotonic()` is an argument, in ticks.
pub mod Invariant
pub mod Recovery
pub mod Guarded
mod Examples
use openlabels.Prelude.{
  ℕ, ◌+◌, ◌-◌, ◌≤◌, ◌≡◌, Bool, true, false, not, ◌&&◌, ◌||◌, Option, none, some, leb, if◌then◌else◌,
  List, [], ◌∷◌, ◌<◌, ◌≢◌,
}

pub data CircuitState : Type 0 where
  closed open_ half_open : CircuitState

-- `exclude_status_codes` is read nowhere in the class.
pub record CircuitBreakerConfig : Type 0 where
  pub failure_threshold : ℕ
  pub success_threshold : ℕ
  pub recovery_timeout : ℕ

pub record CircuitBreakerStats : Type 0 where
  pub total_calls : ℕ
  pub successful_calls : ℕ
  pub failed_calls : ℕ
  pub rejected_calls : ℕ
  pub state_changes : ℕ
  pub last_failure_time : Option ℕ
  pub last_success_time : Option ℕ

pub record CircuitBreaker : Type 0 where
  pub config : CircuitBreakerConfig
  pub state : CircuitState
  pub failure_count : ℕ
  pub success_count : ℕ
  pub last_failure_time : Option ℕ
  pub stats : CircuitBreakerStats

abbrev pub state_eq : CircuitState → CircuitState → Bool
state_eq closed closed = true
state_eq open_ open_ = true
state_eq half_open half_open = true
state_eq _ _ = false

abbrev pub no_stats : CircuitBreakerStats
no_stats = record {
  total_calls = 0;
  successful_calls = 0;
  failed_calls = 0;
  rejected_calls = 0;
  state_changes = 0;
  last_failure_time = none;
  last_success_time = none;
}

-- `__init__`
unfoldable pub init : CircuitBreakerConfig → CircuitBreaker
init config = record {
  config = config;
  state = closed;
  failure_count = 0;
  success_count = 0;
  last_failure_time = none;
  stats = no_stats;
}

-- `time_until_recovery`
unfoldable pub time_until_recovery : ℕ → CircuitBreaker → ℕ
time_until_recovery now b = elim b.last_failure_time [
  | none ↦ 0
  | some t ↦ if not (state_eq b.state open_) then 0 else b.config.recovery_timeout - (now - t)
]

-- The counters that `_transition_to` resets.
abbrev pub reset_counts : CircuitState → CircuitBreaker → CircuitBreaker
reset_counts closed b = record b { failure_count = 0; success_count = 0 }
reset_counts half_open b = record b { success_count = 0 }
reset_counts open_ b = b

abbrev pub transition_to : CircuitState → CircuitBreaker → CircuitBreaker
transition_to new b =
    if state_eq b.state new
    then b
    else reset_counts new (record b {
      state = new;
      stats = record (b.stats) { state_changes = b.stats.state_changes + 1 };
    })

abbrev pub check_open : ℕ → Option ℕ → CircuitBreaker → CircuitBreaker
check_open now none b = b
check_open now (some t) b =
    if leb b.config.recovery_timeout (now - t) then transition_to half_open b else b

-- `_check_state`
abbrev pub check_state : ℕ → CircuitBreaker → CircuitBreaker
check_state now b = if state_eq b.state open_ then check_open now b.last_failure_time b else b

abbrev pub succeed_in : CircuitState → CircuitBreaker → CircuitBreaker
succeed_in half_open b =
    let b' : CircuitBreaker = record b { success_count = b.success_count + 1 } in
    if leb b.config.success_threshold b'.success_count then transition_to closed b' else b'
succeed_in closed b = record b { failure_count = 0 }
succeed_in open_ b = b

unfoldable pub record_success : ℕ → CircuitBreaker → CircuitBreaker
record_success now b = succeed_in b.state (record b {
  stats = record (b.stats) {
    total_calls = b.stats.total_calls + 1;
    successful_calls = b.stats.successful_calls + 1;
    last_success_time = some now;
  };
})

abbrev pub fail_in : CircuitState → CircuitBreaker → CircuitBreaker
fail_in half_open b = transition_to open_ b
fail_in closed b =
    let b' : CircuitBreaker = record b { failure_count = b.failure_count + 1 } in
    if leb b.config.failure_threshold b'.failure_count then transition_to open_ b' else b'
fail_in open_ b = b

-- The clock is read twice, first for the statistics.
unfoldable pub record_failure : ℕ → ℕ → CircuitBreaker → CircuitBreaker
record_failure now now' b = fail_in b.state (record b {
  last_failure_time = some now';
  stats = record (b.stats) {
    total_calls = b.stats.total_calls + 1;
    failed_calls = b.stats.failed_calls + 1;
    last_failure_time = some now;
  };
})

abbrev pub answer_in : CircuitState → CircuitBreaker → CircuitBreaker × Bool
answer_in closed b = (b, true)
answer_in half_open b = (b, true)
answer_in open_ b =
    (record b { stats = record (b.stats) { rejected_calls = b.stats.rejected_calls + 1 } }, false)

unfoldable pub allow_request : ℕ → CircuitBreaker → CircuitBreaker × Bool
allow_request now b = let b' = check_state now b in answer_in b'.state b'

-- `reset_all`, for one breaker of the registry.
unfoldable pub reset : CircuitBreaker → CircuitBreaker
reset b = record b {
  state = closed;
  failure_count = 0;
  success_count = 0;
  last_failure_time = none;
}

-- One locked operation of some caller.
pub data Operation : Type 0 where
  request : ℕ → Operation
  success : ℕ → Operation
  failure : ℕ → ℕ → Operation
  resetting : Operation

unfoldable pub perform : Operation → CircuitBreaker → CircuitBreaker
perform (request now) b = (allow_request now b).0
perform (success now) b = record_success now b
perform (failure now now') b = record_failure now now' b
perform resetting b = reset b

unfoldable pub run : List Operation → CircuitBreaker → CircuitBreaker
run [] b = b
run (op ∷ ops) b = run ops (perform op b)
