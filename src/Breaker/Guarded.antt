-- ===== src/Breaker/Guarded.antt =====
-- A call under the breaker: `async with breaker`, and the decorator.
use openlabels.Prelude.{
  ℕ, ◌≡◌, Bool, List, if◌then◌else◌, ◌++◌, ◌<◌, arith, ◌∷◌, Bool-cases, inl, refl, inr,
}
use openlabels.Breaker.Invariant.{IsValid, run-IsValid}
use openlabels.Breaker.{
  CircuitBreaker, record_success, record_failure, time_until_recovery, allow_request, Operation,
  perform, success, failure, request, run, ◌∷◌, [],
}

-- How the guarded body ends.
pub data Outcome (A E : Type 0) : Type 0 where
  returned : A → Outcome A E
  raised : E → Outcome A E

-- What the caller gets: the body's outcome, or CircuitOpenError with its recovery time.
pub data Reply (A E : Type 0) : Type 0 where
  passed : Outcome A E → Reply A E
  circuit_open : ℕ → Reply A E

run-append : (xs ys : List Operation) (b : CircuitBreaker) → run (xs ++ ys) b ≡ run ys (run xs b)
unfolding run
run-append [] ys b = refl
run-append (x ∷ xs) ys b = run-append xs ys (perform x b)

module _ {A E : Type 0} (exclude_exceptions : E → Bool) where
  -- `__aexit__`; an exception is not suppressed.
  unfoldable pub exit : ℕ → ℕ → Outcome A E → CircuitBreaker → CircuitBreaker
  exit now now' (returned a) b = record_success now b
  exit now now' (raised e) b =
      if exclude_exceptions e then record_success now b else record_failure now now' b

  -- `__aenter__`, the body, and `__aexit__`. Other callers perform `between` while the body runs.
  unfoldable pub guarded :
      (entered refused now now' : ℕ)
      → List Operation
      → Outcome A E
      → CircuitBreaker
      → CircuitBreaker × Reply A E
  unfolding exit
  guarded entered refused now now' between outcome b =
      let (b', allowed) = allow_request entered b in
      if allowed
      then (exit now now' outcome (run between b'), passed outcome)
      else (b', circuit_open (time_until_recovery refused b'))

  -- The locked operation of an exit.
  abbrev answer : ℕ → ℕ → Outcome A E → Operation
  answer now now' (returned a) = success now
  answer now now' (raised e) = if exclude_exceptions e then success now else failure now now'

  exit-perform :
      (now now' : ℕ) (outcome : Outcome A E) (b : CircuitBreaker)
      → exit now now' outcome b ≡ perform (answer now now' outcome) b
  unfolding exit perform
  exit-perform now now' (returned a) b = refl
  exit-perform now now' (raised e) b = ground arith

  -- A guarded call is a request and, if that is admitted, the operations of other callers and the recording of
  -- the outcome; the caller gets the body's own result or exception exactly then.
  pub guarded-run :
      (entered refused now now' : ℕ) (between : List Operation) (outcome : Outcome A E)
      (b : CircuitBreaker)
      → guarded entered refused now now' between outcome b ≡ (
          if (allow_request entered b).1
          then (run (request entered ∷ between ++ answer now now' outcome ∷ []) b, passed outcome)
          else (
            run (request entered ∷ []) b,
            circuit_open (time_until_recovery refused (run (request entered ∷ []) b)),
          ))
  unfolding guarded run perform
  guarded-run entered refused now now' between outcome b =
      elim (Bool-cases (allow_request entered b).1) [
        | inl h ↦ rw (
          h,
          exit-perform now now' outcome (run between (allow_request entered b).0),
          run-append between (answer now now' outcome ∷ []) (allow_request entered b).0,
        )
        | inr h ↦ rw h
      ]

  -- A guarded call keeps the invariant, whatever other callers do while its body runs.
  pub guarded-IsValid :
      (entered refused now now' : ℕ) (between : List Operation) (outcome : Outcome A E)
      (b : CircuitBreaker)
      → 0 < b.config.failure_threshold
      → 0 < b.config.success_threshold
      → IsValid b
      → IsValid (guarded entered refused now now' between outcome b).0
  guarded-IsValid entered refused now now' between outcome b f s v =
      elim (Bool-cases (allow_request entered b).1) [
        | inl h ↦
            rw (guarded-run entered refused now now' between outcome b, h)
              (run-IsValid (request entered ∷ between ++ answer now now' outcome ∷ []) b f s v)
        | inr h ↦
            rw (guarded-run entered refused now now' between outcome b, h)
              (run-IsValid (request entered ∷ []) b f s v)
      ]
