-- ===== src/Jobs/Queue/Retry.antt =====
-- Retries, and the dead letter queue.
use openlabels.Prelude.{
  ℕ, ◌+◌, ◌-◌, ◌≤◌, min, ◌≡◌, refl, inl, inr, true, List, [], ◌∷◌, arith, ltb, leb, if◌then◌else◌,
  Bool-cases, length, ◌^◌,
}
use native.Mathlib.Nat.{pow-le-pow_right}
use openlabels.Prelude.Text.{Str}
use openlabels.Jobs.Queue.{Job, pending, failed, calculate_retry_delay, fail_job, start_job}

-- The delay before a retry is 2 seconds or more, never falls from one retry to a later one, and is an hour at most.
pub calculate_retry_delay_bounds :
    (n m : ℕ)
    → n ≤ m
    → (2 ≤ calculate_retry_delay n)
      × (calculate_retry_delay n ≤ calculate_retry_delay m)
      × (calculate_retry_delay m ≤ 3600)
unfolding calculate_retry_delay
calculate_retry_delay_bounds n m h =
    let grows : 2 ^ n ≤ 2 ^ m = pow-le-pow_right (omega arith) h in
    let some_ : 2 ^ 0 ≤ 2 ^ n = pow-le-pow_right (omega arith) {i = 0} (omega arith) in
    (omega arith, omega arith, omega arith)

-- One attempt of a job: a worker starts it, and it fails.
pub record Attempt : Type 0 where
  pub worker : Str
  pub started : ℕ
  pub ended : ℕ
  pub error : Str

abbrev pub attempt : Attempt → Job → Job
attempt a j = fail_job a.ended a.error true (start_job a.worker a.started j)

unfoldable pub attempts : List Attempt → Job → Job
unfolding fail_job
attempts [] j = j
attempts (a ∷ more) j = attempts more (attempt a j)

attempt_lem :
    (a : Attempt) (j : Job)
    → ((attempt a j).status ≡ (if ltb j.retry_count j.max_retries then pending else failed))
      × ((attempt a j).max_retries ≡ j.max_retries)
      × ((attempt a j).retry_count
          ≡ (if ltb j.retry_count j.max_retries then j.retry_count + 1 else j.retry_count))
unfolding fail_job
attempt_lem a j = elim (Bool-cases (ltb j.retry_count j.max_retries)) [
  | inl e ↦ simp (fail_job, e) (refl, refl, refl)
  | inr e ↦ simp (fail_job, e) (refl, refl, refl)
]

-- A job that always fails is tried as often as its retries allow, and once more: up to then it is pending
-- again after each attempt, and from then on it stays in the dead letter queue.
pub attempts_exhaust :
    (a : Attempt) (more : List Attempt) (j : Job)
    → j.retry_count ≤ j.max_retries
    → ((attempts (a ∷ more) j).status
        ≡ (if leb (length (a ∷ more)) (j.max_retries - j.retry_count) then pending else failed))
      × ((attempts (a ∷ more) j).retry_count
          ≡ min j.max_retries (j.retry_count + length (a ∷ more)))
unfolding attempts
attempts_exhaust a [] j h = ground (arith, attempt_lem a j)
attempts_exhaust a (b ∷ more) j h =
    ground (arith, attempt_lem a j, attempts_exhaust b more (attempt a j))
