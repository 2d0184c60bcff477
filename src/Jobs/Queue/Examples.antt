-- ===== src/Jobs/Queue/Examples.antt =====
-- A queue of three jobs, and its theorems at it.
use openlabels.Prelude.{
  ℕ, ◌+◌, ◌≤◌, ◌≡◌, refl, ◌↔◌, Bool, true, false, none, some, List, [], ◌∷◌, map, arith, ◌==◌,
  if◌then◌else◌, length, keep, All,
}
use mathlib.Core.Option
use openlabels.Prelude.Text.{Str, codes}
use openlabels.Jobs.Queue.{
  Job, pending, running, completed, failed, cancelled, get_job, cancel, fail, dequeue, count_status,
  calculate_retry_delay, start_job, new_job, fail_job,
}
use openlabels.Jobs.Queue.Failed.{requeue_failed, requeue_job}
use openlabels.Jobs.Queue.Run.{
  Operation, dequeuing, dequeuing_next, completing, failing, cancelling, requeuing, purging,
  reclaiming, perform, run,
}
use openlabels.Jobs.Queue.Valid.{IsValid, run_fields}
use openlabels.Jobs.Queue.Keys.{IsKeyed}
use openlabels.Jobs.Queue.Limit.{run_within, is_next}
use openlabels.Jobs.Queue.Pick.{Dequeues, dequeue_lem}
use openlabels.Jobs.Queue.Retry.{Attempt, attempts, attempts_exhaust, calculate_retry_delay_bounds}
use openlabels.Jobs.Queue.Revive.{IsRequeued, requeue_failed_lem, cancel_undone}

abbrev scan : Str
scan = codes "scan"

abbrev worker : Str
worker = codes "w1"

abbrev unlocked : ℕ → Bool
unlocked i = false

abbrev low : Job
low = new_job 1 10 7 scan [] 30 none

abbrev high : Job
high = new_job 2 20 7 scan [] 80 none

abbrev dead : Job
dead = record (new_job 3 30 7 scan [] 50 none) {
  status = failed;
  completed_at = some 40;
  retry_count = 3;
}

abbrev busy : Job
busy = start_job worker 50 (new_job 4 45 7 scan [] 50 none)

abbrev table : List Job
table = low ∷ high ∷ dead ∷ busy ∷ []

abbrev history : List Operation
history =
    dequeuing unlocked 60 worker (some 2)
    ∷ dequeuing unlocked 61 worker (some 2)
    ∷ failing 70 2 (codes "gone") true
    ∷ completing 71 4 none
    ∷ requeuing 3 true
    ∷ cancelling 72 1
    ∷ reclaiming unlocked 9000 3600 (codes "stuck")
    ∷ purging 9001 none none
    ∷ []

history_starts : (dequeue unlocked 60 7 worker (some 2) table).1 ≡ some (start_job worker 60 high)
unfolding dequeue
history_starts = refl

history_ends :
    map (λ (j : Job). j.status) (run 7 history table)
    ≡ cancelled ∷ pending ∷ pending ∷ completed ∷ []
unfolding run perform calculate_retry_delay fail_job requeue_job
history_ends = refl

run_fields_example : All IsValid (run 7 history table)
run_fields_example =
    run_fields 7 history table
      ((refl, refl), ((refl, refl), ((40, refl), (((worker, refl), (50, refl)), tt))))

-- The limit is 2, and three jobs run after a call of `dequeue_next_job`.
abbrev overrun : List Operation
overrun = dequeuing unlocked 60 worker (some 2) ∷ dequeuing_next unlocked 61 worker ∷ []

overrun_exceeds : count_status running 7 (run 7 overrun table) ≡ 3
unfolding run perform count_status
overrun_exceeds = refl

run_within_example :
    (count_status running 7 (run 7 overrun table) ≤ 2 + length (keep is_next overrun))
    × IsKeyed (run 7 overrun table)
unfolding count_status
run_within_example =
    run_within 7 2 overrun table (refl, (tt, tt)) (refl, (refl, (refl, (refl, tt)))) (omega arith)

dequeue_lem_example :
    Dequeues unlocked 60 7 worker (some 2) table (dequeue unlocked 60 7 worker (some 2) table)
dequeue_lem_example = dequeue_lem unlocked 60 7 worker (some 2) table

abbrev try : Attempt
try = record { worker = worker; started = 60; ended = 70; error = codes "gone" }

attempts_exhaust_example :
    ((attempts (try ∷ try ∷ try ∷ try ∷ []) low).status ≡ failed)
    × ((attempts (try ∷ try ∷ try ∷ try ∷ []) low).retry_count ≡ 3)
attempts_exhaust_example = attempts_exhaust try (try ∷ try ∷ try ∷ []) low (omega arith)

calculate_retry_delay_bounds_example :
    (2 ≤ calculate_retry_delay 3)
    × (calculate_retry_delay 3 ≤ calculate_retry_delay 40)
    × (calculate_retry_delay 40 ≤ 3600)
calculate_retry_delay_bounds_example = calculate_retry_delay_bounds 3 40 (omega arith)

requeue_failed_lem_example :
    (((requeue_failed 7 3 true table).1 ≡ true) ↔ IsRequeued 7 3 table)
    × ((requeue_failed 7 3 true table).1 ≡ false → (requeue_failed 7 3 true table).0 ≡ table)
    × ((requeue_failed 7 3 true table).1 ≡ true
        → (i : ℕ)
        → get_job i (requeue_failed 7 3 true table).0
          ≡ (if i == 3 then Option.map (requeue_job true) (get_job i table) else get_job i table))
requeue_failed_lem_example = requeue_failed_lem 7 3 true table

cancel_undone_example :
    (k : Job) × (get_job 4 (fail 61 4 (codes "gone") true (cancel 60 4 table).0) ≡ some k)
    × (k.status ≡ pending)
cancel_undone_example = cancel_undone 60 61 4 (codes "gone") table busy refl refl (omega arith)
