-- ===== src/Jobs/Queue/Run.antt =====
-- The operations of one tenant's `JobQueue` and the worker's `dequeue_next_job` over all tenants, and sequences of
-- them. Each runs in a transaction of its own.
use openlabels.Prelude.{ℕ, Bool, Option, none, some, List, [], ◌∷◌}
use openlabels.Prelude.Text.{Str}
use openlabels.Jobs.Queue.{Job, enqueue, dequeue, dequeue_next_job, complete, fail, cancel}
use openlabels.Jobs.Queue.Failed.{requeue_failed, requeue_all_failed, purge_failed}
use openlabels.Jobs.Queue.Cleanup.{reclaim_stuck_jobs, cleanup_expired_jobs}

pub data Operation : Type 0 where
  enqueuing : (new_id now : ℕ) → Str → Str → ℕ → Option ℕ → Operation
  dequeuing : (ℕ → Bool) → ℕ → Str → Option ℕ → Operation
  dequeuing_next : (ℕ → Bool) → ℕ → Str → Operation
  completing : ℕ → ℕ → Option Str → Operation
  failing : ℕ → ℕ → Str → Bool → Operation
  cancelling : ℕ → ℕ → Operation
  requeuing : ℕ → Bool → Operation
  requeuing_all : Option Str → Bool → Operation
  purging : ℕ → Option Str → Option ℕ → Operation
  reclaiming : (ℕ → Bool) → ℕ → ℕ → Str → Operation
  cleaning : ℕ → ℕ → ℕ → Option ℕ → Option ℕ → Operation

-- The table after an operation; one that raises leaves it.
unfoldable pub perform : ℕ → Operation → List Job → List Job
unfolding enqueue dequeue dequeue_next_job complete cancel requeue_failed requeue_all_failed
    purge_failed reclaim_stuck_jobs cleanup_expired_jobs
perform t (enqueuing new_id now task_type payload priority scheduled_for) jobs =
    elim (enqueue new_id now t task_type payload priority scheduled_for jobs) [
      | none ↦ jobs
      | some jobs' ↦ jobs'
    ]
perform t (dequeuing locked now worker limit) jobs = (dequeue locked now t worker limit jobs).0
perform t (dequeuing_next locked now worker) jobs = (dequeue_next_job locked now worker jobs).0
perform t (completing now job_id result) jobs = complete now job_id result jobs
perform t (failing now job_id error retry) jobs = fail now job_id error retry jobs
perform t (cancelling now job_id) jobs = (cancel now job_id jobs).0
perform t (requeuing job_id reset) jobs = (requeue_failed t job_id reset jobs).0
perform t (requeuing_all task_type reset) jobs = (requeue_all_failed t task_type reset jobs).0
perform t (purging now task_type days) jobs = (purge_failed now t task_type days jobs).0
perform t (reclaiming locked now timeout error) jobs =
    (reclaim_stuck_jobs locked now timeout t error jobs).0
perform t (cleaning c f now cttl fttl) jobs = (cleanup_expired_jobs c f now t cttl fttl jobs).0

unfoldable pub run : ℕ → List Operation → List Job → List Job
run t [] jobs = jobs
run t (op ∷ ops) jobs = run t ops (perform t op jobs)
