-- ===== src/Jobs/Queue/Failed.antt =====
-- The dead letter queue: the failed jobs of a tenant (src/openlabels/jobs/queue.py).
use openlabels.Prelude.{
  ℕ, zero, suc, Bool, true, false, not, ◌&&◌, Option, none, some, List, [], ◌∷◌, map, ltb,
  if◌then◌else◌, length, take, drop, keep,
}
use openlabels.Prelude.Sort.{sort}
use openlabels.Prelude.Text.{Str, str_eq}
use openlabels.Jobs.Queue.{Job, pending, failed, get_job, update, of_tenant, has_status, is_older}

-- A filter by task type; None and the empty string filter nothing.
abbrev pub of_type : Option Str → Job → Bool
of_type none j = true
of_type (some []) j = true
of_type (some (c ∷ s)) j = str_eq j.task_type (c ∷ s)

abbrev pub is_failed : ℕ → Option Str → Job → Bool
is_failed tenant_id task_type j =
    of_tenant tenant_id j && (has_status failed j && of_type task_type j)

-- completed_at DESC
abbrev pub later_completed : Job → Job → Bool
later_completed a b = elim b.completed_at [
  | none ↦ false
  | some t ↦ elim a.completed_at [ none ↦ true | some s ↦ ltb t s ]
]

-- `get_failed_jobs`
unfoldable pub get_failed_jobs : ℕ → Option Str → ℕ → ℕ → List Job → List Job
unfolding sort str_eq
get_failed_jobs tenant_id task_type limit offset jobs =
    take limit (drop offset (sort later_completed (keep (is_failed tenant_id task_type) jobs)))

-- `get_failed_count`
unfoldable pub get_failed_count : ℕ → Option Str → List Job → ℕ
unfolding str_eq
get_failed_count tenant_id task_type jobs = length (keep (is_failed tenant_id task_type) jobs)

-- What a requeued job becomes.
unfoldable pub requeue_job : Bool → Job → Job
requeue_job reset_retries j = record j {
  status = pending;
  worker_id = none;
  started_at = none;
  completed_at = none;
  scheduled_for = none;
  error = none;
  retry_count = if reset_retries then 0 else j.retry_count;
}

-- `requeue_failed`
unfoldable pub requeue_failed : ℕ → ℕ → Bool → List Job → List Job × Bool
requeue_failed tenant_id job_id reset_retries jobs = elim (get_job job_id jobs) [
  | none ↦ (jobs, false)
  | some j ↦
      if not (has_status failed j)
      then (jobs, false)
      else if not (of_tenant tenant_id j)
      then (jobs, false)
      else (update job_id (requeue_job reset_retries) jobs, true)
]

-- `requeue_all_failed`
unfoldable pub requeue_all_failed : ℕ → Option Str → Bool → List Job → List Job × ℕ
unfolding str_eq
requeue_all_failed tenant_id task_type reset_retries jobs = (
  map (λ j. if is_failed tenant_id task_type j then requeue_job reset_retries j else j) jobs,
  length (keep (is_failed tenant_id task_type) jobs),
)

-- A limit of None or 0 days is none.
abbrev pub is_old : ℕ → Option ℕ → Job → Bool
is_old now none j = true
is_old now (some zero) j = true
is_old now (some (suc d)) j = is_older now (suc d) j

abbrev pub is_purged : ℕ → ℕ → Option Str → Option ℕ → Job → Bool
is_purged now tenant_id task_type older_than_days j =
    is_failed tenant_id task_type j && is_old now older_than_days j

-- `purge_failed`
unfoldable pub purge_failed : ℕ → ℕ → Option Str → Option ℕ → List Job → List Job × ℕ
unfolding str_eq
purge_failed now tenant_id task_type older_than_days jobs = (
  keep (λ j. not (is_purged now tenant_id task_type older_than_days j)) jobs,
  length (keep (is_purged now tenant_id task_type older_than_days) jobs),
)
