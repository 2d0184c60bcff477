-- ===== src/Jobs/Queue.antt =====
-- The job queue (src/openlabels/jobs/queue.py). The table of jobs is the list of its rows, in the order of
-- their insertion; a query is a function of the rows, written as the source states it. Where a query leaves
-- the order open, the rows come in the table's order. Times are in seconds. `locked` holds of the rows that
-- other transactions have locked, which SKIP LOCKED passes over. Metrics and callbacks are left out.
pub mod Failed
pub mod Cleanup
pub mod Rows
pub mod Run
pub mod Valid
pub mod Retry
pub mod Revive
pub mod Pick
pub mod Limit
pub mod Keys
mod Examples
use openlabels.Prelude.{
  ℕ, zero, suc, ◌+◌, ◌-◌, ◌*◌, ◌/◌, ◌%◌, ◌≤◌, ◌<◌, min, max, ◌≡◌, refl, sym, ap, ◌∙◌, subst, ◌≢◌,
  ◌↔◌, ◌⊎◌, inl, inr, Bool, true, false, not, ◌&&◌, ◌||◌, Option, none, some, List, [], ◌∷◌, ◌++◌,
  map, reverse, arith, ltb, leb, ◌==◌, if◌then◌else◌, ltb→lt, lt→ltb, ge→ltb, leb→le, le→leb,
  gt→leb, ==_iff, Bool-cases, Option-cases, some_inj, length, get_elem?, take, drop, slice, keep,
  All, Any, all, any, length-append, length-take, length-drop, ◌^◌,
}
use openlabels.Prelude.Text.{Str}

pub data JobStatus : Type 0 where
  pending running completed failed cancelled : JobStatus

abbrev pub status_code : JobStatus → ℕ
status_code pending = 0
status_code running = 1
status_code completed = 2
status_code failed = 3
status_code cancelled = 4

abbrev pub is_status : JobStatus → JobStatus → Bool
is_status s t = status_code s == status_code t

-- A row of the table `job_queue`.
pub record Job : Type 0 where
  pub id : ℕ
  pub tenant_id : ℕ
  pub task_type : Str
  pub payload : Str
  pub priority : ℕ
  pub status : JobStatus
  pub scheduled_for : Option ℕ
  pub started_at : Option ℕ
  pub completed_at : Option ℕ
  pub worker_id : Option Str
  pub result : Option Str
  pub error : Option Str
  pub retry_count : ℕ
  pub max_retries : ℕ
  pub created_at : ℕ

-- `calculate_retry_delay`, in seconds.
unfoldable pub calculate_retry_delay : ℕ → ℕ
calculate_retry_delay retry_count = min (2 * 2 ^ retry_count) 3600

-- `session.get`
abbrev pub get_job : ℕ → List Job → Option Job
get_job job_id [] = none
get_job job_id (j ∷ js) = if j.id == job_id then some j else get_job job_id js

-- A change of the row of a job.
abbrev pub update : ℕ → (Job → Job) → List Job → List Job
update job_id f = map (λ j. if j.id == job_id then f j else j)

-- The row of `enqueue`: the identifier is uuid4's, and the server sets the default of the other columns.
abbrev pub new_job : ℕ → ℕ → ℕ → Str → Str → ℕ → Option ℕ → Job
new_job new_id now tenant_id task_type payload priority scheduled_for = record {
  id = new_id;
  tenant_id = tenant_id;
  task_type = task_type;
  payload = payload;
  priority = priority;
  status = pending;
  scheduled_for = scheduled_for;
  started_at = none;
  completed_at = none;
  worker_id = none;
  result = none;
  error = none;
  retry_count = 0;
  max_retries = 3;
  created_at = now;
}

-- `enqueue`; `none` is the IntegrityError of an identifier that the primary key has already.
unfoldable pub enqueue : ℕ → ℕ → ℕ → Str → Str → ℕ → Option ℕ → List Job → Option (List Job)
enqueue new_id now tenant_id task_type payload priority scheduled_for jobs =
    elim (get_job new_id jobs) [
      | some j ↦ none
      | none ↦
          some (jobs ++ new_job new_id now tenant_id task_type payload priority scheduled_for ∷ [])
    ]

abbrev pub of_tenant : ℕ → Job → Bool
of_tenant tenant_id j = j.tenant_id == tenant_id

abbrev pub has_status : JobStatus → Job → Bool
has_status s j = is_status j.status s

-- The count of a tenant's jobs in a status: `get_pending_count`, `get_running_count`.
unfoldable pub count_status : JobStatus → ℕ → List Job → ℕ
count_status s tenant_id jobs = length (keep (λ j. of_tenant tenant_id j && has_status s j) jobs)

-- scheduled_for IS NULL OR scheduled_for <= now
abbrev pub is_due : ℕ → Job → Bool
is_due now j = elim j.scheduled_for [ none ↦ true | some t ↦ leb t now ]

-- priority DESC, created_at ASC
abbrev pub before : Job → Job → Bool
before a b =
    ltb b.priority a.priority || (a.priority == b.priority && ltb a.created_at b.created_at)

-- ORDER BY ... LIMIT 1
unfoldable pub first_of : List Job → Option Job
first_of [] = none
first_of (j ∷ js) = elim (first_of js) [
  | none ↦ some j
  | some k ↦ some (if before k j then k else j)
]

abbrev pub start_job : Str → ℕ → Job → Job
start_job worker_id now j = record j {
  status = running;
  worker_id = some worker_id;
  started_at = some now;
}

-- The claim of the first job of a query's rows.
abbrev pub claim : Str → ℕ → List Job → List Job → List Job × Option Job
claim worker_id now candidates jobs = elim (first_of candidates) [
  | none ↦ (jobs, none)
  | some j ↦ (update j.id (start_job worker_id now) jobs, some (start_job worker_id now j))
]

abbrev pub is_available : (ℕ → Bool) → ℕ → Job → Bool
is_available locked now j = has_status pending j && (is_due now j && not (locked j.id))

abbrev pub at_limit : Option ℕ → ℕ → Bool
at_limit none n = false
at_limit (some m) n = leb m n

-- `JobQueue.dequeue`
unfoldable pub dequeue : (ℕ → Bool) → ℕ → ℕ → Str → Option ℕ → List Job → List Job × Option Job
unfolding first_of count_status
dequeue locked now tenant_id worker_id max_concurrent jobs =
    if at_limit max_concurrent (count_status running tenant_id jobs)
    then (jobs, none)
    else claim worker_id now (keep (λ j. of_tenant tenant_id j && is_available locked now j) jobs)
        jobs

-- `dequeue_next_job`, over all tenants.
unfoldable pub dequeue_next_job : (ℕ → Bool) → ℕ → Str → List Job → List Job × Option Job
unfolding first_of
dequeue_next_job locked now worker_id jobs =
    claim worker_id now (keep (is_available locked now) jobs) jobs

-- `complete`, which does not read the status.
unfoldable pub complete : ℕ → ℕ → Option Str → List Job → List Job
complete now job_id result jobs =
    update job_id (λ j. record j { status = completed; completed_at = some now; result = result })
      jobs

-- The two branches of `fail` for the job.
unfoldable pub fail_job : ℕ → Str → Bool → Job → Job
unfolding calculate_retry_delay
fail_job now error retry j =
    if retry && ltb j.retry_count j.max_retries
    then record j {
      status = pending;
      retry_count = j.retry_count + 1;
      worker_id = none;
      started_at = none;
      error = some error;
      scheduled_for = some (now + calculate_retry_delay j.retry_count);
    }
    else record j { status = failed; completed_at = some now; error = some error }

-- `fail`
abbrev pub fail : ℕ → ℕ → Str → Bool → List Job → List Job
fail now job_id error retry jobs = update job_id (fail_job now error retry) jobs

-- `cancel`
unfoldable pub cancel : ℕ → ℕ → List Job → List Job × Bool
cancel now job_id jobs = elim (get_job job_id jobs) [
  | none ↦ (jobs, false)
  | some j ↦
      if has_status pending j || has_status running j
      then (
        update job_id (λ j. record j { status = cancelled; completed_at = some now }) jobs,
        true,
      )
      else (jobs, false)
]

-- completed_at < now - days
abbrev pub is_older : ℕ → ℕ → Job → Bool
is_older now days j = elim j.completed_at [ none ↦ false | some t ↦ ltb (t + days * 86400) now ]
