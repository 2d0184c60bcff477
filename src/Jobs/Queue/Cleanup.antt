-- ===== src/Jobs/Queue/Cleanup.antt =====
-- Jobs that hang, and jobs past their time (src/openlabels/jobs/queue.py).
use openlabels.Prelude.{
  ℕ, zero, suc, ◌+◌, Bool, false, not, ◌&&◌, Option, none, some, List, [], ◌∷◌, ltb, leb,
  if◌then◌else◌, keep, length,
}
use openlabels.Prelude.Text.{Str}
use openlabels.Jobs.Queue.{
  JobStatus, Job, pending, running, completed, failed, cancelled, of_tenant, has_status, is_older,
}

-- started_at < now - timeout
abbrev pub is_stuck : ℕ → ℕ → ℕ → Job → Bool
is_stuck now timeout tenant_id j =
    of_tenant tenant_id j
    && (has_status running j && elim j.started_at [ none ↦ false | some t ↦ ltb (t + timeout) now ])

-- What `reclaim_stuck_jobs` makes of a job.
unfoldable pub reclaim_job : ℕ → Str → Job → Job
reclaim_job now error j =
    let j' : Job = record j {
      status = pending;
      retry_count = j.retry_count + 1;
      worker_id = none;
      started_at = none;
      error = some error;
    } in
    if leb j'.max_retries j'.retry_count
    then record j' { status = failed; completed_at = some now }
    else j'

-- The loop over the first `n` of the rows.
unfoldable pub reclaim_first : (Job → Bool) → (Job → Job) → ℕ → List Job → List Job × ℕ
reclaim_first stuck f n [] = ([], 0)
reclaim_first stuck f zero (j ∷ js) = (j ∷ js, 0)
reclaim_first stuck f (suc n) (j ∷ js) =
    let (changed, count) = reclaim_first stuck f n js in
    let (rest, others) = reclaim_first stuck f (suc n) js in
    if stuck j then (f j ∷ changed, count + 1) else (j ∷ rest, others)

-- `reclaim_stuck_jobs`
unfoldable pub reclaim_stuck_jobs : (ℕ → Bool) → ℕ → ℕ → ℕ → Str → List Job → List Job × ℕ
unfolding reclaim_first reclaim_job
reclaim_stuck_jobs locked now timeout tenant_id error jobs =
    reclaim_first (λ j. is_stuck now timeout tenant_id j && not (locked j.id))
      (reclaim_job now error) 1000 jobs

-- `days or default`
abbrev pub or_default : Option ℕ → ℕ → ℕ
or_default none d = d
or_default (some zero) d = d
or_default (some (suc n)) d = suc n

-- The rows of a status that `cleanup_expired_jobs` deletes.
abbrev pub is_expired : JobStatus → ℕ → ℕ → ℕ → Job → Bool
is_expired s now tenant_id days j = of_tenant tenant_id j && (has_status s j && is_older now days j)

-- `DELETE ... WHERE`: the rows that stay, and the count of those deleted.
abbrev pub delete_where : (Job → Bool) → List Job → List Job × ℕ
delete_where p jobs = (keep (λ j. not (p j)) jobs, length (keep p jobs))

-- `cleanup_expired_jobs`, with the counts of completed, cancelled and failed jobs that it deletes; the defaults
-- are the settings'.
unfoldable pub cleanup_expired_jobs :
    ℕ → ℕ → ℕ → ℕ → Option ℕ → Option ℕ → List Job → List Job × ℕ × ℕ × ℕ
cleanup_expired_jobs completed_default failed_default now tenant_id completed_ttl failed_ttl jobs =
    let completed_days : ℕ = or_default completed_ttl completed_default in
    let failed_days : ℕ = or_default failed_ttl failed_default in
    let (jobs1, c) = delete_where (is_expired completed now tenant_id completed_days) jobs in
    let (jobs2, x) = delete_where (is_expired cancelled now tenant_id completed_days) jobs1 in
    let (jobs3, f) = delete_where (is_expired failed now tenant_id failed_days) jobs2 in
    (jobs3, c, x, f)
