-- ===== src/Jobs/Queue/Revive.antt =====
-- Jobs that come back: those requeued from the dead letter queue, and those cancelled under a worker.
use openlabels.Prelude.{
  ℕ, ◌<◌, ◌≡◌, refl, ◌↔◌, inl, inr, Bool, true, false, some, List, [], ◌∷◌, arith, ◌==◌,
  if◌then◌else◌, Bool-cases, Option-cases, some_inj,
}
use mathlib.Core.Option
use openlabels.Prelude.Text.{Str}
use openlabels.Jobs.Queue.{
  Job, pending, running, failed, get_job, update, cancel, fail, fail_job, has_status, of_tenant,
  cancelled,
}
use openlabels.Jobs.Queue.Failed.{requeue_failed, requeue_job}
use openlabels.Jobs.Queue.Keys.{fail_job-id}

module _ (f : Job → Job) (same : (j : Job) → (f j).id ≡ j.id) (k : ℕ) where
  -- A job is read back as its update made it, and any other as it was.
  get_job-update :
      (i : ℕ) (jobs : List Job)
      → get_job i (update k f jobs)
        ≡ (if i == k then Option.map f (get_job i jobs) else get_job i jobs)
  get_job-update i [] = ground arith
  get_job-update i (j ∷ js) = ground (arith, same j, get_job-update i js)

  get_job-update_self :
      (jobs : List Job) (j : Job)
      → get_job k jobs ≡ some j
      → get_job k (update k f jobs) ≡ some (f j)
  get_job-update_self jobs j h = ground (arith, get_job-update k jobs)

differs : (p : Job → Bool) (j k : Job) → some j ≡ some k → p j ≡ false → p k ≡ true → false ≡ true
differs p j k e f g = cc (some_inj e)

-- The job may be requeued.
abbrev pub IsRequeued : ℕ → ℕ → List Job → Type 0
IsRequeued tenant_id job_id jobs =
    (j : Job) × (get_job job_id jobs ≡ some j)
    × (has_status failed j ≡ true)
    × (of_tenant tenant_id j ≡ true)

-- `requeue_failed` answers true exactly for a failed job of the tenant that is in the table. Where it answers false the
-- table is as it was. Where it answers true the job is read back requeued, and any other as it was.
pub requeue_failed_lem :
    (t job_id : ℕ) (reset : Bool) (jobs : List Job)
    → (((requeue_failed t job_id reset jobs).1 ≡ true) ↔ IsRequeued t job_id jobs)
      × ((requeue_failed t job_id reset jobs).1 ≡ false
          → (requeue_failed t job_id reset jobs).0 ≡ jobs)
      × ((requeue_failed t job_id reset jobs).1 ≡ true
          → (i : ℕ)
          → get_job i (requeue_failed t job_id reset jobs).0 ≡ (
              if i == job_id
              then Option.map (requeue_job reset) (get_job i jobs)
              else get_job i jobs))
unfolding requeue_failed requeue_job
requeue_failed_lem t job_id reset jobs = elim (Option-cases (get_job job_id jobs)) [
  | inl e ↦ rw (requeue_failed, e) (((λ h. cc), (λ h. cc)), (λ h. refl), (λ h. cc))
  | inr (j, e) ↦ elim (Bool-cases (has_status failed j)) [
    | inr f ↦
        rw (requeue_failed, e, f)
          (((λ h. cc), (λ h. differs (has_status failed) j h.0 h.1 f h.2)), (λ h. refl), (λ h. cc))
    | inl f ↦ elim (Bool-cases (of_tenant t j)) [
      | inr g ↦
          rw (requeue_failed, e, f, g)
            (((λ h. cc), (λ h. differs (of_tenant t) j h.0 h.1 g h.3)), (λ h. refl), (λ h. cc))
      | inl g ↦
          rw (requeue_failed, e, f, g)
            (
              ((λ h. (j, refl, f, g)), (λ h. refl)),
              (λ h. cc),
              (λ h i. get_job-update (requeue_job reset) (λ k. refl) job_id i jobs),
            )
    ]
  ]
]

-- A running job that is cancelled, and whose worker then reports that it failed, is pending again if a retry is left.
pub cancel_undone :
    (cancelled_at failed_at job_id : ℕ) (error : Str) (jobs : List Job) (j : Job)
    → get_job job_id jobs ≡ some j
    → j.status ≡ running
    → j.retry_count < j.max_retries
    → (k : Job) × (get_job job_id
          (fail failed_at job_id error true (cancel cancelled_at job_id jobs).0)
        ≡ some k)
      × (k.status ≡ pending)
unfolding cancel fail_job
cancel_undone cancelled_at failed_at job_id error jobs j h s r =
    let stopped : Job → Job =
      λ k. record k { status = cancelled; completed_at = some cancelled_at } in
    (
      fail_job failed_at error true (stopped j),
      rw (cancel, h, s)
          (get_job-update_self (fail_job failed_at error true) (fail_job-id failed_at error true)
            job_id (update job_id stopped jobs) (stopped j)
            (get_job-update_self stopped (λ k. refl) job_id jobs j h)),
      ground arith,
    )
