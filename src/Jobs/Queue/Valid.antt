-- ===== src/Jobs/Queue/Valid.antt =====
-- The fields that go with a job's status.
use openlabels.Prelude.{
  ℕ, ◌+◌, ◌≡◌, refl, inl, inr, Bool, not, ◌&&◌, ◌||◌, none, some, List, [], ◌∷◌, ltb, leb, ◌==◌,
  Bool-cases, Option-cases, keep, All, keep-All,
}
use openlabels.Prelude.Text.{Str}
use openlabels.Jobs.Queue.{
  Job, JobStatus, pending, running, failed, get_job, enqueue, dequeue, claim, start_job, first_of,
  fail_job, cancel, of_tenant, has_status, is_available, at_limit, count_status,
}
use openlabels.Jobs.Queue.Failed.{requeue_failed, requeue_job, is_purged, is_failed}
use openlabels.Jobs.Queue.Cleanup.{reclaim_job}
use openlabels.Jobs.Queue.Rows.{map_if-All, reclaim_first-All, append-All}
use openlabels.Jobs.Queue.Run.{
  Operation, enqueuing, dequeuing, dequeuing_next, completing, failing, cancelling, requeuing,
  requeuing_all, purging, reclaiming, cleaning, perform, run,
}

-- A pending job has no worker and no start, a running one has both, and any other has an end.
abbrev pub Fits : JobStatus → Job → Type 0
Fits pending j = (j.worker_id ≡ none) × (j.started_at ≡ none)
Fits running j = ((w : Str) × (j.worker_id ≡ some w)) × ((t : ℕ) × (j.started_at ≡ some t))
Fits _ j = (t : ℕ) × (j.completed_at ≡ some t)

abbrev pub IsValid : Job → Type 0
IsValid j = Fits j.status j

fail_job-IsValid :
    (now : ℕ) (error : Str) (retry : Bool) (j : Job) → IsValid (fail_job now error retry j)
unfolding fail_job
fail_job-IsValid now error retry j = elim (Bool-cases (retry && ltb j.retry_count j.max_retries)) [
  | inl e ↦ rw (IsValid, fail_job, e) (refl, refl)
  | inr e ↦ rw (IsValid, fail_job, e) (now, refl)
]

reclaim_job-IsValid : (now : ℕ) (error : Str) (j : Job) → IsValid (reclaim_job now error j)
unfolding reclaim_job
reclaim_job-IsValid now error j = elim (Bool-cases (leb j.max_retries (j.retry_count + 1))) [
  | inl e ↦ rw (IsValid, reclaim_job, e) (now, refl)
  | inr e ↦ rw (IsValid, reclaim_job, e) (refl, refl)
]

requeue_job-IsValid : (reset : Bool) (j : Job) → IsValid (requeue_job reset j)
unfolding requeue_job
requeue_job-IsValid reset j = (refl, refl)

claim-IsValid :
    (worker : Str) (now : ℕ) (candidates jobs : List Job)
    → All IsValid jobs
    → All IsValid (claim worker now candidates jobs).0
claim-IsValid worker now candidates jobs v = elim (Option-cases (first_of candidates)) [
  | inl e ↦ rw (claim, e) v
  | inr (j, e) ↦
      rw (claim, e)
        (map_if-All IsValid (start_job worker now) (λ k. k.id == j.id) jobs
          (λ k p. ((worker, refl), (now, refl))) v)
]

-- An operation of a queue leaves each job with the fields that go with its status.
perform-IsValid :
    (t : ℕ) (op : Operation) (jobs : List Job) → All IsValid jobs → All IsValid (perform t op jobs)
unfolding perform
perform-IsValid t (enqueuing new_id now task_type payload priority scheduled_for) jobs v =
    elim (Option-cases (get_job new_id jobs)) [
      | inl e ↦ rw (perform, enqueue, e) (append-All IsValid jobs _ v (refl, refl))
      | inr (j, e) ↦ rw (perform, enqueue, e) v
    ]
perform-IsValid t (dequeuing locked now worker limit) jobs v =
    elim (Bool-cases (at_limit limit (count_status running t jobs))) [
      | inl e ↦ rw (perform, dequeue, e) v
      | inr e ↦
          rw (perform, dequeue, e)
            (claim-IsValid worker now (keep (λ j. of_tenant t j && is_available locked now j) jobs)
              jobs v)
    ]
perform-IsValid t (dequeuing_next locked now worker) jobs v =
    claim-IsValid worker now (keep (is_available locked now) jobs) jobs v
perform-IsValid t (completing now job_id result) jobs v =
    map_if-All IsValid _ (λ k. k.id == job_id) jobs (λ k p. (now, refl)) v
perform-IsValid t (failing now job_id error retry) jobs v =
    map_if-All IsValid (fail_job now error retry) (λ k. k.id == job_id) jobs
      (λ k p. fail_job-IsValid now error retry k) v
perform-IsValid t (cancelling now job_id) jobs v = elim (Option-cases (get_job job_id jobs)) [
  | inl e ↦ rw (perform, cancel, e) v
  | inr (j, e) ↦ elim (Bool-cases (has_status pending j || has_status running j)) [
    | inl f ↦
        rw (perform, cancel, e, f)
          (map_if-All IsValid _ (λ k. k.id == job_id) jobs (λ k p. (now, refl)) v)
    | inr f ↦ rw (perform, cancel, e, f) v
  ]
]
perform-IsValid t (requeuing job_id reset) jobs v = elim (Option-cases (get_job job_id jobs)) [
  | inl e ↦ rw (perform, requeue_failed, e) v
  | inr (j, e) ↦ elim (Bool-cases (has_status failed j)) [
    | inr f ↦ rw (perform, requeue_failed, e, f) v
    | inl f ↦ elim (Bool-cases (of_tenant t j)) [
      | inr g ↦ rw (perform, requeue_failed, e, f, g) v
      | inl g ↦
          rw (perform, requeue_failed, e, f, g)
            (map_if-All IsValid (requeue_job reset) (λ k. k.id == job_id) jobs
              (λ k p. requeue_job-IsValid reset k) v)
    ]
  ]
]
perform-IsValid t (requeuing_all task_type reset) jobs v =
    map_if-All IsValid (requeue_job reset) (is_failed t task_type) jobs
      (λ k p. requeue_job-IsValid reset k) v
perform-IsValid t (purging now task_type days) jobs v =
    keep-All (λ j. not (is_purged now t task_type days j)) IsValid jobs v
perform-IsValid t (reclaiming locked now timeout error) jobs v =
    reclaim_first-All IsValid (reclaim_job now error) _ 1000 jobs
      (λ k p. reclaim_job-IsValid now error k) v
perform-IsValid t (cleaning c f now cttl fttl) jobs v =
    keep-All _ IsValid _ (keep-All _ IsValid _ (keep-All _ IsValid jobs v))

-- After any operations of a queue and calls of `dequeue_next_job` in any order, each job has the fields that go with its status: a pending
-- one has neither worker nor start, a running one has both, and any other has an end.
pub run_fields :
    (t : ℕ) (ops : List Operation) (jobs : List Job)
    → All IsValid jobs
    → All IsValid (run t ops jobs)
unfolding run
run_fields t [] jobs v = v
run_fields t (op ∷ ops) jobs v = run_fields t ops (perform t op jobs) (perform-IsValid t op jobs v)
