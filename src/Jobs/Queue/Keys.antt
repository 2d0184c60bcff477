-- ===== src/Jobs/Queue/Keys.antt =====
-- The primary key of the table.
use openlabels.Prelude.{
  ℕ, zero, suc, ◌≡◌, refl, inl, inr, Bool, false, ◌&&◌, ◌||◌, none, List, [], ◌∷◌, ◌++◌, map, arith,
  ◌==◌, if◌then◌else◌, Bool-cases, Option-cases, keep,
}
use openlabels.Prelude.Text.{Str}
use openlabels.Jobs.Queue.{
  Job, pending, running, failed, get_job, enqueue, dequeue, claim, start_job, first_of, fail_job,
  cancel, of_tenant, has_status, is_available, at_limit, count_status, dequeue_next_job,
}
use openlabels.Jobs.Queue.Failed.{requeue_failed, requeue_job, is_failed}
use openlabels.Jobs.Queue.Cleanup.{reclaim_job, reclaim_first}
use openlabels.Jobs.Queue.Run.{
  Operation, enqueuing, dequeuing, dequeuing_next, completing, failing, cancelling, requeuing,
  requeuing_all, purging, reclaiming, cleaning, perform,
}

-- The identifiers of a table are distinct, as the primary key demands.
abbrev pub IsKeyed : List Job → Type 0
IsKeyed [] = Unit
IsKeyed (j ∷ js) = (get_job j.id js ≡ none) × IsKeyed js

module _ (f : Job → Job) (same : (j : Job) → (f j).id ≡ j.id) where
  map_if-absent :
      (p : Job → Bool) (k : ℕ) (jobs : List Job)
      → get_job k jobs ≡ none
      → get_job k (map (λ j. if p j then f j else j) jobs) ≡ none
  map_if-absent p k [] h = refl
  map_if-absent p k (j ∷ js) h = elim (Bool-cases (j.id == k)) [
    | inl e ↦ absurd (cc (rw e at h))
    | inr e ↦ elim (Bool-cases (p j)) [
      | inl g ↦ rw (g, same j, e) (map_if-absent p k js (rw e at h))
      | inr g ↦ rw (g, e) (map_if-absent p k js (rw e at h))
    ]
  ]

  map_if-IsKeyed :
      (p : Job → Bool) (jobs : List Job)
      → IsKeyed jobs
      → IsKeyed (map (λ j. if p j then f j else j) jobs)
  map_if-IsKeyed p [] h = tt
  map_if-IsKeyed p (j ∷ js) (a, h) = elim (Bool-cases (p j)) [
    | inl g ↦ rw (g, same j) (map_if-absent p j.id js a, map_if-IsKeyed p js h)
    | inr g ↦ rw g (map_if-absent p j.id js a, map_if-IsKeyed p js h)
  ]

  reclaim_first-absent :
      (p : Job → Bool) (n k : ℕ) (jobs : List Job)
      → get_job k jobs ≡ none
      → get_job k (reclaim_first p f n jobs).0 ≡ none
  unfolding reclaim_first
  reclaim_first-absent p n k [] h = refl
  reclaim_first-absent p zero k (j ∷ js) h = h
  reclaim_first-absent p (suc n) k (j ∷ js) h = elim (Bool-cases (j.id == k)) [
    | inl e ↦ absurd (cc (rw e at h))
    | inr e ↦ elim (Bool-cases (p j)) [
      | inl g ↦ rw (reclaim_first, g, same j, e) (reclaim_first-absent p n k js (rw e at h))
      | inr g ↦ rw (reclaim_first, g, e) (reclaim_first-absent p (suc n) k js (rw e at h))
    ]
  ]

  reclaim_first-IsKeyed :
      (p : Job → Bool) (n : ℕ) (jobs : List Job)
      → IsKeyed jobs
      → IsKeyed (reclaim_first p f n jobs).0
  unfolding reclaim_first
  reclaim_first-IsKeyed p n [] h = tt
  reclaim_first-IsKeyed p zero (j ∷ js) h = h
  reclaim_first-IsKeyed p (suc n) (j ∷ js) (a, h) = elim (Bool-cases (p j)) [
    | inl g ↦
        rw (reclaim_first, g, same j)
          (reclaim_first-absent p n j.id js a, reclaim_first-IsKeyed p n js h)
    | inr g ↦
        rw (reclaim_first, g)
          (reclaim_first-absent p (suc n) j.id js a, reclaim_first-IsKeyed p (suc n) js h)
  ]

keep-absent :
    (p : Job → Bool) (k : ℕ) (jobs : List Job)
    → get_job k jobs ≡ none
    → get_job k (keep p jobs) ≡ none
keep-absent p k [] h = refl
keep-absent p k (j ∷ js) h = elim (Bool-cases (j.id == k)) [
  | inl e ↦ absurd (cc (rw e at h))
  | inr e ↦ elim (Bool-cases (p j)) [
    | inl g ↦ rw (g, e) (keep-absent p k js (rw e at h))
    | inr g ↦ rw g (keep-absent p k js (rw e at h))
  ]
]

keep-IsKeyed : (p : Job → Bool) (jobs : List Job) → IsKeyed jobs → IsKeyed (keep p jobs)
keep-IsKeyed p [] h = tt
keep-IsKeyed p (j ∷ js) (a, h) = elim (Bool-cases (p j)) [
  | inl g ↦ rw g (keep-absent p j.id js a, keep-IsKeyed p js h)
  | inr g ↦ rw g (keep-IsKeyed p js h)
]

append-absent :
    (k : ℕ) (jobs : List Job) (j : Job)
    → get_job k jobs ≡ none
    → (j.id == k) ≡ false
    → get_job k (jobs ++ j ∷ []) ≡ none
append-absent k [] j h e = rw e
append-absent k (x ∷ xs) j h e = elim (Bool-cases (x.id == k)) [
  | inl f ↦ absurd (cc (rw f at h))
  | inr f ↦ rw f (append-absent k xs j (rw f at h) e)
]

append-IsKeyed :
    (jobs : List Job) (j : Job) → IsKeyed jobs → get_job j.id jobs ≡ none → IsKeyed (jobs ++ j ∷ [])
append-IsKeyed [] j h a = (refl, tt)
append-IsKeyed (k ∷ ks) j (b, h) a = elim (Bool-cases (k.id == j.id)) [
  | inl e ↦ absurd (cc (rw e at a))
  | inr e ↦ (append-absent k.id ks j b (ground arith), append-IsKeyed ks j h (rw e at a))
]

pub fail_job-id :
    (now : ℕ) (error : Str) (retry : Bool) (j : Job) → (fail_job now error retry j).id ≡ j.id
unfolding fail_job
fail_job-id now error retry j = ground arith

reclaim_job-id : (now : ℕ) (error : Str) (j : Job) → (reclaim_job now error j).id ≡ j.id
unfolding reclaim_job
reclaim_job-id now error j = ground arith

requeue_job-id : (reset : Bool) (j : Job) → (requeue_job reset j).id ≡ j.id
unfolding requeue_job
requeue_job-id reset j = refl

-- Every operation keeps the identifiers of the table distinct.
pub perform-IsKeyed :
    (t : ℕ) (op : Operation) (jobs : List Job) → IsKeyed jobs → IsKeyed (perform t op jobs)
unfolding perform
perform-IsKeyed t (enqueuing new_id now task_type payload priority scheduled_for) jobs v =
    elim (Option-cases (get_job new_id jobs)) [
      | inl e ↦ rw (perform, enqueue, e) (append-IsKeyed jobs _ v e)
      | inr (j, e) ↦ rw (perform, enqueue, e) v
    ]
perform-IsKeyed t (dequeuing locked now worker limit) jobs v =
    elim (Bool-cases (at_limit limit (count_status running t jobs))) [
      | inl e ↦ rw (perform, dequeue, e) v
      | inr e ↦
          elim (Option-cases
            (first_of (keep (λ j. of_tenant t j && is_available locked now j) jobs))) [
              | inl g ↦ rw (perform, dequeue, e, claim, g) v
              | inr (j, g) ↦
                  rw (perform, dequeue, e, claim, g)
                    (map_if-IsKeyed (start_job worker now) (λ k. refl) (λ k. k.id == j.id) jobs v)
            ]
    ]
perform-IsKeyed t (dequeuing_next locked now worker) jobs v =
    elim (Option-cases (first_of (keep (is_available locked now) jobs))) [
      | inl g ↦ rw (perform, dequeue_next_job, claim, g) v
      | inr (j, g) ↦
          rw (perform, dequeue_next_job, claim, g)
            (map_if-IsKeyed (start_job worker now) (λ k. refl) (λ k. k.id == j.id) jobs v)
    ]
perform-IsKeyed t (completing now job_id result) jobs v =
    map_if-IsKeyed _ (λ k. refl) (λ k. k.id == job_id) jobs v
perform-IsKeyed t (failing now job_id error retry) jobs v =
    map_if-IsKeyed (fail_job now error retry) (fail_job-id now error retry) (λ k. k.id == job_id)
      jobs v
perform-IsKeyed t (cancelling now job_id) jobs v = elim (Option-cases (get_job job_id jobs)) [
  | inl e ↦ rw (perform, cancel, e) v
  | inr (j, e) ↦ elim (Bool-cases (has_status pending j || has_status running j)) [
    | inl f ↦ rw (perform, cancel, e, f) (map_if-IsKeyed _ (λ k. refl) (λ k. k.id == job_id) jobs v)
    | inr f ↦ rw (perform, cancel, e, f) v
  ]
]
perform-IsKeyed t (requeuing job_id reset) jobs v = elim (Option-cases (get_job job_id jobs)) [
  | inl e ↦ rw (perform, requeue_failed, e) v
  | inr (j, e) ↦ elim (Bool-cases (has_status failed j)) [
    | inr f ↦ rw (perform, requeue_failed, e, f) v
    | inl f ↦ elim (Bool-cases (of_tenant t j)) [
      | inr g ↦ rw (perform, requeue_failed, e, f, g) v
      | inl g ↦
          rw (perform, requeue_failed, e, f, g)
            (map_if-IsKeyed (requeue_job reset) (requeue_job-id reset) (λ k. k.id == job_id) jobs v)
    ]
  ]
]
perform-IsKeyed t (requeuing_all task_type reset) jobs v =
    map_if-IsKeyed (requeue_job reset) (requeue_job-id reset) (is_failed t task_type) jobs v
perform-IsKeyed t (purging now task_type days) jobs v = keep-IsKeyed _ jobs v
perform-IsKeyed t (reclaiming locked now timeout error) jobs v =
    reclaim_first-IsKeyed (reclaim_job now error) (reclaim_job-id now error) _ 1000 jobs v
perform-IsKeyed t (cleaning c f now cttl fttl) jobs v =
    keep-IsKeyed _ _ (keep-IsKeyed _ _ (keep-IsKeyed _ jobs v))
