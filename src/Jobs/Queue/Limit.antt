-- ===== src/Jobs/Queue/Limit.antt =====
-- The limit on a tenant's running jobs.
use openlabels.Prelude.{
  ℕ, zero, suc, ◌+◌, ◌≤◌, ◌≡◌, refl, ap, inl, inr, Bool, true, false, not, ◌&&◌, ◌||◌, none, some,
  List, [], ◌∷◌, ◌++◌, map, arith, leb, ◌==◌, if◌then◌else◌, ==_iff, Bool-cases, Option-cases,
  length, keep, All,
}
use openlabels.Prelude.Text.{Str}
use native.Mathlib.Nat.{le_trans}
use openlabels.Jobs.Queue.Failed.{requeue_job, requeue_failed, is_failed}
use openlabels.Jobs.Queue.{
  is_available, Job, running, get_job, update, claim, start_job, first_of, of_tenant, has_status,
  count_status, fail_job, All, enqueue, new_job, leb, at_limit, dequeue, cancel, pending, failed,
  cancelled, completed,
}
use openlabels.Jobs.Queue.Cleanup.{reclaim_first, reclaim_job, is_expired, or_default}
use openlabels.Jobs.Queue.Run.{
  Operation, dequeuing, dequeuing_next, perform, run, enqueuing, completing, failing, cancelling,
  requeuing, requeuing_all, purging, reclaiming, cleaning,
}
use openlabels.Jobs.Queue.Keys.{IsKeyed, perform-IsKeyed}

-- How many rows pass a test, before and after a change.
module _ (q : Job → Bool) where
  count : List Job → ℕ
  count jobs = length (keep q jobs)

  count-append :
      (jobs : List Job) (j : Job)
      → q j ≡ false
      → length (keep q (jobs ++ j ∷ [])) ≡ length (keep q jobs)
  count-append [] j e = rw e
  count-append (k ∷ ks) j e = elim (Bool-cases (q k)) [
    | inl f ↦ rw f (ap suc (count-append ks j e))
    | inr f ↦ rw f (count-append ks j e)
  ]

  count-keep :
      (p : Job → Bool) (jobs : List Job) → length (keep q (keep p jobs)) ≤ length (keep q jobs)
  count-keep p [] = omega arith
  count-keep p (j ∷ js) = ground (arith, count-keep p js)

  count-keep_thrice :
      (p p' p'' : Job → Bool) (jobs : List Job)
      → length (keep q (keep p (keep p' (keep p'' jobs)))) ≤ length (keep q jobs)
  count-keep_thrice p p' p'' jobs = omega (
    arith,
    count-keep p (keep p' (keep p'' jobs)),
    count-keep p' (keep p'' jobs),
    count-keep p'' jobs,
  )

  module _ (f : Job → Job) where
    count-map_if :
        (p : Job → Bool) (jobs : List Job)
        → ((j : Job) → q (f j) ≡ false)
        → length (keep q (map (λ j. if p j then f j else j) jobs)) ≤ length (keep q jobs)
    count-map_if p [] h = omega arith
    count-map_if p (j ∷ js) h = ground (arith, h j, count-map_if p js h)

    count-reclaim_first :
        (p : Job → Bool) (n : ℕ) (jobs : List Job)
        → ((j : Job) → q (f j) ≡ false)
        → length (keep q (reclaim_first p f n jobs).0) ≤ length (keep q jobs)
    unfolding reclaim_first
    count-reclaim_first p n [] h = omega arith
    count-reclaim_first p zero (j ∷ js) h = omega arith
    count-reclaim_first p (suc n) (j ∷ js) h =
        ground (arith, h j, count-reclaim_first p n js h, count-reclaim_first p (suc n) js h)

    update-absent : (k : ℕ) (jobs : List Job) → get_job k jobs ≡ none → update k f jobs ≡ jobs
    update-absent k [] h = refl
    update-absent k (j ∷ js) h = elim (Bool-cases (j.id == k)) [
      | inl e ↦ absurd (cc (rw e at h))
      | inr e ↦ rw e (ap (◌∷◌ j) (update-absent k js (rw e at h)))
    ]

    -- A change of one row adds one at most.
    count-update :
        (k : ℕ) (jobs : List Job)
        → IsKeyed jobs
        → length (keep q (update k f jobs)) ≤ length (keep q jobs) + 1
    count-update k [] h = omega arith
    count-update k (j ∷ js) (a, h) = elim (Bool-cases (j.id == k)) [
      | inl e ↦ rw (e, update-absent k js (rw (← (==_iff j.id k).0 e) a)) (ground arith)
      | inr e ↦ rw e (ground (arith, count-update k js h))
    ]

-- The operations of a queue whose callers of `dequeue` all give the limit `m`.
abbrev pub IsLimited : ℕ → Operation → Type 0
IsLimited m (dequeuing locked now worker limit) = limit ≡ some m
IsLimited m _ = Unit

-- A claim makes one job more run at most.
claim_adds :
    (t : ℕ) (worker : Str) (now : ℕ) (candidates jobs : List Job)
    → IsKeyed jobs
    → count_status running t (claim worker now candidates jobs).0 ≤ count_status running t jobs + 1
unfolding count_status
claim_adds t worker now candidates jobs v = elim (Option-cases (first_of candidates)) [
  | inl e ↦ rw (claim, e) (omega arith)
  | inr (j, e) ↦
      rw (claim, e)
        (count-update (λ k. of_tenant t k && has_status running k) (start_job worker now) j.id jobs
          v)
]

-- The call of `dequeue_next_job`, which reads no limit.
abbrev pub is_next : Operation → Bool
is_next (dequeuing_next locked now worker) = true
is_next _ = false

-- A bound on the running jobs, after an operation.
abbrev raised : Operation → ℕ → ℕ
raised op b = if is_next op then b + 1 else b

and_false : (b : Bool) → (b && false) ≡ false
and_false b = ground arith

-- What the changes but a claim make of a job does not run.
module _ (t : ℕ) where
  fail_job-stopped :
      (now : ℕ) (error : Str) (retry : Bool) (j : Job)
      → (of_tenant t (fail_job now error retry j)
          && has_status running (fail_job now error retry j))
        ≡ false
  unfolding fail_job
  fail_job-stopped now error retry j = ground arith

  reclaim_job-stopped :
      (now : ℕ) (error : Str) (j : Job)
      → (of_tenant t (reclaim_job now error j) && has_status running (reclaim_job now error j))
        ≡ false
  unfolding reclaim_job
  reclaim_job-stopped now error j = ground arith

  requeue_job-stopped :
      (reset : Bool) (j : Job)
      → (of_tenant t (requeue_job reset j) && has_status running (requeue_job reset j)) ≡ false
  unfolding requeue_job
  requeue_job-stopped reset j = ground arith

perform_within :
    (t m b : ℕ) (op : Operation) (jobs : List Job)
    → m ≤ b
    → IsLimited m op
    → IsKeyed jobs
    → count_status running t jobs ≤ b
    → count_status running t (perform t op jobs) ≤ raised op b
unfolding perform count_status
perform_within t m b (enqueuing new_id now task_type payload priority scheduled_for) jobs w l v h =
    elim (Option-cases (get_job new_id jobs)) [
      | inl e ↦
          rw (perform, enqueue, e)
            (omega (
              arith,
              count-append (λ j. of_tenant t j && has_status running j) jobs
                  (new_job new_id now t task_type payload priority scheduled_for)
                  (and_false (t == t)),
            ))
      | inr (j, e) ↦ rw (perform, enqueue, e) h
    ]
perform_within t m b (dequeuing locked now worker limit) jobs w l v h =
    elim (Bool-cases (at_limit limit (count_status running t jobs))) [
      | inl e ↦ rw (perform, dequeue, e) h
      | inr e ↦
          rw (perform, dequeue, e)
            (le_trans
              (claim_adds t worker now (keep (λ j. of_tenant t j && is_available locked now j) jobs)
                jobs v)
              (room (rw l at e)))
    ]
  where
    room : leb m (count_status running t jobs) ≡ false → count_status running t jobs + 1 ≤ b
    room e = ground arith
perform_within t m b (dequeuing_next locked now worker) jobs w l v h =
    le_trans (claim_adds t worker now (keep (is_available locked now) jobs) jobs v)
      (omega (arith, h))
perform_within t m b (completing now job_id result) jobs w l v h =
    le_trans (count-map_if _ _ (λ k. k.id == job_id) jobs (λ k. and_false (k.tenant_id == t))) h
perform_within t m b (failing now job_id error retry) jobs w l v h =
    le_trans
      (count-map_if _ (fail_job now error retry) (λ k. k.id == job_id) jobs
        (fail_job-stopped t now error retry))
      h
perform_within t m b (cancelling now job_id) jobs w l v h =
    elim (Option-cases (get_job job_id jobs)) [
      | inl e ↦ rw (perform, cancel, e) h
      | inr (j, e) ↦ elim (Bool-cases (has_status pending j || has_status running j)) [
        | inl f ↦
            rw (perform, cancel, e, f)
              (le_trans
                (count-map_if _ _ (λ k. k.id == job_id) jobs (λ k. and_false (k.tenant_id == t))) h)
        | inr f ↦ rw (perform, cancel, e, f) h
      ]
    ]
perform_within t m b (requeuing job_id reset) jobs w l v h =
    elim (Option-cases (get_job job_id jobs)) [
      | inl e ↦ rw (perform, requeue_failed, e) h
      | inr (j, e) ↦ elim (Bool-cases (has_status failed j)) [
        | inr f ↦ rw (perform, requeue_failed, e, f) h
        | inl f ↦ elim (Bool-cases (of_tenant t j)) [
          | inr g ↦ rw (perform, requeue_failed, e, f, g) h
          | inl g ↦
              rw (perform, requeue_failed, e, f, g)
                (le_trans
                  (count-map_if _ (requeue_job reset) (λ k. k.id == job_id) jobs
                    (requeue_job-stopped t reset))
                  h)
        ]
      ]
    ]
perform_within t m b (requeuing_all task_type reset) jobs w l v h =
    le_trans
      (count-map_if _ (requeue_job reset) (is_failed t task_type) jobs
        (requeue_job-stopped t reset))
      h
perform_within t m b (purging now task_type days) jobs w l v h = le_trans (count-keep _ _ jobs) h
perform_within t m b (reclaiming locked now timeout error) jobs w l v h =
    le_trans
      (count-reclaim_first _ (reclaim_job now error) _ 1000 jobs (reclaim_job-stopped t now error))
      h
perform_within t m b (cleaning c f now cttl fttl) jobs w l v h =
    le_trans
      (count-keep_thrice (λ j. of_tenant t j && has_status running j)
        (λ j. not (is_expired failed now t (or_default fttl f) j))
        (λ j. not (is_expired cancelled now t (or_default cttl c) j))
        (λ j. not (is_expired completed now t (or_default cttl c) j)) jobs)
      h

raised_nexts :
    (op : Operation) (ops : List Operation) (b : ℕ)
    → raised op b + length (keep is_next ops) ≡ b + length (keep is_next (op ∷ ops))
raised_nexts op ops b = elim (Bool-cases (is_next op)) [
  | inl e ↦ rw e (omega arith)
  | inr e ↦ rw e refl
]

run_at_most :
    (t m b : ℕ) (ops : List Operation) (jobs : List Job)
    → m ≤ b
    → All (IsLimited m) ops
    → IsKeyed jobs
    → count_status running t jobs ≤ b
    → (count_status running t (run t ops jobs) ≤ b + length (keep is_next ops))
      × IsKeyed (run t ops jobs)
unfolding run
run_at_most t m b [] jobs w l v h = (omega (arith, h), v)
run_at_most t m b (op ∷ ops) jobs w l v h =
    let wider : m ≤ raised op b = ground (arith, w) in
    let (bound, keyed) =
      run_at_most t m (raised op b) ops (perform t op jobs) wider l.1 (perform-IsKeyed t op jobs v)
        (perform_within t m b op jobs w l.0 v h) in
    (omega (arith, bound, raised_nexts op ops b), keyed)

-- Where the identifiers of the table are distinct and every call of `dequeue` gives the limit `m`, a tenant
-- that has no more than `m` jobs running never has more than `m` and one for each call of `dequeue_next_job`,
-- which reads no limit: without such calls never more than `m`. This holds whatever operations of its queue, and calls of
-- `dequeue_next_job`, are done one after the other in whatever order; and the identifiers stay distinct.
pub run_within :
    (t m : ℕ) (ops : List Operation) (jobs : List Job)
    → All (IsLimited m) ops
    → IsKeyed jobs
    → count_status running t jobs ≤ m
    → (count_status running t (run t ops jobs) ≤ m + length (keep is_next ops))
      × IsKeyed (run t ops jobs)
run_within t m ops jobs l v h = run_at_most t m m ops jobs (omega arith) l v h
