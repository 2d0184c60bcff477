-- ===== src/Jobs/Queue/Pick.antt =====
-- Which job `dequeue` claims.
use openlabels.Prelude.{
  ℕ, ◌≤◌, ◌<◌, ◌≡◌, refl, sym, ap, ◌∙◌, ◌⊎◌, inl, inr, Bool, true, false, not, ◌&&◌, Option, none,
  some, List, [], ◌∷◌, map, arith, ltb, leb, ◌==◌, if◌then◌else◌, ==_iff, Bool-cases, keep, All,
  Any, All-map, keep-true, keep-Any,
}
use openlabels.Prelude.Text.{Str}
use openlabels.Jobs.Queue.{
  Job, running, pending, update, first_of, before, start_job, has_status, status_code, JobStatus,
  is_available, at_limit, count_status, of_tenant, dequeue, is_due,
}

-- No job of the list comes before the one picked, which is of the list.
abbrev IsFirst : List Job → Option Job → Type 0
IsFirst jobs none = jobs ≡ []
IsFirst jobs (some j) = Any (λ k. k ≡ j) jobs × All (λ k. before k j ≡ false) jobs

before-weak : (a b c : Job) → before a b ≡ false → before b c ≡ false → before a c ≡ false
before-weak a b c h h' = ground arith

IsFirst-cons :
    (j k : Job) (js : List Job) (b : Bool)
    → before k j ≡ b
    → IsFirst js (some k)
    → IsFirst (j ∷ js) (some (if b then k else j))
IsFirst-cons j k js true e (here, least) = (inr here, (ground arith, least))
IsFirst-cons j k js false e (here, least) =
    (inl refl, (ground arith, All-map _ _ js (λ x h. before-weak x k j h e) least))

first_of-IsFirst : (jobs : List Job) → IsFirst jobs (first_of jobs)
unfolding first_of
first_of-IsFirst [] = refl
first_of-IsFirst (j ∷ js) = step (first_of js) (first_of-IsFirst js)
  where
    step :
        (o : Option Job)
        → IsFirst js o
        → IsFirst (j ∷ js) (elim o [ none ↦ some j | some k ↦ some (if before k j then k else j) ])
    step none e = rw e (inl refl, (ground arith, tt))
    step (some k) first = IsFirst-cons j k js (before k j) refl first

All-false : (q : Job → Bool) (jobs : List Job) → keep q jobs ≡ [] → All (λ k. q k ≡ false) jobs
All-false q [] e = tt
All-false q (j ∷ js) e = elim (Bool-cases (q j)) [
  | inl f ↦ absurd (cc (e, f))
  | inr f ↦ (f, All-false q js (rw f at e))
]

-- What follows of an element for which the one and the other hold.
Any_elim :
    {Q : Job → Type 0} (P : Job → Type 0) (R : Type 0) (jobs : List Job)
    → ((j : Job) → P j → Q j → R)
    → All Q jobs
    → Any P jobs
    → R
Any_elim P R [] f a h = absurd h
Any_elim P R (j ∷ js) f a (inl p) = f j p a.0
Any_elim P R (j ∷ js) f a (inr h) = Any_elim P R js f a.1 h

-- What holds of every element that passes, of every element.
All-keep :
    (q : Job → Bool) (P : Job → Type 0) (jobs : List Job)
    → All P (keep q jobs)
    → All (λ k. q k ≡ true → P k) jobs
All-keep q P [] h = tt
All-keep q P (j ∷ js) h = elim (Bool-cases (q j)) [
  | inl f ↦ let (p, rest) : P j × All P (keep q js) = rw f at h in ((λ e. p), All-keep q P js rest)
  | inr f ↦ ((λ e. absurd (cc (e, f))), All-keep q P js (rw f at h))
]

-- A job has no start time set, or one that has come.
abbrev pub IsDue : ℕ → Option ℕ → Type 0
IsDue now none = Unit
IsDue now (some t) = t ≤ now

-- `k` is of a lower priority than `j`, or of the same and no older.
abbrev pub IsBehind : Job → Job → Type 0
IsBehind j k =
    (k.priority < j.priority) ⊎ ((k.priority ≡ j.priority) × (j.created_at ≤ k.created_at))

-- The limit is set, and no higher than the number.
abbrev pub Reaches : Option ℕ → ℕ → Type 0
Reaches none n = ⊥
Reaches (some m) n = m ≤ n

at_limit-Reaches : (limit : Option ℕ) (n : ℕ) → at_limit limit n ≡ true → Reaches limit n
at_limit-Reaches none n h = cc
at_limit-Reaches (some m) n h = ground (arith, h)

below-Reaches : (limit : Option ℕ) (n : ℕ) → at_limit limit n ≡ false → ¬ Reaches limit n
below-Reaches none n h p = p
below-Reaches (some m) n h p = ground (arith, h, p)

before-IsBehind : (j k : Job) → before k j ≡ false → IsBehind j k
before-IsBehind j k h = elim (Bool-cases (ltb k.priority j.priority)) [
  | inl e ↦ inl (ground (arith, e))
  | inr e ↦ inr (ground (arith, e, h))
]

time_has_come :
    (now : ℕ) (t : Option ℕ) → elim t [ none ↦ true | some t ↦ leb t now ] ≡ true → IsDue now t
time_has_come now none h = tt
time_has_come now (some t) h = ground (arith, h)

time_came :
    (now : ℕ) (t : Option ℕ) → IsDue now t → elim t [ none ↦ true | some t ↦ leb t now ] ≡ true
time_came now none h = refl
time_came now (some t) h = ground (arith, h)

status_pending : (s : JobStatus) → (status_code s == status_code pending) ≡ true → s ≡ pending
status_pending pending h = refl
status_pending JobStatus.running h = cc
status_pending JobStatus.completed h = cc
status_pending JobStatus.failed h = cc
status_pending JobStatus.cancelled h = cc

and_cases : (a b : Bool) → (a && b) ≡ true → (a ≡ true) × (b ≡ true)
and_cases a b h = ground (arith, h)

module _ (locked : ℕ → Bool) (now tenant_id : ℕ) (worker_id : Str) (limit : Option ℕ)
    (jobs : List Job) where
  abbrev can_start : Job → Bool
  can_start j = of_tenant tenant_id j && is_available locked now j

  -- A job that the tenant's queue may start: one of its pending jobs whose time has come and whose row is free.
  abbrev pub CanStart : Job → Type 0
  CanStart j =
      (j.tenant_id ≡ tenant_id)
      × (j.status ≡ pending)
      × IsDue now j.scheduled_for
      × (locked j.id ≡ false)

  -- The job as it runs.
  abbrev pub started : Job → Job
  started j = record j { status = running; worker_id = some worker_id; started_at = some now }

  can_start-CanStart : (j : Job) → can_start j ≡ true → CanStart j
  can_start-CanStart j h =
      let (a, rest) = and_cases (of_tenant tenant_id j) (is_available locked now j) h in
      let (b, rest') = and_cases (has_status pending j) (is_due now j && not (locked j.id)) rest in
      let (c, d) = and_cases (is_due now j) (not (locked j.id)) rest' in
      (
        (==_iff j.tenant_id tenant_id).0 a,
        status_pending j.status b,
        time_has_come now j.scheduled_for c,
        ground (arith, d),
      )

  CanStart-can_start : (j : Job) → CanStart j → can_start j ≡ true
  CanStart-can_start j (a, b, c, d) =
      let due : is_due now j ≡ true = time_came now j.scheduled_for c in
      let mine : of_tenant tenant_id j ≡ true = (==_iff j.tenant_id tenant_id).1 a in
      let waits : has_status pending j ≡ true = ap (λ s. status_code s == status_code pending) b in
      rw (mine, waits, due, d) refl

  -- What a call of `dequeue` does, by its answer.
  abbrev pub Dequeues : List Job × Option Job → Type 0
  Dequeues (jobs', none) =
      (jobs' ≡ jobs)
      × (Reaches limit (count_status running tenant_id jobs) ⊎ All (λ k. ¬ CanStart k) jobs)
  Dequeues (jobs', some r) =
      (¬ Reaches limit (count_status running tenant_id jobs))
      × ((j : Job) × Any (λ k. k ≡ j) jobs
          × CanStart j
          × All (λ k. CanStart k → IsBehind j k) jobs
          × (r ≡ started j)
          × (jobs' ≡ map (λ k. if k.id == j.id then started k else k) jobs))

  passes : (j : Job) → Any (λ k. k ≡ j) (keep can_start jobs) → can_start j ≡ true
  passes j here =
      Any_elim (λ k. k ≡ j) (can_start j ≡ true) (keep can_start jobs)
        (λ k e p. ap can_start (sym e) ∙ p) (keep-true can_start jobs) here

  claim-Dequeues :
      (o : Option Job)
      → at_limit limit (count_status running tenant_id jobs) ≡ false
      → IsFirst (keep can_start jobs) o
      → Dequeues (elim o [
        | none ↦ (jobs, none)
        | some j ↦ (update j.id (start_job worker_id now) jobs, some (start_job worker_id now j))
      ])
  claim-Dequeues none l e = (
    refl,
    inr (All-map _ _ jobs (λ k h c. cc (CanStart-can_start k c, h)) (All-false can_start jobs e)),
  )
  claim-Dequeues (some j) l (here, least) = (
    below-Reaches limit (count_status running tenant_id jobs) l,
    (
      j,
      keep-Any can_start (λ k. k ≡ j) jobs here,
      can_start-CanStart j (passes j here),
      All-map _ _ jobs (λ k h c. before-IsBehind j k (h (CanStart-can_start k c)))
          (All-keep can_start (λ k. before k j ≡ false) jobs least),
      refl,
      refl,
    ),
  )

  -- `dequeue` answers none exactly where the limit is set and no higher than the count of the tenant's running jobs, or where
  -- the tenant has no pending job whose time has come and whose row is free; it then changes nothing. Otherwise it starts such
  -- a job, and every other such job is of a lower priority, or of the same and no older; no row of another identifier changes.
  pub dequeue_lem : Dequeues (dequeue locked now tenant_id worker_id limit jobs)
  unfolding dequeue
  dequeue_lem = elim (Bool-cases (at_limit limit (count_status running tenant_id jobs))) [
    | inl e ↦
        rw (dequeue, e) (refl, inl (at_limit-Reaches limit (count_status running tenant_id jobs) e))
    | inr e ↦
        rw (dequeue, e)
          (claim-Dequeues (first_of (keep can_start jobs)) e
            (first_of-IsFirst (keep can_start jobs)))
  ]
