-- ===== src/Server/RateLimit/Log.antt =====
-- The limiter against a log of all requests that were admitted.
use openlabels.Prelude.{
  ℕ, ◌+◌, ◌-◌, ◌≤◌, ◌≡◌, refl, ap, ◌∙◌, inl, inr, Bool, true, ◌&&◌, List, [], ◌∷◌, ◌++◌, arith, ltb,
  if◌then◌else◌, Bool-cases, length, keep, keep-append, leb, false, length-append,
}
use openlabels.Prelude.Text.{Str, str_eq, str_eq→eq}
use mathlib.Core.List.{append-nil}
use openlabels.Server.RateLimit.{
  Backend, minute, hour, is_recent, Answer, refused, Request, assign, check_and_record,
}

-- The times at which the log has requests of a tenant.
unfoldable pub times_of : Str → List Request → List ℕ
unfolding str_eq
times_of u [] = []
times_of u (r ∷ log) = if str_eq r.tenant_id u then r.time ∷ times_of u log else times_of u log

-- A request is admitted where both windows before it, counted in the log, have room.
unfoldable pub admit : ℕ → ℕ → Request → List Request → List Request × Answer
unfolding times_of
admit rpm rph r log =
    let m : ℕ = length (keep (is_recent minute r.time) (times_of r.tenant_id log)) in
    let h : ℕ = length (keep (is_recent hour r.time) (times_of r.tenant_id log)) in
    if ltb m rpm && ltb h rph
    then (
      log ++ r ∷ [],
      record { allowed = true; minute_remaining = rpm - (m + 1); hour_remaining = rph - (h + 1) },
    )
    else (log, refused)

unfoldable pub admit_all : ℕ → ℕ → List Request → List Request → List Request × List Answer
unfolding admit
admit_all rpm rph [] log = (log, [])
admit_all rpm rph (r ∷ rs) log =
    let (log', a) = admit rpm rph r log in
    let (log'', rest) = admit_all rpm rph rs log' in (log'', a ∷ rest)

-- The requests come in the order of their times.
abbrev pub IsInTime : ℕ → List Request → Type 0
IsInTime last [] = Unit
IsInTime last (r ∷ rs) = (last ≤ r.time) × IsInTime r.time rs

module _ {ℓ} {A : Type ℓ} where
  keep-keep :
      (p q : A → Bool) (xs : List A)
      → ((x : A) → p x ≡ true → q x ≡ true)
      → keep p (keep q xs) ≡ keep p xs
  keep-keep p q [] h = refl
  keep-keep p q (x ∷ xs) h = elim (Bool-cases (q x)) [
    | inl e ↦ elim (Bool-cases (p x)) [
      | inl f ↦ rw (e, f, keep-keep p q xs h)
      | inr f ↦ rw (e, f, keep-keep p q xs h)
    ]
    | inr e ↦ elim (Bool-cases (p x)) [
      | inl f ↦ absurd (cc (h x f))
      | inr f ↦ rw (e, f, keep-keep p q xs h)
    ]
  ]

pub times_of-append :
    (u : Str) (log : List Request) (r : Request)
    → times_of u (log ++ r ∷ [])
      ≡ times_of u log ++ (if str_eq r.tenant_id u then r.time ∷ [] else [])
unfolding times_of
times_of-append u [] r = ground arith
times_of-append u (k ∷ log) r = elim (Bool-cases (str_eq k.tenant_id u)) [
  | inl e ↦ rw (times_of, e) (ap (◌∷◌ k.time) (times_of-append u log r))
  | inr e ↦ rw (times_of, e) (times_of-append u log r)
]

-- What the list of a tenant has of a window that ends no earlier than `last` is what the log has of it.
abbrev pub Agree : ℕ → ℕ → List ℕ → List ℕ → Type 0
Agree window last xs ys =
    (now : ℕ) → last ≤ now → keep (is_recent window now) xs ≡ keep (is_recent window now) ys

Agree-recent :
    (window last now : ℕ) (xs ys : List ℕ)
    → last ≤ now
    → Agree window last xs ys
    → Agree window now (keep (is_recent window now) xs) ys
Agree-recent window last now xs ys l h later m =
    keep-keep (is_recent window later) (is_recent window now) xs (λ t e. ground arith)
    ∙ h later (omega arith)

Agree-append :
    (window last : ℕ) (xs ys zs : List ℕ)
    → Agree window last xs ys
    → Agree window last (xs ++ zs) (ys ++ zs)
Agree-append window last xs ys zs h now m =
    rw (keep-append (is_recent window now) xs zs, keep-append (is_recent window now) ys zs, h now m)

pub record Tracks (last : ℕ) (b : Backend) (log : List Request) : Type 0 where
  pub minutes : (u : Str) → Agree minute last (b.minute_counts u) (times_of u log)
  pub hours : (u : Str) → Agree hour last (b.hour_counts u) (times_of u log)

Agree-weak :
    (window last now : ℕ) (xs ys : List ℕ)
    → last ≤ now
    → Agree window last xs ys
    → Agree window now xs ys
Agree-weak window last now xs ys l h later m = h later (omega arith)

module _ (window last : ℕ) (f : Str → List ℕ) (log : List Request) (r : Request) (l : last ≤ r.time)
    (h : (u : Str) → Agree window last (f u) (times_of u log)) where
  seen : List ℕ
  seen = keep (is_recent window r.time) (f r.tenant_id)

  assign-Agree_recent :
      (u : Str)
      → Agree window r.time
          (assign r.tenant_id (keep (is_recent window r.time) (f r.tenant_id)) f u)
          (times_of u log)
  unfolding assign
  assign-Agree_recent u = elim (Bool-cases (str_eq r.tenant_id u)) [
    | inl e ↦
        rw (e, ← str_eq→eq r.tenant_id u e)
          (Agree-recent window last r.time (f r.tenant_id) (times_of r.tenant_id log) l
            (h r.tenant_id))
    | inr e ↦ rw e (Agree-weak window last r.time (f u) (times_of u log) l (h u))
  ]

  assign-Agree_append :
      (u : Str)
      → Agree window r.time
          (assign r.tenant_id (keep (is_recent window r.time) (f r.tenant_id) ++ r.time ∷ []) f u)
          (times_of u (log ++ r ∷ []))
  unfolding assign
  assign-Agree_append u = elim (Bool-cases (str_eq r.tenant_id u)) [
    | inl e ↦
        rw (times_of-append, e, ← str_eq→eq r.tenant_id u e)
          (Agree-append window r.time _ (times_of r.tenant_id log) (r.time ∷ []) (
            Agree-recent window last r.time (f r.tenant_id) (times_of r.tenant_id log) l
              (h r.tenant_id)))
    | inr e ↦
        rw (times_of-append, e, append-nil)
          (Agree-weak window last r.time (f u) (times_of u log) l (h u))
  ]

leb→ltb : (a b : ℕ) → leb a b ≡ true → ltb b a ≡ false
leb→ltb a b h = ground arith

leb-ltb : (a b : ℕ) → leb a b ≡ false → ltb b a ≡ true
leb-ltb a b h = ground arith

pub admit_step :
    (rpm rph last : ℕ) (r : Request) (b : Backend) (log : List Request)
    → last ≤ r.time
    → Tracks last b log
    → ((check_and_record r.time r.tenant_id rpm rph b).1 ≡ (admit rpm rph r log).1)
      × Tracks r.time (check_and_record r.time r.tenant_id rpm rph b).0 (admit rpm rph r log).0
unfolding check_and_record admit
admit_step rpm rph last r b log l k =
    let ms : List ℕ = keep (is_recent minute r.time) (b.minute_counts r.tenant_id) in
    let hs : List ℕ = keep (is_recent hour r.time) (b.hour_counts r.tenant_id) in
    rw (← k.minutes r.tenant_id r.time l, ← k.hours r.tenant_id r.time l)
      (elim (Bool-cases (leb rpm (length ms))) [
        | inl e ↦
            rw (check_and_record, e, leb→ltb rpm (length ms) e)
              (
                refl,
                record {
                  minutes = assign-Agree_recent minute last b.minute_counts log r l k.minutes;
                  hours = λ u. Agree-weak hour last r.time _ (times_of u log) l (k.hours u);
                },
              )
        | inr e ↦ elim (Bool-cases (leb rph (length hs))) [
          | inl f ↦
              rw (check_and_record, e, f, leb-ltb rpm (length ms) e, leb→ltb rph (length hs) f)
                (
                  refl,
                  record {
                    minutes = assign-Agree_recent minute last b.minute_counts log r l k.minutes;
                    hours = assign-Agree_recent hour last b.hour_counts log r l k.hours;
                  },
                )
          | inr f ↦
              rw
                (
                  check_and_record,
                  e,
                  f,
                  leb-ltb rpm (length ms) e,
                  leb-ltb rph (length hs) f,
                  length-append ms (r.time ∷ []),
                  length-append hs (r.time ∷ []),
                )
                (
                  refl,
                  record {
                    minutes = assign-Agree_append minute last b.minute_counts log r l k.minutes;
                    hours = assign-Agree_append hour last b.hour_counts log r l k.hours;
                  },
                )
        ]
      ])
