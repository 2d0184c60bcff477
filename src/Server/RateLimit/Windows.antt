-- ===== src/Server/RateLimit/Windows.antt =====
-- What the limiter admits in a window of time.
use openlabels.Prelude.{
  ℕ, ◌+◌, ◌≤◌, ◌<◌, ◌≡◌, refl, sym, ap, subst, inl, inr, Bool, true, ◌&&◌, List, [], ◌∷◌, ◌++◌,
  arith, ltb, leb, if◌then◌else◌, Bool-cases, length, keep, length-append, keep-append,
}
use mathlib.Core.List.{append-nil, append_assoc}
use openlabels.Prelude.Text.{Str, str_eq, str_eq→eq}
use openlabels.Server.RateLimit.{
  Backend, empty_backend, minute, hour, is_recent, Answer, check_and_record, Request, answers,
}
use openlabels.Server.RateLimit.Log.{
  times_of, admit, admit_all, IsInTime, Tracks, admit_step, times_of-append,
}

answers-Tracks :
    (rpm rph last : ℕ) (rs : List Request) (b : Backend) (log : List Request)
    → IsInTime last rs
    → Tracks last b log
    → answers rpm rph rs b ≡ (admit_all rpm rph rs log).1
unfolding answers admit_all
answers-Tracks rpm rph last [] b log t k = refl
answers-Tracks rpm rph last (r ∷ rs) b log (l, t) k =
    let (e, k') = admit_step rpm rph last r b log l k in
    rw (answers, e)
      (ap (◌∷◌ (admit rpm rph r log).1) (
        answers-Tracks rpm rph r.time rs (check_and_record r.time r.tenant_id rpm rph b).0
          (admit rpm rph r log).0 t k'))

-- If requests reach the lock in the order of the times that they read, the limiter of a new process answers every sequence of requests as one that keeps all
-- admitted requests in a log, and admits a request where the log has room in both windows before it.
pub answers-admit_all :
    (rpm rph : ℕ) (rs : List Request)
    → IsInTime 0 rs
    → answers rpm rph rs empty_backend ≡ (admit_all rpm rph rs []).1
unfolding times_of
answers-admit_all rpm rph rs t =
    answers-Tracks rpm rph 0 rs empty_backend [] t
      (record { minutes = λ u now l. refl; hours = λ u now l. refl })

-- The requests whose answers admit them.
unfoldable pub admitted : List Request → List Answer → List Request
admitted [] answered = []
admitted (r ∷ rs) [] = []
admitted (r ∷ rs) (a ∷ answered) =
    if a.allowed then r ∷ admitted rs answered else admitted rs answered

abbrev has_room : ℕ → ℕ → Request → List Request → Bool
has_room rpm rph r log =
    ltb (length (keep (is_recent minute r.time) (times_of r.tenant_id log))) rpm
    && ltb (length (keep (is_recent hour r.time) (times_of r.tenant_id log))) rph

has_room_lem :
    (rpm rph : ℕ) (r : Request) (log : List Request)
    → has_room rpm rph r log ≡ true
    → (length (keep (is_recent minute r.time) (times_of r.tenant_id log)) < rpm)
      × (length (keep (is_recent hour r.time) (times_of r.tenant_id log)) < rph)
has_room_lem rpm rph r log e = ground arith

admit_all-admitted :
    (rpm rph : ℕ) (rs log : List Request)
    → (admit_all rpm rph rs log).0 ≡ log ++ admitted rs (admit_all rpm rph rs log).1
unfolding admit_all admitted
admit_all-admitted rpm rph [] log = sym (append-nil log)
admit_all-admitted rpm rph (r ∷ rs) log = elim (Bool-cases (has_room rpm rph r log)) [
  | inl e ↦
      rw (admit_all, admit, e, admit_all-admitted rpm rph rs (log ++ r ∷ []))
        (append_assoc log (r ∷ []) _)
  | inr e ↦ rw (admit_all, admit, e) (admit_all-admitted rpm rph rs log)
]

-- The window of time that ends with `w`.
abbrev pub is_within : ℕ → ℕ → ℕ → Bool
is_within window w t = leb t w && ltb w (t + window)

abbrev pub count_within : ℕ → ℕ → Str → List Request → ℕ
count_within window w u log = length (keep (is_within window w) (times_of u log))

abbrev pub IsBounded : ℕ → ℕ → List Request → Type 0
IsBounded rpm rph log =
    (u : Str) (w : ℕ) → (count_within minute w u log ≤ rpm) × (count_within hour w u log ≤ rph)

length-keep-le :
    (p q : ℕ → Bool) (xs : List ℕ)
    → ((x : ℕ) → p x ≡ true → q x ≡ true)
    → length (keep p xs) ≤ length (keep q xs)
length-keep-le p q [] h = omega arith
length-keep-le p q (x ∷ xs) h = ground (arith, h x, length-keep-le p q xs h)

-- Where the window before now has room, one request more keeps every window within the limit.
one_more :
    (window limit now w : ℕ) (xs : List ℕ)
    → length (keep (is_recent window now) xs) < limit
    → length (keep (is_within window w) xs) ≤ limit
    → length (keep (is_within window w) (xs ++ now ∷ [])) ≤ limit
one_more window limit now w xs room h = elim (Bool-cases (is_within window w now)) [
  | inl e ↦
      rw (keep-append (is_within window w) xs (now ∷ []), e)
        (omega (
          arith,
          length-append (keep (is_within window w) xs) (now ∷ []),
          length-keep-le (is_within window w) (is_recent window now) xs (λ t f. ground arith),
        ))
  | inr e ↦
      rw
        (
          keep-append (is_within window w) xs (now ∷ []),
          e,
          append-nil (keep (is_within window w) xs),
        )
        h
]

admit-IsBounded :
    (rpm rph : ℕ) (r : Request) (log : List Request)
    → IsBounded rpm rph log
    → IsBounded rpm rph (admit rpm rph r log).0
unfolding admit
admit-IsBounded rpm rph r log h u w = elim (Bool-cases (has_room rpm rph r log)) [
  | inr e ↦ rw (admit, e) (h u w)
  | inl e ↦ elim (Bool-cases (str_eq r.tenant_id u)) [
    | inr f ↦ rw (admit, e, times_of-append u log r, f, append-nil (times_of u log)) (h u w)
    | inl f ↦
        let same : r.tenant_id ≡ u = str_eq→eq r.tenant_id u f in
        let (minute_room, hour_room) = has_room_lem rpm rph r log e in
        rw (admit, e, times_of-append u log r, f)
          (
            one_more minute rpm r.time w (times_of u log)
                (subst (λ v. length (keep (is_recent minute r.time) (times_of v log)) < rpm) same
                  minute_room)
                (h u w).0,
            one_more hour rph r.time w (times_of u log)
                (subst (λ v. length (keep (is_recent hour r.time) (times_of v log)) < rph) same
                  hour_room)
                (h u w).1,
          )
  ]
]

admit_all-IsBounded :
    (rpm rph : ℕ) (rs log : List Request)
    → IsBounded rpm rph log
    → IsBounded rpm rph (admit_all rpm rph rs log).0
unfolding admit_all
admit_all-IsBounded rpm rph [] log h = h
admit_all-IsBounded rpm rph (r ∷ rs) log h =
    admit_all-IsBounded rpm rph rs (admit rpm rph r log).0 (admit-IsBounded rpm rph r log h)

-- If requests reach the lock in the order of the times that they read, the limiter of a new process admits no more requests of a tenant than the limit of a
-- minute in any window of a minute, and no more than that of an hour in any window of an hour.
pub admitted-IsBounded :
    (rpm rph : ℕ) (rs : List Request)
    → IsInTime 0 rs
    → IsBounded rpm rph (admitted rs (answers rpm rph rs empty_backend))
unfolding times_of
admitted-IsBounded rpm rph rs t =
    rw (answers-admit_all rpm rph rs t, ← admit_all-admitted rpm rph rs [])
      (admit_all-IsBounded rpm rph rs [] (λ u w. (omega arith, omega arith)))
