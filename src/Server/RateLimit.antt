-- ===== src/Server/RateLimit.antt =====
-- The rate limiter of a tenant (src/openlabels/server/middleware/rate_limit.py). Times are in microseconds.
-- A defaultdict is a function, and the operations under the lock are a sequence.
pub mod Log
pub mod Windows
mod Examples
use openlabels.Prelude.{
  ℕ, zero, suc, ◌+◌, ◌-◌, ◌*◌, ◌/◌, ◌%◌, ◌≤◌, ◌<◌, min, max, ◌≡◌, refl, sym, ap, ◌∙◌, subst, ◌≢◌,
  ◌↔◌, ◌⊎◌, inl, inr, Bool, true, false, not, ◌&&◌, ◌||◌, Option, none, some, List, [], ◌∷◌, ◌++◌,
  map, reverse, arith, ltb, leb, ◌==◌, if◌then◌else◌, ltb→lt, lt→ltb, ge→ltb, leb→le, le→leb,
  gt→leb, ==_iff, Bool-cases, Option-cases, some_inj, length, get_elem?, take, drop, slice, keep,
  All, Any, all, any, length-append, length-take, length-drop,
}
use openlabels.Prelude.Text.{Str, str_eq}

-- `_InMemoryTenantBackend`
pub record Backend : Type 0 where
  pub minute_counts : Str → List ℕ
  pub hour_counts : Str → List ℕ

abbrev pub empty_backend : Backend
empty_backend = record { minute_counts = λ u. []; hour_counts = λ u. [] }

-- counts[tenant_id] = times
unfoldable pub assign : Str → List ℕ → (Str → List ℕ) → Str → List ℕ
unfolding str_eq
assign tenant_id times counts u = if str_eq tenant_id u then times else counts u

abbrev pub minute : ℕ
minute = 60_000_000

abbrev pub hour : ℕ
hour = 3_600_000_000

-- t > now - window
abbrev pub is_recent : ℕ → ℕ → ℕ → Bool
is_recent window now t = ltb now (t + window)

-- (allowed, minute_remaining, hour_remaining)
pub record Answer : Type 0 where
  pub allowed : Bool
  pub minute_remaining : ℕ
  pub hour_remaining : ℕ

abbrev pub refused : Answer
refused = record { allowed = false; minute_remaining = 0; hour_remaining = 0 }

-- `_InMemoryTenantBackend.check_and_record`
unfoldable pub check_and_record : ℕ → Str → ℕ → ℕ → Backend → Backend × Answer
unfolding assign
check_and_record now tenant_id rpm_limit rph_limit b =
    let minute_list : List ℕ = keep (is_recent minute now) (b.minute_counts tenant_id) in
    let b1 : Backend = record b { minute_counts = assign tenant_id minute_list b.minute_counts } in
    if leb rpm_limit (length minute_list)
    then (b1, refused)
    else (let hour_list : List ℕ = keep (is_recent hour now) (b.hour_counts tenant_id) in
        if leb rph_limit (length hour_list)
        then (record b1 { hour_counts = assign tenant_id hour_list b.hour_counts }, refused)
        else (
          record {
            minute_counts = assign tenant_id (minute_list ++ now ∷ []) b.minute_counts;
            hour_counts = assign tenant_id (hour_list ++ now ∷ []) b.hour_counts;
          },
          record {
            allowed = true;
            minute_remaining = rpm_limit - length (minute_list ++ now ∷ []);
            hour_remaining = rph_limit - length (hour_list ++ now ∷ []);
          },
        ))

-- `_RedisTenantBackend.check_and_record`. `pipeline` runs the commands for the keys of the tenant's minute and
-- hour, and gives the two counts, or none where it raises.
unfoldable pub redis_check_and_record :
    (Str → ℕ → ℕ → Option (ℕ × ℕ)) → ℕ → Str → ℕ → ℕ → Option Answer
redis_check_and_record pipeline now tenant_id rpm_limit rph_limit =
    elim (pipeline tenant_id (now / minute) (now / hour)) [
      | none ↦ none
      | some (minute_count, hour_count) ↦ some (
          if ltb rpm_limit minute_count
          then refused
          else if ltb rph_limit hour_count
          then refused
          else record {
            allowed = true;
            minute_remaining = rpm_limit - minute_count;
            hour_remaining = rph_limit - hour_count;
          })
    ]

-- The X-RateLimit headers: Limit, Remaining, and Reset where it is set.
pub record Headers : Type 0 where
  pub limit : ℕ
  pub remaining : ℕ
  pub reset : Option ℕ

-- `TenantRateLimiter`; without a Redis backend, `redis` is none.
pub record TenantRateLimiter : Type 0 where
  pub rpm_limit : ℕ
  pub rph_limit : ℕ
  pub redis : Option (Str → ℕ → ℕ → Option (ℕ × ℕ))
  pub memory : Backend

abbrev pub headers_of : ℕ → Answer → Bool × Headers
headers_of rpm_limit a =
    if a.allowed
    then (true, record { limit = rpm_limit; remaining = a.minute_remaining; reset = none })
    else (false, record { limit = rpm_limit; remaining = 0; reset = some 60 })

abbrev pub check_in_memory : ℕ → Str → TenantRateLimiter → TenantRateLimiter × Bool × Headers
check_in_memory now tenant_id l =
    let (b, a) = check_and_record now tenant_id l.rpm_limit l.rph_limit l.memory in
    let (ok, headers) = headers_of l.rpm_limit a in (record l { memory = b }, ok, headers)

-- `TenantRateLimiter.check_rate_limit`; `wall` is the wall clock, which the Redis backend reads.
unfoldable pub check_rate_limit :
    ℕ → ℕ → Str → TenantRateLimiter → TenantRateLimiter × Bool × Headers
unfolding check_and_record redis_check_and_record
check_rate_limit now wall tenant_id l = elim l.redis [
  | none ↦ check_in_memory now tenant_id l
  | some pipeline ↦ elim (redis_check_and_record pipeline wall tenant_id l.rpm_limit l.rph_limit) [
    | none ↦ check_in_memory now tenant_id l
    | some a ↦ let (ok, headers) = headers_of l.rpm_limit a in (l, ok, headers)
  ]
]

-- A request of a tenant, and the answers to a sequence of requests.
pub record Request : Type 0 where
  pub tenant_id : Str
  pub time : ℕ

unfoldable pub answers : ℕ → ℕ → List Request → Backend → List Answer
unfolding check_and_record
answers rpm rph [] b = []
answers rpm rph (r ∷ rs) b =
    let (b', a) = check_and_record r.time r.tenant_id rpm rph b in a ∷ answers rpm rph rs b'
