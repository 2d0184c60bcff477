-- ===== src/Server/RateLimit/Examples.antt =====
-- A limiter of two requests in a minute and three in an hour.
use openlabels.Prelude.{ℕ, ◌*◌, ◌≡◌, refl, true, false, none, some, List, [], ◌∷◌, map, arith}
use openlabels.Prelude.Text.{Str, codes, str_eq}
use openlabels.Server.RateLimit.{
  empty_backend, Request, answers, Answer, check_rate_limit, TenantRateLimiter,
}
use openlabels.Server.RateLimit.Log.{admit_all}
use openlabels.Server.RateLimit.Windows.{answers-admit_all, admitted, IsBounded, admitted-IsBounded}

abbrev acme : Str
acme = codes "acme"

abbrev at : ℕ → Request
at t = record { tenant_id = acme; time = t * 1_000_000 }

abbrev requests : List Request
requests =
    at 1
    ∷ at 20
    ∷ at 30
    ∷ record { tenant_id = codes "b"; time = 31_000_000 }
    ∷ at 62
    ∷ at 130
    ∷ at 3602
    ∷ []

verdicts :
    map (λ (a : Answer). a.allowed) (answers 2 3 requests empty_backend)
    ≡ true ∷ true ∷ false ∷ true ∷ true ∷ false ∷ true ∷ []
unfolding answers str_eq
verdicts = refl

-- A failing Redis backend falls back on the counters in memory.
abbrev failing : TenantRateLimiter
failing = record {
  rpm_limit = 2;
  rph_limit = 3;
  redis = some (λ u m h. none);
  memory = empty_backend;
}

falls_back : (check_rate_limit 1_000_000 5_000_000 acme failing).1 ≡ true
unfolding check_rate_limit
falls_back = refl

answers-admit_all_example : answers 2 3 requests empty_backend ≡ (admit_all 2 3 requests []).1
answers-admit_all_example = answers-admit_all 2 3 requests (omega arith)

admitted-IsBounded_example : IsBounded 2 3 (admitted requests (answers 2 3 requests empty_backend))
admitted-IsBounded_example = admitted-IsBounded 2 3 requests (omega arith)
