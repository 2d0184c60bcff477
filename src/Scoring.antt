-- ===== src/Scoring.antt =====
-- The risk score (src/openlabels/core/scoring/scorer.py). Arithmetic is exact: a confidence and a logarithm
-- are in millionths, a multiplier in tenths, a score in units of 10 ^ -14. `math.log` is the parameter `ln`.
pub mod Rules
pub mod Monotone
mod Examples
use openlabels.Prelude.{
  ℕ, zero, suc, ◌+◌, ◌-◌, ◌*◌, ◌/◌, ◌%◌, ◌≤◌, ◌<◌, min, max, ◌≡◌, refl, sym, ap, ◌∙◌, subst, ◌≢◌,
  ◌↔◌, ◌⊎◌, inl, inr, Bool, true, false, not, ◌&&◌, ◌||◌, Option, none, some, List, [], ◌∷◌, ◌++◌,
  map, reverse, arith, ltb, leb, ◌==◌, if◌then◌else◌, ltb→lt, lt→ltb, ge→ltb, leb→le, le→leb,
  gt→leb, ==_iff, Bool-cases, Option-cases, some_inj, length, get_elem?, take, drop, slice, keep,
  All, Any, all, any, length-append, length-take, length-drop,
}
use openlabels.Prelude.Text.{
  Str, Dict, codes, upper, str_eq, lookup, contains, get_or, add, is_subset,
}
use openlabels.Types.Entities.{normalize_entity_type}

abbrev pub entity_weights : Dict ℕ
entity_weights =
    (codes "SSN", 10)
    ∷ (codes "PASSPORT", 10)
    ∷ (codes "CREDIT_CARD", 10)
    ∷ (codes "PASSWORD", 10)
    ∷ (codes "API_KEY", 10)
    ∷ (codes "PRIVATE_KEY", 10)
    ∷ (codes "AWS_ACCESS_KEY", 10)
    ∷ (codes "AWS_SECRET_KEY", 10)
    ∷ (codes "DATABASE_URL", 10)
    ∷ (codes "GITHUB_TOKEN", 10)
    ∷ (codes "GITLAB_TOKEN", 10)
    ∷ (codes "SLACK_TOKEN", 10)
    ∷ (codes "STRIPE_KEY", 10)
    ∷ (codes "CRYPTO_SEED_PHRASE", 10)
    ∷ (codes "MRN", 9)
    ∷ (codes "DIAGNOSIS", 9)
    ∷ (codes "HEALTH_PLAN_ID", 9)
    ∷ (codes "JWT", 9)
    ∷ (codes "DRIVER_LICENSE", 8)
    ∷ (codes "NPI", 8)
    ∷ (codes "DEA", 8)
    ∷ (codes "TAX_ID", 8)
    ∷ (codes "MILITARY_ID", 8)
    ∷ (codes "BITCOIN_ADDRESS", 7)
    ∷ (codes "ETHEREUM_ADDRESS", 7)
    ∷ (codes "IBAN", 7)
    ∷ (codes "SWIFT_BIC", 7)
    ∷ (codes "PHONE", 6)
    ∷ (codes "EMAIL", 6)
    ∷ (codes "SENDGRID_KEY", 6)
    ∷ (codes "TWILIO_KEY", 6)
    ∷ (codes "NAME", 5)
    ∷ (codes "ADDRESS", 5)
    ∷ (codes "IP_ADDRESS", 5)
    ∷ (codes "MAC_ADDRESS", 5)
    ∷ (codes "VIN", 5)
    ∷ (codes "CUSIP", 5)
    ∷ (codes "ISIN", 5)
    ∷ (codes "LEI", 5)
    ∷ (codes "DATE_DOB", 5)
    ∷ (codes "AGE", 4)
    ∷ (codes "CLASSIFICATION_LEVEL", 4)
    ∷ (codes "DOD_CONTRACT", 4)
    ∷ (codes "GSA_CONTRACT", 4)
    ∷ (codes "CAGE_CODE", 4)
    ∷ (codes "UEI", 4)
    ∷ (codes "DATE", 3)
    ∷ (codes "ZIP", 3)
    ∷ (codes "CITY", 2)
    ∷ (codes "STATE", 2)
    ∷ (codes "COUNTRY", 2)
    ∷ (codes "TRACKING_NUMBER", 2)
    ∷ (codes "FACILITY", 1)
    ∷ (codes "ORGANIZATION", 1)
    ∷ []

abbrev pub default_weight : ℕ
default_weight = 5

abbrev pub entity_categories : Dict Str
entity_categories =
    (codes "SSN", codes "direct_identifier")
    ∷ (codes "PASSPORT", codes "direct_identifier")
    ∷ (codes "DRIVER_LICENSE", codes "direct_identifier")
    ∷ (codes "MILITARY_ID", codes "direct_identifier")
    ∷ (codes "TAX_ID", codes "direct_identifier")
    ∷ (codes "MRN", codes "direct_identifier")
    ∷ (codes "STATE_ID", codes "direct_identifier")
    ∷ (codes "DIAGNOSIS", codes "health_info")
    ∷ (codes "MEDICATION", codes "health_info")
    ∷ (codes "HEALTH_PLAN_ID", codes "health_info")
    ∷ (codes "NPI", codes "health_info")
    ∷ (codes "DEA", codes "health_info")
    ∷ (codes "LAB_TEST", codes "health_info")
    ∷ (codes "PROCEDURE", codes "health_info")
    ∷ (codes "CREDIT_CARD", codes "financial")
    ∷ (codes "IBAN", codes "financial")
    ∷ (codes "SWIFT_BIC", codes "financial")
    ∷ (codes "ACCOUNT_NUMBER", codes "financial")
    ∷ (codes "CUSIP", codes "financial")
    ∷ (codes "ISIN", codes "financial")
    ∷ (codes "BITCOIN_ADDRESS", codes "financial")
    ∷ (codes "ETHEREUM_ADDRESS", codes "financial")
    ∷ (codes "CRYPTO_SEED_PHRASE", codes "financial")
    ∷ (codes "EMAIL", codes "contact")
    ∷ (codes "PHONE", codes "contact")
    ∷ (codes "ADDRESS", codes "contact")
    ∷ (codes "ZIP", codes "contact")
    ∷ (codes "FAX", codes "contact")
    ∷ (codes "PASSWORD", codes "credential")
    ∷ (codes "API_KEY", codes "credential")
    ∷ (codes "PRIVATE_KEY", codes "credential")
    ∷ (codes "JWT", codes "credential")
    ∷ (codes "AWS_ACCESS_KEY", codes "credential")
    ∷ (codes "AWS_SECRET_KEY", codes "credential")
    ∷ (codes "GITHUB_TOKEN", codes "credential")
    ∷ (codes "GITLAB_TOKEN", codes "credential")
    ∷ (codes "SLACK_TOKEN", codes "credential")
    ∷ (codes "STRIPE_KEY", codes "credential")
    ∷ (codes "DATABASE_URL", codes "credential")
    ∷ (codes "NAME", codes "quasi_identifier")
    ∷ (codes "DATE_DOB", codes "quasi_identifier")
    ∷ (codes "AGE", codes "quasi_identifier")
    ∷ (codes "DATE", codes "quasi_identifier")
    ∷ (codes "CLASSIFICATION_LEVEL", codes "classification_marking")
    ∷ (codes "CLASSIFICATION_MARKING", codes "classification_marking")
    ∷ (codes "SCI_MARKING", codes "classification_marking")
    ∷ (codes "DISSEMINATION_CONTROL", codes "classification_marking")
    ∷ []

pub record Rule : Type 0 where
  pub required : List Str
  pub multiplier : ℕ
  pub name : Str

abbrev rule : List Str → ℕ → Str → Rule
rule cats mult n = record { required = cats; multiplier = mult; name = n }

abbrev pub co_occurrence_rules : List Rule
co_occurrence_rules =
    rule (codes "direct_identifier" ∷ codes "health_info" ∷ []) 20 (codes "hipaa_phi")
    ∷ rule (codes "direct_identifier" ∷ codes "financial" ∷ []) 18 (codes "identity_theft")
    ∷ rule (codes "credential" ∷ []) 15 (codes "credential_exposure")
    ∷ rule (codes "quasi_identifier" ∷ codes "health_info" ∷ []) 15 (codes "phi_without_id")
    ∷ rule (codes "contact" ∷ codes "health_info" ∷ []) 14 (codes "phi_with_contact")
    ∷ rule (codes "direct_identifier" ∷ codes "quasi_identifier" ∷ codes "financial" ∷ []) 22
        (codes "full_identity")
    ∷ rule (codes "classification_marking" ∷ []) 25 (codes "classified_data")
    ∷ []

abbrev pub exposure_multipliers : Dict ℕ
exposure_multipliers =
    (codes "PRIVATE", 10)
    ∷ (codes "INTERNAL", 12)
    ∷ (codes "ORG_WIDE", 18)
    ∷ (codes "PUBLIC", 25)
    ∷ []

unfoldable pub get_weight : Str → ℕ
unfolding get_or normalize_entity_type
get_weight entity_type = get_or entity_weights (normalize_entity_type entity_type) default_weight

unfoldable pub get_category : Str → Str
unfolding get_or normalize_entity_type
get_category entity_type =
    get_or entity_categories (normalize_entity_type entity_type) (codes "unknown")

-- The loop of `get_categories`; no category of the table is the empty string.
unfoldable pub categories_from : List Str → Dict ℕ → List Str
unfolding get_category add str_eq
categories_from cats [] = cats
categories_from cats ((entity_type, n) ∷ rest) =
    let cat = get_category entity_type in
    categories_from (if str_eq cat (codes "unknown") then cats else add cat cats) rest

-- `get_categories`
abbrev pub get_categories : Dict ℕ → List Str
get_categories entities = categories_from [] entities

-- The loop over the rules, with the highest multiplier and the names so far.
unfoldable pub best_from : List Str → List Rule → ℕ → List Str → ℕ × List Str
unfolding is_subset
best_from cats [] max_mult triggered = (max_mult, triggered)
best_from cats (r ∷ rest) max_mult triggered =
    let higher = best_from cats rest r.multiplier (r.name ∷ []) in
    let equal = best_from cats rest max_mult (triggered ++ r.name ∷ []) in
    let others = best_from cats rest max_mult triggered in
    if not (is_subset r.required cats)
    then others
    else if ltb max_mult r.multiplier
    then higher
    else if r.multiplier == max_mult
    then equal
    else others

unfoldable pub get_co_occurrence_multiplier : Dict ℕ → ℕ × List Str
unfolding best_from categories_from
get_co_occurrence_multiplier [] = (10, [])
get_co_occurrence_multiplier (e ∷ es) =
    best_from (get_categories (e ∷ es)) co_occurrence_rules 10 []

-- 100.0 in the units of a score.
abbrev pub hundred : ℕ
hundred = 10_000_000_000_000_000

pub data RiskTier : Type 0 where
  minimal low medium high critical : RiskTier

-- TIER_THRESHOLDS
abbrev pub threshold : RiskTier → ℕ
threshold minimal = 0
threshold low = 11
threshold medium = 31
threshold high = 55
threshold critical = 80

abbrev pub points : ℕ → ℕ
points n = n * 100_000_000_000_000

unfoldable pub score_to_tier : ℕ → RiskTier
score_to_tier s =
    if leb (points (threshold critical)) s
    then critical
    else if leb (points (threshold high)) s
    then high
    else if leb (points (threshold medium)) s
    then medium
    else if leb (points (threshold low)) s
    then low
    else minimal

-- The exposure multiplier, of one decimal.
abbrev pub exposure_multiplier : Str → ℕ
exposure_multiplier exposure = get_or exposure_multipliers (upper exposure) 10

module _ (ln : ℕ → ℕ) where
  -- The sum over the entities, in units of 10 ^ -12: weight, scale, aggregation and confidence.
  unfoldable pub base_score : Dict ℕ → ℕ → ℕ
  unfolding get_weight
  base_score [] confidence = 0
  base_score ((entity_type, n) ∷ rest) confidence =
      get_weight entity_type * 4 * (1_000_000 + ln (max 1 n)) * confidence
      + base_score rest confidence

  -- `calculate_content_score`; the sum has 12 decimals and the multiplier one.
  unfoldable pub calculate_content_score : Dict ℕ → ℕ → ℕ
  unfolding base_score get_co_occurrence_multiplier
  calculate_content_score entities confidence =
      min hundred (base_score entities confidence * (get_co_occurrence_multiplier entities).0 * 10)

  -- The final score of `score`, before it is rounded for display.
  unfoldable pub final_score : Dict ℕ → Str → ℕ → ℕ
  unfolding calculate_content_score get_or upper
  final_score entities exposure confidence =
      min hundred (calculate_content_score entities confidence * exposure_multiplier exposure / 10)

  -- The tier of `score`.
  unfoldable pub tier_of : Dict ℕ → Str → ℕ → RiskTier
  unfolding final_score score_to_tier
  tier_of entities exposure confidence = score_to_tier (final_score entities exposure confidence)
