-- ===== src/Policies/Examples.antt =====
-- Runs of the policy engine, and the theorems about it at concrete inputs.
use openlabels.Prelude.{
  ℕ, ◌<◌, ◌≡◌, refl, ◌≢◌, true, false, some, List, [], ◌∷◌, ◌++◌, arith, keep, All, ◌⊎◌,
}
use openlabels.Prelude.Text.{
  Str, codes, contains, lower, get_or, add, union, intersection, is_subset,
}
use openlabels.Policies.Schema.{
  RiskLevel, critical, high, PolicyCategory, hipaa, gdpr, PolicyTrigger, PolicyPack, EntityMatch,
  PolicyMatch, by_special_category, PolicyResult, empty_result, is_nil,
}
use openlabels.Policies.Engine.{
  EvaluationContext, build_context, build_from, add_entity, redact, evaluate_policy, confident,
  lower_set,
}
use openlabels.Policies.Evaluate.{
  PolicyEngine, evaluate, add_policies, remove_policy, merge_policy_into_result, add_policy,
}
use openlabels.Policies.Evaluate.Parts.{IsAsStrict}
use mathlib.Core.List.{Perm}
use openlabels.Policies.Engine.Triggers.{evaluate_policy_sound}
use openlabels.Policies.Evaluate.Restrictive.{Fires, evaluate-IsAsStrict}
use openlabels.Policies.Evaluate.Regions.{allowed, regions, merge_reopens}
use openlabels.Policies.Evaluate.Removed.{IsTaken, remove_policy_lem}
use openlabels.Policies.Evaluate.Loaded.{IsByPriority, enabled, add_policies_lem}

abbrev trigger : List Str → PolicyTrigger
trigger ts = record {
  any_of = ts;
  all_of = [];
  combinations = [];
  min_confidence = 500_000;
  min_count = 1;
  exclude_if_only = [];
}

abbrev pack : Str → PolicyCategory → RiskLevel → List Str → List Str → ℕ → PolicyPack
pack name category risk types places priority = record {
  name = name;
  category = category;
  risk_level = risk;
  triggers = trigger types;
  special_category_triggers = trigger [];
  handling = record empty_result.handling {
    encryption_required = true;
    geographic_restrictions = places;
  };
  retention = record empty_result.retention { max_days = some 30 };
  data_subject_rights = empty_result.data_subject_rights;
  jurisdictions = places;
  enabled = true;
  priority = priority;
}

abbrev eu_pack : PolicyPack
eu_pack = pack (codes "GDPR") gdpr high (codes "EMAIL" ∷ codes "NAME" ∷ []) (codes "EU" ∷ []) 10

abbrev us_pack : PolicyPack
us_pack = pack (codes "HIPAA") hipaa critical (codes "MRN" ∷ []) (codes "US" ∷ []) 20

abbrev entity : Str → Str → ℕ → EntityMatch
entity t v c = record { entity_type = t; value = v; confidence = c }

abbrev entities : List EntityMatch
entities =
    entity (codes "Email") (codes "a@example.org") 900_000
    ∷ entity (codes "EMAIL") (codes "b@example.org") 700_000
    ∷ entity (codes "NAME") (codes "Ann") 400_000
    ∷ []

abbrev engine : PolicyEngine
engine = record { policies = us_pack ∷ eu_pack ∷ [] }

abbrev confident_context : EvaluationContext
confident_context = build_context entities 500_000

some_type : is_nil confident_context.entity_types ≡ false
unfolding build_from add_entity add lower contains
some_type = refl

eu_fires : (m : PolicyMatch) × (evaluate_policy eu_pack confident_context ≡ some m)
unfolding evaluate_policy build_from add_entity
eu_fires = (_, refl)

loaded : add_policies (eu_pack ∷ us_pack ∷ []) (record { policies = [] }) ≡ engine
unfolding add_policies add_policy
loaded = refl

dropped : remove_policy (codes "GDPR") engine ≡ (record { policies = us_pack ∷ [] }, true)
unfolding remove_policy
dropped = refl

redacted : redact (codes "a@example.org") ≡ codes "a@*********rg"
unfolding redact
redacted = refl

evaluate_policy_sound_example :
    (is_subset eu_fires.0.matched_entities confident_context.entity_types ≡ true)
    × (eu_fires.0.trigger_type ≢ by_special_category
        → confident confident_context eu_pack.triggers.min_confidence eu_fires.0.matched_entities
          ≡ true)
evaluate_policy_sound_example =
    evaluate_policy_sound eu_pack confident_context eu_fires.0 eu_fires.1

name_present : contains (build_context entities 0).entity_types (codes "name") ≡ true
unfolding build_from add_entity
name_present = refl

name_listed : contains (lower_set eu_pack.triggers.any_of) (codes "name") ≡ true
unfolding contains lower union
name_listed = refl

name_low : get_or (build_context entities 0).type_max_confidence (codes "name") 0 < 500_000
unfolding build_from add_entity
name_low = omega arith

evaluate-IsAsStrict_example :
    All
      (λ p. Fires confident_context p → IsAsStrict p (evaluate engine entities 500_000))
      (us_pack ∷ eu_pack ∷ [])
evaluate-IsAsStrict_example = evaluate-IsAsStrict engine entities 500_000 some_type

abbrev both : PolicyResult
both = record empty_result {
  handling = record empty_result.handling {
    geographic_restrictions = codes "US" ∷ codes "EU" ∷ [];
  };
}

abbrev us_only : PolicyResult
us_only = record empty_result {
  handling = record empty_result.handling { geographic_restrictions = codes "US" ∷ [] };
}

nothing_common : intersection (union [] (allowed us_only)) (regions eu_pack) ≡ []
unfolding intersection union
nothing_common = refl

merge_reopens_example :
    allowed (merge_policy_into_result eu_pack (merge_policy_into_result eu_pack us_only))
    ≡ regions eu_pack
merge_reopens_example = merge_reopens eu_pack eu_pack us_only nothing_common refl refl

abbrev no_policies : PolicyEngine
no_policies = record { policies = [] }

add_policies_lem_example :
    IsByPriority (add_policies (eu_pack ∷ us_pack ∷ []) no_policies)
    × Perm
        (add_policies (eu_pack ∷ us_pack ∷ []) no_policies).policies
        ([] ++ keep enabled (eu_pack ∷ us_pack ∷ []))
add_policies_lem_example = add_policies_lem (eu_pack ∷ us_pack ∷ []) no_policies tt

remove_policy_lem_example :
    IsByPriority (remove_policy (codes "GDPR") engine).0
    × (((remove_policy (codes "GDPR") engine).1 ≡ true)
          × IsTaken (codes "GDPR") engine.policies (remove_policy (codes "GDPR") engine).0.policies
        ⊎ (remove_policy (codes "GDPR") engine ≡ (engine, false))
          × All (λ p. p.name ≢ codes "GDPR") engine.policies)
remove_policy_lem_example = remove_policy_lem (codes "GDPR") engine (refl, tt)
