-- ===== src/Policies/Engine.antt =====
-- The policy engine (src/openlabels/core/policies/engine.py). A set is the list of its members in the order
-- of their insertion; which order Python's sets have is left open by the language.
pub mod Context
pub mod Triggers
use openlabels.Prelude.{
  ℕ, zero, suc, ◌+◌, ◌-◌, ◌*◌, ◌/◌, ◌%◌, ◌≤◌, ◌<◌, min, max, ◌≡◌, refl, sym, ap, ◌∙◌, subst, ◌≢◌,
  ◌↔◌, ◌⊎◌, inl, inr, Bool, true, false, not, ◌&&◌, ◌||◌, Option, none, some, List, [], ◌∷◌, ◌++◌,
  map, reverse, arith, ltb, leb, ◌==◌, if◌then◌else◌, ltb→lt, lt→ltb, ge→ltb, leb→le, le→leb,
  gt→leb, ==_iff, Bool-cases, Option-cases, some_inj, length, get_elem?, take, drop, slice, keep,
  All, Any, all, any, length-append, length-take, length-drop,
}
use openlabels.Prelude.Text.{
  Str, Dict, codes, lower, str_eq, contains, get_or, put, add, union, intersection, is_subset,
}
use openlabels.Policies.Schema.{
  RiskLevel, minimal, low, medium, high, critical, PolicyCategory, hipaa, phi, pii, pci_dss,
  ordinal, PolicyTrigger, is_empty, is_nil, HandlingRequirements, RetentionPolicy,
  DataSubjectRights, PolicyPack, EntityMatch, TriggerType, by_any_of, by_all_of, by_combination,
  by_special_category, PolicyMatch, PolicyResult, empty_result,
}

-- RISK_ORDER
abbrev pub risk_order : RiskLevel → ℕ
risk_order minimal = 0
risk_order low = 1
risk_order medium = 2
risk_order high = 3
risk_order critical = 4

pub record EvaluationContext : Type 0 where
  pub entity_types : List Str
  pub type_counts : Dict ℕ
  pub type_max_confidence : Dict ℕ
  pub entities : List EntityMatch

abbrev pub empty_context : EvaluationContext
empty_context = record {
  entity_types = [];
  type_counts = [];
  type_max_confidence = [];
  entities = [];
}

-- One round of the loop of `_build_context`.
unfoldable pub add_entity : ℕ → EvaluationContext → EntityMatch → EvaluationContext
unfolding lower add put get_or
add_entity min_confidence ctx entity =
    let etype = lower entity.entity_type in
    if ltb entity.confidence min_confidence then ctx else record {
      entity_types = add etype ctx.entity_types;
      type_counts = put etype (get_or ctx.type_counts etype 0 + 1) ctx.type_counts;
      type_max_confidence =
          put etype (max (get_or ctx.type_max_confidence etype 0) entity.confidence)
            ctx.type_max_confidence;
      entities = ctx.entities ++ entity ∷ [];
    }

unfoldable pub build_from : ℕ → EvaluationContext → List EntityMatch → EvaluationContext
build_from min_confidence ctx [] = ctx
build_from min_confidence ctx (e ∷ es) =
    build_from min_confidence (add_entity min_confidence ctx e) es

-- `_build_context`
abbrev pub build_context : List EntityMatch → ℕ → EvaluationContext
build_context entities min_confidence = build_from min_confidence empty_context entities

unfoldable pub stars : ℕ → Str
stars zero = []
stars (suc n) = b'*' ∷ stars n

-- A value with all but its ends hidden.
unfoldable pub redact : Str → Str
unfolding stars
redact value =
    if ltb 4 (length value)
    then take 2 value ++ stars (length value - 4) ++ drop (length value - 2) value
    else stars (length value)

unfoldable pub matched_values_of : List EntityMatch → List Str → List Str
unfolding redact lower contains
matched_values_of [] entity_types = []
matched_values_of (e ∷ es) entity_types =
    let rest = matched_values_of es entity_types in
    if contains entity_types (lower e.entity_type)
    then (e.entity_type ++ b':' ∷ redact e.value) ∷ rest
    else rest

-- `_get_matched_values`
unfoldable pub get_matched_values : EvaluationContext → List Str → List Str
unfolding matched_values_of
get_matched_values ctx entity_types = take 10 (matched_values_of ctx.entities entity_types)

-- `{t.lower() for t in ts}`
abbrev pub lower_set : List Str → List Str
lower_set ts = union [] (map lower ts)

abbrev pub confident : EvaluationContext → ℕ → List Str → Bool
confident ctx min_confidence ts =
    all (λ t. leb min_confidence (get_or ctx.type_max_confidence t 0)) ts

abbrev pub numerous : EvaluationContext → ℕ → List Str → Bool
numerous ctx min_count ts = all (λ t. leb min_count (get_or ctx.type_counts t 0)) ts

abbrev pub match_by : PolicyPack → EvaluationContext → TriggerType → List Str → PolicyMatch
match_by policy ctx trigger types = record {
  policy_name = policy.name;
  trigger_type = trigger;
  matched_entities = types;
  matched_values = get_matched_values ctx types;
}

-- The any_of check: the matched types, if it fires.
unfoldable pub any_of_fires : PolicyTrigger → EvaluationContext → Option (List Str)
unfolding intersection union lower get_or
any_of_fires t ctx =
    let matched = intersection ctx.entity_types (lower_set t.any_of) in
    if not (is_nil t.any_of)
      && (not (is_nil matched)
          && (confident ctx t.min_confidence matched && numerous ctx t.min_count matched))
    then some matched
    else none

unfoldable pub all_of_fires : PolicyTrigger → EvaluationContext → Option (List Str)
unfolding is_subset union lower get_or
all_of_fires t ctx =
    let types = lower_set t.all_of in
    if not (is_nil t.all_of)
      && (is_subset types ctx.entity_types && confident ctx t.min_confidence types)
    then some types
    else none

unfoldable pub combination_fires : ℕ → List (List Str) → EvaluationContext → Option (List Str)
unfolding is_subset union lower get_or
combination_fires min_confidence [] ctx = none
combination_fires min_confidence (combination ∷ rest) ctx =
    let types = lower_set combination in
    if is_subset types ctx.entity_types && confident ctx min_confidence types
    then some types
    else combination_fires min_confidence rest ctx

-- The combinations of `_evaluate_triggers`, without a threshold.
unfoldable pub combination_present : List (List Str) → EvaluationContext → Option (List Str)
unfolding is_subset union lower
combination_present [] ctx = none
combination_present (combination ∷ rest) ctx =
    let types = lower_set combination in
    if is_subset types ctx.entity_types then some types else combination_present rest ctx

-- `_evaluate_triggers`
unfoldable pub evaluate_triggers : PolicyTrigger → EvaluationContext → Option (List Str)
unfolding intersection is_subset union lower combination_present
evaluate_triggers t ctx =
    let matched = intersection ctx.entity_types (lower_set t.any_of) in
    let types = lower_set t.all_of in
    if not (is_nil t.any_of) && not (is_nil matched)
    then some matched
    else if not (is_nil t.all_of) && is_subset types ctx.entity_types
    then some types
    else combination_present t.combinations ctx

-- All types present are of those that do not count by themselves.
abbrev pub excluded : PolicyTrigger → EvaluationContext → Bool
excluded t ctx =
    not (is_nil t.exclude_if_only)
    && (not (is_nil ctx.entity_types) && is_subset ctx.entity_types (lower_set t.exclude_if_only))

abbrev pub special_fires : PolicyPack → EvaluationContext → Option (List Str)
special_fires policy ctx =
    if is_empty policy.special_category_triggers
    then none
    else elim (evaluate_triggers policy.special_category_triggers ctx) [
      | none ↦ none
      | some types ↦ if is_nil types then none else some types
    ]

-- The four checks in order; the first that fires decides.
abbrev pub first_match :
    PolicyPack
    → EvaluationContext
    → Option (List Str)
    → Option (List Str)
    → Option (List Str)
    → Option (List Str)
    → Option PolicyMatch
first_match policy ctx (some types) all_of combo special =
    some (match_by policy ctx by_any_of types)
first_match policy ctx none (some types) combo special = some (match_by policy ctx by_all_of types)
first_match policy ctx none none (some types) special =
    some (match_by policy ctx by_combination types)
first_match policy ctx none none none (some types) =
    some (match_by policy ctx by_special_category types)
first_match policy ctx none none none none = none

-- `_evaluate_policy`
unfoldable pub evaluate_policy : PolicyPack → EvaluationContext → Option PolicyMatch
unfolding is_empty any_of_fires all_of_fires combination_fires evaluate_triggers get_matched_values
evaluate_policy policy ctx =
    let t = policy.triggers in
    if is_empty t
    then none
    else if excluded t ctx
    then none
    else first_match policy ctx (any_of_fires t ctx) (all_of_fires t ctx)
        (combination_fires t.min_confidence t.combinations ctx) (special_fires policy ctx)
