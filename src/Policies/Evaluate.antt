-- ===== src/Policies/Evaluate.antt =====
-- The evaluation of all policies and the engine's own state (src/openlabels/core/policies/engine.py). The
-- index by category, which the evaluation does not read, is left out.
pub mod Parts
pub mod Restrictive
pub mod Regions
pub mod Loaded
pub mod Removed
use openlabels.Prelude.{
  ℕ, zero, suc, ◌+◌, ◌-◌, ◌*◌, ◌/◌, ◌%◌, ◌≤◌, ◌<◌, min, max, ◌≡◌, refl, sym, ap, ◌∙◌, subst, ◌≢◌,
  ◌↔◌, ◌⊎◌, inl, inr, Bool, true, false, not, ◌&&◌, ◌||◌, Option, none, some, List, [], ◌∷◌, ◌++◌,
  map, reverse, arith, ltb, leb, ◌==◌, if◌then◌else◌, ltb→lt, lt→ltb, ge→ltb, leb→le, le→leb,
  gt→leb, ==_iff, Bool-cases, Option-cases, some_inj, length, get_elem?, take, drop, slice, keep,
  All, Any, all, any, length-append, length-take, length-drop,
}
use openlabels.Prelude.Sort.{sort}
use openlabels.Prelude.Text.{Str, codes, str_eq, contains, add, union, intersection}
use openlabels.Policies.Schema.{
  RiskLevel, PolicyCategory, hipaa, phi, pii, pci_dss, ordinal, is_nil, HandlingRequirements,
  RetentionPolicy, DataSubjectRights, PolicyPack, EntityMatch, TriggerType, by_any_of, by_all_of,
  by_combination, by_special_category, PolicyMatch, PolicyResult, empty_result,
}
use openlabels.Policies.Engine.{
  risk_order, EvaluationContext, build_context, build_from, evaluate_policy,
}

abbrev pub has_category : List PolicyCategory → PolicyCategory → Bool
has_category cs c = any (λ d. ordinal d == ordinal c) cs

abbrev pub add_category : PolicyCategory → List PolicyCategory → List PolicyCategory
add_category c cs = if has_category cs c then cs else cs ++ c ∷ []

abbrev pub merge_allowed : List Str → List Str → List Str
merge_allowed rh [] = rh
merge_allowed [] (g ∷ gs) = g ∷ gs
merge_allowed (r ∷ rs) (g ∷ gs) = intersection (union [] (r ∷ rs)) (g ∷ gs)

abbrev pub merge_prohibited : List Str → List Str → List Str
merge_prohibited rh [] = rh
merge_prohibited rh (g ∷ gs) = union (union [] rh) (g ∷ gs)

abbrev pub merge_handling : HandlingRequirements → HandlingRequirements → HandlingRequirements
merge_handling rh ph = record {
  encryption_required = rh.encryption_required || ph.encryption_required;
  encryption_at_rest = rh.encryption_at_rest || ph.encryption_at_rest;
  encryption_in_transit = rh.encryption_in_transit || ph.encryption_in_transit;
  tokenization_required = rh.tokenization_required || ph.tokenization_required;
  masking_required = rh.masking_required || ph.masking_required;
  audit_access = rh.audit_access || ph.audit_access;
  access_logging = rh.access_logging || ph.access_logging;
  mfa_required = rh.mfa_required || ph.mfa_required;
  geographic_restrictions = merge_allowed rh.geographic_restrictions ph.geographic_restrictions;
  prohibited_regions = merge_prohibited rh.prohibited_regions ph.prohibited_regions;
}

-- The longer of two minimum retentions.
abbrev pub longer : Option ℕ → Option ℕ → Option ℕ
longer r none = r
longer none (some p) = some p
longer (some r) (some p) = if ltb r p then some p else some r

-- The shorter of two maximum retentions or review intervals.
abbrev pub shorter : Option ℕ → Option ℕ → Option ℕ
shorter r none = r
shorter none (some p) = some p
shorter (some r) (some p) = if ltb p r then some p else some r

abbrev pub merge_retention : RetentionPolicy → RetentionPolicy → RetentionPolicy
merge_retention rr pr = record rr {
  min_days = longer rr.min_days pr.min_days;
  max_days = shorter rr.max_days pr.max_days;
  review_frequency_days = shorter rr.review_frequency_days pr.review_frequency_days;
}

abbrev pub merge_rights : DataSubjectRights → DataSubjectRights → DataSubjectRights
merge_rights rd pd = record {
  access = rd.access || pd.access;
  rectification = rd.rectification || pd.rectification;
  erasure = rd.erasure || pd.erasure;
  portability = rd.portability || pd.portability;
  restriction = rd.restriction || pd.restriction;
  objection = rd.objection || pd.objection;
}

-- `_merge_policy_into_result`
unfoldable pub merge_policy_into_result : PolicyPack → PolicyResult → PolicyResult
unfolding intersection union contains
merge_policy_into_result policy result = record result {
  categories = add_category policy.category result.categories;
  risk_level =
      if ltb (risk_order result.risk_level) (risk_order policy.risk_level)
      then policy.risk_level
      else result.risk_level;
  handling = merge_handling result.handling policy.handling;
  retention = merge_retention result.retention policy.retention;
  data_subject_rights = merge_rights result.data_subject_rights policy.data_subject_rights;
  jurisdictions = union result.jurisdictions policy.jurisdictions;
}

-- The loop of `evaluate` over the policies.
unfoldable pub evaluate_all : List PolicyPack → EvaluationContext → PolicyResult → PolicyResult
evaluate_all [] ctx result = result
evaluate_all (policy ∷ rest) ctx result = evaluate_all rest ctx (elim (evaluate_policy policy ctx) [
  | none ↦ result
  | some m ↦ merge_policy_into_result policy (record result { matches = result.matches ++ m ∷ [] })
])

abbrev pub is_special : TriggerType → Bool
is_special by_special_category = true
is_special _ = false

abbrev pub summary : PolicyResult → PolicyResult
summary r = record r {
  has_phi = has_category r.categories hipaa || has_category r.categories phi;
  has_pii = has_category r.categories pii;
  has_pci = has_category r.categories pci_dss;
  has_gdpr_special = any (λ (m : PolicyMatch). is_special m.trigger_type) r.matches;
}

pub record PolicyEngine : Type 0 where
  pub policies : List PolicyPack

-- `evaluate`
unfoldable pub evaluate : PolicyEngine → List EntityMatch → ℕ → PolicyResult
unfolding build_from evaluate_all ordinal
evaluate engine entities min_confidence =
    let ctx = build_context entities min_confidence in
    if is_nil ctx.entity_types
    then empty_result
    else summary (evaluate_all engine.policies ctx empty_result)

-- `sort(key=priority, reverse=True)` keeps the order of equal priorities.
abbrev pub higher_priority : PolicyPack → PolicyPack → Bool
higher_priority p q = ltb q.priority p.priority

-- `add_policy`
unfoldable pub add_policy : PolicyPack → PolicyEngine → PolicyEngine
unfolding sort
add_policy policy engine =
    if not policy.enabled
    then engine
    else record { policies = sort higher_priority (engine.policies ++ policy ∷ []) }

unfoldable pub add_policies : List PolicyPack → PolicyEngine → PolicyEngine
add_policies [] engine = engine
add_policies (p ∷ ps) engine = add_policies ps (add_policy p engine)

-- The list without the first policy of a name; `none` if there is no such policy.
unfoldable pub without_first : Str → List PolicyPack → Option (List PolicyPack)
unfolding str_eq
without_first name [] = none
without_first name (p ∷ ps) =
    if str_eq p.name name
    then some ps
    else elim (without_first name ps) [ none ↦ none | some rest ↦ some (p ∷ rest) ]

-- `remove_policy`
unfoldable pub remove_policy : Str → PolicyEngine → PolicyEngine × Bool
unfolding without_first
remove_policy name engine = elim (without_first name engine.policies) [
  | none ↦ (engine, false)
  | some rest ↦ (record { policies = rest }, true)
]

-- `clear_policies`
unfoldable pub clear_policies : PolicyEngine → PolicyEngine
clear_policies engine = record { policies = [] }
