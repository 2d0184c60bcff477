-- ===== src/Policies/Evaluate/Restrictive.antt =====
-- The most restrictive of the matching policies wins.
use openlabels.Prelude.{
  ℕ, ◌≡◌, refl, ◌≢◌, inl, inr, false, none, some, List, [], ◌∷◌, ◌++◌, arith, Bool-cases,
  Option-cases, All, All-map,
}
use openlabels.Prelude.Text.{contains-union}
use openlabels.Policies.Schema.{
  PolicyPack, PolicyResult, PolicyMatch, EntityMatch, is_nil, empty_result,
}
use openlabels.Policies.Engine.{EvaluationContext, build_context, evaluate_policy}
use openlabels.Policies.Evaluate.{
  PolicyEngine, merge_policy_into_result, evaluate_all, evaluate, summary,
}
use openlabels.Policies.Evaluate.Parts.{
  IsAsStrict, longer_right, longer_left, shorter_right, shorter_left, has_category-add_self,
  has_category-add_old, merge_prohibited-contains,
}

module _ (p : PolicyPack) (r : PolicyResult) where
  merge-IsAsStrict : IsAsStrict p (merge_policy_into_result p r)
  unfolding merge_policy_into_result
  merge-IsAsStrict = record {
    risk = ground arith;
    category = has_category-add_self r.categories p.category;
    secures = record {
      encryption_required = λ h. ground arith;
      encryption_at_rest = λ h. ground arith;
      encryption_in_transit = λ h. ground arith;
      tokenization_required = λ h. ground arith;
      masking_required = λ h. ground arith;
      audit_access = λ h. ground arith;
      access_logging = λ h. ground arith;
      mfa_required = λ h. ground arith;
      prohibited_regions = λ k h. ground (
        arith,
        merge_prohibited-contains r.handling.prohibited_regions p.handling.prohibited_regions k,
      );
    };
    grants = ground arith;
    min_days = longer_right r.retention.min_days p.retention.min_days;
    max_days = shorter_right r.retention.max_days p.retention.max_days;
    review = shorter_right r.retention.review_frequency_days p.retention.review_frequency_days;
    jurisdictions = λ k h. ground (arith, contains-union p.jurisdictions r.jurisdictions k);
  }

  -- Merging one more policy keeps the result as restrictive as before.
  merge-keeps : (q : PolicyPack) → IsAsStrict q r → IsAsStrict q (merge_policy_into_result p r)
  unfolding merge_policy_into_result
  merge-keeps q s = record {
    risk = ground (arith, s.risk);
    category = has_category-add_old r.categories p.category q.category s.category;
    secures = record {
      encryption_required = λ h. ground (arith, s.secures.encryption_required);
      encryption_at_rest = λ h. ground (arith, s.secures.encryption_at_rest);
      encryption_in_transit = λ h. ground (arith, s.secures.encryption_in_transit);
      tokenization_required = λ h. ground (arith, s.secures.tokenization_required);
      masking_required = λ h. ground (arith, s.secures.masking_required);
      audit_access = λ h. ground (arith, s.secures.audit_access);
      access_logging = λ h. ground (arith, s.secures.access_logging);
      mfa_required = λ h. ground (arith, s.secures.mfa_required);
      prohibited_regions = λ k h. ground (
        arith,
        s.secures.prohibited_regions k,
        merge_prohibited-contains r.handling.prohibited_regions p.handling.prohibited_regions k,
      );
    };
    grants = record {
      access = λ h. ground (arith, s.grants.access);
      rectification = λ h. ground (arith, s.grants.rectification);
      erasure = λ h. ground (arith, s.grants.erasure);
      portability = λ h. ground (arith, s.grants.portability);
      restriction = λ h. ground (arith, s.grants.restriction);
      objection = λ h. ground (arith, s.grants.objection);
    };
    min_days =
        longer_left q.retention.min_days r.retention.min_days p.retention.min_days s.min_days;
    max_days =
        shorter_left q.retention.max_days r.retention.max_days p.retention.max_days s.max_days;
    review =
        shorter_left q.retention.review_frequency_days r.retention.review_frequency_days
          p.retention.review_frequency_days s.review;
    jurisdictions =
        λ k h. ground (arith, s.jurisdictions k, contains-union p.jurisdictions r.jurisdictions k);
  }

-- One round of the loop.
abbrev pub round : EvaluationContext → PolicyPack → PolicyResult → PolicyResult
round ctx policy result = elim (evaluate_policy policy ctx) [
  | none ↦ result
  | some m ↦ merge_policy_into_result policy (record result { matches = result.matches ++ m ∷ [] })
]

with_match :
    (q : PolicyPack) (r : PolicyResult) (m : List PolicyMatch)
    → IsAsStrict q r
    → IsAsStrict q (record r { matches = m })
with_match q r m s = record {
  risk = s.risk;
  category = s.category;
  secures = s.secures;
  grants = s.grants;
  min_days = s.min_days;
  max_days = s.max_days;
  review = s.review;
  jurisdictions = s.jurisdictions;
}

module _ (ctx : EvaluationContext) where
  abbrev pub Fires : PolicyPack → Type 0
  Fires p = evaluate_policy p ctx ≢ none

  round-IsAsStrict : (p : PolicyPack) (r : PolicyResult) → Fires p → IsAsStrict p (round ctx p r)
  round-IsAsStrict p r f = elim (Option-cases (evaluate_policy p ctx)) [
    | inl e ↦ absurd (f e)
    | inr (m, e) ↦ rw (round, e) (merge-IsAsStrict p (record r { matches = r.matches ++ m ∷ [] }))
  ]

  round-keeps :
      (p q : PolicyPack) (r : PolicyResult) → IsAsStrict q r → IsAsStrict q (round ctx p r)
  round-keeps p q r s = elim (Option-cases (evaluate_policy p ctx)) [
    | inl e ↦ rw (round, e) s
    | inr (m, e) ↦
        rw (round, e)
          (merge-keeps p (record r { matches = r.matches ++ m ∷ [] }) q
            (with_match q r (r.matches ++ m ∷ []) s))
  ]

  evaluate_all-keeps :
      (ps : List PolicyPack) (q : PolicyPack) (r : PolicyResult)
      → IsAsStrict q r
      → IsAsStrict q (evaluate_all ps ctx r)
  unfolding evaluate_all
  evaluate_all-keeps [] q r s = s
  evaluate_all-keeps (p ∷ ps) q r s = evaluate_all-keeps ps q (round ctx p r) (round-keeps p q r s)

  evaluate_all-IsAsStrict :
      (ps : List PolicyPack) (r : PolicyResult)
      → All (λ p. Fires p → IsAsStrict p (evaluate_all ps ctx r)) ps
  unfolding evaluate_all
  evaluate_all-IsAsStrict [] r = tt
  evaluate_all-IsAsStrict (p ∷ ps) r = (
    λ f. evaluate_all-keeps ps p (round ctx p r) (round-IsAsStrict p r f),
    evaluate_all-IsAsStrict ps (round ctx p r),
  )

summary-IsAsStrict : (q : PolicyPack) (r : PolicyResult) → IsAsStrict q r → IsAsStrict q (summary r)
summary-IsAsStrict q r s = record {
  risk = s.risk;
  category = s.category;
  secures = s.secures;
  grants = s.grants;
  min_days = s.min_days;
  max_days = s.max_days;
  review = s.review;
  jurisdictions = s.jurisdictions;
}

-- If some entity reaches the confidence threshold, the result of `evaluate` is as restrictive as every matching policy
-- asks: at least its risk level, its category, each of its security measures, data subject rights,
-- prohibited regions and jurisdictions, no shorter a minimum retention, and no longer a maximum retention or
-- review interval. Of the allowed regions and of the automatic deletion nothing is said.
pub evaluate-IsAsStrict :
    (engine : PolicyEngine) (entities : List EntityMatch) (min_confidence : ℕ)
    → is_nil (build_context entities min_confidence).entity_types ≡ false
    → All
        (λ p.
          Fires (build_context entities min_confidence) p
          → IsAsStrict p (evaluate engine entities min_confidence))
        engine.policies
unfolding evaluate
evaluate-IsAsStrict engine entities min_confidence some_ =
    rw (evaluate, some_)
      (All-map _ _ engine.policies (λ p h f. summary-IsAsStrict p _ (h f))
        (evaluate_all-IsAsStrict (build_context entities min_confidence) engine.policies
          empty_result))

evaluate_all-auto_delete :
    (ctx : EvaluationContext) (ps : List PolicyPack) (r : PolicyResult)
    → (evaluate_all ps ctx r).retention.auto_delete ≡ r.retention.auto_delete
unfolding evaluate_all merge_policy_into_result
evaluate_all-auto_delete ctx [] r = refl
evaluate_all-auto_delete ctx (p ∷ ps) r = elim (Option-cases (evaluate_policy p ctx)) [
  | inl e ↦ rw (evaluate_all, e) (evaluate_all-auto_delete ctx ps r)
  | inr (m, e) ↦ rw (evaluate_all, e) (evaluate_all-auto_delete ctx ps _)
]

-- No policy, whether it matches or not, makes the result ask for automatic deletion.
evaluate-auto_delete :
    (engine : PolicyEngine) (entities : List EntityMatch) (min_confidence : ℕ)
    → (evaluate engine entities min_confidence).retention.auto_delete ≡ false
unfolding evaluate
evaluate-auto_delete engine entities min_confidence =
    elim (Bool-cases (is_nil (build_context entities min_confidence).entity_types)) [
      | inl e ↦ rw (evaluate, e) refl
      | inr e ↦
          rw (evaluate, e)
            (evaluate_all-auto_delete (build_context entities min_confidence) engine.policies
              empty_result)
    ]
