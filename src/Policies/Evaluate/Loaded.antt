-- ===== src/Policies/Evaluate/Loaded.antt =====
-- The order of the policies, and which of them match.
use openlabels.Prelude.{
  ℕ, ◌≡◌, sym, ap, ◌∙◌, inl, inr, Bool, true, false, Option, none, some, List, [], ◌∷◌, ◌++◌, map,
  arith, Bool-cases, Option-cases, keep, keep-append, some_inj,
}
use mathlib.Core.List.{Perm, append_assoc, append-nil, map-append}
use mathlib.Core.List.Perm
use openlabels.Prelude.Sort.{sort-perm, sort-IsInOrder, IsInOrder}
use openlabels.Prelude.Text.{Str}
use openlabels.Policies.Schema.{
  PolicyPack, PolicyResult, PolicyMatch, EntityMatch, is_nil, empty_result,
}
use openlabels.Policies.Engine.{EvaluationContext, build_context, evaluate_policy, first_match}
use openlabels.Policies.Engine.Triggers.{evaluate_policy_cases}
use openlabels.Policies.Evaluate.{
  PolicyEngine, add_policy, add_policies, higher_priority, evaluate, evaluate_all,
  merge_policy_into_result,
}

abbrev pub enabled : PolicyPack → Bool
enabled p = p.enabled

abbrev pub IsByPriority : PolicyEngine → Type 0
IsByPriority engine = IsInOrder higher_priority engine.policies

add_policy_lem :
    (p : PolicyPack) (engine : PolicyEngine)
    → IsByPriority engine
    → IsByPriority (add_policy p engine)
      × Perm (add_policy p engine).policies (engine.policies ++ keep enabled (p ∷ []))
unfolding add_policy
add_policy_lem p engine h = elim (Bool-cases p.enabled) [
  | inl e ↦
      simp (add_policy, e)
        (
          sort-IsInOrder higher_priority (λ a b h. ground arith) (engine.policies ++ p ∷ []),
          sort-perm higher_priority (engine.policies ++ p ∷ []),
        )
  | inr e ↦ simp (add_policy, e, append-nil) (h, Perm.rfl)
]

-- Adding policies to an engine that is ordered by priority, highest first, gives one that is so
-- ordered and holds its former policies and those of the added ones that are enabled, each as often.
pub add_policies_lem :
    (ps : List PolicyPack) (engine : PolicyEngine)
    → IsByPriority engine
    → IsByPriority (add_policies ps engine)
      × Perm (add_policies ps engine).policies (engine.policies ++ keep enabled ps)
unfolding add_policies
add_policies_lem [] engine h = (h, rw (append-nil engine.policies) Perm.rfl)
add_policies_lem (p ∷ ps) engine h =
    let (o, q) = add_policy_lem p engine h in
    let (o', q') = add_policies_lem ps (add_policy p engine) o in
    (
      o',
      Perm.trans q' (
          rw
            (
              keep-append enabled (p ∷ []) ps,
              ← append_assoc engine.policies (keep enabled (p ∷ [])) (keep enabled ps),
            )
            (Perm.append q Perm.rfl)),
    )

-- Whether a policy matches.
abbrev pub fires : EvaluationContext → PolicyPack → Bool
fires ctx p = elim (evaluate_policy p ctx) [ none ↦ false | some m ↦ true ]

abbrev pub names : List PolicyMatch → List Str
names = map (λ m. m.policy_name)

first_match-name :
    (p : PolicyPack) (ctx : EvaluationContext) (a b c d : Option (List Str)) (m : PolicyMatch)
    → first_match p ctx a b c d ≡ some m
    → m.policy_name ≡ p.name
first_match-name p ctx (some t) b c d m h =
    ap (λ (m : PolicyMatch). m.policy_name) (some_inj (sym h))
first_match-name p ctx none (some t) c d m h =
    ap (λ (m : PolicyMatch). m.policy_name) (some_inj (sym h))
first_match-name p ctx none none (some t) d m h =
    ap (λ (m : PolicyMatch). m.policy_name) (some_inj (sym h))
first_match-name p ctx none none none (some t) m h =
    ap (λ (m : PolicyMatch). m.policy_name) (some_inj (sym h))
first_match-name p ctx none none none none m h = cc

evaluate_policy-name :
    (p : PolicyPack) (ctx : EvaluationContext) (m : PolicyMatch)
    → evaluate_policy p ctx ≡ some m
    → m.policy_name ≡ p.name
evaluate_policy-name p ctx m h = elim (evaluate_policy_cases p ctx) [
  | inl e ↦ cc
  | inr e ↦ first_match-name p ctx _ _ _ _ m (sym e ∙ h)
]

evaluate_all-names :
    (ps : List PolicyPack) (ctx : EvaluationContext) (r : PolicyResult)
    → names (evaluate_all ps ctx r).matches
      ≡ names r.matches ++ map (λ p. p.name) (keep (fires ctx) ps)
unfolding evaluate_all
evaluate_all-names [] ctx r = sym (append-nil (names r.matches))
evaluate_all-names (p ∷ ps) ctx r = elim (Option-cases (evaluate_policy p ctx)) [
  | inl e ↦ rw (evaluate_all, fires, e) (evaluate_all-names ps ctx r)
  | inr (m, e) ↦
      rw (evaluate_all, fires, e)
        (evaluate_all-names ps ctx
            (merge_policy_into_result p (record r { matches = r.matches ++ m ∷ [] }))
          ∙ (unfold merge_policy_into_result in
              rw (map-append, append_assoc, evaluate_policy-name p ctx m e)))
]

-- If some entity reaches the confidence threshold, the names of the matches that `evaluate` returns are those of the policies
-- that match, in the engine's order.
pub evaluate-names :
    (engine : PolicyEngine) (entities : List EntityMatch) (min_confidence : ℕ)
    → is_nil (build_context entities min_confidence).entity_types ≡ false
    → names (evaluate engine entities min_confidence).matches
      ≡ map (λ p. p.name) (keep (fires (build_context entities min_confidence)) engine.policies)
unfolding evaluate
evaluate-names engine entities min_confidence some_ =
    rw (evaluate, some_)
      (evaluate_all-names engine.policies (build_context entities min_confidence) empty_result)
