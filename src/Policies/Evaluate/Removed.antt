-- ===== src/Policies/Evaluate/Removed.antt =====
-- The removal of a policy.
use openlabels.Prelude.{
  ◌≡◌, refl, ◌≢◌, ◌⊎◌, inl, inr, true, false, none, some, List, [], ◌∷◌, arith, Bool-cases,
  Option-cases, All,
}
use mathlib.Core.List.{Perm}
use mathlib.Core.List.Perm
use openlabels.Prelude.Sort.{IsInOrder}
use openlabels.Prelude.Text.{Str, str_eq, str_eq→eq, str_eq_refl}
use openlabels.Policies.Schema.{PolicyPack}
use openlabels.Policies.Evaluate.{PolicyEngine, higher_priority, without_first, remove_policy}
use openlabels.Policies.Evaluate.Loaded.{IsByPriority}

module _ (name : Str) where
  drop_second :
      (x p : PolicyPack) (ps : List PolicyPack)
      → IsInOrder higher_priority (x ∷ p ∷ ps)
      → IsInOrder higher_priority (x ∷ ps)
  drop_second x p [] h = tt
  drop_second x p (q ∷ qs) h = (ground arith, h.1.1)

  without_first-cons-IsInOrder :
      (x : PolicyPack) (ps rest : List PolicyPack)
      → IsInOrder higher_priority (x ∷ ps)
      → without_first name ps ≡ some rest
      → IsInOrder higher_priority (x ∷ rest)
  unfolding without_first
  without_first-cons-IsInOrder x [] rest h e = cc
  without_first-cons-IsInOrder x (p ∷ ps) rest h e = elim (Bool-cases (str_eq p.name name)) [
    | inl q ↦ let same : ps ≡ rest = ground arith in rw (← same) (drop_second x p ps h)
    | inr q ↦ elim (Option-cases (without_first name ps)) [
      | inl f ↦ absurd (ground arith)
      | inr (rest', f) ↦
          let same : p ∷ rest' ≡ rest = ground arith in
          rw (← same) (h.0, without_first-cons-IsInOrder p ps rest' h.1 f)
    ]
  ]

  tail-IsInOrder :
      (p : PolicyPack) (ps : List PolicyPack)
      → IsInOrder higher_priority (p ∷ ps)
      → IsInOrder higher_priority ps
  tail-IsInOrder p [] h = tt
  tail-IsInOrder p (q ∷ qs) h = h.1

  without_first-IsInOrder :
      (ps rest : List PolicyPack)
      → IsInOrder higher_priority ps
      → without_first name ps ≡ some rest
      → IsInOrder higher_priority rest
  unfolding without_first
  without_first-IsInOrder [] rest h e = cc
  without_first-IsInOrder (p ∷ ps) rest h e = elim (Bool-cases (str_eq p.name name)) [
    | inl q ↦ let same : ps ≡ rest = ground arith in rw (← same) (tail-IsInOrder p ps h)
    | inr q ↦ elim (Option-cases (without_first name ps)) [
      | inl f ↦ absurd (ground arith)
      | inr (rest', f) ↦
          let same : p ∷ rest' ≡ rest = ground arith in
          rw (← same) (without_first-cons-IsInOrder p ps rest' h f)
    ]
  ]

  -- A policy of the name was taken out of the list.
  abbrev pub IsTaken : List PolicyPack → List PolicyPack → Type 0
  IsTaken ps rest = (p : PolicyPack) × (p.name ≡ name) × Perm ps (p ∷ rest)

  without_first-IsTaken :
      (ps rest : List PolicyPack) → without_first name ps ≡ some rest → IsTaken ps rest
  unfolding without_first
  without_first-IsTaken [] rest e = cc
  without_first-IsTaken (p ∷ ps) rest e = elim (Bool-cases (str_eq p.name name)) [
    | inl q ↦
        let same : ps ≡ rest = ground arith in (p, str_eq→eq p.name name q, rw (← same) Perm.rfl)
    | inr q ↦ elim (Option-cases (without_first name ps)) [
      | inl f ↦ absurd (ground arith)
      | inr (rest', f) ↦
          let (x, same, perm) = without_first-IsTaken ps rest' f in
          (
            x,
            same,
            (let eq : p ∷ rest' ≡ rest = ground arith in
                rw (← eq) (Perm.trans (Perm.cons p perm) (Perm.swap x p rest'))),
          )
    ]
  ]

  without_first-none :
      (ps : List PolicyPack) → without_first name ps ≡ none → All (λ p. p.name ≢ name) ps
  unfolding without_first
  without_first-none [] e = tt
  without_first-none (p ∷ ps) e = elim (Bool-cases (str_eq p.name name)) [
    | inl q ↦ absurd (ground arith)
    | inr q ↦ elim (Option-cases (without_first name ps)) [
      | inl f ↦ (
        (λ s. let t : str_eq p.name name ≡ true = rw s (str_eq_refl name) in cc),
        without_first-none ps f,
      )
      | inr (rest', f) ↦ absurd (ground arith)
    ]
  ]

-- Removing a policy keeps the order by priority. It either takes one policy of the name out and answers true, or answers
-- false, with no policy of the name there, and leaves the engine as it is.
pub remove_policy_lem :
    (name : Str) (engine : PolicyEngine)
    → IsByPriority engine
    → IsByPriority (remove_policy name engine).0
      × (((remove_policy name engine).1 ≡ true)
            × IsTaken name engine.policies (remove_policy name engine).0.policies
          ⊎ (remove_policy name engine ≡ (engine, false))
            × All (λ p. p.name ≢ name) engine.policies)
unfolding remove_policy
remove_policy_lem name engine h = elim (Option-cases (without_first name engine.policies)) [
  | inl e ↦ rw (remove_policy, e) (h, inr (refl, without_first-none name engine.policies e))
  | inr (rest, e) ↦
      rw (remove_policy, e)
        (
          without_first-IsInOrder name engine.policies rest h e,
          inl (refl, without_first-IsTaken name engine.policies rest e),
        )
]
