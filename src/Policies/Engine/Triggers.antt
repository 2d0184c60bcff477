-- ===== src/Policies/Engine/Triggers.antt =====
-- When a policy matches.
use openlabels.Prelude.{
  ℕ, ◌<◌, ◌≡◌, refl, sym, ap, ◌∙◌, ◌≢◌, ◌⊎◌, inl, inr, Bool, true, false, ◌&&◌, Option, none, some,
  List, [], ◌∷◌, arith, leb, if◌then◌else◌, Bool-cases, all, keep, some_inj, gt→leb,
}
use openlabels.Prelude.Text.{
  Str, contains, str_eq, str_eq_refl, str_eq→eq, contains-intersection, intersection, is_subset,
  get_or,
}
use openlabels.Policies.Schema.{
  PolicyPack, PolicyTrigger, PolicyMatch, by_special_category, is_empty,
}
use openlabels.Policies.Engine.{
  EvaluationContext, evaluate_policy, first_match, any_of_fires, all_of_fires, combination_fires,
  special_fires, excluded, confident, lower_set, evaluate_triggers, combination_present,
}

-- A policy is passed over, or the first of its four checks that fires decides.
pub evaluate_policy_cases :
    (p : PolicyPack) (ctx : EvaluationContext)
    → (evaluate_policy p ctx ≡ none)
      ⊎ (evaluate_policy p ctx
          ≡ first_match p ctx
              (any_of_fires p.triggers ctx)
              (all_of_fires p.triggers ctx)
              (combination_fires p.triggers.min_confidence p.triggers.combinations ctx)
              (special_fires p ctx))
unfolding evaluate_policy
evaluate_policy_cases p ctx = elim (Bool-cases (is_empty p.triggers)) [
  | inl e ↦ inl (rw (evaluate_policy, e))
  | inr e ↦ elim (Bool-cases (excluded p.triggers ctx)) [
    | inl f ↦ inl (rw (evaluate_policy, e, f))
    | inr f ↦ inr (rw (evaluate_policy, e, f))
  ]
]

-- The keys are all present, and none is of low confidence.
abbrev pub IsBacked : EvaluationContext → ℕ → List Str → Type 0
IsBacked ctx c ts = (is_subset ts ctx.entity_types ≡ true) × (confident ctx c ts ≡ true)

all-contains-cons :
    (s t : List Str) (k : Str) → all (contains s) t ≡ true → all (contains (k ∷ s)) t ≡ true
unfolding contains
all-contains-cons s [] k h = refl
all-contains-cons s (j ∷ t) k h = ground (arith, all-contains-cons s t k)

contains_self : (s : List Str) → all (contains s) s ≡ true
unfolding contains
contains_self [] = refl
contains_self (k ∷ s) = ground (arith, str_eq_refl k, all-contains-cons s s k, contains_self s)

all-keep : (q p : Str → Bool) (s : List Str) → all q s ≡ true → all q (keep p s) ≡ true
all-keep q p [] h = refl
all-keep q p (k ∷ s) h = ground (arith, all-keep q p s)

is_subset-intersection : (s t : List Str) → is_subset (intersection s t) s ≡ true
unfolding is_subset intersection
is_subset-intersection s t = all-keep (contains s) (contains t) s (contains_self s)

module _ (ctx : EvaluationContext) where
  any_of_fires-IsBacked :
      (t : PolicyTrigger) (ts : List Str)
      → any_of_fires t ctx ≡ some ts
      → IsBacked ctx t.min_confidence ts
  unfolding any_of_fires
  any_of_fires-IsBacked t ts h =
      fired _ _ _ _ (is_subset-intersection ctx.entity_types (lower_set t.any_of)) h
    where
      fired :
          (a b c : Bool) (m : List Str)
          → is_subset m ctx.entity_types ≡ true
          → (if a && (b && (confident ctx t.min_confidence m && c)) then some m else none) ≡ some ts
          → IsBacked ctx t.min_confidence ts
      fired a b c m sub h = ground arith

  all_of_fires-IsBacked :
      (t : PolicyTrigger) (ts : List Str)
      → all_of_fires t ctx ≡ some ts
      → IsBacked ctx t.min_confidence ts
  unfolding all_of_fires
  all_of_fires-IsBacked t ts h = ground arith

  combination_fires-IsBacked :
      (c : ℕ) (combos : List (List Str)) (ts : List Str)
      → combination_fires c combos ctx ≡ some ts
      → IsBacked ctx c ts
  unfolding combination_fires
  combination_fires-IsBacked c [] ts h = cc
  combination_fires-IsBacked c (combo ∷ rest) ts h =
      ground (arith, combination_fires-IsBacked c rest ts)

  combination_present-subset :
      (combos : List (List Str)) (ts : List Str)
      → combination_present combos ctx ≡ some ts
      → is_subset ts ctx.entity_types ≡ true
  unfolding combination_present
  combination_present-subset [] ts h = cc
  combination_present-subset (combo ∷ rest) ts h =
      ground (arith, combination_present-subset rest ts)

  evaluate_triggers-subset :
      (t : PolicyTrigger) (ts : List Str)
      → evaluate_triggers t ctx ≡ some ts
      → is_subset ts ctx.entity_types ≡ true
  unfolding evaluate_triggers
  evaluate_triggers-subset t ts h = ground (
    arith,
    is_subset-intersection ctx.entity_types (lower_set t.any_of),
    combination_present-subset t.combinations ts,
  )

  special_fires-subset :
      (p : PolicyPack) (ts : List Str)
      → special_fires p ctx ≡ some ts
      → is_subset ts ctx.entity_types ≡ true
  special_fires-subset p ts h =
      ground (arith, evaluate_triggers-subset p.special_category_triggers ts)

  first_match-backed :
      (p : PolicyPack) (a b c d : Option (List Str)) (m : PolicyMatch)
      → ((ts : List Str) → a ≡ some ts → IsBacked ctx p.triggers.min_confidence ts)
      → ((ts : List Str) → b ≡ some ts → IsBacked ctx p.triggers.min_confidence ts)
      → ((ts : List Str) → c ≡ some ts → IsBacked ctx p.triggers.min_confidence ts)
      → ((ts : List Str) → d ≡ some ts → is_subset ts ctx.entity_types ≡ true)
      → first_match p ctx a b c d ≡ some m
      → (is_subset m.matched_entities ctx.entity_types ≡ true)
        × (m.trigger_type ≢ by_special_category
            → confident ctx p.triggers.min_confidence m.matched_entities ≡ true)
  first_match-backed p (some ts) b c d m f g h k e =
      let (u, v) = f ts refl in rw (← some_inj e) (u, λ _. v)
  first_match-backed p none (some ts) c d m f g h k e =
      let (u, v) = g ts refl in rw (← some_inj e) (u, λ _. v)
  first_match-backed p none none (some ts) d m f g h k e =
      let (u, v) = h ts refl in rw (← some_inj e) (u, λ _. v)
  first_match-backed p none none none (some ts) m f g h k e =
      rw (← some_inj e) (k ts refl, λ n. absurd (n refl))
  first_match-backed p none none none none m f g h k e = cc

-- If a policy matches, all entity types that the match names are present, and unless the special
-- category decided, the highest confidence of each reaches the policy's threshold.
pub evaluate_policy_sound :
    (p : PolicyPack) (ctx : EvaluationContext) (m : PolicyMatch)
    → evaluate_policy p ctx ≡ some m
    → (is_subset m.matched_entities ctx.entity_types ≡ true)
      × (m.trigger_type ≢ by_special_category
          → confident ctx p.triggers.min_confidence m.matched_entities ≡ true)
evaluate_policy_sound p ctx m h = elim (evaluate_policy_cases p ctx) [
  | inl e ↦ cc
  | inr e ↦
      first_match-backed ctx p _ _ _ _ m (any_of_fires-IsBacked ctx p.triggers)
        (all_of_fires-IsBacked ctx p.triggers)
        (combination_fires-IsBacked ctx p.triggers.min_confidence p.triggers.combinations)
        (special_fires-subset ctx p) (sym e ∙ h)
]

all-fails :
    (q : Str → Bool) (l : List Str) (k : Str) → contains l k ≡ true → q k ≡ false → all q l ≡ false
unfolding contains
all-fails q [] k h f = cc
all-fails q (j ∷ l) k h f = elim (Bool-cases (str_eq j k)) [
  | inl e ↦ let same : q j ≡ q k = ap q (str_eq→eq j k e) in ground arith
  | inr e ↦ ground (arith, all-fails q l k)
]

-- One type of an any_of trigger that is present with too low a confidence keeps the trigger from
-- firing, whatever other types of it are present.
pub any_of_suppressed :
    (t : PolicyTrigger) (ctx : EvaluationContext) (k : Str)
    → contains ctx.entity_types k ≡ true
    → contains (lower_set t.any_of) k ≡ true
    → get_or ctx.type_max_confidence k 0 < t.min_confidence
    → any_of_fires t ctx ≡ none
unfolding any_of_fires
any_of_suppressed t ctx k p q low =
    rw
      (
        any_of_fires,
        all-fails (λ j. leb t.min_confidence (get_or ctx.type_max_confidence j 0))
            (intersection ctx.entity_types (lower_set t.any_of)) k
            (contains-intersection ctx.entity_types (lower_set t.any_of) k ∙ ground arith)
            (gt→leb t.min_confidence (get_or ctx.type_max_confidence k 0) low),
      )
      (ground arith)
