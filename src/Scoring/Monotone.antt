-- ===== src/Scoring/Monotone.antt =====
-- More instances of the same entity types never lower the score.
use openlabels.Prelude.{ℕ, ◌+◌, ◌*◌, ◌≤◌, max, ◌≡◌, refl, sym, ap, ◌∙◌, ◌↔◌, List, [], ◌∷◌, arith}
use native.Mathlib.Nat.{mul-le-mul}
use openlabels.Prelude.Text.{Str, Dict}
use openlabels.Scoring.{
  RiskTier, threshold, points, score_to_tier, hundred, co_occurrence_rules, categories_from,
  get_co_occurrence_multiplier, get_weight, base_score, calculate_content_score,
  exposure_multiplier, final_score, tier_of,
}
use openlabels.Scoring.Rules.{highest, get_co_occurrence_multiplier_lem}

-- The same entity types in the same order, each at least as often.
abbrev pub Raised : Dict ℕ → Dict ℕ → Type 0
Raised [] [] = Unit
Raised ((k, n) ∷ es) ((j, m) ∷ fs) = (k ≡ j) × (n ≤ m) × Raised es fs
Raised _ _ = ⊥

categories_from-Raised :
    (es fs : Dict ℕ)
    → Raised es fs
    → (cats : List Str) → categories_from cats es ≡ categories_from cats fs
unfolding categories_from
categories_from-Raised [] [] h cats = refl
categories_from-Raised ((k, n) ∷ es) ((j, m) ∷ fs) (same, le, h) cats =
    rw same (categories_from-Raised es fs h _)
categories_from-Raised [] (f ∷ fs) h cats = absurd h
categories_from-Raised (e ∷ es) [] h cats = absurd h

multiplier-Raised :
    (es fs : Dict ℕ)
    → Raised es fs
    → (get_co_occurrence_multiplier es).0 ≡ (get_co_occurrence_multiplier fs).0
multiplier-Raised es fs h =
    get_co_occurrence_multiplier_lem es
    ∙ (ap (λ c. highest c 10 co_occurrence_rules) (categories_from-Raised es fs h [])
        ∙ sym (get_co_occurrence_multiplier_lem fs))

-- A tier is reached by a score exactly if the score's own tier is at least as high.
pub score_to_tier_iff :
    (s : ℕ) (t : RiskTier)
    → (points (threshold t) ≤ s) ↔ (threshold t ≤ threshold (score_to_tier s))
unfolding score_to_tier
score_to_tier_iff s t = (λ h. ground arith, λ h. ground arith)

score_to_tier_mono :
    (s s' : ℕ) → s ≤ s' → threshold (score_to_tier s) ≤ threshold (score_to_tier s')
score_to_tier_mono s s' h =
    (score_to_tier_iff s' (score_to_tier s)).0
      (omega (arith, (score_to_tier_iff s (score_to_tier s)).1 (omega arith)))

module _ (ln : ℕ → ℕ) (rises : (a b : ℕ) → a ≤ b → ln a ≤ ln b) where
  base_score-Raised :
      (confidence : ℕ) (es fs : Dict ℕ)
      → Raised es fs
      → base_score ln es confidence ≤ base_score ln fs confidence
  unfolding base_score
  base_score-Raised c [] [] h = omega arith
  base_score-Raised c ((k, n) ∷ es) ((j, m) ∷ fs) (same, le, h) =
      let more : ln (max 1 n) ≤ ln (max 1 m) = rises (max 1 n) (max 1 m) (omega arith) in
      let term : get_weight j * 4 * (1_000_000 + ln (max 1 n)) * c
          ≤ get_weight j * 4 * (1_000_000 + ln (max 1 m)) * c =
        mul-le-mul (mul-le-mul (omega arith) (omega arith)) (omega arith) in
      rw same (omega (arith, base_score-Raised c es fs h))
  base_score-Raised c [] (f ∷ fs) h = absurd h
  base_score-Raised c (e ∷ es) [] h = absurd h

  content-Raised :
      (confidence : ℕ) (es fs : Dict ℕ)
      → Raised es fs
      → calculate_content_score ln es confidence ≤ calculate_content_score ln fs confidence
  unfolding calculate_content_score
  content-Raised c es fs h =
      let product : base_score ln es c * (get_co_occurrence_multiplier es).0
          ≤ base_score ln fs c * (get_co_occurrence_multiplier fs).0 =
        rw (multiplier-Raised es fs h) (mul-le-mul (base_score-Raised c es fs h) (omega arith)) in
      omega arith

  final_score-Raised :
      (confidence : ℕ) (exposure : Str) (es fs : Dict ℕ)
      → Raised es fs
      → final_score ln es exposure confidence ≤ final_score ln fs exposure confidence
  unfolding final_score
  final_score-Raised c exposure es fs h =
      let product : calculate_content_score ln es c * exposure_multiplier exposure
          ≤ calculate_content_score ln fs c * exposure_multiplier exposure =
        mul-le-mul (content-Raised c es fs h) (omega arith) in
      omega arith

-- If the logarithm does not fall, more instances of the same entity types give no lower a score, which is at most 100,
-- and no lower a tier.
pub final_score_rises :
    (ln : ℕ → ℕ) (confidence : ℕ) (exposure : Str) (es fs : Dict ℕ)
    → ((a b : ℕ) → a ≤ b → ln a ≤ ln b)
    → Raised es fs
    → (final_score ln es exposure confidence ≤ final_score ln fs exposure confidence)
      × (final_score ln fs exposure confidence ≤ hundred)
      × (threshold (tier_of ln es exposure confidence)
          ≤ threshold (tier_of ln fs exposure confidence))
unfolding tier_of
final_score_rises ln c exposure es fs rises h = (
  final_score-Raised ln rises c exposure es fs h,
  (unfold final_score in omega arith),
  score_to_tier_mono _ _ (final_score-Raised ln rises c exposure es fs h),
)
