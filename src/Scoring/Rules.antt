-- ===== src/Scoring/Rules.antt =====
-- Which rules the co-occurrence multiplier comes from.
use openlabels.Prelude.{ℕ, ◌≤◌, max, ◌≡◌, refl, Bool, List, [], ◌∷◌, ◌++◌, arith, if◌then◌else◌}
use openlabels.Prelude.Text.{Str, Dict, is_subset}
use openlabels.Scoring.{
  Rule, co_occurrence_rules, get_categories, best_from, get_co_occurrence_multiplier,
}

module _ (cats : List Str) where
  abbrev pub applies : Rule → Bool
  applies r = is_subset r.required cats

  -- The highest multiplier of a rule that applies, at least the given one.
  abbrev pub highest : ℕ → List Rule → ℕ
  highest m [] = m
  highest m (r ∷ rs) = if applies r then max r.multiplier (highest m rs) else highest m rs

  highest-above : (m n : ℕ) (rs : List Rule) → m ≤ n → highest n rs ≡ max n (highest m rs)
  highest-above m n [] h = omega arith
  highest-above m n (r ∷ rs) h = ground (arith, highest-above m n rs h)

  highest-bound : (m : ℕ) (rs : List Rule) → m ≤ highest m rs
  highest-bound m [] = omega arith
  highest-bound m (r ∷ rs) = ground (arith, highest-bound m rs)

  best_from-highest :
      (rs : List Rule) (m : ℕ) (ns : List Str) → (best_from cats rs m ns).0 ≡ highest m rs
  unfolding best_from
  best_from-highest [] m ns = refl
  best_from-highest (r ∷ rs) m ns = ground (
    arith,
    best_from-highest rs m ns,
    best_from-highest rs r.multiplier (r.name ∷ []),
    best_from-highest rs m (ns ++ r.name ∷ []),
    highest-above m r.multiplier rs,
    highest-bound m rs,
  )

-- The co-occurrence multiplier is the highest of the rules whose categories are all present, and 1.0 if none has a
-- higher one.
pub get_co_occurrence_multiplier_lem :
    (entities : Dict ℕ)
    → (get_co_occurrence_multiplier entities).0
      ≡ highest (get_categories entities) 10 co_occurrence_rules
unfolding get_co_occurrence_multiplier is_subset
get_co_occurrence_multiplier_lem [] = refl
get_co_occurrence_multiplier_lem (e ∷ es) =
    best_from-highest (get_categories (e ∷ es)) co_occurrence_rules 10 []
