-- ===== src/Scoring/Examples.antt =====
-- Runs of the risk score, and the theorems about it at concrete entities. The logarithm is 0.7 from two
-- instances on.
use openlabels.Prelude.{ℕ, ◌≤◌, ◌≡◌, refl, [], ◌∷◌, arith, leb, if◌then◌else◌}
use openlabels.Prelude.Text.{Dict, codes}
use openlabels.Scoring.{
  critical, threshold, points, hundred, get_co_occurrence_multiplier, final_score, tier_of,
}
use openlabels.Scoring.Monotone.{final_score_rises}

abbrev ln : ℕ → ℕ
ln n = if leb 2 n then 700_000 else 0

ln_rises : (a b : ℕ) → a ≤ b → ln a ≤ ln b
ln_rises a b h = ground arith

abbrev once : Dict ℕ
once = (codes "SSN", 1) ∷ (codes "DIAGNOSIS", 1) ∷ []

abbrev twice : Dict ℕ
twice = (codes "SSN", 2) ∷ (codes "DIAGNOSIS", 1) ∷ []

-- A single SSN scores 34 in private, which is 10 * 4 * 0.85.
single : final_score ln ((codes "SSN", 1) ∷ []) (codes "private") 850_000 ≡ points 34
unfolding final_score
single = refl

hipaa : get_co_occurrence_multiplier once ≡ (20, codes "hipaa_phi" ∷ [])
unfolding get_co_occurrence_multiplier
hipaa = refl

public_tier : tier_of ln once (codes "PUBLIC") 850_000 ≡ critical
unfolding tier_of
public_tier = refl

final_score_rises_example :
    (final_score ln once (codes "INTERNAL") 500_000
      ≤ final_score ln twice (codes "INTERNAL") 500_000)
    × (final_score ln twice (codes "INTERNAL") 500_000 ≤ hundred)
    × (threshold (tier_of ln once (codes "INTERNAL") 500_000)
        ≤ threshold (tier_of ln twice (codes "INTERNAL") 500_000))
final_score_rises_example =
    final_score_rises ln 500_000 (codes "INTERNAL") once twice ln_rises
      (refl, omega arith, (refl, omega arith, tt))
