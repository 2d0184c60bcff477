-- ===== src/Pipeline/EntityResolver/Examples.antt =====
-- Five mentions of two persons and a number, and the theorems at them.
use openlabels.Prelude.{
  ℕ, ◌+◌, ◌≡◌, refl, ◌↔◌, false, Option, none, some, List, [], ◌∷◌, map, leb, length, keep,
}
use mathlib.Core.List.{Perm}
use openlabels.Prelude.Sort.{IsInOrder}
use openlabels.Prelude.Text.{Str, codes}
use openlabels.Types.Spans.{Span, pattern_}
use openlabels.Pipeline.EntityResolver.{Mention, Entity, flat_map, to_mention, apply_sieves}
use openlabels.Pipeline.EntityResolver.Connected.{Connected, roots_from}
use openlabels.Pipeline.EntityResolver.Sieves.{AreLinked}
use openlabels.Pipeline.EntityResolver.Meaning.{apply_sieves_lem}
use openlabels.Pipeline.EntityResolver.Resolve.{resolve, occurs_before, get_entity_counts}
use openlabels.Pipeline.EntityResolver.Resolve.Partition.{resolve-perm}

abbrev span : ℕ → Str → Str → Option Str → Span
span s t ty anchor = record {
  start = s;
  end = s + length t;
  text = t;
  entity_type = ty;
  confidence = 900_000;
  detector = codes "test";
  tier = pattern_;
  context = none;
  needs_review = false;
  review_reason = none;
  coref_anchor_value = anchor;
}

abbrev spans : List Span
spans =
    span 10 (codes "John Smith") (codes "NAME") none
    ∷ span 30 (codes "Mr. Smith") (codes "NAME") none
    ∷ span 50 (codes "Jane Roe") (codes "NAME_PATIENT") none
    ∷ span 70 (codes "he") (codes "NAME") (some (codes "John Smith"))
    ∷ span 90 (codes "078-05-1120") (codes "SSN") none
    ∷ []

abbrev ids : ℕ → Str
ids k = (b'a' + k) ∷ []

grouped :
    map {B = Str × Str × ℕ}
      (λ (e : Entity). (e.id, e.canonical_value, length e.mentions))
      (resolve ids 700_000 spans)
    ≡ (codes "a", codes "John Smith", 3)
      ∷ (codes "b", codes "Jane Roe", 1)
      ∷ (codes "c", codes "078-05-1120", 1)
      ∷ []
unfolding resolve
grouped = refl

counted :
    get_entity_counts (resolve ids 700_000 spans) []
    ≡ (codes "NAME", 1) ∷ (codes "NAME_PATIENT", 1) ∷ (codes "SSN", 1) ∷ []
unfolding get_entity_counts resolve
counted = refl

abbrev mentions : List Mention
mentions = map to_mention spans

apply_sieves_lem_example :
    (root : ℕ → ℕ) × (apply_sieves mentions ≡ roots_from root 0 5)
    × ((i j : ℕ) → (root i ≡ root j) ↔ Connected (AreLinked mentions) i j)
apply_sieves_lem_example = apply_sieves_lem mentions

resolve-perm_example :
    Perm
      (flat_map (λ e. e.mentions) (resolve ids 700_000 spans))
      (map to_mention (keep (λ s. leb 700_000 s.confidence) spans))
    × IsInOrder occurs_before (resolve ids 700_000 spans)
resolve-perm_example = resolve-perm ids 700_000 spans
