-- ===== src/Pipeline/Resolver/Examples.antt =====
-- Runs of the resolver, and its theorems at concrete inputs.
use openlabels.Prelude.{
  ℕ, ◌≤◌, ◌≡◌, refl, inl, inr, false, none, some, List, [], ◌∷◌, arith, All, Any,
}
use openlabels.Prelude.Text.{Str, codes, str_eq}
use openlabels.Prelude.Sort.{sort}
use openlabels.Types.Entities.{normalize_entity_type}
use openlabels.Types.Spans.{Span, Tier, pattern_, ml, IsValid, IsSlice, overlaps, contains}
use openlabels.Pipeline.Resolver.{
  OverlapStrategy, resolve_spans, deduplicate, scan_all, scan, merge_spans, compare_by_strategy,
}
use openlabels.Pipeline.Resolver.Result.{IsOrdered}
use openlabels.Pipeline.Resolver.Laws.{
  resolve_spans_total, resolve_spans-IsSlice, resolve_spans-Covers, resolve_spans_idem, Covers,
}
use openlabels.Pipeline.Resolver.Kept.{resolve_spans_keeps}

abbrev document : Str
document = codes "call 555-0100 now"

abbrev span : ℕ → ℕ → Str → Str → ℕ → Tier → Span
span s e t ty c tier = record {
  start = s;
  end = e;
  text = t;
  entity_type = ty;
  confidence = c;
  detector = codes "test";
  tier = tier;
  context = none;
  needs_review = false;
  review_reason = none;
  coref_anchor_value = none;
}

abbrev left_part : Span
left_part = span 5 10 (codes "555-0") (codes "PHONE") 800_000 pattern_

abbrev right_part : Span
right_part = span 9 13 (codes "0100") (codes "TEL") 900_000 ml

abbrev word : Span
word = span 14 17 (codes "now") (codes "DATE") 500_000 ml

abbrev found : List Span
found = word ∷ right_part ∷ left_part ∷ []

abbrev whole : Span
whole = span 5 13 (codes "555-0100") (codes "PHONE") 900_000 pattern_

found-IsValid : All IsValid found
found-IsValid = (omega arith, (omega arith, (omega arith, tt)))

found_resolved : resolve_spans found 0 OverlapStrategy.higher_confidence ≡ some (whole ∷ word ∷ [])
unfolding resolve_spans deduplicate scan_all scan merge_spans compare_by_strategy overlaps contains
    sort normalize_entity_type str_eq
found_resolved = refl

resolve_spans_total_example :
    (out : List Span) × (resolve_spans found 600_000 OverlapStrategy.higher_tier ≡ some out)
    × IsOrdered out
    × All (λ s. 600_000 ≤ s.confidence) out
resolve_spans_total_example =
    resolve_spans_total found 600_000 OverlapStrategy.higher_tier found-IsValid

found-IsSlice : All (IsSlice document) found
found-IsSlice = (
  record { inside = omega arith; matches = refl },
  (
    record { inside = omega arith; matches = refl },
    (record { inside = omega arith; matches = refl }, tt),
  ),
)

resolve_spans-IsSlice_example : All (IsSlice document) (whole ∷ word ∷ [])
resolve_spans-IsSlice_example =
    resolve_spans-IsSlice document found 0 OverlapStrategy.higher_confidence (whole ∷ word ∷ [])
      found-IsValid found-IsSlice found_resolved

resolve_spans-Covers_example : Any (Covers 6) found
resolve_spans-Covers_example =
    resolve_spans-Covers 6 found 0 OverlapStrategy.higher_confidence (whole ∷ word ∷ [])
      found-IsValid found_resolved (inl (omega arith))

resolve_spans_idem_example :
    resolve_spans (whole ∷ word ∷ []) 0 OverlapStrategy.longer_span ≡ some (whole ∷ word ∷ [])
resolve_spans_idem_example =
    resolve_spans_idem found 0 OverlapStrategy.higher_confidence OverlapStrategy.longer_span
      (whole ∷ word ∷ []) found-IsValid found_resolved

resolve_spans_keeps_example : Any (λ s. s ≡ word) (whole ∷ word ∷ [])
resolve_spans_keeps_example =
    resolve_spans_keeps word (omega arith) OverlapStrategy.higher_confidence found 0
      (whole ∷ word ∷ []) found-IsValid
      (inl refl, (inr (inl (omega arith)), (inr (inl (omega arith)), tt))) (inl refl) (omega arith)
      found_resolved
