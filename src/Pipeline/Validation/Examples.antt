-- ===== src/Pipeline/Validation/Examples.antt =====
-- Validation of three spans, and its theorems at concrete inputs.
use openlabels.Prelude.{
  ℕ, ◌≡◌, refl, true, false, none, [], ◌∷◌, ◌++◌, arith, ◌==◌, if◌then◌else◌, keep,
}
use openlabels.Prelude.Sort.{sort}
use openlabels.Prelude.Text.{Str, codes, lower}
use openlabels.Types.Spans.{Span, pattern_}
use openlabels.Pipeline.Validation.{
  valid, raised, SpanError, validate_span_positions, by_position, check_for_overlaps,
  validate_after_coref,
}
use openlabels.Pipeline.Validation.Positions.{fits, IsFirstError, validate_span_positions_lem}
use openlabels.Pipeline.Validation.Sweep.{pairs, clash, check_for_overlaps_lem}

abbrev document : Str
document = codes "call 555-0100 now"

abbrev span : ℕ → ℕ → Str → Span
span s e t = record {
  start = s;
  end = e;
  text = t;
  entity_type = codes "PHONE";
  confidence = 800_000;
  detector = codes "test";
  tier = pattern_;
  context = none;
  needs_review = false;
  review_reason = none;
  coref_anchor_value = none;
}

abbrev whole : Span
whole = span 5 13 (codes "555-0100")

abbrev renamed : Span
renamed = span 5 8 (codes "XYZ")

abbrev outside : Span
outside = span 14 20 (codes "now   ")

-- Letters that differ pass, and so does the overlap.
after_coref :
    validate_after_coref lower document (renamed ∷ outside ∷ whole ∷ []) false
    ≡ (valid (renamed ∷ whole ∷ []), (renamed, whole) ∷ [])
unfolding validate_after_coref lower
after_coref = refl

strict_raises :
    validate_span_positions lower document (renamed ∷ outside ∷ whole ∷ []) true
    ≡ raised SpanError.end_exceeds outside
unfolding validate_span_positions lower
strict_raises = refl

-- Lowercases, with the capital I with a dot as an i and the dot.
unfoldable dotted : Str → Str
unfolding lower
dotted [] = []
dotted (c ∷ s) = if c == 304 then 105 ∷ 775 ∷ dotted s else lower (c ∷ []) ++ dotted s

-- The text of the span is longer than the span, and passes.
longer_text :
    validate_span_positions dotted (304 ∷ []) (span 0 1 (105 ∷ 775 ∷ []) ∷ []) true
    ≡ valid (span 0 1 (105 ∷ 775 ∷ []) ∷ [])
unfolding validate_span_positions dotted
longer_text = refl

validate_span_positions_lem_example :
    (validate_span_positions dotted document (renamed ∷ outside ∷ whole ∷ []) false
      ≡ valid (keep (fits dotted document) (renamed ∷ outside ∷ whole ∷ [])))
    × IsFirstError dotted document
        (renamed ∷ outside ∷ whole ∷ [])
        (validate_span_positions dotted document (renamed ∷ outside ∷ whole ∷ []) true)
validate_span_positions_lem_example =
    validate_span_positions_lem dotted document (renamed ∷ outside ∷ whole ∷ [])

check_for_overlaps_lem_example :
    check_for_overlaps (whole ∷ renamed ∷ outside ∷ []) true
    ≡ keep (clash true) (pairs (sort by_position (whole ∷ renamed ∷ outside ∷ [])))
check_for_overlaps_lem_example =
    check_for_overlaps_lem (whole ∷ renamed ∷ outside ∷ []) true (omega arith)
