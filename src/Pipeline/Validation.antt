-- ===== src/Pipeline/Validation.antt =====
-- Validation of the positions of spans (src/openlabels/core/pipeline/span_validation.py). A position is never
-- negative here, so the two tests for that are left out, as are the log and the labels for it. The search for
-- overlaps is the Python fallback. `lower` is `str.lower`, which may change the length of a text.
pub mod Positions
pub mod Sweep
mod Examples
use openlabels.Prelude.{
  ℕ, zero, suc, ◌+◌, ◌-◌, ◌*◌, ◌/◌, ◌%◌, ◌≤◌, ◌<◌, min, max, ◌≡◌, refl, sym, ap, ◌∙◌, subst, ◌≢◌,
  ◌↔◌, ◌⊎◌, inl, inr, Bool, true, false, not, ◌&&◌, ◌||◌, Option, none, some, List, [], ◌∷◌, ◌++◌,
  map, reverse, arith, ltb, leb, ◌==◌, if◌then◌else◌, ltb→lt, lt→ltb, ge→ltb, leb→le, le→leb,
  gt→leb, ==_iff, Bool-cases, Option-cases, some_inj, length, get_elem?, take, drop, slice, keep,
  All, Any, all, any, length-append, length-take, length-drop,
}
use openlabels.Prelude.Sort.{sort}
use openlabels.Prelude.Text.{Str, str_eq}
use openlabels.Types.Spans.{Span}
use openlabels.Pipeline.Resolver.{same_position}

-- The error messages of `_validate_single_span`.
pub data SpanError : Type 0 where
  start_exceeds end_exceeds start_not_before_end length_mismatch : SpanError

-- The list of valid spans, or a SpanValidationError.
pub data Validated : Type 0 where
  valid : List Span → Validated
  raised : SpanError → Span → Validated

abbrev pub also : Span → Validated → Validated
also span (valid spans) = valid (span ∷ spans)
also span (raised error s) = raised error s

-- (s.start, s.end)
abbrev pub by_position : Span → Span → Bool
by_position s t = ltb s.start t.start || (s.start == t.start && ltb s.end t.end)

-- The inner loop, with its break and its continue.
unfoldable pub overlaps_of : Bool → Span → List Span → List (Span × Span)
overlaps_of allow_identical s1 [] = []
overlaps_of allow_identical s1 (s2 ∷ spans) =
    let rest = overlaps_of allow_identical s1 spans in
    if leb s1.end s2.start
    then []
    else if allow_identical && same_position s1 s2
    then rest
    else (s1, s2) ∷ rest

-- The outer loop.
unfoldable pub overlapping : Bool → List Span → List (Span × Span)
unfolding overlaps_of
overlapping allow_identical [] = []
overlapping allow_identical (s ∷ spans) =
    overlaps_of allow_identical s spans ++ overlapping allow_identical spans

-- `check_for_overlaps`
unfoldable pub check_for_overlaps : List Span → Bool → List (Span × Span)
unfolding sort overlapping
check_for_overlaps spans allow_identical =
    if ltb (length spans) 2 then [] else overlapping allow_identical (sort by_position spans)

module _ (lower : Str → Str) where
  -- `_validate_single_span`
  unfoldable pub validate_single_span : Span → Str → ℕ → Option SpanError
  unfolding str_eq
  validate_single_span span text text_len =
      if ltb text_len span.start
      then some start_exceeds
      else if ltb text_len span.end
      then some end_exceeds
      else if leb span.end span.start
      then some start_not_before_end
      else (let actual_text : Str = slice text span.start span.end in
          if not (str_eq (lower actual_text) (lower span.text))
          then (if not (length actual_text == length span.text) then some length_mismatch else none)
          else none)

  -- `validate_span_positions`
  unfoldable pub validate_span_positions : Str → List Span → Bool → Validated
  unfolding validate_single_span
  validate_span_positions text [] strict = valid []
  validate_span_positions text (span ∷ spans) strict =
      let rest = validate_span_positions text spans strict in
      elim (validate_single_span span text (length text)) [
        | none ↦ also span rest
        | some error ↦ if strict then raised error span else rest
      ]

  -- `validate_after_coref`, with the overlaps that it logs.
  unfoldable pub validate_after_coref : Str → List Span → Bool → Validated × List (Span × Span)
  unfolding validate_span_positions check_for_overlaps
  validate_after_coref text spans strict = elim (validate_span_positions text spans strict) [
    | valid kept ↦ (valid kept, check_for_overlaps kept true)
    | raised error span ↦ (raised error span, [])
  ]
