-- ===== src/Pipeline/Resolver.antt =====
-- Span overlap resolution (src/openlabels/core/pipeline/span_resolver.py).
pub mod Merge
pub mod Single
pub mod Disjoint
pub mod Result
pub mod Laws
pub mod Kept
mod Examples
use openlabels.Prelude.{
  ℕ, ◌+◌, ◌-◌, ◌<◌, ◌≤◌, ◌≡◌, min, max, Bool, true, false, not, ◌&&◌, ◌||◌, Option, none, some,
  List, [], ◌∷◌, ◌++◌, ltb, leb, ◌==◌, if◌then◌else◌, drop, keep, reverse,
}
use openlabels.Prelude.Sort.{sort}
use openlabels.Prelude.Text.{Str, str_eq}
use openlabels.Types.Entities.{normalize_entity_type}
use openlabels.Types.Spans.{Span, value, overlaps, contains, post_init}

pub data OverlapStrategy : Type 0 where
  higher_tier higher_confidence longer_span : OverlapStrategy

-- Higher tier, then higher confidence.
abbrev pub outranks : Span → Span → Bool
outranks s a =
    ltb (value a.tier) (value s.tier)
    || (value s.tier == value a.tier && ltb a.confidence s.confidence)

-- `_compare_by_strategy`
unfoldable pub compare_by_strategy : Span → Span → OverlapStrategy → Bool
compare_by_strategy candidate incumbent OverlapStrategy.higher_tier = outranks candidate incumbent
compare_by_strategy candidate incumbent OverlapStrategy.longer_span =
    ltb (incumbent.end - incumbent.start) (candidate.end - candidate.start)
    || (candidate.end - candidate.start == incumbent.end - incumbent.start
        && ltb incumbent.confidence candidate.confidence)
compare_by_strategy candidate incumbent OverlapStrategy.higher_confidence =
    ltb incumbent.confidence candidate.confidence
    || (candidate.confidence == incumbent.confidence
        && ltb (value incumbent.tier) (value candidate.tier))

-- The merge of two spans of one type. `none` is the ValueError of the constructor.
unfoldable pub merge_spans : Span → Span → Option Span
merge_spans accepted span =
    let left = if leb accepted.start span.start then accepted else span in
    let right = if leb accepted.start span.start then span else accepted in
    let base = if outranks span accepted then span else accepted in
    post_init (record {
      start = min accepted.start span.start;
      end = max accepted.end span.end;
      text = left.text ++ drop (left.end - right.start) right.text;
      entity_type = base.entity_type;
      confidence = max accepted.confidence span.confidence;
      detector = base.detector;
      tier = base.tier;
      context = none;
      needs_review = false;
      review_reason = none;
      coref_anchor_value = none;
    })

abbrev pub same_position : Span → Span → Bool
same_position s a = s.start == a.start && s.end == a.end

abbrev pub same_type : Span → Span → Bool
same_type a s = str_eq (normalize_entity_type a.entity_type) (normalize_entity_type s.entity_type)

-- The inner `while`. `result` is kept with its last element first: `before` holds `result[i]`,
-- `result[i - 1]`, and so on, and `passed` what stands behind position `i`.
unfoldable pub scan : OverlapStrategy → Span → List Span → List Span → Option (List Span)
scan strategy span [] passed = some (span ∷ passed)
scan strategy span (accepted ∷ before) passed =
    let skip = scan strategy span before (passed ++ accepted ∷ []) in
    let replace = scan strategy span before passed in
    let merged : Option (List Span) = elim (merge_spans accepted span) [
      | some m ↦ scan strategy m before passed
      | none ↦ none
    ] in
    if leb accepted.end span.start
    then some (span ∷ passed ++ accepted ∷ before)
    else if not (overlaps accepted span)
    then skip
    else if same_position span accepted
    then some (passed ++ (if outranks span accepted then span else accepted) ∷ before)
    else if contains accepted span
    then some (passed ++ accepted ∷ before)
    else if contains span accepted
    then replace
    else if same_type accepted span
    then merged
    else if compare_by_strategy span accepted strategy
    then replace
    else some (passed ++ accepted ∷ before)

-- The `for` over the sorted spans.
unfoldable pub scan_all : OverlapStrategy → List Span → List Span → Option (List Span)
scan_all strategy [] result = some result
scan_all strategy (span ∷ rest) result = elim (scan strategy span result []) [
  | some result' ↦ scan_all strategy rest result'
  | none ↦ none
]

-- The key (start, -tier, -confidence).
abbrev pub before_in_scan : Span → Span → Bool
before_in_scan a b = ltb a.start b.start || (a.start == b.start && outranks a b)

-- The key (start, -end).
abbrev pub before_in_text : Span → Span → Bool
before_in_text a b = ltb a.start b.start || (a.start == b.start && ltb b.end a.end)

-- `_deduplicate`
unfoldable pub deduplicate : List Span → OverlapStrategy → Option (List Span)
deduplicate spans strategy = elim (scan_all strategy (sort before_in_scan spans) []) [
  | some result ↦ some (reverse result)
  | none ↦ none
]

-- `resolve_spans`; the empty list needs no branch of its own.
unfoldable pub resolve_spans : List Span → ℕ → OverlapStrategy → Option (List Span)
resolve_spans spans confidence_threshold strategy =
    elim (deduplicate (keep (λ s. leb confidence_threshold s.confidence) spans) strategy) [
      | some deduped ↦ some (sort before_in_text deduped)
      | none ↦ none
    ]
