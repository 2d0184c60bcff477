-- ===== src/Pipeline/Resolver/Merge.antt =====
-- One step of the resolver: a new span meets the last accepted one.
use openlabels.Prelude.{
  ℕ, ◌-◌, ◌<◌, ◌≤◌, ◌≡◌, min, max, false, none, some, List, ◌++◌, le→leb, if◌then◌else◌, drop,
  arith, length-append, length-drop, slice-append-drop,
}
use openlabels.Types.Spans.{Span, IsValid, IsSlice, post_init_iff, contains}
use openlabels.Pipeline.Resolver.{
  merge_spans, outranks, compare_by_strategy, OverlapStrategy, same_position, same_type,
}

-- `span` starts in `accepted` and reaches past its end.
pub record Straddles (accepted span : Span) : Type 0 where
  pub after : accepted.start ≤ span.start
  pub within : span.start < accepted.end
  pub past : accepted.end < span.end

unfoldable pub merged : Span → Span → Span
merged accepted span =
    let base = if outranks span accepted then span else accepted in
    record {
      start = accepted.start;
      end = span.end;
      text = accepted.text ++ drop (accepted.end - span.start) span.text;
      entity_type = base.entity_type;
      confidence = max accepted.confidence span.confidence;
      detector = base.detector;
      tier = base.tier;
      context = none;
      needs_review = false;
      review_reason = none;
      coref_anchor_value = none;
    }

module _ (accepted span : Span) (v : IsValid accepted) (w : IsValid span)
    (st : Straddles accepted span) where
  pub merged-IsValid : IsValid (merged accepted span)
  unfolding merged
  merged-IsValid = record {
    nonempty = omega arith;
    bounded = omega arith;
    measured = omega (
      arith,
      length-append {0} accepted.text (drop (accepted.end - span.start) span.text),
      length-drop {0} (accepted.end - span.start) span.text,
    );
  }

  -- The constructor call of the merge never raises.
  pub merge_spans-eq : merge_spans accepted span ≡ some (merged accepted span)
  unfolding merge_spans merged
  merge_spans-eq =
      let s : min accepted.start span.start ≡ accepted.start = omega arith in
      let e : max accepted.end span.end ≡ span.end = omega arith in
      rw (le→leb accepted.start span.start st.after, s, e)
        ((post_init_iff (merged accepted span)).0 merged-IsValid)

pub merged-IsSlice :
    (doc : List ℕ) (accepted span : Span)
    → Straddles accepted span
    → IsSlice doc accepted
    → IsSlice doc span
    → IsSlice doc (merged accepted span)
unfolding merged
merged-IsSlice doc accepted span st a s = record {
  inside = s.inside;
  matches = rw (a.matches, s.matches) (slice-append-drop doc st.after (omega arith) (omega arith));
}

-- The one span that is left of two overlapping ones, the accepted one first.
unfoldable pub combine : OverlapStrategy → Span → Span → Span
combine strategy accepted span =
    if same_position span accepted
    then (if outranks span accepted then span else accepted)
    else if contains accepted span
    then accepted
    else if contains span accepted
    then span
    else if same_type accepted span
    then merged accepted span
    else if compare_by_strategy span accepted strategy
    then span
    else accepted
