-- ===== src/Pipeline/Resolver/Single.antt =====
-- The inner `while` of the resolver makes one decision: on accepted spans that lie apart, the loop is
-- a step on the last accepted span alone.
use openlabels.Prelude.{
  ℕ, ◌≤◌, ◌<◌, ◌≡◌, refl, true, false, none, some, List, [], ◌∷◌, leb, if◌then◌else◌, le→leb, arith,
  Bool-cases, inl, inr,
}
use openlabels.Types.Spans.{Span, IsValid, overlaps, contains}
use openlabels.Pipeline.Resolver.{
  merge_spans, scan, compare_by_strategy, OverlapStrategy, same_position, same_type,
}
use openlabels.Pipeline.Resolver.Merge.{Straddles, merged, merge_spans-eq, combine}

-- The last accepted span ends at `p` or before.
abbrev pub EndsBy : List Span → ℕ → Type 0
EndsBy [] p = Unit
EndsBy (a ∷ before) p = a.end ≤ p

-- Valid spans, the last one first, each of which ends before the next one starts.
abbrev pub IsApart : List Span → Type 0
IsApart [] = Unit
IsApart (a ∷ before) = IsValid a × EndsBy before a.start × IsApart before

-- The new span starts no earlier than the last accepted one.
abbrev pub StartsBy : List Span → ℕ → Type 0
StartsBy [] p = Unit
StartsBy (a ∷ before) p = a.start ≤ p

unfoldable pub settle : OverlapStrategy → List Span → Span → List Span
settle strategy [] span = span ∷ []
settle strategy (a ∷ before) span =
    if leb a.end span.start then span ∷ a ∷ before else combine strategy a span ∷ before

-- A span behind all accepted ones is appended.
pub scan_behind :
    (strategy : OverlapStrategy) (span : Span) (before : List Span)
    → EndsBy before span.start
    → scan strategy span before [] ≡ some (span ∷ before)
unfolding scan
scan_behind strategy span [] h = refl
scan_behind strategy span (a ∷ before) h = rw (le→leb a.end span.start h)

EndsBy-le : (l : List Span) {p q : ℕ} → p ≤ q → EndsBy l p → EndsBy l q
EndsBy-le [] h e = tt
EndsBy-le (a ∷ l) h e = omega arith

module _ (strategy : OverlapStrategy) (a span : Span) (before : List Span)
    (apart : IsApart (a ∷ before)) (v : IsValid span) (sorted : a.start ≤ span.start) where
  -- Once the last accepted span is dropped, the next one ends too early to matter.
  scan_replace : scan strategy span before [] ≡ some (span ∷ before)
  scan_replace = scan_behind strategy span before (EndsBy-le before sorted apart.1)

  pub overlapping-Straddles : span.start < a.end → contains a span ≡ false → Straddles a span
  unfolding contains
  overlapping-Straddles o c = record { after = sorted; within = o; past = ground arith }

  scan-merged :
      span.start < a.end
      → contains a span ≡ false
      → elim (merge_spans a span) [ some m ↦ scan strategy m before [] | none ↦ none ]
        ≡ some (merged a span ∷ before)
  unfolding merged
  scan-merged o c =
      rw (merge_spans-eq a span apart.0 v (overlapping-Straddles o c))
        (scan_behind strategy (merged a span) before apart.1)

  scan_overlapping : span.start < a.end → overlaps a span ≡ true
  unfolding overlaps
  scan_overlapping o = ground (arith, v.nonempty)

  -- On spans that lie apart, the loop settles the new span against the last accepted one.
  pub scan-settle-cons :
      scan strategy span (a ∷ before) [] ≡ some (settle strategy (a ∷ before) span)
  unfolding scan settle combine
  scan-settle-cons = elim (Bool-cases (leb a.end span.start)) [
    | inl far ↦ rw far
    | inr near ↦
        let o : span.start < a.end = ground arith in
        elim (Bool-cases (same_position span a)) [
          | inl same ↦ rw (near, scan_overlapping o, same)
          | inr moved ↦ elim (Bool-cases (contains a span)) [
            | inl inner ↦ rw (near, scan_overlapping o, moved, inner)
            | inr c ↦ elim (Bool-cases (contains span a)) [
              | inl outer ↦ rw (near, scan_overlapping o, moved, c, outer, scan_replace)
              | inr d ↦ elim (Bool-cases (same_type a span)) [
                | inl t ↦ rw (near, scan_overlapping o, moved, c, d, t) (scan-merged o c)
                | inr u ↦ elim (Bool-cases (compare_by_strategy span a strategy)) [
                  | inl win ↦ rw (near, scan_overlapping o, moved, c, d, u, win, scan_replace)
                  | inr lose ↦ rw (near, scan_overlapping o, moved, c, d, u, lose)
                ]
              ]
            ]
          ]
        ]
  ]
