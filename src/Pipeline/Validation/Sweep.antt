-- ===== src/Pipeline/Validation/Sweep.antt =====
-- The search for overlapping spans against all pairs.
use openlabels.Prelude.{
  ℕ, ◌≤◌, ◌<◌, ◌≡◌, refl, sym, ap, inl, inr, Bool, true, false, not, ◌&&◌, List, [], ◌∷◌, ◌++◌, map,
  arith, ltb, leb, Bool-cases, length, keep, All, keep-append, All-map,
}
use openlabels.Prelude.Sort.{sort, sort-IsInOrder, IsInOrder, sort-All}
use openlabels.Types.Spans.{Span, overlaps}
use openlabels.Pipeline.Resolver.{same_position}
use openlabels.Pipeline.Validation.{by_position, overlaps_of, overlapping, check_for_overlaps}

-- All pairs of a list, the earlier of the two first.
unfoldable pub pairs : List Span → List (Span × Span)
pairs [] = []
pairs (s ∷ spans) = map (λ t. (s, t)) spans ++ pairs spans

-- Two spans overlap, and do not stand at one position where that is allowed.
abbrev pub clash : Bool → Span × Span → Bool
clash allow_identical (s, t) = overlaps s t && not (allow_identical && same_position s t)

-- No span begins before `n`.
abbrev FromOn : ℕ → List Span → Type 0
FromOn n spans = All (λ t. n ≤ t.start) spans

abbrev pub Nonempty : List Span → Type 0
Nonempty spans = All (λ t. t.start < t.end) spans

FromOn-tail :
    (s : Span) (spans : List Span) → IsInOrder by_position (s ∷ spans) → FromOn s.start spans
FromOn-tail s [] h = tt
FromOn-tail s (t ∷ spans) h =
    let step : s.start ≤ t.start = ground arith in
    (
      step,
      All-map (λ k. t.start ≤ k.start) (λ k. s.start ≤ k.start) spans (λ k l. omega arith)
          (FromOn-tail t spans h.1),
    )

none_overlap :
    (allow : Bool) (s : Span) (spans : List Span)
    → FromOn s.end spans
    → keep (clash allow) (map (λ t. (s, t)) spans) ≡ []
unfolding overlaps
none_overlap allow s [] h = refl
none_overlap allow s (t ∷ spans) h =
    let miss : clash allow (s, t) ≡ false = ground arith in rw miss (none_overlap allow s spans h.1)

tail-IsInOrder :
    (s : Span) (spans : List Span) → IsInOrder by_position (s ∷ spans) → IsInOrder by_position spans
tail-IsInOrder s [] h = tt
tail-IsInOrder s (t ∷ spans) h = h.1

by_position_asym : (a b : Span) → by_position a b ≡ true → by_position b a ≡ false
by_position_asym a b h = ground arith

clash_hit :
    (allow : Bool) (s t : Span)
    → s.start ≤ t.start
    → t.start < t.end
    → leb s.end t.start ≡ false
    → (allow && same_position s t) ≡ false
    → clash allow (s, t) ≡ true
unfolding overlaps
clash_hit allow s t h n e f = rw f (ground arith)

overlaps_of-pairs :
    (allow : Bool) (s : Span) (spans : List Span)
    → FromOn s.start spans
    → Nonempty (s ∷ spans)
    → IsInOrder by_position spans
    → overlaps_of allow s spans ≡ keep (clash allow) (map (λ t. (s, t)) spans)
unfolding overlaps_of overlaps
overlaps_of-pairs allow s [] h n o = refl
overlaps_of-pairs allow s (t ∷ spans) h n o = elim (Bool-cases (leb s.end t.start)) [
  | inl e ↦
      let first : s.end ≤ t.start = ground arith in
      rw (overlaps_of, e)
        (sym (
          none_overlap allow s spans (
            All-map (λ k. t.start ≤ k.start) (λ k. s.end ≤ k.start) spans (λ k l. omega arith)
              (FromOn-tail t spans o))))
  | inr e ↦
      let rest : overlaps_of allow s spans ≡ keep (clash allow) (map (λ k. (s, k)) spans) =
        overlaps_of-pairs allow s spans h.1 (n.0, n.1.1) (tail-IsInOrder t spans o) in
      elim (Bool-cases (allow && same_position s t)) [
        | inl f ↦
            let skip : clash allow (s, t) ≡ false = ground arith in
            rw (skip, overlaps_of, e, f) rest
        | inr f ↦
            let hit : clash allow (s, t) ≡ true = clash_hit allow s t h.0 n.1.0 e f in
            rw (hit, overlaps_of, e, f) (ap (◌∷◌ (s, t)) rest)
      ]
]

overlapping-pairs :
    (allow : Bool) (spans : List Span)
    → Nonempty spans
    → IsInOrder by_position spans
    → overlapping allow spans ≡ keep (clash allow) (pairs spans)
unfolding overlapping pairs
overlapping-pairs allow [] n o = refl
overlapping-pairs allow (s ∷ spans) n o =
    rw
      (
        keep-append (clash allow) (map (λ t. (s, t)) spans) (pairs spans),
        overlaps_of-pairs allow s spans (FromOn-tail s spans o) n (tail-IsInOrder s spans o),
        overlapping-pairs allow spans n.1 (tail-IsInOrder s spans o),
      )
      refl

-- On spans that are not empty, the search, which leaves its inner loop at the first span that begins after the end of the
-- outer one, finds of all pairs of the spans in text order exactly those that overlap, but for spans at one position where
-- these are allowed.
pub check_for_overlaps_lem :
    (spans : List Span) (allow_identical : Bool)
    → Nonempty spans
    → check_for_overlaps spans allow_identical
      ≡ keep (clash allow_identical) (pairs (sort by_position spans))
unfolding check_for_overlaps pairs
check_for_overlaps_lem [] allow n = refl
check_for_overlaps_lem (s ∷ []) allow n = refl
check_for_overlaps_lem (s ∷ t ∷ spans) allow n =
    let many : ltb (length (s ∷ t ∷ spans)) 2 ≡ false = ground arith in
    rw (check_for_overlaps, many)
      (overlapping-pairs allow (sort by_position (s ∷ t ∷ spans))
        (sort-All by_position (λ t. t.start < t.end) (s ∷ t ∷ spans) n)
        (sort-IsInOrder by_position by_position_asym (s ∷ t ∷ spans)))
