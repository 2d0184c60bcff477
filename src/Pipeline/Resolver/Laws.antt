-- ===== src/Pipeline/Resolver/Laws.antt =====
-- What `resolve_spans` promises.
use openlabels.Prelude.{
  ℕ, ◌≤◌, ◌<◌, ◌≡◌, refl, ◌∙◌, sym, subst, some, List, [], ◌∷◌, ltb, leb, arith, Bool-cases, inl,
  inr, ◌⊎◌, All, Any, keep-All, keep-true, keep_of_All, All-map, leb→le, le→leb, some_inj,
}
use mathlib.Core.List.{reverse_aux, reverse-reverse}
use openlabels.Prelude.Sort.{sort_of_IsInOrder}
use openlabels.Prelude.Text.{Str}
use openlabels.Types.Spans.{Span, IsValid, IsSlice}
use openlabels.Pipeline.Resolver.{
  scan_all, OverlapStrategy, before_in_scan, before_in_text, deduplicate, resolve_spans,
}
use openlabels.Pipeline.Resolver.Merge.{Straddles, merged, merged-IsSlice}
use openlabels.Pipeline.Resolver.Single.{EndsBy, scan_behind}
use openlabels.Pipeline.Resolver.Result.{
  IsOrdered, settled, resolve_spans-eq, settled-IsOrdered, settled-All, settled-Any,
  IsInOrder-of_IsOrdered, IsInScan_of_IsOrdered,
}

-- The span is there at position `p`.
abbrev pub Covers : ℕ → Span → Type 0
Covers p s = (s.start ≤ p) × (p < s.end)

merged-above :
    (t : ℕ) (a b : Span)
    → t ≤ a.confidence
    → t ≤ b.confidence
    → Straddles a b
    → t ≤ (merged a b).confidence
unfolding merged
merged-above t a b p q st = omega arith

merged-Covers :
    (p : ℕ) (a b : Span) → Straddles a b → Covers p (merged a b) → Covers p a ⊎ Covers p b
unfolding merged
merged-Covers p a b st h = elim (Bool-cases (ltb p a.end)) [
  | inl e ↦ inl (h.0, ground arith)
  | inr e ↦ inr (ground (arith, st.within), h.1)
]

-- On valid spans `resolve_spans` returns a list, whatever the threshold and the strategy: no merge
-- raises. Its spans are valid and in document order, each ends before the next one starts, and none
-- is below the threshold.
pub resolve_spans_total :
    (spans : List Span) (threshold : ℕ) (strategy : OverlapStrategy)
    → All IsValid spans
    → (out : List Span) × (resolve_spans spans threshold strategy ≡ some out)
      × IsOrdered out
      × All (λ s. threshold ≤ s.confidence) out
resolve_spans_total spans threshold strategy valid = (
  settled threshold strategy spans,
  resolve_spans-eq spans threshold strategy valid,
  settled-IsOrdered spans threshold strategy valid,
  settled-All spans threshold strategy valid (λ s. threshold ≤ s.confidence)
      (merged-above threshold)
      (All-map _ _ _ (λ s. leb→le threshold s.confidence) (keep-true _ spans)),
)

-- If every span given holds the document's text at its positions, then so does every span returned,
-- the merged ones included.
pub resolve_spans-IsSlice :
    (doc : Str) (spans : List Span) (threshold : ℕ) (strategy : OverlapStrategy) (out : List Span)
    → All IsValid spans
    → All (IsSlice doc) spans
    → resolve_spans spans threshold strategy ≡ some out
    → All (IsSlice doc) out
resolve_spans-IsSlice doc spans threshold strategy out valid texts e =
    subst (All (IsSlice doc)) (some_inj (sym (resolve_spans-eq spans threshold strategy valid) ∙ e))
      (settled-All spans threshold strategy valid (IsSlice doc)
        (λ a b p q st. merged-IsSlice doc a b st p q) (keep-All _ (IsSlice doc) spans texts))

-- Every position that a returned span covers is covered by one of the spans given.
pub resolve_spans-Covers :
    (p : ℕ) (spans : List Span) (threshold : ℕ) (strategy : OverlapStrategy) (out : List Span)
    → All IsValid spans
    → resolve_spans spans threshold strategy ≡ some out
    → Any (Covers p) out
    → Any (Covers p) spans
resolve_spans-Covers p spans threshold strategy out valid e h =
    settled-Any spans threshold strategy valid (Covers p) (merged-Covers p) (
      subst (Any (Covers p)) (some_inj (sym e ∙ resolve_spans-eq spans threshold strategy valid)) h)

ordered-IsValid : (l : List Span) → IsOrdered l → All IsValid l
ordered-IsValid [] h = tt
ordered-IsValid (a ∷ l) h = (h.0, ordered-IsValid l h.2)

abbrev IsBehind : List Span → List Span → Type 0
IsBehind [] result = Unit
IsBehind (a ∷ l) result = EndsBy result a.start

-- On spans in document order the loop only appends.
scan_all_ordered :
    (strategy : OverlapStrategy) (l result : List Span)
    → IsOrdered l
    → IsBehind l result
    → scan_all strategy l result ≡ some (reverse_aux l result)
unfolding scan_all
scan_all_ordered strategy [] result h b = refl
scan_all_ordered strategy (a ∷ []) result h b = rw (scan_behind strategy a result b, scan_all)
scan_all_ordered strategy (a ∷ c ∷ l) result h b =
    rw (scan_behind strategy a result b, scan_all)
      (scan_all_ordered strategy (c ∷ l) (a ∷ result) h.2 h.1)

-- Spans in document order that reach the threshold are returned as they are.
pub resolve_spans_ordered :
    (spans : List Span) (threshold : ℕ) (strategy : OverlapStrategy)
    → IsOrdered spans
    → All (λ s. threshold ≤ s.confidence) spans
    → resolve_spans spans threshold strategy ≡ some spans
unfolding resolve_spans deduplicate
resolve_spans_ordered spans threshold strategy h t =
    rw
      (
        keep_of_All (λ s. leb threshold s.confidence) spans
            (All-map _ _ spans (λ s. le→leb threshold s.confidence) t),
        resolve_spans,
        deduplicate,
        sort_of_IsInOrder before_in_scan spans (IsInScan_of_IsOrdered spans h),
        scan_all_ordered strategy spans [] h (behind spans),
      )
      (rw (
        reverse-reverse spans,
        sort_of_IsInOrder before_in_text spans (IsInOrder-of_IsOrdered spans h),
      ))
  where
    behind : (l : List Span) → IsBehind l []
    behind [] = tt
    behind (a ∷ l) = tt

-- Resolving a resolved list again, with the same threshold and any strategy, changes nothing.
pub resolve_spans_idem :
    (spans : List Span) (threshold : ℕ) (strategy strategy' : OverlapStrategy) (out : List Span)
    → All IsValid spans
    → resolve_spans spans threshold strategy ≡ some out
    → resolve_spans out threshold strategy' ≡ some out
resolve_spans_idem spans threshold strategy strategy' out valid e =
    let (out', e', ordered, above) = resolve_spans_total spans threshold strategy valid in
    let same : out' ≡ out = some_inj (sym e' ∙ e) in
    rw (← same) (resolve_spans_ordered out' threshold strategy' ordered above)
