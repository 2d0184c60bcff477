-- ===== src/Pipeline/Resolver/Result.antt =====
-- The list that `resolve_spans` returns, written without the loop.
use openlabels.Prelude.{
  ℕ, ◌≤◌, ◌≡◌, ap, true, false, some, List, [], ◌∷◌, leb, arith, inl, inr, ◌⊎◌, All, Any, keep,
  keep-All, keep-Any, reverse_aux-All, reverse_aux-Any,
}
use mathlib.Core.List.{reverse, reverse_aux}
use openlabels.Prelude.Sort.{sort, sort-All, sort-Any, sort-IsInOrder, sort_of_IsInOrder, IsInOrder}
use openlabels.Types.Spans.{Span, IsValid}
use openlabels.Pipeline.Resolver.{
  scan_all, OverlapStrategy, before_in_scan, before_in_text, deduplicate, resolve_spans,
}
use openlabels.Pipeline.Resolver.Merge.{Straddles, merged}
use openlabels.Pipeline.Resolver.Single.{IsApart}
use openlabels.Pipeline.Resolver.Disjoint.{
  settle_all, scan_all-settle_all, settle_all-All, settle_all-Any, Ascends-of_IsInOrder, Ascends,
}

-- Spans in document order: valid, and each ends before the next one starts.
abbrev pub StartsAfter : List Span → ℕ → Type 0
StartsAfter [] p = Unit
StartsAfter (a ∷ l) p = p ≤ a.start

abbrev pub IsOrdered : List Span → Type 0
IsOrdered [] = Unit
IsOrdered (a ∷ l) = IsValid a × StartsAfter l a.end × IsOrdered l

abbrev Meets : List Span → List Span → Type 0
Meets [] acc = Unit
Meets (a ∷ l) acc = StartsAfter acc a.end

reverse_aux-IsOrdered :
    (l acc : List Span) → IsApart l → IsOrdered acc → Meets l acc → IsOrdered (reverse_aux l acc)
reverse_aux-IsOrdered [] acc h k m = k
reverse_aux-IsOrdered (a ∷ []) acc h k m = (h.0, m, k)
reverse_aux-IsOrdered (a ∷ b ∷ l) acc h k m =
    reverse_aux-IsOrdered (b ∷ l) (a ∷ acc) h.2 (h.0, m, k) h.1

-- Spans in document order are in the order of the final sort.
pub IsInOrder-of_IsOrdered : (l : List Span) → IsOrdered l → IsInOrder before_in_text l
IsInOrder-of_IsOrdered [] h = tt
IsInOrder-of_IsOrdered (a ∷ []) h = tt
IsInOrder-of_IsOrdered (a ∷ b ∷ l) h =
    (ground (arith, h.0.nonempty), IsInOrder-of_IsOrdered (b ∷ l) h.2)

pub IsInScan_of_IsOrdered : (l : List Span) → IsOrdered l → IsInOrder before_in_scan l
IsInScan_of_IsOrdered [] h = tt
IsInScan_of_IsOrdered (a ∷ []) h = tt
IsInScan_of_IsOrdered (a ∷ b ∷ l) h =
    (ground (arith, h.0.nonempty), IsInScan_of_IsOrdered (b ∷ l) h.2)

before_in_scan_asym : (a b : Span) → before_in_scan a b ≡ true → before_in_scan b a ≡ false
before_in_scan_asym a b h = ground arith

-- The spans in the order in which the loop meets them.
abbrev pub scanned : ℕ → List Span → List Span
scanned threshold spans = sort before_in_scan (keep (λ s. leb threshold s.confidence) spans)

-- What the function returns.
abbrev pub settled : ℕ → OverlapStrategy → List Span → List Span
settled threshold strategy spans = reverse (settle_all strategy (scanned threshold spans) [])

module _ (spans : List Span) (threshold : ℕ) (strategy : OverlapStrategy)
    (valid : All IsValid spans) where
  pub scanned-IsValid : All IsValid (scanned threshold spans)
  scanned-IsValid = sort-All before_in_scan IsValid _ (keep-All _ IsValid spans valid)

  pub scanned-Ascends : Ascends 0 (scanned threshold spans)
  scanned-Ascends = Ascends-of_IsInOrder _ (sort-IsInOrder before_in_scan before_in_scan_asym _)

  loop :
      (scan_all strategy (scanned threshold spans) []
        ≡ some (settle_all strategy (scanned threshold spans) []))
      × IsApart (settle_all strategy (scanned threshold spans) [])
  loop =
      scan_all-settle_all strategy (scanned threshold spans) [] 0 scanned-IsValid scanned-Ascends tt
        tt

  pub settled-IsOrdered : IsOrdered (settled threshold strategy spans)
  settled-IsOrdered = reverse_aux-IsOrdered _ [] loop.1 tt (meets _)
    where
      meets : (l : List Span) → Meets l []
      meets [] = tt
      meets (a ∷ l) = tt

  pub resolve_spans-eq :
      resolve_spans spans threshold strategy ≡ some (settled threshold strategy spans)
  unfolding resolve_spans deduplicate
  resolve_spans-eq =
      rw (loop.0, resolve_spans, deduplicate)
        (ap some (sort_of_IsInOrder before_in_text _ (IsInOrder-of_IsOrdered _ settled-IsOrdered)))

  pub settled-All :
      (P : Span → Type 0)
      → ((a b : Span) → P a → P b → Straddles a b → P (merged a b))
      → All P (keep (λ s. leb threshold s.confidence) spans)
      → All P (settled threshold strategy spans)
  settled-All P m h =
      reverse_aux-All P _ []
        (settle_all-All strategy P m (scanned threshold spans) [] 0 scanned-IsValid scanned-Ascends
          tt tt (sort-All before_in_scan P _ h) tt)
        tt

  pub settled-Any :
      (P : Span → Type 0)
      → ((a b : Span) → Straddles a b → P (merged a b) → P a ⊎ P b)
      → Any P (settled threshold strategy spans)
      → Any P spans
  settled-Any P m h =
      elim (settle_all-Any strategy P m (scanned threshold spans) [] 0 scanned-IsValid
        scanned-Ascends tt tt (nowhere _ (reverse_aux-Any P _ [] h))) [
          | inl q ↦ keep-Any _ P spans (sort-Any before_in_scan P _ q)
          | inr q ↦ absurd q
        ]
    where
      nowhere : (l : List Span) → Any P l ⊎ ⊥ → Any P l
      nowhere l (inl q) = q
      nowhere l (inr q) = absurd q
