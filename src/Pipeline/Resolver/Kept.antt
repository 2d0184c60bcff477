-- ===== src/Pipeline/Resolver/Kept.antt =====
-- A span with no rival is never lost.
use openlabels.Prelude.{
  ℕ, ◌≤◌, ◌<◌, ◌≡◌, ◌∙◌, sym, subst, true, some, List, [], ◌∷◌, leb, arith, Bool-cases, inl, inr,
  ◌⊎◌, All, Any, keep-All, some_inj, ap, le→leb, Any-reverse_aux, Any-keep,
}
use openlabels.Prelude.Sort.{sort-All, Any-sort}
use openlabels.Types.Spans.{Span, IsValid}
use openlabels.Pipeline.Resolver.{OverlapStrategy, before_in_scan, resolve_spans}
use openlabels.Pipeline.Resolver.Merge.{Straddles, merged, combine}
use openlabels.Pipeline.Resolver.Single.{IsApart, StartsBy, settle}
use openlabels.Pipeline.Resolver.Disjoint.{
  settle_all, Ascends, settle-All, settle-IsApart, StartsBy-mono,
}
use openlabels.Pipeline.Resolver.Result.{
  scanned, resolve_spans-eq, scanned-IsValid, scanned-Ascends,
}

-- `s` is `x` itself or does not overlap it.
abbrev pub IsNoRival : Span → Span → Type 0
IsNoRival x s = (s ≡ x) ⊎ (s.end ≤ x.start) ⊎ (x.end ≤ s.start)

abbrev Has : Span → List Span → Type 0
Has x = Any (λ s. s ≡ x)

combine_self : (strategy : OverlapStrategy) (x : Span) → combine strategy x x ≡ x
unfolding combine
combine_self strategy x = ground arith

same_ends : {s x : Span} → s ≡ x → (s.start ≡ x.start) × (s.end ≡ x.end)
same_ends e = (ap (λ (s : Span). s.start) e, ap (λ (s : Span). s.end) e)

module _ (x : Span) (v : IsValid x) where
  -- A merge of two spans that are no rivals of `x` is no rival of it.
  merged-IsNoRival :
      (a b : Span) → IsNoRival x a → IsNoRival x b → Straddles a b → IsNoRival x (merged a b)
  unfolding merged
  merged-IsNoRival a b (inl p) (inl q) st = absurd (omega (arith, same_ends p, same_ends q))
  merged-IsNoRival a b (inl p) (inr (inl q)) st = absurd (omega (arith, same_ends p))
  merged-IsNoRival a b (inl p) (inr (inr q)) st = absurd (omega (arith, same_ends p))
  merged-IsNoRival a b (inr (inl p)) (inl q) st = absurd (omega (arith, same_ends q))
  merged-IsNoRival a b (inr (inl p)) (inr (inl q)) st = inr (inl q)
  merged-IsNoRival a b (inr (inl p)) (inr (inr q)) st = absurd (omega arith)
  merged-IsNoRival a b (inr (inr p)) _ st = inr (inr p)

  -- A span that overlaps `x` and is no rival of it is `x`.
  overlapping_is_x : (s : Span) → IsNoRival x s → s.start < x.end → x.start < s.end → s ≡ x
  overlapping_is_x s (inl e) p q = e
  overlapping_is_x s (inr (inl h)) p q = absurd (omega arith)
  overlapping_is_x s (inr (inr h)) p q = absurd (omega arith)

  -- If one of two overlapping spans is `x`, the other is too.
  both_x :
      (a b : Span)
      → IsNoRival x a
      → IsNoRival x b
      → a.start ≤ b.start
      → b.start < a.end
      → IsValid b
      → (a ≡ x) ⊎ (b ≡ x)
      → (a ≡ x) × (b ≡ x)
  both_x a b p q s o w (inl e) =
      (e, overlapping_is_x b q (omega (arith, same_ends e)) (omega (arith, same_ends e)))
  both_x a b p q s o w (inr e) =
      (overlapping_is_x a p (omega (arith, same_ends e)) (omega (arith, same_ends e)), e)

  module _ (strategy : OverlapStrategy) where
    combine-is_x : (a b : Span) → a ≡ x → b ≡ x → combine strategy a b ≡ x
    combine-is_x a b p q = rw (p, q) (combine_self strategy x)

    settle-Has :
        (span : Span) (l : List Span)
        → StartsBy l span.start
        → IsValid span
        → IsNoRival x span
        → All (IsNoRival x) l
        → Has x (span ∷ l)
        → Has x (settle strategy l span)
    unfolding settle
    settle-Has span [] s w p ps h = h
    settle-Has span (a ∷ l) s w p ps h = elim (Bool-cases (leb a.end span.start)) [
      | inl far ↦ rw far h
      | inr near ↦ rw near (near_case (ground arith) h)
    ]
      where
        win : span.start < a.end → (a ≡ x) ⊎ (span ≡ x) → combine strategy a span ≡ x
        win o e = let (e₁, e₂) = both_x a span ps.0 p s o w e in combine-is_x a span e₁ e₂

        near_case : span.start < a.end → Has x (span ∷ a ∷ l) → Has x (combine strategy a span ∷ l)
        near_case o (inl e) = inl (win o (inr e))
        near_case o (inr (inl e)) = inl (win o (inl e))
        near_case o (inr (inr r)) = inr r

    settle_all-Has :
        (spans result : List Span) (p : ℕ)
        → All IsValid spans
        → Ascends p spans
        → IsApart result
        → StartsBy result p
        → All (IsNoRival x) spans
        → All (IsNoRival x) result
        → Has x spans ⊎ Has x result
        → Has x (settle_all strategy spans result)
    unfolding settle_all
    settle_all-Has [] result p vs up h s ps qs (inl m) = absurd m
    settle_all-Has [] result p vs up h s ps qs (inr m) = m
    settle_all-Has (span ∷ rest) result p (w, vs) (le, up) h s (q, ps) qs m =
        let s' = StartsBy-mono result le s in
        let (h'', s'') = settle-IsApart strategy span w result h s' in
        let next = settle-Has span result s' w q qs in
        settle_all-Has rest (settle strategy result span) span.start vs up h'' s'' ps
          (settle-All strategy (IsNoRival x) merged-IsNoRival span result s' q qs)
          (elim m [
            | inl (inl e) ↦ inr (next (inl e))
            | inl (inr r) ↦ inl r
            | inr r ↦ inr (next (inr r))
          ])

    -- A span that reaches the threshold and overlaps none of the others is returned as it is.
    pub resolve_spans_keeps :
        (spans : List Span) (threshold : ℕ) (out : List Span)
        → All IsValid spans
        → All (IsNoRival x) spans
        → Any (λ s. s ≡ x) spans
        → threshold ≤ x.confidence
        → resolve_spans spans threshold strategy ≡ some out
        → Any (λ s. s ≡ x) out
    resolve_spans_keeps spans threshold out valid rivals there above e =
        subst (Has x) (some_inj (sym (resolve_spans-eq spans threshold strategy valid) ∙ e)) (
          Any-reverse_aux _ (settle_all strategy (scanned threshold spans) []) [] (
            inl (
              settle_all-Has (scanned threshold spans) [] 0
                (scanned-IsValid spans threshold strategy valid)
                (scanned-Ascends spans threshold strategy valid) tt tt
                (sort-All before_in_scan (IsNoRival x) _ (keep-All _ (IsNoRival x) spans rivals)) tt
                (inl (Any-sort before_in_scan _ _ (Any-keep _ _ spans passes there))))))
      where
        passes : (s : Span) → s ≡ x → leb threshold s.confidence ≡ true
        passes s e = rw e (le→leb threshold x.confidence above)
