-- ===== src/Pipeline/Resolver/Disjoint.antt =====
-- The `for` of the resolver: the accepted spans always lie apart, and no call of the constructor
-- raises.
use openlabels.Prelude.{
  ℕ, ◌≤◌, ◌<◌, ◌≡◌, refl, some, List, [], ◌∷◌, leb, ◌&&◌, arith, Bool-cases, inl, inr, ◌⊎◌, All,
  Any,
}
use openlabels.Prelude.Sort.{IsInOrder}
use openlabels.Types.Spans.{Span, IsValid, contains}
use openlabels.Pipeline.Resolver.{
  scan, scan_all, OverlapStrategy, outranks, compare_by_strategy, same_position, same_type,
  before_in_scan,
}
use openlabels.Pipeline.Resolver.Merge.{Straddles, merged, merged-IsValid, combine}
use openlabels.Pipeline.Resolver.Single.{
  IsApart, EndsBy, StartsBy, settle, scan_behind, scan-settle-cons,
}

-- What holds of both spans, and of their merge if they straddle, holds of the one that is left.
pub combine-elim :
    (P : Span → Type 0) (strategy : OverlapStrategy) (a span : Span)
    → a.start ≤ span.start
    → span.start < a.end
    → P a
    → P span
    → (Straddles a span → P (merged a span))
    → P (combine strategy a span)
unfolding combine contains
combine-elim P strategy a span s o p q m = elim (Bool-cases (same_position span a)) [
  | inl same ↦ elim (Bool-cases (outranks span a)) [
    | inl e ↦ rw (same, e) q
    | inr e ↦ rw (same, e) p
  ]
  | inr moved ↦ elim (Bool-cases (leb a.start span.start && leb span.end a.end)) [
    | inl inner ↦ rw (moved, inner) p
    | inr c ↦ elim (Bool-cases (leb span.start a.start && leb a.end span.end)) [
      | inl outer ↦ rw (moved, c, outer) q
      | inr d ↦ elim (Bool-cases (same_type a span)) [
        | inl t ↦ rw (moved, c, d, t) (m (record { after = s; within = o; past = ground arith }))
        | inr u ↦ elim (Bool-cases (compare_by_strategy span a strategy)) [
          | inl win ↦ rw (moved, c, d, u, win) q
          | inr lose ↦ rw (moved, c, d, u, lose) p
        ]
      ]
    ]
  ]
]

-- The span that is left starts between the two.
abbrev IsBetween : Span → Span → Span → Type 0
IsBetween a span w = (a.start ≤ w.start) × (w.start ≤ span.start) × IsValid w

merged-IsBetween :
    (a span : Span) → IsValid a → IsValid span → Straddles a span → IsBetween a span (merged a span)
unfolding merged
merged-IsBetween a span v w st = (omega arith, omega arith, merged-IsValid a span v w st)

combine-IsBetween :
    (strategy : OverlapStrategy) (a span : Span)
    → a.start ≤ span.start
    → span.start < a.end
    → IsValid a
    → IsValid span
    → IsBetween a span (combine strategy a span)
combine-IsBetween strategy a span s o v w =
    combine-elim (IsBetween a span) strategy a span s o (omega arith, s, v) (s, omega arith, w)
      (merged-IsBetween a span v w)

EndsBy-mono : (l : List Span) {p q : ℕ} → p ≤ q → EndsBy l p → EndsBy l q
EndsBy-mono [] h e = tt
EndsBy-mono (a ∷ l) h e = omega arith

module _ (strategy : OverlapStrategy) (span : Span) (v : IsValid span) where
  pub settle-IsApart :
      (l : List Span)
      → IsApart l
      → StartsBy l span.start
      → IsApart (settle strategy l span) × StartsBy (settle strategy l span) span.start
  unfolding settle
  settle-IsApart [] h s = ((v, tt, tt), omega arith)
  settle-IsApart (a ∷ before) h s = elim (Bool-cases (leb a.end span.start)) [
    | inl far ↦ rw far ((v, ground arith, h), omega arith)
    | inr near ↦
        let b = combine-IsBetween strategy a span s (ground arith) h.0 v in
        rw near ((b.2, EndsBy-mono before b.0 h.1, h.2), b.1)
  ]

  -- One round of the `for` is one settling step.
  pub scan-settle :
      (l : List Span)
      → IsApart l
      → StartsBy l span.start
      → scan strategy span l [] ≡ some (settle strategy l span)
  unfolding settle
  scan-settle [] h s = scan_behind strategy span [] tt
  scan-settle (a ∷ before) h s = scan-settle-cons strategy a span before h v s

-- The whole `for` as one settling step for each span.
unfoldable pub settle_all : OverlapStrategy → List Span → List Span → List Span
settle_all strategy [] result = result
settle_all strategy (span ∷ rest) result = settle_all strategy rest (settle strategy result span)

-- Every span starts at `p` or later, and no earlier than the one before it.
abbrev pub Ascends : ℕ → List Span → Type 0
Ascends p [] = Unit
Ascends p (s ∷ rest) = (p ≤ s.start) × Ascends s.start rest

pub StartsBy-mono : (l : List Span) {p q : ℕ} → p ≤ q → StartsBy l p → StartsBy l q
StartsBy-mono [] h e = tt
StartsBy-mono (a ∷ l) h e = omega arith

module _ (strategy : OverlapStrategy) where
  -- On valid spans sorted by their start the loop returns, and its result lies apart.
  pub scan_all-settle_all :
      (spans result : List Span) (p : ℕ)
      → All IsValid spans
      → Ascends p spans
      → IsApart result
      → StartsBy result p
      → (scan_all strategy spans result ≡ some (settle_all strategy spans result))
        × IsApart (settle_all strategy spans result)
  unfolding scan_all settle_all
  scan_all-settle_all [] result p vs up h s = (refl, h)
  scan_all-settle_all (span ∷ rest) result p (v, vs) (le, up) h s =
      let s' = StartsBy-mono result le s in
      let (h'', s'') = settle-IsApart strategy span v result h s' in
      rw (scan-settle strategy span v result h s', scan_all)
        (scan_all-settle_all rest (settle strategy result span) span.start vs up h'' s'')

module _ (strategy : OverlapStrategy) (P : Span → Type 0)
    (m : (a b : Span) → P a → P b → Straddles a b → P (merged a b)) where
  pub settle-All :
      (span : Span) (l : List Span)
      → StartsBy l span.start
      → P span
      → All P l
      → All P (settle strategy l span)
  unfolding settle
  settle-All span [] s q h = (q, tt)
  settle-All span (a ∷ before) s q h = elim (Bool-cases (leb a.end span.start)) [
    | inl far ↦ rw far (q, h)
    | inr near ↦
        rw near (combine-elim P strategy a span s (ground arith) h.0 q (m a span h.0 q), h.1)
  ]

  -- What holds of all spans, and of merges of such spans, holds of all that are left.
  pub settle_all-All :
      (spans result : List Span) (p : ℕ)
      → All IsValid spans
      → Ascends p spans
      → IsApart result
      → StartsBy result p
      → All P spans
      → All P result
      → All P (settle_all strategy spans result)
  unfolding settle_all
  settle_all-All [] result p vs up h s ps qs = qs
  settle_all-All (span ∷ rest) result p (v, vs) (le, up) h s (q, ps) qs =
      let s' = StartsBy-mono result le s in
      let (h'', s'') = settle-IsApart strategy span v result h s' in
      settle_all-All rest (settle strategy result span) span.start vs up h'' s'' ps
        (settle-All span result s' q qs)

module _ (strategy : OverlapStrategy) (P : Span → Type 0)
    (m : (a b : Span) → Straddles a b → P (merged a b) → P a ⊎ P b) where
  settle-Any :
      (span : Span) (l : List Span)
      → StartsBy l span.start
      → Any P (settle strategy l span)
      → P span ⊎ Any P l
  unfolding settle
  settle-Any span [] s h = h
  settle-Any span (a ∷ before) s h = elim (Bool-cases (leb a.end span.start)) [
    | inl far ↦ rw far at h
    | inr near ↦ elim (rw near at h) [
      | inr r ↦ inr (inr r)
      | inl w ↦
          elim (combine-elim (λ c. P c → P a ⊎ P span) strategy a span s (ground arith) inl inr
            (m a span) w) [ inl q ↦ inr (inl q) | inr q ↦ inl q ]
    ]
  ]

  -- What is left at a place was at that place before.
  pub settle_all-Any :
      (spans result : List Span) (p : ℕ)
      → All IsValid spans
      → Ascends p spans
      → IsApart result
      → StartsBy result p
      → Any P (settle_all strategy spans result)
      → Any P spans ⊎ Any P result
  unfolding settle_all
  settle_all-Any [] result p vs up h s r = inr r
  settle_all-Any (span ∷ rest) result p (v, vs) (le, up) h s r =
      let s' = StartsBy-mono result le s in
      let (h'', s'') = settle-IsApart strategy span v result h s' in
      elim (settle_all-Any rest (settle strategy result span) span.start vs up h'' s'' r) [
        | inl q ↦ inl (inr q)
        | inr q ↦ elim (settle-Any span result s' q) [ inl t ↦ inl (inl t) | inr t ↦ inr t ]
      ]

-- A list in the resolver's scanning order ascends.
Ascends-tail : (x : Span) (xs : List Span) → IsInOrder before_in_scan (x ∷ xs) → Ascends x.start xs
Ascends-tail x [] h = tt
Ascends-tail x (y ∷ ys) h = (ground arith, Ascends-tail y ys h.1)

pub Ascends-of_IsInOrder : (xs : List Span) → IsInOrder before_in_scan xs → Ascends 0 xs
Ascends-of_IsInOrder [] h = tt
Ascends-of_IsInOrder (x ∷ xs) h = (omega arith, Ascends-tail x xs h)
