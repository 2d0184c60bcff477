-- ===== src/Pipeline/Validation/Positions.antt =====
-- Which spans the validation keeps, and where it raises.
use openlabels.Prelude.{
  ℕ, ◌-◌, ◌≤◌, ◌≡◌, refl, ap, ◌⊎◌, inl, inr, Bool, true, false, ◌&&◌, ◌||◌, none, some, List, [],
  ◌∷◌, ◌++◌, arith, ltb, leb, ◌==◌, Bool-cases, length, drop, slice, keep, All, length-take,
  length-drop,
}
use openlabels.Prelude.Text.{Str, str_eq}
use openlabels.Types.Spans.{Span}
use openlabels.Pipeline.Validation.{
  SpanError, validate_single_span, Validated, valid, raised, also, validate_span_positions,
}

length-slice : (text : Str) (i j : ℕ) → j ≤ length text → length (slice text i j) ≡ j - i
length-slice text i j h = omega (arith, length-take (j - i) (drop i text), length-drop i text)

module _ (lower : Str → Str) where
  -- The span lies in the text and is not empty, and its own text is as long as it is or has the same letters but for case.
  abbrev pub fits : Str → Span → Bool
  fits text s =
      ltb s.start s.end
      && (leb s.end (length text)
          && (length s.text == s.end - s.start
              || str_eq (lower (slice text s.start s.end)) (lower s.text)))

  -- A span passes exactly if it fits.
  single_lem :
      (s : Span) (text : Str)
      → ((validate_single_span lower s text (length text) ≡ none) × (fits text s ≡ true))
        ⊎ ((e : SpanError) × (validate_single_span lower s text (length text) ≡ some e)
            × (fits text s ≡ false))
  unfolding validate_single_span
  single_lem s text = elim (Bool-cases (ltb (length text) s.start)) [
    | inl a ↦ inr (SpanError.start_exceeds, rw (validate_single_span, a), ground arith)
    | inr a ↦ elim (Bool-cases (ltb (length text) s.end)) [
      | inl b ↦ inr (SpanError.end_exceeds, rw (validate_single_span, a, b), ground arith)
      | inr b ↦ elim (Bool-cases (leb s.end s.start)) [
        | inl c ↦
            inr (SpanError.start_not_before_end, rw (validate_single_span, a, b, c), ground arith)
        | inr c ↦
            let measured : length (slice text s.start s.end) ≡ s.end - s.start =
              length-slice text s.start s.end (ground arith) in
            elim (Bool-cases (str_eq (lower (slice text s.start s.end)) (lower s.text))) [
              | inl d ↦ inl (rw (validate_single_span, a, b, c, d), ground arith)
              | inr d ↦ elim (Bool-cases (length (slice text s.start s.end) == length s.text)) [
                | inl e ↦ inl (rw (validate_single_span, a, b, c, d, e), ground arith)
                | inr e ↦ inr (
                  SpanError.length_mismatch,
                  rw (validate_single_span, a, b, c, d, e),
                  ground arith,
                )
              ]
            ]
      ]
    ]
  ]

  -- In lenient mode the validation keeps, in their order, exactly the spans that fit.
  validate_span_positions_lenient :
      (text : Str) (spans : List Span)
      → validate_span_positions lower text spans false ≡ valid (keep (fits text) spans)
  unfolding validate_span_positions
  validate_span_positions_lenient text [] = refl
  validate_span_positions_lenient text (s ∷ spans) = elim (single_lem s text) [
    | inl (e, f) ↦ rw (validate_span_positions, e, f, validate_span_positions_lenient text spans)
    | inr (error, e, f) ↦
        rw (validate_span_positions, e, f) (validate_span_positions_lenient text spans)
  ]

  -- What strict mode answers: all spans, which fit, or the first that does not.
  abbrev pub IsFirstError : Str → List Span → Validated → Type 0
  IsFirstError text spans (valid kept) = (kept ≡ spans) × All (λ s. fits text s ≡ true) spans
  IsFirstError text spans (raised error s) =
      (before : List Span) × (after : List Span) × (spans ≡ before ++ s ∷ after)
      × All (λ k. fits text k ≡ true) before
      × (fits text s ≡ false)

  also-IsFirstError :
      (text : Str) (s : Span) (spans : List Span) (r : Validated)
      → fits text s ≡ true
      → IsFirstError text spans r
      → IsFirstError text (s ∷ spans) (also s r)
  also-IsFirstError text s spans (valid kept) e (same, all_fit) = (ap (◌∷◌ s) same, (e, all_fit))
  also-IsFirstError text s spans (raised error k) e (before, after, split, fit, bad) =
      (s ∷ before, after, ap (◌∷◌ s) split, (e, fit), bad)

  strict_lem :
      (text : Str) (spans : List Span)
      → IsFirstError text spans (validate_span_positions lower text spans true)
  unfolding validate_span_positions
  strict_lem text [] = (refl, tt)
  strict_lem text (s ∷ spans) = elim (single_lem s text) [
    | inl (e, f) ↦
        rw (validate_span_positions, e)
          (also-IsFirstError text s spans (validate_span_positions lower text spans true) f
            (strict_lem text spans))
    | inr (error, e, f) ↦ rw (validate_span_positions, e) ([], spans, refl, tt, f)
  ]

  -- The validation keeps, in their order, exactly the spans that lie in the text, are not empty and have a text that is as
  -- long as they are or equals the text at their place but for case. In strict mode it answers all spans where all are such,
  -- and raises at the first that is not. This holds whatever `lower` makes of a text.
  pub validate_span_positions_lem :
      (text : Str) (spans : List Span)
      → (validate_span_positions lower text spans false ≡ valid (keep (fits text) spans))
        × IsFirstError text spans (validate_span_positions lower text spans true)
  validate_span_positions_lem text spans =
      (validate_span_positions_lenient text spans, strict_lem text spans)
