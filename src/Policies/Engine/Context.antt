-- ===== src/Policies/Engine/Context.antt =====
-- What the evaluation context records, and what a redacted value shows.
use openlabels.Prelude.{
  ℕ, ◌+◌, ◌-◌, ◌<◌, max, ◌≡◌, inl, inr, ◌&&◌, ◌||◌, List, [], ◌∷◌, arith, ltb, leb, if◌then◌else◌,
  Bool-cases, take, length, drop, lt→ltb, ge→ltb,
}
use openlabels.Prelude.Text.{
  Str, lower, str_eq, str_eq→eq, contains, contains-add, get_or, get_or-put,
}
use openlabels.Policies.Schema.{EntityMatch}
use openlabels.Policies.Engine.{
  EvaluationContext, empty_context, add_entity, build_from, build_context, redact,
}

-- How many entities of a type reach the threshold.
abbrev pub tally : ℕ → Str → List EntityMatch → ℕ
tally c t [] = 0
tally c t (e ∷ es) =
    (if leb c e.confidence && str_eq (lower e.entity_type) t then 1 else 0) + tally c t es

-- The highest confidence of an entity of a type that reaches the threshold.
abbrev pub highest : ℕ → Str → List EntityMatch → ℕ
highest c t [] = 0
highest c t (e ∷ es) =
    max (if leb c e.confidence && str_eq (lower e.entity_type) t then e.confidence else 0)
      (highest c t es)

module _ (c : ℕ) (t : Str) where
  add_entity-counts :
      (ctx : EvaluationContext) (e : EntityMatch)
      → get_or (add_entity c ctx e).type_counts t 0
        ≡ get_or ctx.type_counts t 0
          + (if leb c e.confidence && str_eq (lower e.entity_type) t then 1 else 0)
  unfolding add_entity
  add_entity-counts ctx e = ground (
    arith,
    str_eq→eq (lower e.entity_type) t,
    get_or-put (lower e.entity_type) t (get_or ctx.type_counts (lower e.entity_type) 0 + 1) 0
        ctx.type_counts,
  )

  add_entity-max :
      (ctx : EvaluationContext) (e : EntityMatch)
      → get_or (add_entity c ctx e).type_max_confidence t 0
        ≡ max
            (get_or ctx.type_max_confidence t 0)
            (if leb c e.confidence && str_eq (lower e.entity_type) t then e.confidence else 0)
  unfolding add_entity
  add_entity-max ctx e = ground (
    arith,
    str_eq→eq (lower e.entity_type) t,
    get_or-put (lower e.entity_type) t
        (max (get_or ctx.type_max_confidence (lower e.entity_type) 0) e.confidence) 0
        ctx.type_max_confidence,
  )

  add_entity-types :
      (ctx : EvaluationContext) (e : EntityMatch)
      → contains (add_entity c ctx e).entity_types t
        ≡ (contains ctx.entity_types t || (leb c e.confidence && str_eq (lower e.entity_type) t))
  unfolding add_entity
  add_entity-types ctx e = ground (arith, contains-add ctx.entity_types (lower e.entity_type) t)

  build_from-counts :
      (es : List EntityMatch) (ctx : EvaluationContext)
      → get_or (build_from c ctx es).type_counts t 0 ≡ get_or ctx.type_counts t 0 + tally c t es
  unfolding build_from
  build_from-counts [] ctx = omega arith
  build_from-counts (e ∷ es) ctx =
      omega (arith, build_from-counts es (add_entity c ctx e), add_entity-counts ctx e)

  build_from-max :
      (es : List EntityMatch) (ctx : EvaluationContext)
      → get_or (build_from c ctx es).type_max_confidence t 0
        ≡ max (get_or ctx.type_max_confidence t 0) (highest c t es)
  unfolding build_from
  build_from-max [] ctx = omega arith
  build_from-max (e ∷ es) ctx =
      omega (arith, build_from-max es (add_entity c ctx e), add_entity-max ctx e)

  build_from-types :
      (es : List EntityMatch) (ctx : EvaluationContext)
      → contains (build_from c ctx es).entity_types t
        ≡ (contains ctx.entity_types t || ltb 0 (tally c t es))
  unfolding build_from
  build_from-types [] ctx = ground arith
  build_from-types (e ∷ es) ctx =
      ground (arith, build_from-types es (add_entity c ctx e), add_entity-types ctx e)

  -- For every entity type, the context counts the entities of the type, compared in lower case, that reach
  -- the threshold, keeps the highest of their confidences, and has the type as a member exactly if there
  -- is one.
  pub build_context_lem :
      (es : List EntityMatch)
      → (get_or (build_context es c).type_counts t 0 ≡ tally c t es)
        × (get_or (build_context es c).type_max_confidence t 0 ≡ highest c t es)
        × (contains (build_context es c).entity_types t ≡ ltb 0 (tally c t es))
  unfolding get_or contains
  build_context_lem es = (
    omega (arith, build_from-counts es empty_context),
    omega (arith, build_from-max es empty_context),
    build_from-types es empty_context,
  )

-- Two values of one length with the same first two and last two characters are redacted to the same text, and
-- two values of at most four characters are if they have one length: nothing else of a value shows.
pub redact_hides :
    (v w : Str)
    → length v ≡ length w
    → (4 < length v → (take 2 v ≡ take 2 w) × (drop (length v - 2) v ≡ drop (length w - 2) w))
    → redact v ≡ redact w
unfolding redact
redact_hides v w n h = elim (Bool-cases (ltb 4 (length v))) [
  | inl long ↦
      let p : 4 < length v = ground arith in
      rw (redact, lt→ltb 4 (length v) p, lt→ltb 4 (length w) (omega arith), (h p).0, (h p).1, n)
  | inr short ↦
      rw (redact, ge→ltb 4 (length v) (ground arith), ge→ltb 4 (length w) (ground arith), n)
]
