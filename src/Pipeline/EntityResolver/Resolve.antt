-- ===== src/Pipeline/EntityResolver/Resolve.antt =====
-- From groups to entities (src/openlabels/core/pipeline/entity_resolver.py). A dictionary is a list in the order
-- of insertion, and `new_id k` is the k-th identifier that uuid4 draws.
pub mod Partition
use openlabels.Prelude.{
  ℕ, zero, suc, ◌+◌, ◌-◌, ◌*◌, ◌/◌, ◌%◌, ◌≤◌, ◌<◌, min, max, ◌≡◌, refl, sym, ap, ◌∙◌, subst, ◌≢◌,
  ◌↔◌, ◌⊎◌, inl, inr, Bool, true, false, not, ◌&&◌, ◌||◌, Option, none, some, List, [], ◌∷◌, ◌++◌,
  map, reverse, arith, ltb, leb, ◌==◌, if◌then◌else◌, ltb→lt, lt→ltb, ge→ltb, leb→le, le→leb,
  gt→leb, ==_iff, Bool-cases, Option-cases, some_inj, length, get_elem?, take, drop, slice, keep,
  All, Any, all, any, length-append, length-take, length-drop,
}
use openlabels.Prelude.Sort.{sort}
use openlabels.Prelude.Text.{Str, Dict, get_or, put}
use openlabels.Types.Spans.{Span, value}
use openlabels.Pipeline.EntityResolver.{Mention, Entity, flat_map, to_mention, apply_sieves}

-- grouped[root].append(i)
unfoldable pub append_group : ℕ → ℕ → List (ℕ × List ℕ) → List (ℕ × List ℕ)
append_group root i [] = (root, i ∷ []) ∷ []
append_group root i ((r, is) ∷ groups) =
    if r == root then (r, is ++ i ∷ []) ∷ groups else (r, is) ∷ append_group root i groups

unfoldable pub group_all : List (ℕ × ℕ) → List (ℕ × List ℕ) → List (ℕ × List ℕ)
unfolding append_group
group_all [] groups = groups
group_all ((i, root) ∷ ps) groups = group_all ps (append_group root i groups)

-- [mentions[i] for i in indices]
abbrev pub mentions_at : List Mention → List ℕ → List Mention
mentions_at mentions indices =
    flat_map (λ i. elim (get_elem? mentions i) [ none ↦ [] | some m ↦ m ∷ [] ]) indices

-- max(xs, key=...): the first element with the greatest key.
abbrev pub max_from : (Mention → Mention → Bool) → Mention → List Mention → Mention
max_from above best [] = best
max_from above best (m ∷ ms) = max_from above (if above m best then m else best) ms

-- The key (len(m.span.text), -m.span.start).
abbrev pub longer_text : Mention → Mention → Bool
longer_text a b =
    ltb (length b.span.text) (length a.span.text)
    || (length b.span.text == length a.span.text && ltb a.span.start b.span.start)

abbrev pub higher : Mention → Mention → Bool
higher a b = ltb (value b.span.tier) (value a.span.tier)

-- The entity of a group, which has a mention.
abbrev pub entity_of : Str → Mention → List Mention → Entity
entity_of id m ms = record {
  id = id;
  entity_type = (max_from higher m ms).span.entity_type;
  canonical_value = (max_from longer_text m ms).span.text;
  mentions = m ∷ ms;
  semantic_role = none;
}

unfoldable pub entities_from : (ℕ → Str) → ℕ → List (List Mention) → List Entity
entities_from new_id k [] = []
entities_from new_id k ([] ∷ groups) = entities_from new_id k groups
entities_from new_id k ((m ∷ ms) ∷ groups) =
    entity_of (new_id k) m ms ∷ entities_from new_id (suc k) groups

-- min(m.span.start for m in e.mentions)
abbrev pub first_start : List Mention → ℕ
first_start [] = 0
first_start (m ∷ []) = m.span.start
first_start (m ∷ n ∷ ms) = min m.span.start (first_start (n ∷ ms))

abbrev pub occurs_before : Entity → Entity → Bool
occurs_before e d = ltb (first_start e.mentions) (first_start d.mentions)

-- `_groups_to_entities`
unfoldable pub groups_to_entities : (ℕ → Str) → List (ℕ × ℕ) → List Mention → List Entity
unfolding group_all entities_from sort
groups_to_entities new_id groups mentions =
    sort occurs_before
      (entities_from new_id 0 (map (λ g. mentions_at mentions g.1) (group_all groups [])))

-- `resolve`, and `resolve_entities`
unfoldable pub resolve : (ℕ → Str) → ℕ → List Span → List Entity
unfolding to_mention apply_sieves groups_to_entities
resolve new_id min_confidence spans =
    let mentions : List Mention =
      map to_mention (keep (λ s. leb min_confidence s.confidence) spans) in
    groups_to_entities new_id (apply_sieves mentions) mentions

-- `get_entity_counts`
unfoldable pub get_entity_counts : List Entity → Dict ℕ → Dict ℕ
unfolding put get_or
get_entity_counts [] counts = counts
get_entity_counts (e ∷ es) counts =
    get_entity_counts es (put e.entity_type (get_or counts e.entity_type 0 + 1) counts)
