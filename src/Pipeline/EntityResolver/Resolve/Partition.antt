-- ===== src/Pipeline/EntityResolver/Resolve/Partition.antt =====
-- No mention is lost or counted twice.
use openlabels.Prelude.{
  ℕ, suc, ◌≡◌, refl, sym, ap, ◌∙◌, subst, inl, inr, Bool, List, [], ◌∷◌, ◌++◌, Bool-cases, none,
  some, get_elem?, map, ◌+◌, ◌==◌, length,
}
use mathlib.Core.List.{Perm, perm_append_comm, append_assoc, append-nil}
use mathlib.Core.List.Perm
use openlabels.Prelude.Sort.{sort, insert, sort-IsInOrder, IsInOrder}
use openlabels.Prelude.Text.{Str}
use openlabels.Pipeline.EntityResolver.{
  Mention, flat_map, apply_sieves, to_mention, Span, keep, leb, arith,
}
use openlabels.Types.Spans.{Span}
use openlabels.Pipeline.EntityResolver.Connected.{roots_from}
use openlabels.Pipeline.EntityResolver.Meaning.{apply_sieves_lem}
use openlabels.Pipeline.EntityResolver.Resolve.{
  entities_from, append_group, group_all, groups_to_entities, mentions_at, resolve, occurs_before,
}

perm_of_eq {ℓ} : {A : Type ℓ} {xs ys : List A} → xs ≡ ys → Perm xs ys
perm_of_eq {xs = xs} e = subst (λ zs. Perm xs zs) e Perm.rfl

-- A front part may change places with the next.
perm_swap {ℓ} : {A : Type ℓ} (xs ys zs : List A) → Perm (xs ++ (ys ++ zs)) (ys ++ (xs ++ zs))
perm_swap xs ys zs =
    rw (← append_assoc xs ys zs, ← append_assoc ys xs zs)
      (Perm.append_right zs (perm_append_comm xs ys))

module _ {A B : Type 0} (f : A → List B) where
  flat_map-append : (xs ys : List A) → flat_map f (xs ++ ys) ≡ flat_map f xs ++ flat_map f ys
  flat_map-append [] ys = refl
  flat_map-append (x ∷ xs) ys =
      ap (◌++◌ (f x)) (flat_map-append xs ys)
      ∙ sym (append_assoc (f x) (flat_map f xs) (flat_map f ys))

  module _ (less : A → A → Bool) where
    flat_map-insert :
        (x : A) (ys : List A) → Perm (flat_map f (insert less x ys)) (f x ++ flat_map f ys)
    unfolding insert
    flat_map-insert x [] = Perm.rfl
    flat_map-insert x (y ∷ ys) = elim (Bool-cases (less y x)) [
      | inl e ↦
          rw (insert, e)
            (Perm.trans (Perm.append_left (f y) (flat_map-insert x ys))
              (perm_swap (f y) (f x) (flat_map f ys)))
      | inr e ↦ rw (insert, e) Perm.rfl
    ]

    flat_map-sort : (xs : List A) → Perm (flat_map f (sort less xs)) (flat_map f xs)
    unfolding sort
    flat_map-sort [] = Perm.rfl
    flat_map-sort (x ∷ xs) =
        Perm.trans (flat_map-insert x (sort less xs)) (Perm.append_left (f x) (flat_map-sort xs))

mentions_of-entities_from :
    (new_id : ℕ → Str) (k : ℕ) (groups : List (List Mention))
    → flat_map (λ e. e.mentions) (entities_from new_id k groups) ≡ flat_map (λ g. g) groups
unfolding entities_from
mentions_of-entities_from new_id k [] = refl
mentions_of-entities_from new_id k ([] ∷ groups) = mentions_of-entities_from new_id k groups
mentions_of-entities_from new_id k ((m ∷ ms) ∷ groups) =
    ap (◌++◌ (m ∷ ms)) (mentions_of-entities_from new_id (suc k) groups)

-- The mentions of all groups.
abbrev all_of : List Mention → List (ℕ × List ℕ) → List Mention
all_of ms groups = flat_map (λ g. mentions_at ms g.1) groups

append_group-perm :
    (ms : List Mention) (root i : ℕ) (groups : List (ℕ × List ℕ))
    → Perm (all_of ms (append_group root i groups)) (mentions_at ms (i ∷ []) ++ all_of ms groups)
unfolding append_group
append_group-perm ms root i [] = Perm.rfl
append_group-perm ms root i ((r, is) ∷ groups) = elim (Bool-cases (r == root)) [
  | inl e ↦
      rw
        (
          append_group,
          e,
          flat_map-append (λ j. elim (get_elem? ms j) [ none ↦ [] | some m ↦ m ∷ [] ]) is (i ∷ []),
        )
        (Perm.trans
          (perm_of_eq
            (append_assoc (mentions_at ms is) (mentions_at ms (i ∷ [])) (all_of ms groups)))
          (perm_swap (mentions_at ms is) (mentions_at ms (i ∷ [])) (all_of ms groups)))
  | inr e ↦
      rw (append_group, e)
        (Perm.trans (Perm.append_left (mentions_at ms is) (append_group-perm ms root i groups))
          (perm_swap (mentions_at ms is) (mentions_at ms (i ∷ [])) (all_of ms groups)))
]

group_all-perm :
    (ms : List Mention) (ps : List (ℕ × ℕ)) (groups : List (ℕ × List ℕ))
    → Perm
        (all_of ms (group_all ps groups))
        (flat_map (λ p. mentions_at ms (p.0 ∷ [])) ps ++ all_of ms groups)
unfolding group_all
group_all-perm ms [] groups = Perm.rfl
group_all-perm ms ((i, root) ∷ ps) groups =
    Perm.trans (group_all-perm ms ps (append_group root i groups)) (
      Perm.trans
        (Perm.append_left (flat_map (λ p. mentions_at ms (p.0 ∷ [])) ps)
          (append_group-perm ms root i groups))
        (Perm.trans
          (perm_swap (flat_map (λ p. mentions_at ms (p.0 ∷ [])) ps) (mentions_at ms (i ∷ []))
            (all_of ms groups))
          (perm_of_eq (
            sym (
              append_assoc (mentions_at ms (i ∷ [])) (flat_map (λ p. mentions_at ms (p.0 ∷ [])) ps)
                (all_of ms groups))))))

-- The indices in turn give the mentions in turn.
mentions_at-roots_from :
    (root : ℕ → ℕ) (all_ ms : List Mention) (i : ℕ)
    → ((j : ℕ) → get_elem? all_ (i + j) ≡ get_elem? ms j)
    → flat_map (λ p. mentions_at all_ (p.0 ∷ [])) (roots_from root i (length ms)) ≡ ms
mentions_at-roots_from root all_ [] i h = refl
mentions_at-roots_from root all_ (m ∷ ms) i h =
    let here : get_elem? all_ i ≡ some m = ap (get_elem? all_) (omega arith) ∙ h 0 in
    rw here (
      ap (◌∷◌ m) (
        mentions_at-roots_from root all_ ms (suc i)
          (λ j. ap (get_elem? all_) (omega arith) ∙ h (suc j))))

flat_map-map :
    (ms : List Mention) (groups : List (ℕ × List ℕ))
    → flat_map (λ g. g) (map (λ g. mentions_at ms g.1) groups) ≡ all_of ms groups
flat_map-map ms [] = refl
flat_map-map ms (g ∷ groups) = ap (◌++◌ (mentions_at ms g.1)) (flat_map-map ms groups)

groups_to_entities-perm :
    (new_id : ℕ → Str) (ms : List Mention)
    → Perm (flat_map (λ e. e.mentions) (groups_to_entities new_id (apply_sieves ms) ms)) ms
unfolding groups_to_entities
groups_to_entities-perm new_id ms =
    let (root, found, _) = apply_sieves_lem ms in
    let groups = group_all (apply_sieves ms) [] in
    Perm.trans
      (flat_map-sort (λ e. e.mentions) occurs_before
        (entities_from new_id 0 (map (λ g. mentions_at ms g.1) groups)))
      (Perm.trans
        (perm_of_eq (
          mentions_of-entities_from new_id 0 (map (λ g. mentions_at ms g.1) groups)
          ∙ flat_map-map ms groups))
        (Perm.trans (group_all-perm ms (apply_sieves ms) []) (
          perm_of_eq (
            append-nil (flat_map (λ p. mentions_at ms (p.0 ∷ [])) (apply_sieves ms))
            ∙ ap (flat_map (λ p. mentions_at ms (p.0 ∷ []))) found
            ∙ mentions_at-roots_from root ms ms 0 (λ j. ap (get_elem? ms) (omega arith))))))

groups_to_entities-IsInOrder :
    (new_id : ℕ → Str) (groups : List (ℕ × ℕ)) (ms : List Mention)
    → IsInOrder occurs_before (groups_to_entities new_id groups ms)
unfolding groups_to_entities
groups_to_entities-IsInOrder new_id groups ms =
    sort-IsInOrder occurs_before (λ a b h. ground arith)
      (entities_from new_id 0 (map (λ g. mentions_at ms g.1) (group_all groups [])))

-- The mentions of the entities together are, in some order, the mentions of the spans that reach the minimum
-- confidence, each as often as it was; and the entities come in the order of their first occurrence.
pub resolve-perm :
    (new_id : ℕ → Str) (min_confidence : ℕ) (spans : List Span)
    → Perm
        (flat_map (λ e. e.mentions) (resolve new_id min_confidence spans))
        (map to_mention (keep (λ s. leb min_confidence s.confidence) spans))
      × IsInOrder occurs_before (resolve new_id min_confidence spans)
unfolding resolve
resolve-perm new_id min_confidence spans = (
  groups_to_entities-perm new_id
      (map to_mention (keep (λ s. leb min_confidence s.confidence) spans)),
  groups_to_entities-IsInOrder new_id
      (apply_sieves (map to_mention (keep (λ s. leb min_confidence s.confidence) spans)))
      (map to_mention (keep (λ s. leb min_confidence s.confidence) spans)),
)
