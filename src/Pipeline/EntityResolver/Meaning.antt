-- ===== src/Pipeline/EntityResolver/Meaning.antt =====
-- What the groups of mentions mean.
use openlabels.Prelude.{
  ℕ, ◌≤◌, ◌≡◌, refl, sym, subst, ◌≢◌, ◌↔◌, inl, inr, true, Option, some, List, [], ◌∷◌, ◌++◌, map,
  arith, leb, Bool-cases, length, get_elem?, keep, All, All-map,
}
use openlabels.Prelude.Text.{Str, str_eq, str_eq→eq, str_eq_refl, lower, lookup, get_or, contains}
use openlabels.Pipeline.EntityResolver.{
  Mention, index_from, text_keys, anchor_keys, anchor_of, word_keys, words_at, star, word_links,
  anchor_links, links, flat_map, apply_sieves,
}
use openlabels.Pipeline.EntityResolver.Connected.{Connected, IsPair, roots_from, union_all_lem}
use openlabels.Pipeline.EntityResolver.Index.{IsIn, index_from-IsIn, entry_lem, get_or-IsSound}
use openlabels.Pipeline.EntityResolver.Sieves.Justified.{IsJustified, links-IsJustified}
use openlabels.Pipeline.EntityResolver.Sieves.{
  AreLinked, SharesWord, Refers, HasKey, index-IsSound, words_at_lem, word_key,
}
use openlabels.Pipeline.EntityResolver.Groups.{
  Joins, append-All, flat_map-All, pick, star_head, star_joined, word_joined,
}

index-IsIn :
    (keys : Mention → List Str) (ms : List Mention) (i : ℕ) (m : Mention) (k : Str)
    → get_elem? ms i ≡ some m
    → contains (keys m) k ≡ true
    → IsIn i k (index_from keys 0 ms [])
index-IsIn keys ms i m k e h =
    subst (λ n. IsIn n k (index_from keys 0 ms [])) (omega arith)
      (index_from-IsIn keys 0 i k ms [] m e h)

text_keys_has : (m : Mention) → contains (text_keys m) m.normalized_text ≡ true
unfolding contains
text_keys_has m = rw (str_eq_refl m.normalized_text) refl

anchor_of_has :
    (o : Option Str) (anchor k : Str)
    → o ≡ some anchor
    → anchor ≢ []
    → lower anchor ≡ k
    → contains (anchor_of o) k ≡ true
unfolding contains anchor_of
anchor_of_has o [] k e ne l = absurd (ne refl)
anchor_of_has o (c ∷ s) k e ne l = rw (e, ← l, contains, str_eq_refl (lower (c ∷ s))) refl

word_keys_has :
    (words : List Str) (w : Str)
    → contains words w ≡ true
    → 2 ≤ length w
    → contains (keep (λ v. leb 2 (length v)) words) w ≡ true
unfolding contains
word_keys_has [] w h l = absurd (cc)
word_keys_has (v ∷ words) w h l = elim (Bool-cases (str_eq v w)) [
  | inl e ↦
      let long : leb 2 (length v) ≡ true =
        subst (λ u. leb 2 (length u) ≡ true) (sym (str_eq→eq v w e)) (ground arith) in
      rw (long, contains, e) refl
  | inr e ↦
      let rest : contains (keep (λ v. leb 2 (length v)) words) w ≡ true =
        word_keys_has words w (rw e at h) l in
      elim (Bool-cases (leb 2 (length v))) [ inl f ↦ rw (f, contains, e) rest | inr f ↦ rw f rest ]
]

module _ (ms : List Mention) (f : ℕ → ℕ) (joined : All (Joins f) (links ms)) where
  parts :
      All (λ e. All (Joins f) (star e.1)) (index_from text_keys 0 ms [])
      × All (λ e. All (Joins f) (word_links ms e.1)) (index_from word_keys 0 ms [])
      × All
          (λ e. All (Joins f) (anchor_links (index_from text_keys 0 ms []) e.0 e.1))
          (index_from anchor_keys 0 ms [])
  unfolding links
  parts =
      let texts = flat_map (λ e. star e.1) (index_from text_keys 0 ms []) in
      let word_part = flat_map (λ e. word_links ms e.1) (index_from word_keys 0 ms []) in
      let anchor_part =
        flat_map (λ e. anchor_links (index_from text_keys 0 ms []) e.0 e.1)
          (index_from anchor_keys 0 ms []) in
      let (a, bc) = append-All (Joins f) texts (word_part ++ anchor_part) joined in
      let (b, c) = append-All (Joins f) word_part anchor_part bc in
      (
        flat_map-All (Joins f) (λ e. star e.1) (index_from text_keys 0 ms []) a,
        flat_map-All (Joins f) (λ e. word_links ms e.1) (index_from word_keys 0 ms []) b,
        flat_map-All (Joins f) (λ e. anchor_links (index_from text_keys 0 ms []) e.0 e.1)
            (index_from anchor_keys 0 ms []) c,
      )

  same_text_joined :
      (i j : ℕ) (a b : Mention)
      → get_elem? ms i ≡ some a
      → get_elem? ms j ≡ some b
      → a.normalized_text ≡ b.normalized_text
      → f i ≡ f j
  same_text_joined i j a b ea eb e =
      let index = index_from text_keys 0 ms [] in
      let left : IsIn i a.normalized_text index =
        index-IsIn text_keys ms i a a.normalized_text ea (text_keys_has a) in
      let right : IsIn j a.normalized_text index =
        subst (λ k. IsIn j k index) (sym e)
          (index-IsIn text_keys ms j b b.normalized_text eb (text_keys_has b)) in
      star_joined f (get_or index a.normalized_text []) i j
        (entry_lem (λ e. All (Joins f) (star e.1)) index a.normalized_text i parts.0 left).1 left
        right

  shared_word_joined :
      (i j : ℕ) (a b : Mention)
      → get_elem? ms i ≡ some a
      → get_elem? ms j ≡ some b
      → SharesWord a b
      → f i ≡ f j
  shared_word_joined i j a b ea eb (w, ia, ib, long, many) =
      let index = index_from word_keys 0 ms [] in
      let left : IsIn i w index =
        index-IsIn word_keys ms i a w ea (word_keys_has a.words w ia long) in
      let right : IsIn j w index =
        index-IsIn word_keys ms j b w eb (word_keys_has b.words w ib long) in
      word_joined f ms w (get_or index w []) i j
        (All-map (λ k. HasKey word_keys ms k w) (λ k. contains (words_at ms k) w ≡ true)
          (get_or index w []) (λ k h. rw (words_at_lem ms k h.0 h.1) (word_key w h.0.words h.2).0)
          (get_or-IsSound (HasKey word_keys ms) index w (index-IsSound word_keys ms)))
        (entry_lem (λ e. All (Joins f) (word_links ms e.1)) index w i parts.1 left).1
        (rw (words_at_lem ms i a ea) (ground arith)) left right

  anchor_joined :
      (i j : ℕ) (a b : Mention)
      → get_elem? ms i ≡ some a
      → get_elem? ms j ≡ some b
      → Refers a b
      → f i ≡ f j
  unfolding anchor_keys anchor_links
  anchor_joined i j a b ea eb (anchor, e, ne, low) =
      let texts = index_from text_keys 0 ms [] in
      let index = index_from anchor_keys 0 ms [] in
      let k : Str = b.normalized_text in
      let left : IsIn i k index =
        index-IsIn anchor_keys ms i a k ea
          (anchor_of_has a.span.coref_anchor_value anchor k e ne low) in
      let right : IsIn j k texts = index-IsIn text_keys ms j b k eb (text_keys_has b) in
      let found : lookup k texts ≡ some (get_or texts k []) =
        (entry_lem (λ e. All (Joins f) (star e.1)) texts k j parts.0 right).0 in
      let here : All (Joins f) (anchor_links texts k (get_or index k [])) =
        (entry_lem (λ e. All (Joins f) (anchor_links texts e.0 e.1)) index k i parts.2 left).1 in
      star_head f i (get_or texts k []) j
        (pick (λ x. All (Joins f) (map (λ y. (x, y)) (get_or texts k []))) (get_or index k []) i
          (flat_map-All (Joins f) (λ x. map (λ y. (x, y)) (get_or texts k [])) (get_or index k [])
            (rw (anchor_links, found) at here))
          left)
        right

  linked_joined : (i j : ℕ) → AreLinked ms i j → f i ≡ f j
  linked_joined i j (a, b, ea, eb, inl e) = same_text_joined i j a b ea eb e
  linked_joined i j (a, b, ea, eb, inr (inl w)) = shared_word_joined i j a b ea eb w
  linked_joined i j (a, b, ea, eb, inr (inr r)) = anchor_joined i j a b ea eb r

-- The sieves give each mention a group, and two mentions are in one group exactly if a chain of mentions leads from the one
-- to the other, each with the normalised text of the next or with a word of two letters or more in common, which is not the
-- only word of the one, or with the text of the one as the anchor of the other.
pub apply_sieves_lem :
    (ms : List Mention)
    → (root : ℕ → ℕ) × (apply_sieves ms ≡ roots_from root 0 (length ms))
      × ((i j : ℕ) → (root i ≡ root j) ↔ Connected (AreLinked ms) i j)
unfolding apply_sieves
apply_sieves_lem ms =
    union_all_lem (AreLinked ms) (length ms) (links ms)
      (All-map (IsJustified ms) (IsPair (length ms)) (links ms) (λ l h. h.0) (links-IsJustified ms))
      (All-map (IsJustified ms) (λ l. Connected (AreLinked ms) l.0 l.1) (links ms) (λ l h. h.1)
        (links-IsJustified ms))
      (linked_joined ms)
