-- ===== src/Pipeline/EntityResolver/Sieves/Justified.antt =====
-- The pairs that the sieves unite.
use openlabels.Prelude.{
  ℕ, ◌<◌, ◌≡◌, sym, ◌∙◌, inl, inr, true, List, [], ◌∷◌, ◌++◌, map, arith, ltb, ◌==◌, Bool-cases,
  Option-cases, length, keep, All, keep-All, All-map,
}
use openlabels.Prelude.Text.{Str, lookup, get_or}
use openlabels.Pipeline.EntityResolver.{
  Mention, index_from, text_keys, anchor_keys, word_keys, words_at, star, star_of, shares_word,
  shared_pairs, word_links, anchor_links, links, flat_map,
}
use openlabels.Pipeline.EntityResolver.Connected.{Connected, link, IsPair}
use openlabels.Pipeline.EntityResolver.Index.{get_or-IsSound}
use openlabels.Pipeline.EntityResolver.Sieves.{
  AreLinked, HasKey, index-IsSound, get_elem?-lt, text_key, anchor_key, words_at_lem, word_key,
  All-append, All-flat_map, All-map_of,
}

-- The link stands in the list, and its mentions are connected.
abbrev pub IsJustified : List Mention → ℕ × ℕ → Type 0
IsJustified ms (i, j) = IsPair (length ms) (i, j) × Connected (AreLinked ms) i j

justify : (ms : List Mention) (i j : ℕ) → AreLinked ms i j → IsJustified ms (i, j)
justify ms i j (a, b, ea, eb, r) =
    ((get_elem?-lt ms i a ea, get_elem?-lt ms j b eb), link (a, b, ea, eb, r))

star-IsJustified :
    (ms : List Mention) (k : Str) (is : List ℕ)
    → All (λ i. HasKey text_keys ms i k) is
    → All (IsJustified ms) (star is)
star-IsJustified ms k [] h = tt
star-IsJustified ms k (i ∷ is) ((a, ea, ka), h) =
    All-map_of (IsJustified ms) (λ j. (i, j)) is
      (All-map (λ j. HasKey text_keys ms j k) (λ j. IsJustified ms (i, j)) is
        (λ j b. justify ms i j (a, b.0, ea, b.1, inl (text_key a k ka ∙ sym (text_key b.0 k b.2))))
        h)

-- The mention has the word and another.
abbrev IsMulti : List Mention → Str → ℕ → Type 0
IsMulti ms w i = HasKey word_keys ms i w × (ltb 1 (length (words_at ms i)) ≡ true)

multi_linked :
    (ms : List Mention) (w : Str) (i j : ℕ)
    → IsMulti ms w i
    → HasKey word_keys ms j w
    → IsJustified ms (i, j)
multi_linked ms w i j ((a, ea, ka), m) (b, eb, kb) =
    let (ina, long) = word_key w a.words ka in
    let (inb, _) = word_key w b.words kb in
    justify ms i j (
      a,
      b,
      ea,
      eb,
      inr (inl (w, ina, inb, long, several (length a.words) (rw (words_at_lem ms i a ea) at m))),
    )
  where
    several : (n : ℕ) → ltb 1 n ≡ true → 1 < n
    several n h = ground arith

keep-IsMulti :
    (ms : List Mention) (w : Str) (is : List ℕ)
    → All (λ i. HasKey word_keys ms i w) is
    → All (IsMulti ms w) (keep (λ i. ltb 1 (length (words_at ms i))) is)
keep-IsMulti ms w [] h = tt
keep-IsMulti ms w (i ∷ is) h = elim (Bool-cases (ltb 1 (length (words_at ms i)))) [
  | inl e ↦ rw e ((h.0, e), keep-IsMulti ms w is h.1)
  | inr e ↦ rw e (keep-IsMulti ms w is h.1)
]

star_of-IsJustified :
    (ms : List Mention) (w : Str) (is js : List ℕ)
    → All (IsMulti ms w) is
    → All (λ j. HasKey word_keys ms j w) js
    → All (IsJustified ms) (star_of is js)
star_of-IsJustified ms w [] js h k = tt
star_of-IsJustified ms w (i ∷ is) js h k =
    All-map_of (IsJustified ms) (λ j. (i, j)) js
      (All-map (λ j. HasKey word_keys ms j w) (λ j. IsJustified ms (i, j)) js
        (λ j b. multi_linked ms w i j h.0 b) k)

shared_pairs-IsJustified :
    (ms : List Mention) (w : Str) (is : List ℕ)
    → All (IsMulti ms w) is
    → All (IsJustified ms) (shared_pairs ms is)
shared_pairs-IsJustified ms w [] h = tt
shared_pairs-IsJustified ms w (i ∷ is) h =
    All-append (IsJustified ms) (map (λ j. (i, j)) (keep (shares_word ms i) is))
      (shared_pairs ms is)
      (All-map_of (IsJustified ms) (λ j. (i, j)) (keep (shares_word ms i) is)
        (keep-All (shares_word ms i) (λ j. IsJustified ms (i, j)) is
          (All-map (IsMulti ms w) (λ j. IsJustified ms (i, j)) is
            (λ j b. multi_linked ms w i j h.0 b.0) h.1)))
      (shared_pairs-IsJustified ms w is h.1)

word_links-IsJustified :
    (ms : List Mention) (w : Str) (is : List ℕ)
    → All (λ i. HasKey word_keys ms i w) is
    → All (IsJustified ms) (word_links ms is)
unfolding word_links
word_links-IsJustified ms w is h =
    let multi : List ℕ = keep (λ i. ltb 1 (length (words_at ms i))) is in
    let single : List ℕ = keep (λ i. length (words_at ms i) == 1) is in
    elim (Bool-cases (ltb 1 (length is))) [
      | inr e ↦ rw (word_links, e) tt
      | inl e ↦
          rw (word_links, e)
            (All-append (IsJustified ms) (star_of multi single) (shared_pairs ms multi)
              (star_of-IsJustified ms w multi single (keep-IsMulti ms w is h)
                (keep-All (λ i. length (words_at ms i) == 1) (λ i. HasKey word_keys ms i w) is h))
              (shared_pairs-IsJustified ms w multi (keep-IsMulti ms w is h)))
    ]

anchored :
    (ms : List Mention) (k : Str) (i j : ℕ)
    → HasKey anchor_keys ms i k
    → HasKey text_keys ms j k
    → IsJustified ms (i, j)
unfolding anchor_keys
anchored ms k i j (a, ea, ka) (b, eb, kb) =
    let (anchor, e, ne, low) = anchor_key a.span.coref_anchor_value k ka in
    justify ms i j (a, b, ea, eb, inr (inr (anchor, e, ne, low ∙ sym (text_key b k kb))))

anchor_links-IsJustified :
    (ms : List Mention) (k : Str) (is : List ℕ)
    → All (λ i. HasKey anchor_keys ms i k) is
    → All (IsJustified ms) (anchor_links (index_from text_keys 0 ms []) k is)
unfolding anchor_links get_or anchor_keys
anchor_links-IsJustified ms k is h = elim (Option-cases (lookup k (index_from text_keys 0 ms []))) [
  | inl e ↦ rw (anchor_links, e) tt
  | inr (js, e) ↦
      let texts : All (λ j. HasKey text_keys ms j k) js =
        rw (get_or, e) at
          (get_or-IsSound (HasKey text_keys ms) (index_from text_keys 0 ms []) k
            (index-IsSound text_keys ms)) in
      rw (anchor_links, e)
        (All-flat_map (IsJustified ms) (λ i. HasKey anchor_keys ms i k) (λ i. map (λ j. (i, j)) js)
          is
          (λ i a.
            All-map_of (IsJustified ms) (λ j. (i, j)) js
              (All-map (λ j. HasKey text_keys ms j k) (λ j. IsJustified ms (i, j)) js
                (λ j b. anchored ms k i j a b) texts))
          h)
]

-- Every pair that the sieves unite is of indices of mentions, which are connected.
pub links-IsJustified : (ms : List Mention) → All (IsJustified ms) (links ms)
unfolding links
links-IsJustified ms =
    let text_index = index_from text_keys 0 ms [] in
    let word_index = index_from word_keys 0 ms [] in
    let coref_index = index_from anchor_keys 0 ms [] in
    All-append (IsJustified ms) (flat_map (λ e. star e.1) text_index)
      (flat_map (λ e. word_links ms e.1) word_index
        ++ flat_map (λ e. anchor_links text_index e.0 e.1) coref_index)
      (All-flat_map (IsJustified ms) (λ e. All (λ i. HasKey text_keys ms i e.0) e.1) (λ e. star e.1)
        text_index (λ e h. star-IsJustified ms e.0 e.1 h) (index-IsSound text_keys ms))
      (All-append (IsJustified ms) (flat_map (λ e. word_links ms e.1) word_index)
        (flat_map (λ e. anchor_links text_index e.0 e.1) coref_index)
        (All-flat_map (IsJustified ms) (λ e. All (λ i. HasKey word_keys ms i e.0) e.1)
          (λ e. word_links ms e.1) word_index (λ e h. word_links-IsJustified ms e.0 e.1 h)
          (index-IsSound word_keys ms))
        (All-flat_map (IsJustified ms) (λ e. All (λ i. HasKey anchor_keys ms i e.0) e.1)
          (λ e. anchor_links text_index e.0 e.1) coref_index
          (λ e h. anchor_links-IsJustified ms e.0 e.1 h) (index-IsSound anchor_keys ms)))
