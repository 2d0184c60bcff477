-- ===== src/Pipeline/EntityResolver/Sieves.antt =====
-- When two mentions are linked, and the keys of the indexes.
pub mod Justified
use openlabels.Prelude.{
  ℕ, zero, suc, ◌≤◌, ◌<◌, ◌≡◌, refl, sym, ◌∙◌, subst, ◌≢◌, ◌⊎◌, inl, inr, true, Option, none, some,
  List, [], ◌∷◌, ◌++◌, map, arith, ltb, leb, ◌==◌, Bool-cases, Option-cases, length, get_elem?,
  keep, All, keep-All, All-map,
}
use openlabels.Prelude.Text.{Str, str_eq, str_eq→eq, lower, lookup, get_or, contains}
use openlabels.Pipeline.EntityResolver.{
  Mention, index_from, text_keys, anchor_keys, anchor_of, word_keys, words_at, star, star_of,
  shares_word, shared_pairs, word_links, anchor_links, links, flat_map,
}
use openlabels.Pipeline.EntityResolver.Connected.{Connected, link, IsPair}
use openlabels.Pipeline.EntityResolver.Index.{IsSound, get_or-IsSound, index_from-IsSound}

-- Two mentions share a word of two letters or more, and the first has another word.
abbrev pub SharesWord : Mention → Mention → Type 0
SharesWord a b =
    (w : Str) × (contains a.words w ≡ true)
    × (contains b.words w ≡ true)
    × (2 ≤ length w)
    × (1 < length a.words)

-- The anchor of the one is the text of the other.
abbrev pub Refers : Mention → Mention → Type 0
Refers a b =
    (anchor : Str) × (a.span.coref_anchor_value ≡ some anchor)
    × (anchor ≢ [])
    × (lower anchor ≡ b.normalized_text)

abbrev pub AreLinked : List Mention → ℕ → ℕ → Type 0
AreLinked ms i j =
    (a : Mention) × (b : Mention) × (get_elem? ms i ≡ some a)
    × (get_elem? ms j ≡ some b)
    × ((a.normalized_text ≡ b.normalized_text) ⊎ (SharesWord a b ⊎ Refers a b))

module _ {B : Type 0} (P : B → Type 0) where
  pub All-append : (xs ys : List B) → All P xs → All P ys → All P (xs ++ ys)
  All-append [] ys h k = k
  All-append (x ∷ xs) ys h k = (h.0, All-append xs ys h.1 k)

  pub All-flat_map :
      {A : Type 0} (Q : A → Type 0) (f : A → List B) (xs : List A)
      → ((x : A) → Q x → All P (f x))
      → All Q xs
      → All P (flat_map f xs)
  All-flat_map Q f [] h q = tt
  All-flat_map Q f (x ∷ xs) h q =
      All-append (f x) (flat_map f xs) (h x q.0) (All-flat_map Q f xs h q.1)

  pub All-map_of : {A : Type 0} (f : A → B) (xs : List A) → All (λ x. P (f x)) xs → All P (map f xs)
  All-map_of f [] h = tt
  All-map_of f (x ∷ xs) h = (h.0, All-map_of f xs h.1)

-- The mention has the key.
abbrev pub HasKey : (Mention → List Str) → List Mention → ℕ → Str → Type 0
HasKey keys ms i k = (m : Mention) × (get_elem? ms i ≡ some m) × (contains (keys m) k ≡ true)

pub index-IsSound :
    (keys : Mention → List Str) (ms : List Mention)
    → IsSound (HasKey keys ms) (index_from keys 0 ms [])
index-IsSound keys ms =
    index_from-IsSound (HasKey keys ms) keys 0 ms [] tt
      (λ j m k e h. (m, subst (λ n. get_elem? ms n ≡ some m) (omega arith) e, h))

pub get_elem?-lt :
    (ms : List Mention) (i : ℕ) (m : Mention) → get_elem? ms i ≡ some m → i < length ms
get_elem?-lt [] i m h = absurd (cc)
get_elem?-lt (n ∷ ms) zero m h = omega arith
get_elem?-lt (n ∷ ms) (suc i) m h = omega (arith, get_elem?-lt ms i m h)

pub text_key : (m : Mention) (k : Str) → contains (text_keys m) k ≡ true → m.normalized_text ≡ k
unfolding contains
text_key m k h = str_eq→eq m.normalized_text k (ground arith)

pub anchor_key :
    (o : Option Str) (k : Str)
    → contains (anchor_of o) k ≡ true
    → (anchor : Str) × (o ≡ some anchor) × (anchor ≢ []) × (lower anchor ≡ k)
unfolding contains anchor_of
anchor_key none k h = absurd (cc)
anchor_key (some []) k h = absurd (cc)
anchor_key (some (c ∷ s)) k h = (c ∷ s, refl, (λ q. cc), str_eq→eq (lower (c ∷ s)) k (ground arith))

pub words_at_lem :
    (ms : List Mention) (i : ℕ) (m : Mention) → get_elem? ms i ≡ some m → words_at ms i ≡ m.words
words_at_lem ms i m e = rw (words_at, e) refl

pub word_key :
    (w : Str) (words : List Str)
    → contains (keep (λ v. leb 2 (length v)) words) w ≡ true
    → (contains words w ≡ true) × (2 ≤ length w)
unfolding contains
word_key w [] h = absurd (cc)
word_key w (v ∷ words) h = elim (Bool-cases (leb 2 (length v))) [
  | inr e ↦ let (a, b) = word_key w words (rw e at h) in (ground (arith, a), b)
  | inl e ↦ elim (Bool-cases (str_eq v w)) [
    | inl f ↦
        let same : v ≡ w = str_eq→eq v w f in
        (rw f refl, subst (λ u. 2 ≤ length u) same (ground arith))
    | inr f ↦ let (a, b) = word_key w words (rw (e, f) at h) in (ground (arith, a), b)
  ]
]
