-- ===== src/Pipeline/EntityResolver.antt =====
-- The resolution of mentions to entities (src/openlabels/core/pipeline/entity_resolver.py). A set of words is
-- the list of its members. A word is separated by ASCII white space. The parent list of the union-find is a
-- function of the index, and `find` is on fuel.
pub mod Forest
pub mod Connected
pub mod Index
pub mod Sieves
pub mod Groups
pub mod Meaning
pub mod Resolve
mod Examples
use openlabels.Prelude.{
  ℕ, zero, suc, ◌+◌, ◌-◌, ◌*◌, ◌/◌, ◌%◌, ◌≤◌, ◌<◌, min, max, ◌≡◌, refl, sym, ap, ◌∙◌, subst, ◌≢◌,
  ◌↔◌, ◌⊎◌, inl, inr, Bool, true, false, not, ◌&&◌, ◌||◌, Option, none, some, List, [], ◌∷◌, ◌++◌,
  map, reverse, arith, ltb, leb, ◌==◌, if◌then◌else◌, ltb→lt, lt→ltb, ge→ltb, leb→le, le→leb,
  gt→leb, ==_iff, Bool-cases, Option-cases, some_inj, length, get_elem?, take, drop, slice, keep,
  All, Any, all, any, length-append, length-take, length-drop,
}
use openlabels.Prelude.Sort.{sort}
use openlabels.Prelude.Text.{Str, codes, str_eq, lower, Dict, lookup, get_or, put, contains, add}
use openlabels.Types.Spans.{Span, value}

abbrev pub name_types : List Str
name_types =
    codes "NAME"
    ∷ codes "NAME_PATIENT"
    ∷ codes "NAME_PROVIDER"
    ∷ codes "NAME_RELATIVE"
    ∷ codes "PERSON"
    ∷ []

pub record Mention : Type 0 where
  pub span : Span
  pub normalized_text : Str
  pub words : List Str

pub record Entity : Type 0 where
  pub id : Str
  pub entity_type : Str
  pub canonical_value : Str
  pub mentions : List Mention
  pub semantic_role : Option Str

abbrev pub is_space : ℕ → Bool
is_space c = c == 32 || ((leb 9 c && leb c 13) || (leb 28 c && leb c 31))

abbrev pub lstrip : Str → Str
lstrip [] = []
lstrip (c ∷ s) = if is_space c then lstrip s else c ∷ s

-- `text.strip()`
unfoldable pub stripped : Str → Str
stripped s = reverse (lstrip (reverse (lstrip s)))

-- `text.split()`, with the letters of the word that is read.
unfoldable pub split_from : Str → Str → List Str
split_from [] [] = []
split_from (w ∷ word) [] = (w ∷ word) ∷ []
split_from word (c ∷ s) =
    let ended = split_from [] s in
    let longer = split_from (word ++ c ∷ []) s in
    if is_space c then (elim word [ [] ↦ ended | w ∷ ws ↦ (w ∷ ws) ∷ ended ]) else longer

-- `_normalize_text`
unfoldable pub normalize_text : Str → Str
unfolding lower stripped
normalize_text text = stripped (lower text)

abbrev pub titles : List Str
titles =
    codes "dr"
    ∷ codes "mr"
    ∷ codes "mrs"
    ∷ codes "ms"
    ∷ codes "prof"
    ∷ codes "rev"
    ∷ codes "jr"
    ∷ codes "sr"
    ∷ codes "ii"
    ∷ codes "iii"
    ∷ codes "iv"
    ∷ []

-- The set of a list of words.
abbrev pub set_of : List Str → List Str → List Str
set_of acc [] = acc
set_of acc (w ∷ ws) = set_of (add w acc) ws

-- `_get_words`
unfoldable pub get_words : Str → Str → List Str
unfolding contains add split_from
get_words text entity_type =
    if not (contains name_types entity_type)
    then []
    else keep (λ w. not (contains titles w))
        (set_of [] (split_from [] (keep (λ c. not (c == b'.')) text)))

-- `_to_mention`
unfoldable pub to_mention : Span → Mention
unfolding normalize_text get_words
to_mention span = record {
  span = span;
  normalized_text = normalize_text span.text;
  words = get_words (normalize_text span.text) span.entity_type;
}

-- parent[x] = v
abbrev pub set_parent : ℕ → ℕ → (ℕ → ℕ) → ℕ → ℕ
set_parent x v parent y = if x == y then v else parent y

-- `find`, with its path compression; the parent list comes with the root.
unfoldable pub find : ℕ → ℕ → (ℕ → ℕ) → (ℕ → ℕ) × ℕ
find zero x parent = (parent, x)
find (suc fuel) x parent =
    let (compressed, root) = find fuel (parent x) parent in
    if parent x == x then (parent, x) else (set_parent x root compressed, root)

-- `union`
unfoldable pub union : ℕ → ℕ → ℕ → (ℕ → ℕ) → ℕ → ℕ
unfolding find
union fuel x y parent =
    let (parent1, px) = find fuel x parent in
    let (parent2, py) = find fuel y parent1 in
    if px == py then parent2 else set_parent px py parent2

-- index[key].append(i)
unfoldable pub append_to : Str → ℕ → Dict (List ℕ) → Dict (List ℕ)
unfolding get_or put
append_to key i index = put key (get_or index key [] ++ i ∷ []) index

abbrev pub append_all : List Str → ℕ → Dict (List ℕ) → Dict (List ℕ)
append_all [] i index = index
append_all (k ∷ ks) i index = append_all ks i (append_to k i index)

-- The loop that fills an index, with the keys of a mention.
abbrev pub index_from : (Mention → List Str) → ℕ → List Mention → Dict (List ℕ) → Dict (List ℕ)
index_from keys i [] index = index
index_from keys i (m ∷ ms) index = index_from keys (suc i) ms (append_all (keys m) i index)

abbrev pub text_keys : Mention → List Str
text_keys m = m.normalized_text ∷ []

-- An anchor of None or the empty string is none.
unfoldable pub anchor_of : Option Str → List Str
unfolding lower
anchor_of none = []
anchor_of (some []) = []
anchor_of (some (c ∷ s)) = lower (c ∷ s) ∷ []

unfoldable pub anchor_keys : Mention → List Str
unfolding anchor_of
anchor_keys m = anchor_of m.span.coref_anchor_value

abbrev pub word_keys : Mention → List Str
word_keys m = keep (λ w. leb 2 (length w)) m.words

-- mentions[i].words
abbrev pub words_at : List Mention → ℕ → List Str
words_at mentions i = elim (get_elem? mentions i) [ none ↦ [] | some m ↦ m.words ]

-- union(indices[0], indices[i])
abbrev pub star : List ℕ → List (ℕ × ℕ)
star [] = []
star (x ∷ xs) = map (λ y. (x, y)) xs

abbrev pub shares_word : List Mention → ℕ → ℕ → Bool
shares_word mentions i j = any (contains (words_at mentions j)) (words_at mentions i)

-- union(multi_word[0], si), where there are multi-word names.
abbrev pub star_of : List ℕ → List ℕ → List (ℕ × ℕ)
star_of [] ys = []
star_of (x ∷ xs) ys = map (λ y. (x, y)) ys

abbrev pub flat_map {ℓ κ} : {A : Type ℓ} {B : Type κ} → (A → List B) → List A → List B
flat_map f [] = []
flat_map f (x ∷ xs) = f x ++ flat_map f xs

-- The pairs of multi-word names with a shared word.
abbrev pub shared_pairs : List Mention → List ℕ → List (ℕ × ℕ)
shared_pairs mentions [] = []
shared_pairs mentions (i ∷ is) =
    map (λ j. (i, j)) (keep (shares_word mentions i) is) ++ shared_pairs mentions is

-- The unions of sieve 2 for the mentions of a word.
unfoldable pub word_links : List Mention → List ℕ → List (ℕ × ℕ)
unfolding contains
word_links mentions indices =
    let multi_word : List ℕ = keep (λ i. ltb 1 (length (words_at mentions i))) indices in
    let single_word : List ℕ = keep (λ i. length (words_at mentions i) == 1) indices in
    if ltb 1 (length indices)
    then star_of multi_word single_word ++ shared_pairs mentions multi_word
    else []

-- The unions of sieve 3 for the mentions with an anchor.
unfoldable pub anchor_links : Dict (List ℕ) → Str → List ℕ → List (ℕ × ℕ)
unfolding lookup
anchor_links text_index anchor indices = elim (lookup anchor text_index) [
  | none ↦ []
  | some anchor_indices ↦ flat_map (λ i. map (λ a. (i, a)) anchor_indices) indices
]

-- The calls of `union` that the sieves make, in their order.
unfoldable pub links : List Mention → List (ℕ × ℕ)
unfolding append_to anchor_keys word_links anchor_links
links mentions =
    let text_index = index_from text_keys 0 mentions [] in
    let coref_index = index_from anchor_keys 0 mentions [] in
    let word_index = index_from word_keys 0 mentions [] in
    flat_map (λ e. star e.1) text_index
    ++ (flat_map (λ e. word_links mentions e.1) word_index
        ++ flat_map (λ e. anchor_links text_index e.0 e.1) coref_index)

abbrev pub union_all : ℕ → List (ℕ × ℕ) → (ℕ → ℕ) → ℕ → ℕ
union_all fuel [] parent = parent
union_all fuel ((x, y) ∷ ls) parent = union_all fuel ls (union fuel x y parent)

-- {i: find(i) for i in range(n)}, from the index `i` on.
unfoldable pub find_from : ℕ → ℕ → ℕ → (ℕ → ℕ) → List (ℕ × ℕ)
unfolding find
find_from fuel i zero parent = []
find_from fuel i (suc n) parent =
    let (parent', root) = find fuel i parent in (i, root) ∷ find_from fuel (suc i) n parent'

-- `_apply_sieves`
unfoldable pub apply_sieves : List Mention → List (ℕ × ℕ)
unfolding links find_from union
apply_sieves mentions =
    let n : ℕ = length mentions in
    find_from (suc n) 0 n (union_all (suc n) (links mentions) (λ i. i))
