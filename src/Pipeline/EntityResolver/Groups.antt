-- ===== src/Pipeline/EntityResolver/Groups.antt =====
-- The groups of mentions that the sieves leave.
use openlabels.Prelude.{
  ℕ, ◌≡◌, refl, sym, ap, ◌∙◌, subst, inl, inr, Bool, true, false, List, [], ◌∷◌, ◌++◌, map, arith,
  ltb, ◌==◌, Bool-cases, length, keep, All, Any, any, Any-keep, keep-All,
}
use openlabels.Prelude.Text.{Str, str_eq, str_eq→eq, contains}
use openlabels.Pipeline.EntityResolver.{
  Mention, words_at, star, star_of, shares_word, shared_pairs, word_links, flat_map,
}

module _ {B : Type 0} (P : B → Type 0) where
  pub append-All : (xs ys : List B) → All P (xs ++ ys) → All P xs × All P ys
  append-All [] ys h = (tt, h)
  append-All (x ∷ xs) ys h = let (a, b) = append-All xs ys h.1 in ((h.0, a), b)

  pub flat_map-All :
      {A : Type 0} (f : A → List B) (xs : List A)
      → All P (flat_map f xs)
      → All (λ x. All P (f x)) xs
  flat_map-All f [] h = tt
  flat_map-All f (x ∷ xs) h =
      let (a, b) = append-All (f x) (flat_map f xs) h in (a, flat_map-All f xs b)

  map-All : {A : Type 0} (f : A → B) (xs : List A) → All P (map f xs) → All (λ x. P (f x)) xs
  map-All f [] h = tt
  map-All f (x ∷ xs) h = (h.0, map-All f xs h.1)

pub pick : (P : ℕ → Type 0) (xs : List ℕ) (i : ℕ) → All P xs → Any (λ j. j ≡ i) xs → P i
pick P [] i h a = absurd a
pick P (x ∷ xs) i h (inl e) = subst P e h.0
pick P (x ∷ xs) i h (inr a) = pick P xs i h.1 a

shares_lem :
    (s t : List Str) (w : Str)
    → contains s w ≡ true
    → contains t w ≡ true
    → any (contains t) s ≡ true
unfolding contains
shares_lem [] t w h k = absurd (cc)
shares_lem (v ∷ s) t w h k = elim (Bool-cases (str_eq v w)) [
  | inl e ↦ let here : contains t v ≡ true = ap (contains t) (str_eq→eq v w e) ∙ k in rw here refl
  | inr e ↦ ground (arith, shares_lem s t w (rw e at h) k)
]

one_word :
    (words : List Str) (w : Str)
    → contains words w ≡ true
    → ltb 1 (length words) ≡ false
    → (length words == 1) ≡ true
unfolding contains
one_word [] w h e = absurd (cc)
one_word (v ∷ words) w h e = ground arith

-- A function that is equal on the two sides of each pair.
module _ (f : ℕ → ℕ) where
  abbrev pub Joins : ℕ × ℕ → Type 0
  Joins l = f l.0 ≡ f l.1

  pub star_head :
      (x : ℕ) (ys : List ℕ) (i : ℕ)
      → All Joins (map (λ y. (x, y)) ys)
      → Any (λ j. j ≡ i) ys
      → f x ≡ f i
  star_head x ys i h a = pick (λ j. f x ≡ f j) ys i (map-All Joins (λ y. (x, y)) ys h) a

  pub star_joined :
      (is : List ℕ) (i j : ℕ)
      → All Joins (star is)
      → Any (λ k. k ≡ i) is
      → Any (λ k. k ≡ j) is
      → f i ≡ f j
  star_joined [] i j h a b = absurd a
  star_joined (x ∷ is) i j h (inl a) (inl b) = ap f (sym a ∙ b)
  star_joined (x ∷ is) i j h (inl a) (inr b) = ap f (sym a) ∙ star_head x is j h b
  star_joined (x ∷ is) i j h (inr a) (inl b) = sym (star_head x is i h a) ∙ ap f b
  star_joined (x ∷ is) i j h (inr a) (inr b) = sym (star_head x is i h a) ∙ star_head x is j h b

  shared_head :
      (ms : List Mention) (w : Str) (x : ℕ) (is : List ℕ) (i : ℕ)
      → contains (words_at ms x) w ≡ true
      → contains (words_at ms i) w ≡ true
      → All Joins (shared_pairs ms (x ∷ is))
      → Any (λ k. k ≡ i) is
      → f x ≡ f i
  shared_head ms w x is i cx ci h a =
      star_head x (keep (shares_word ms x) is) i
        (append-All Joins (map (λ j. (x, j)) (keep (shares_word ms x) is)) (shared_pairs ms is) h).0
        (Any-keep (λ k. k ≡ i) (shares_word ms x) is
          (λ k e. ap (shares_word ms x) e ∙ shares_lem (words_at ms x) (words_at ms i) w cx ci) a)

  -- Multi-word names that have one word are all joined.
  shared_joined :
      (ms : List Mention) (w : Str) (is : List ℕ) (i j : ℕ)
      → All (λ k. contains (words_at ms k) w ≡ true) is
      → All Joins (shared_pairs ms is)
      → Any (λ k. k ≡ i) is
      → Any (λ k. k ≡ j) is
      → f i ≡ f j
  shared_joined ms w [] i j c h a b = absurd a
  shared_joined ms w (x ∷ is) i j c h a b = joined_at a b
    where
      has : (k : ℕ) → Any (λ l. l ≡ k) is → contains (words_at ms k) w ≡ true
      has k m = pick (λ l. contains (words_at ms l) w ≡ true) is k c.1 m

      joined_at : Any (λ k. k ≡ i) (x ∷ is) → Any (λ k. k ≡ j) (x ∷ is) → f i ≡ f j
      joined_at (inl a) (inl b) = ap f (sym a ∙ b)
      joined_at (inl a) (inr b) = ap f (sym a) ∙ shared_head ms w x is j c.0 (has j b) h b
      joined_at (inr a) (inl b) = sym (shared_head ms w x is i c.0 (has i a) h a) ∙ ap f b
      joined_at (inr a) (inr b) =
          sym (shared_head ms w x is i c.0 (has i a) h a)
          ∙ shared_head ms w x is j c.0 (has j b) h b

  star_of_joined :
      (xs ys : List ℕ) (i j : ℕ)
      → All Joins (star_of xs ys)
      → ((x : ℕ) → Any (λ k. k ≡ x) xs → f i ≡ f x)
      → Any (λ k. k ≡ i) xs
      → Any (λ k. k ≡ j) ys
      → f i ≡ f j
  star_of_joined [] ys i j h e a b = absurd a
  star_of_joined (x ∷ xs) ys i j h e a b = e x (inl refl) ∙ star_head x ys j h b

  short_joined :
      (is : List ℕ) (i j : ℕ)
      → ltb 1 (length is) ≡ false
      → Any (λ k. k ≡ i) is
      → Any (λ k. k ≡ j) is
      → f i ≡ f j
  short_joined [] i j h a b = absurd a
  short_joined (x ∷ []) i j h (inl a) (inl b) = ap f (sym a ∙ b)
  short_joined (x ∷ []) i j h (inl a) (inr b) = absurd b
  short_joined (x ∷ []) i j h (inr a) b = absurd a
  short_joined (x ∷ y ∷ is) i j h a b = absurd (ground arith)

  pub word_joined :
      (ms : List Mention) (w : Str) (is : List ℕ) (i j : ℕ)
      → All (λ k. contains (words_at ms k) w ≡ true) is
      → All Joins (word_links ms is)
      → ltb 1 (length (words_at ms i)) ≡ true
      → Any (λ k. k ≡ i) is
      → Any (λ k. k ≡ j) is
      → f i ≡ f j
  unfolding word_links
  word_joined ms w is i j c h m a b = elim (Bool-cases (ltb 1 (length is))) [
    | inr e ↦ short_joined is i j e a b
    | inl e ↦
        let many : ℕ → Bool = λ k. ltb 1 (length (words_at ms k)) in
        let one_ : ℕ → Bool = λ k. length (words_at ms k) == 1 in
        let (stars, shared) : All Joins (star_of (keep many is) (keep one_ is))
            × All Joins (shared_pairs ms (keep many is)) =
          append-All Joins (star_of (keep many is) (keep one_ is)) (shared_pairs ms (keep many is))
            (rw (word_links, e) at h) in
        let among : (k : ℕ) → Any (λ l. l ≡ k) (keep many is) → f i ≡ f k = λ k n.
          shared_joined ms w (keep many is) i k
            (keep-All many (λ l. contains (words_at ms l) w ≡ true) is c) shared
            (Any-keep (λ l. l ≡ i) many is (λ l q. ap many q ∙ m) a) n in
        elim (Bool-cases (many j)) [
          | inl g ↦ among j (Any-keep (λ l. l ≡ j) many is (λ l q. ap many q ∙ g) b)
          | inr g ↦
              let single : one_ j ≡ true =
                one_word (words_at ms j) w (pick (λ l. contains (words_at ms l) w ≡ true) is j c b)
                  g in
              star_of_joined (keep many is) (keep one_ is) i j stars among
                (Any-keep (λ l. l ≡ i) many is (λ l q. ap many q ∙ m) a)
                (Any-keep (λ l. l ≡ j) one_ is (λ l q. ap one_ q ∙ single) b)
        ]
  ]
