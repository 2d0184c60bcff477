-- ===== src/Prelude/Sort.antt =====
-- Python's stable `sorted(xs, key=...)`: `less a b` says that the key of `a` is below that of `b`.
use mathlib.Core.Path.{◌≡◌, refl}
use mathlib.Core.Logic.{◌⊎◌, inl, inr}
use mathlib.Core.Bool.{Bool, true, false}
use mathlib.Core.List.{List, [], ◌∷◌, Perm}
use mathlib.Core.List.Perm
use openlabels.Prelude.Tests.{if◌then◌else◌, Bool-cases}
use openlabels.Prelude.Lists.{All, Any}

module _ {ℓ} {A : Type ℓ} (less : A → A → Bool) where
  -- The new element goes before those with an equal key.
  unfoldable pub insert : A → List A → List A
  insert x [] = x ∷ []
  insert x (y ∷ ys) = if less y x then y ∷ insert x ys else x ∷ y ∷ ys

  unfoldable pub sort : List A → List A
  unfolding insert
  sort [] = []
  sort (x ∷ xs) = insert x (sort xs)

  -- No element has a key below its predecessor's.
  abbrev pub IsInOrder : List A → Type 0
  IsInOrder [] = Unit
  IsInOrder (x ∷ []) = Unit
  IsInOrder (x ∷ y ∷ ys) = (less y x ≡ false) × IsInOrder (y ∷ ys)

  insert-perm : (x : A) (ys : List A) → Perm (insert x ys) (x ∷ ys)
  unfolding insert
  insert-perm x [] = Perm.rfl
  insert-perm x (y ∷ ys) = elim (Bool-cases (less y x)) [
    | inl e ↦ rw e (Perm.trans (Perm.cons y (insert-perm x ys)) (Perm.swap x y ys))
    | inr e ↦ rw e Perm.rfl
  ]

  -- The result is a rearrangement of the input.
  pub sort-perm : (xs : List A) → Perm (sort xs) xs
  unfolding sort
  sort-perm [] = Perm.rfl
  sort-perm (x ∷ xs) = Perm.trans (insert-perm x (sort xs)) (Perm.cons x (sort-perm xs))

  -- A list that is in order is returned unchanged.
  pub sort_of_IsInOrder : (xs : List A) → IsInOrder xs → sort xs ≡ xs
  unfolding sort insert
  sort_of_IsInOrder [] h = refl
  sort_of_IsInOrder (x ∷ []) h = refl
  sort_of_IsInOrder (x ∷ y ∷ ys) h = rw (sort_of_IsInOrder (y ∷ ys) h.1, h.0)

  insert-IsInOrder :
      ((a b : A) → less a b ≡ true → less b a ≡ false)
      → (x : A) (ys : List A) → IsInOrder ys
      → IsInOrder (insert x ys)
  unfolding insert
  insert-IsInOrder asym x [] h = tt
  insert-IsInOrder asym x (y ∷ []) h = elim (Bool-cases (less y x)) [
    | inl e ↦ rw e (asym y x e, tt)
    | inr e ↦ rw e (e, tt)
  ]
  insert-IsInOrder asym x (y ∷ z ∷ zs) h = elim (Bool-cases (less y x)) [
    | inr e ↦ rw e (e, h)
    | inl e ↦ elim (Bool-cases (less z x)) [
      | inl f ↦ let rest = insert-IsInOrder asym x (z ∷ zs) h.1 in rw (e, f) (h.0, rw f at rest)
      | inr f ↦ rw (e, f) (asym y x e, (f, h.1))
    ]
  ]

  -- With an asymmetric comparison the result is in order.
  pub sort-IsInOrder :
      ((a b : A) → less a b ≡ true → less b a ≡ false) → (xs : List A) → IsInOrder (sort xs)
  unfolding sort
  sort-IsInOrder asym [] = tt
  sort-IsInOrder asym (x ∷ xs) = insert-IsInOrder asym x (sort xs) (sort-IsInOrder asym xs)

  pub insert-All : (P : A → Type 0) (x : A) (ys : List A) → P x → All P ys → All P (insert x ys)
  unfolding insert
  insert-All P x [] p h = (p, tt)
  insert-All P x (y ∷ ys) p h = elim (Bool-cases (less y x)) [
    | inl e ↦ rw e (h.0, insert-All P x ys p h.1)
    | inr e ↦ rw e (p, h)
  ]

  pub sort-All : (P : A → Type 0) (xs : List A) → All P xs → All P (sort xs)
  unfolding sort
  sort-All P [] h = tt
  sort-All P (x ∷ xs) h = insert-All P x (sort xs) h.0 (sort-All P xs h.1)

  insert-Any : (P : A → Type 0) (x : A) (ys : List A) → Any P (insert x ys) → P x ⊎ Any P ys
  unfolding insert
  insert-Any P x [] h = h
  insert-Any P x (y ∷ ys) h = elim (Bool-cases (less y x)) [
    | inr e ↦ rw e at h
    | inl e ↦ elim (rw e at h) [
      | inl p ↦ inr (inl p)
      | inr r ↦ elim (insert-Any P x ys r) [ inl p ↦ inl p | inr q ↦ inr (inr q) ]
    ]
  ]

  pub sort-Any : (P : A → Type 0) (xs : List A) → Any P (sort xs) → Any P xs
  unfolding sort
  sort-Any P [] h = h
  sort-Any P (x ∷ xs) h = elim (insert-Any P x (sort xs) h) [
    | inl p ↦ inl p
    | inr r ↦ inr (sort-Any P xs r)
  ]

  Any-insert : (P : A → Type 0) (x : A) (ys : List A) → P x ⊎ Any P ys → Any P (insert x ys)
  unfolding insert
  Any-insert P x [] h = h
  Any-insert P x (y ∷ ys) h = elim (Bool-cases (less y x)) [
    | inr e ↦ rw e h
    | inl e ↦ rw e (elim h [
      | inl p ↦ inr (Any-insert P x ys (inl p))
      | inr (inl q) ↦ inl q
      | inr (inr r) ↦ inr (Any-insert P x ys (inr r))
    ])
  ]

  pub Any-sort : (P : A → Type 0) (xs : List A) → Any P xs → Any P (sort xs)
  unfolding sort
  Any-sort P [] h = h
  Any-sort P (x ∷ xs) (inl h) = Any-insert P x (sort xs) (inl h)
  Any-sort P (x ∷ xs) (inr h) = Any-insert P x (sort xs) (inr (Any-sort P xs h))
