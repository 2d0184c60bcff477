-- ===== src/Prelude/Lists.antt =====
-- Lists measured and cut by native numbers, under the library's names.
use Prim.Native.Nat.{ℕ, zero, suc, ◌+◌, ◌-◌, ◌≤◌, min}
use mathlib.Core.Path.{◌≡◌, refl, ap}
use mathlib.Core.Logic.{◌⊎◌, inl, inr}
use mathlib.Core.Bool.{Bool, true, false, ◌&&◌, ◌||◌}
use mathlib.Core.Option.{Option, none, some}
use mathlib.Core.List.{List, [], ◌∷◌, ◌++◌, map, reverse_aux}
use native.Mathlib.Omega.{arith}
use openlabels.Prelude.Tests.{if◌then◌else◌, Bool-cases}

module _ {ℓ} {A : Type ℓ} where
  abbrev pub length : List A → ℕ
  length [] = 0
  length (x ∷ xs) = suc (length xs)

  abbrev pub get_elem? : List A → ℕ → Option A
  get_elem? [] i = none
  get_elem? (x ∷ xs) zero = some x
  get_elem? (x ∷ xs) (suc i) = get_elem? xs i

  abbrev pub take : ℕ → List A → List A
  take zero xs = []
  take (suc n) [] = []
  take (suc n) (x ∷ xs) = x ∷ take n xs

  abbrev pub drop : ℕ → List A → List A
  drop zero xs = xs
  drop (suc n) [] = []
  drop (suc n) (x ∷ xs) = drop n xs

  -- `xs[i:j]`
  abbrev pub slice : List A → ℕ → ℕ → List A
  slice xs i j = take (j - i) (drop i xs)

  -- A comprehension with a condition.
  abbrev pub keep : (A → Bool) → List A → List A
  keep p [] = []
  keep p (x ∷ xs) = if p x then x ∷ keep p xs else keep p xs

  -- `P` holds of every element, of some element.
  abbrev pub All : (A → Type 0) → List A → Type 0
  All P [] = Unit
  All P (x ∷ xs) = P x × All P xs

  abbrev pub Any : (A → Type 0) → List A → Type 0
  Any P [] = ⊥
  Any P (x ∷ xs) = P x ⊎ Any P xs

  pub length-append : (xs ys : List A) → length (xs ++ ys) ≡ length xs + length ys
  length-append [] ys = omega arith
  length-append (x ∷ xs) ys = omega (arith, length-append xs ys)

  pub length-take : (n : ℕ) (xs : List A) → length (take n xs) ≡ min n (length xs)
  length-take zero xs = omega arith
  length-take (suc n) [] = omega arith
  length-take (suc n) (x ∷ xs) = omega (arith, length-take n xs)

  pub length-drop : (n : ℕ) (xs : List A) → length (drop n xs) ≡ length xs - n
  length-drop zero xs = omega arith
  length-drop (suc n) [] = omega arith
  length-drop (suc n) (x ∷ xs) = omega (arith, length-drop n xs)

  drop-empty : (n : ℕ) → drop n ([]) ≡ ([])
  drop-empty zero = refl
  drop-empty (suc n) = refl

  take-empty : (n : ℕ) → take n ([]) ≡ ([])
  take-empty zero = refl
  take-empty (suc n) = refl

module _ {ℓ} {A : Type ℓ} where
  take-append-take :
      (m n k : ℕ) (xs : List A) → m + n ≡ k → take m xs ++ take n (drop m xs) ≡ take k xs
  take-append-take zero n k xs e = ap (λ (j : ℕ). take j xs) (omega arith)
  take-append-take (suc m) n zero xs e = absurd (omega arith)
  take-append-take (suc m) n (suc k) [] e = take-empty n
  take-append-take (suc m) n (suc k) (x ∷ xs) e =
      ap (◌∷◌ x) (take-append-take m n k xs (omega arith))

  drop-drop : (m n k : ℕ) (xs : List A) → m + n ≡ k → drop n (drop m xs) ≡ drop k xs
  drop-drop zero n k xs e = ap (λ (j : ℕ). drop j xs) (omega arith)
  drop-drop (suc m) n zero xs e = absurd (omega arith)
  drop-drop (suc m) n (suc k) [] e = drop-empty n
  drop-drop (suc m) n (suc k) (x ∷ xs) e = drop-drop m n k xs (omega arith)

  drop-take : (d n k : ℕ) (xs : List A) → d + k ≡ n → drop d (take n xs) ≡ take k (drop d xs)
  drop-take zero n k xs e = ap (λ (j : ℕ). take j xs) (omega arith)
  drop-take (suc d) zero k xs e = absurd (omega arith)
  drop-take (suc d) (suc n) k [] e = rw take-empty
  drop-take (suc d) (suc n) k (x ∷ xs) e = drop-take d n k xs (omega arith)

  -- Two overlapping slices, the second without the characters that they share, make one slice.
  pub slice-append-drop :
      (xs : List A) {i k j m : ℕ}
      → i ≤ k
      → k ≤ j
      → j ≤ m
      → slice xs i j ++ drop (j - k) (slice xs k m) ≡ slice xs i m
  slice-append-drop xs {i} {k} {j} {m} p q r =
      rw
        (
          drop-take (j - k) (m - k) (m - j) (drop k xs) (omega arith),
          drop-drop k (j - k) j xs (omega arith),
          ← drop-drop i (j - i) j xs (omega arith),
        )
        (take-append-take (j - i) (m - j) (m - i) (drop i xs) (omega arith))

module _ {ℓ} {A : Type ℓ} where
  -- `all(p(x) for x in xs)` and `any(p(x) for x in xs)`
  abbrev pub all : (A → Bool) → List A → Bool
  all p [] = true
  all p (x ∷ xs) = p x && all p xs

  abbrev pub any : (A → Bool) → List A → Bool
  any p [] = false
  any p (x ∷ xs) = p x || any p xs

module _ {ℓ} {A : Type ℓ} (p : A → Bool) where
  pub keep-All : (P : A → Type 0) (xs : List A) → All P xs → All P (keep p xs)
  keep-All P [] h = tt
  keep-All P (x ∷ xs) h = elim (Bool-cases (p x)) [
    | inl e ↦ rw e (h.0, keep-All P xs h.1)
    | inr e ↦ rw e (keep-All P xs h.1)
  ]

  pub keep-true : (xs : List A) → All (λ x. p x ≡ true) (keep p xs)
  keep-true [] = tt
  keep-true (x ∷ xs) = elim (Bool-cases (p x)) [
    | inl e ↦ rw e (e, keep-true xs)
    | inr e ↦ rw e (keep-true xs)
  ]

  pub keep_of_All : (xs : List A) → All (λ x. p x ≡ true) xs → keep p xs ≡ xs
  keep_of_All [] h = refl
  keep_of_All (x ∷ xs) h = rw (h.0, keep_of_All xs h.1)

  pub keep-Any : (P : A → Type 0) (xs : List A) → Any P (keep p xs) → Any P xs
  keep-Any P [] h = h
  keep-Any P (x ∷ xs) h = elim (Bool-cases (p x)) [
    | inl e ↦ elim (rw e at h) [ inl q ↦ inl q | inr r ↦ inr (keep-Any P xs r) ]
    | inr e ↦ inr (keep-Any P xs (rw e at h))
  ]

module _ {ℓ} {A : Type ℓ} (P : A → Type 0) where
  pub All-map : (Q : A → Type 0) (xs : List A) → ((x : A) → P x → Q x) → All P xs → All Q xs
  All-map Q [] f h = tt
  All-map Q (x ∷ xs) f h = (f x h.0, All-map Q xs f h.1)

  pub reverse_aux-All : (xs acc : List A) → All P xs → All P acc → All P (reverse_aux xs acc)
  reverse_aux-All [] acc h k = k
  reverse_aux-All (x ∷ xs) acc h k = reverse_aux-All xs (x ∷ acc) h.1 (h.0, k)

  pub reverse_aux-Any : (xs acc : List A) → Any P (reverse_aux xs acc) → Any P xs ⊎ Any P acc
  reverse_aux-Any [] acc h = inr h
  reverse_aux-Any (x ∷ xs) acc h = elim (reverse_aux-Any xs (x ∷ acc) h) [
    | inl q ↦ inl (inr q)
    | inr (inl q) ↦ inl (inl q)
    | inr (inr q) ↦ inr q
  ]

  pub Any-reverse_aux : (xs acc : List A) → Any P xs ⊎ Any P acc → Any P (reverse_aux xs acc)
  Any-reverse_aux [] acc (inl h) = absurd h
  Any-reverse_aux [] acc (inr h) = h
  Any-reverse_aux (x ∷ xs) acc (inl (inl h)) = Any-reverse_aux xs (x ∷ acc) (inr (inl h))
  Any-reverse_aux (x ∷ xs) acc (inl (inr h)) = Any-reverse_aux xs (x ∷ acc) (inl h)
  Any-reverse_aux (x ∷ xs) acc (inr h) = Any-reverse_aux xs (x ∷ acc) (inr (inr h))

  pub Any-keep :
      (p : A → Bool) (xs : List A) → ((x : A) → P x → p x ≡ true) → Any P xs → Any P (keep p xs)
  Any-keep p [] f h = h
  Any-keep p (x ∷ xs) f (inl h) = rw (f x h) (inl h)
  Any-keep p (x ∷ xs) f (inr h) = elim (Bool-cases (p x)) [
    | inl e ↦ rw e (inr (Any-keep p xs f h))
    | inr e ↦ rw e (Any-keep p xs f h)
  ]

module _ {ℓ} {A : Type ℓ} (p : A → Bool) where
  pub keep-append : (xs ys : List A) → keep p (xs ++ ys) ≡ keep p xs ++ keep p ys
  keep-append [] ys = refl
  keep-append (x ∷ xs) ys = elim (Bool-cases (p x)) [
    | inl e ↦ rw (e, keep-append xs ys)
    | inr e ↦ rw (e, keep-append xs ys)
  ]

pub length-map {ℓ κ} :
    {A : Type ℓ} {B : Type κ} (f : A → B) (xs : List A) → length (map f xs) ≡ length xs
length-map f [] = refl
length-map f (x ∷ xs) = ap suc (length-map f xs)
