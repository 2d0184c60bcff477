-- ===== src/Pipeline/EntityResolver/Connected.antt =====
-- Unions, and the equivalence that they make.
use openlabels.Prelude.{
  ℕ, zero, suc, ◌<◌, ◌≡◌, refl, sym, ap, ◌∙◌, subst, ◌↔◌, inl, inr, List, [], ◌∷◌, arith, ◌==◌,
  if◌then◌else◌, ==_iff, Bool-cases, All,
}
use openlabels.Pipeline.EntityResolver.{find, union, union_all, find_from}
use openlabels.Pipeline.EntityResolver.Forest.{
  count_below-le_self, Represents, merge, find-Represents, union-Represents,
}

-- The equivalence that a relation generates.
pub data Connected (R : ℕ → ℕ → Type 0) : ℕ → ℕ → Type 0 where
  here : (i : ℕ) → Connected R i i
  link : {i j : ℕ} → R i j → Connected R i j
  back : {i j : ℕ} → Connected R i j → Connected R j i
  both : {i j k : ℕ} → Connected R i j → Connected R j k → Connected R i k

-- What respects the relation respects its equivalence.
pub Connected-respects :
    (R : ℕ → ℕ → Type 0) (f : ℕ → ℕ)
    → ((i j : ℕ) → R i j → f i ≡ f j)
    → {i j : ℕ} → Connected R i j
    → f i ≡ f j
Connected-respects R f h (here i) = refl
Connected-respects R f h (link r) = h _ _ r
Connected-respects R f h (back c) = sym (Connected-respects R f h c)
Connected-respects R f h (both c d) = Connected-respects R f h c ∙ Connected-respects R f h d

-- At first each node is its own root.
initial-Represents : (n : ℕ) → Represents n (λ i. i) (λ i. i)
initial-Represents n = record {
  depth = λ i. 0;
  height = 0;
  forest = record {
    top = λ x. refl;
    same = λ x. refl;
    fixed = λ x e. refl;
    falls = λ x ne. absurd (ne refl);
    flat = λ x. refl;
  };
  bound = λ z. omega arith;
  room = omega (arith, count_below-le_self n (λ z. z == z));
  inside = λ z l. l;
}

merge-Connected :
    (R : ℕ → ℕ → Type 0) (root : ℕ → ℕ) (x y : ℕ)
    → ((i : ℕ) → Connected R i (root i))
    → Connected R x y
    → (i : ℕ) → Connected R i (merge root x y i)
merge-Connected R root x y k c i = elim (Bool-cases (root i == root x)) [
  | inl e ↦
      let same : root i ≡ root x = (==_iff (root i) (root x)).0 e in
      rw e (both (subst (λ z. Connected R i z) same (k i)) (both (back (k x)) (both c (k y))))
  | inr e ↦ rw e (k i)
]

merge_coarser : (root : ℕ → ℕ) (x y i j : ℕ) → root i ≡ root j → merge root x y i ≡ merge root x y j
merge_coarser root x y i j e = ap (λ (z : ℕ). if z == root x then root y else z) e

merge_joins : (root : ℕ → ℕ) (x y : ℕ) → merge root x y x ≡ merge root x y y
merge_joins root x y = ground arith

abbrev pub IsPair : ℕ → ℕ × ℕ → Type 0
IsPair n (x, y) = (x < n) × (y < n)

-- What a sequence of unions makes of the roots.
record Unites (R : ℕ → ℕ → Type 0) (n : ℕ) (ls : List (ℕ × ℕ)) (parent root : ℕ → ℕ) : Type 0 where
  pub root' : ℕ → ℕ
  pub result : Represents n parent root'
  pub coarser : (i j : ℕ) → root i ≡ root j → root' i ≡ root' j
  pub joined : All (λ l. root' l.0 ≡ root' l.1) ls
  pub connected : (i : ℕ) → Connected R i (root' i)

union_all-Unites :
    (R : ℕ → ℕ → Type 0) (n : ℕ) (ls : List (ℕ × ℕ)) (parent root : ℕ → ℕ)
    → All (IsPair n) ls
    → All (λ l. Connected R l.0 l.1) ls
    → ((i : ℕ) → Connected R i (root i))
    → Represents n parent root
    → Unites R n ls (union_all (suc n) ls parent) root
union_all-Unites R n [] parent root l c k r = record {
  root' = root;
  result = r;
  coarser = λ i j e. e;
  joined = tt;
  connected = k;
}
union_all-Unites R n ((x, y) ∷ ls) parent root l c k r =
    let step : Represents n (union (suc n) x y parent) (merge root x y) =
      union-Represents n x y parent root l.0.0 l.0.1 r in
    let rest : Unites R n ls (union_all (suc n) ls (union (suc n) x y parent)) (merge root x y) =
      union_all-Unites R n ls (union (suc n) x y parent) (merge root x y) l.1 c.1
        (merge-Connected R root x y k c.0) step in
    record {
      root' = rest.root';
      result = rest.result;
      coarser = λ i j e. rest.coarser i j (merge_coarser root x y i j e);
      joined = (rest.coarser x y (merge_joins root x y), rest.joined);
      connected = rest.connected;
    }

-- The roots of `k` indices from `i` on.
abbrev pub roots_from : (ℕ → ℕ) → ℕ → ℕ → List (ℕ × ℕ)
roots_from root i zero = []
roots_from root i (suc k) = (i, root i) ∷ roots_from root (suc i) k

-- Of the list of roots that `find` gives: the root of each index in turn.
find_from-Represents :
    (n i k : ℕ) (parent root : ℕ → ℕ)
    → Represents n parent root
    → find_from (suc n) i k parent ≡ roots_from root i k
unfolding find_from
find_from-Represents n i zero parent root r = refl
find_from-Represents n i (suc k) parent root r =
    let (found, r') = find-Represents n i parent root r in
    rw (find_from, found)
      (ap (◌∷◌ (i, root i)) (find_from-Represents n (suc i) k (find (suc n) i parent).0 root r'))

-- The unions of a list of pairs of indices below `n` give the indices roots that are equal exactly for those that
-- the pairs connect, and `find` reads these roots.
pub union_all_lem :
    (R : ℕ → ℕ → Type 0) (n : ℕ) (ls : List (ℕ × ℕ))
    → All (IsPair n) ls
    → All (λ l. Connected R l.0 l.1) ls
    → ((f : ℕ → ℕ) → All (λ l. f l.0 ≡ f l.1) ls → (i j : ℕ) → R i j → f i ≡ f j)
    → (root : ℕ → ℕ) × (find_from (suc n) 0 n (union_all (suc n) ls (λ i. i)) ≡ roots_from root 0 n)
      × ((i j : ℕ) → (root i ≡ root j) ↔ Connected R i j)
union_all_lem R n ls l c complete =
    let u : Unites R n ls (union_all (suc n) ls (λ i. i)) (λ i. i) =
      union_all-Unites R n ls (λ i. i) (λ i. i) l c (λ i. here i) (initial-Represents n) in
    (
      u.root',
      find_from-Represents n 0 n (union_all (suc n) ls (λ i. i)) u.root' u.result,
      λ i j. (
        (λ e. both (subst (λ z. Connected R i z) e (u.connected i)) (back (u.connected j))),
        (λ k. Connected-respects R u.root' (complete u.root' u.joined) k),
      ),
    )
