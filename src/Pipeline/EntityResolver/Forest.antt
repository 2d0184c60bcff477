-- ===== src/Pipeline/EntityResolver/Forest.antt =====
-- The union-find forest. `root` is the root of each index, and `depth` bounds the steps to it.
use openlabels.Prelude.{
  ℕ, zero, suc, ◌<◌, ◌≡◌, refl, sym, ◌≢◌, inl, inr, arith, ◌==◌, ==_iff, Bool-cases, if◌then◌else◌,
  ◌≤◌, ◌+◌, ap, ◌∙◌,
}
use mathlib.Core.Path.{fun_ext}
use openlabels.Pipeline.EntityResolver.{find, set_parent, Bool, true, false, union}

pub record IsForest (parent root depth : ℕ → ℕ) : Type 0 where
  pub top : (x : ℕ) → parent (root x) ≡ root x
  pub same : (x : ℕ) → root (parent x) ≡ root x
  pub fixed : (x : ℕ) → parent x ≡ x → root x ≡ x
  pub falls : (x : ℕ) → parent x ≢ x → depth (parent x) < depth x
  pub flat : (x : ℕ) → depth (root x) ≡ 0

-- A node may be hung on its root.
compress :
    (parent root depth : ℕ → ℕ) (x : ℕ)
    → IsForest parent root depth
    → 0 < depth x
    → IsForest (set_parent x (root x) parent) root depth
compress parent root depth x f deep = record {
  top = λ z. ground (arith, f.top z, f.fixed (root z), f.top x, f.fixed (root x));
  same = λ z. ground (arith, f.same z, f.fixed (root x), f.top x);
  fixed = λ z. ground (arith, f.fixed z);
  falls = λ z. ground (arith, f.falls z, f.flat x);
  flat = f.flat;
}

-- With fuel above the depth of a node, `find` gives its root, and leaves every root as it is.
pub find_lem :
    (root depth : ℕ → ℕ) (fuel x : ℕ) (parent : ℕ → ℕ)
    → IsForest parent root depth
    → depth x < fuel
    → ((find fuel x parent).1 ≡ root x) × IsForest (find fuel x parent).0 root depth
unfolding find
find_lem root depth zero x parent f h = absurd (omega arith)
find_lem root depth (suc fuel) x parent f h = elim (Bool-cases (parent x == x)) [
  | inl e ↦ rw (find, e) (sym (f.fixed x ((==_iff (parent x) x).0 e)), f)
  | inr e ↦
      let lower_ : depth (parent x) < depth x = f.falls x (λ q. ground arith) in
      let (found, f') = find_lem root depth fuel (parent x) parent f (omega arith) in
      rw (find, e, found, f.same x)
        (refl, compress (find fuel (parent x) parent).0 root depth x f' (omega arith))
]

-- The roots after the trees of two nodes are made one.
abbrev pub merge : (ℕ → ℕ) → ℕ → ℕ → ℕ → ℕ
merge root x y z = if root z == root x then root y else root z

abbrev deepen : (ℕ → ℕ) → (ℕ → ℕ) → ℕ → ℕ → ℕ
deepen root depth x z = if root z == root x then depth z + 1 else depth z

root-root :
    (parent root depth : ℕ → ℕ) → IsForest parent root depth → (x : ℕ) → root (root x) ≡ root x
root-root parent root depth f x = f.fixed (root x) (f.top x)

hang :
    (parent root depth : ℕ → ℕ) (x y : ℕ)
    → IsForest parent root depth
    → root x ≢ root y
    → IsForest (set_parent (root x) (root y) parent) (merge root x y) (deepen root depth x)
hang parent root depth x y f ne =
    let rx : root (root x) ≡ root x = root-root parent root depth f x in
    let ry : root (root y) ≡ root y = root-root parent root depth f y in
    record {
      top = λ z. ground (arith, f.top z, f.top y, f.top x);
      same = λ z. ground (arith, f.same z);
      fixed = λ z. ground (arith, f.fixed z);
      falls = λ z. ground (arith, f.falls z, f.same z, f.flat y);
      flat = λ z. ground (arith, f.flat z, f.flat y, root-root parent root depth f z);
    }

pub count_below : ℕ → (ℕ → Bool) → ℕ
count_below zero q = 0
count_below (suc n) q = if q n then suc (count_below n q) else count_below n q

count_below-le :
    (n : ℕ) (p q : ℕ → Bool)
    → ((z : ℕ) → q z ≡ true → p z ≡ true)
    → count_below n q ≤ count_below n p
unfolding count_below
count_below-le zero p q h = omega arith
count_below-le (suc n) p q h = ground (arith, h n, count_below-le n p q h)

count_below_lt :
    (n k : ℕ) (p q : ℕ → Bool)
    → ((z : ℕ) → q z ≡ true → p z ≡ true)
    → k < n
    → p k ≡ true
    → q k ≡ false
    → count_below n q < count_below n p
unfolding count_below
count_below_lt zero k p q h l a b = absurd (omega arith)
count_below_lt (suc n) k p q h l a b = elim (Bool-cases (n == k)) [
  | inl e ↦
      let same : n ≡ k = (==_iff n k).0 e in
      rw (same, a, b) (ground (arith, count_below-le k p q h))
  | inr e ↦
      let less : k < n = ground arith in ground (arith, h n, count_below_lt n k p q h less a b)
]

pub count_below-le_self : (n : ℕ) (q : ℕ → Bool) → count_below n q ≤ n
unfolding count_below
count_below-le_self zero q = omega arith
count_below-le_self (suc n) q = ground (arith, count_below-le_self n q)

abbrev pub roots : ℕ → (ℕ → ℕ) → ℕ
roots n root = count_below n (λ z. root z == z)

-- A forest of `n` nodes, no deeper than the roots that it has lost.
pub record Represents (n : ℕ) (parent root : ℕ → ℕ) : Type 0 where
  pub depth : ℕ → ℕ
  pub height : ℕ
  pub forest : IsForest parent root depth
  pub bound : (z : ℕ) → depth z ≤ height
  pub room : height + roots n root ≤ n
  pub inside : (z : ℕ) → z < n → root z < n

-- `find` with this fuel gives the root.
pub find-Represents :
    (n x : ℕ) (parent root : ℕ → ℕ)
    → Represents n parent root
    → ((find (suc n) x parent).1 ≡ root x) × Represents n (find (suc n) x parent).0 root
find-Represents n x parent root r =
    let deep : r.depth x < suc n = omega (arith, r.bound x, r.room) in
    let (found, f) = find_lem root r.depth (suc n) x parent r.forest deep in
    (
      found,
      record {
        depth = r.depth;
        height = r.height;
        forest = f;
        bound = r.bound;
        room = r.room;
        inside = r.inside;
      },
    )

merge_same : (root : ℕ → ℕ) (x y : ℕ) → root x ≡ root y → merge root x y ≡ root
merge_same root x y e = fun_ext (λ z. ground arith)

keeps_root :
    (root : ℕ → ℕ) (x y z : ℕ)
    → root (root y) ≡ root y
    → (merge root x y z == z) ≡ true
    → (root z == z) ≡ true
keeps_root root x y z ry h = elim (Bool-cases (root z == root x)) [
  | inl e ↦
      let here : root y ≡ z = (==_iff (root y) z).0 (rw e at h) in
      (==_iff (root z) z).1 (ap root (sym here) ∙ ry ∙ here)
  | inr e ↦ rw e at h
]

-- A union makes one tree of the trees of its nodes.
pub union-Represents :
    (n x y : ℕ) (parent root : ℕ → ℕ)
    → x < n
    → y < n
    → Represents n parent root
    → Represents n (union (suc n) x y parent) (merge root x y)
unfolding union
union-Represents n x y parent root lx ly r =
    let (ex, r1) = find-Represents n x parent root r in
    let p1 : ℕ → ℕ = (find (suc n) x parent).0 in
    let (ey, r2) = find-Represents n y p1 root r1 in
    let p2 : ℕ → ℕ = (find (suc n) y p1).0 in
    elim (Bool-cases (root x == root y)) [
      | inl e ↦ rw (union, ex, ey, e, merge_same root x y ((==_iff (root x) (root y)).0 e)) r2
      | inr e ↦
          let ne : root x ≢ root y = (λ q. ground arith) in
          let rx : root (root x) ≡ root x = root-root p2 root r2.depth r2.forest x in
          let ry : root (root y) ≡ root y = root-root p2 root r2.depth r2.forest y in
          rw (union, ex, ey, e)
            (record {
              depth = deepen root r2.depth x;
              height = r2.height + 1;
              forest = hang p2 root r2.depth x y r2.forest ne;
              bound = λ z. ground (arith, r2.bound z);
              room = omega (
                arith,
                r2.room,
                count_below_lt n (root x) (λ z. root z == z) (λ z. merge root x y z == z)
                    (λ z. keeps_root root x y z ry) (r2.inside x lx) (ground arith) (ground arith),
              );
              inside = λ z l. ground (arith, r2.inside z l, r2.inside y ly);
            })
    ]
