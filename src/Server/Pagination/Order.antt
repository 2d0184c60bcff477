-- ===== src/Server/Pagination/Order.antt =====
-- Rows in the order of the query.
use openlabels.Prelude.{
  ◌≡◌, refl, inl, inr, true, false, List, [], ◌∷◌, arith, ◌==◌, Bool-cases, All, All-map,
  keep_of_All, keep-All, Bool, ℕ, ◌++◌, keep, length, some, take, ◌≤◌, ap, drop, if◌then◌else◌, suc,
  sym, ◌∙◌, zero,
}
use openlabels.Prelude.Sort.{sort, insert, insert-All, sort-All, IsInOrder, sort-IsInOrder}
use openlabels.Server.Pagination.{Row, newer, last?}

-- No two rows have one identifier.
abbrev pub IsKeyed : List Row → Type 0
IsKeyed [] = Unit
IsKeyed (r ∷ rows) = All (λ s. (s.id == r.id) ≡ false) rows × IsKeyed rows

-- Each row is newer than all that follow.
abbrev pub IsStrict : List Row → Type 0
IsStrict [] = Unit
IsStrict (r ∷ rows) = All (λ s. newer r s ≡ true) rows × IsStrict rows

insert-IsKeyed :
    (x : Row) (rows : List Row)
    → All (λ s. (s.id == x.id) ≡ false) rows
    → IsKeyed rows
    → IsKeyed (insert newer x rows)
unfolding insert
insert-IsKeyed x [] h k = (tt, tt)
insert-IsKeyed x (y ∷ rows) h k = elim (Bool-cases (newer y x)) [
  | inr e ↦ rw (insert, e) (h, k)
  | inl e ↦
      rw (insert, e)
        (
          insert-All newer (λ s. (s.id == y.id) ≡ false) x rows (ground arith) k.0,
          insert-IsKeyed x rows h.1 k.1,
        )
]

sort-IsKeyed : (rows : List Row) → IsKeyed rows → IsKeyed (sort newer rows)
unfolding sort
sort-IsKeyed [] k = tt
sort-IsKeyed (r ∷ rows) k =
    insert-IsKeyed r (sort newer rows) (sort-All newer (λ s. (s.id == r.id) ≡ false) rows k.0)
      (sort-IsKeyed rows k.1)

newer_trans : (a b c : Row) → newer a b ≡ true → newer b c ≡ true → newer a c ≡ true
newer_trans a b c h h' = ground arith

IsStrict-of_order : (rows : List Row) → IsKeyed rows → IsInOrder newer rows → IsStrict rows
IsStrict-of_order [] k o = tt
IsStrict-of_order (r ∷ []) k o = (tt, tt)
IsStrict-of_order (r ∷ s ∷ rows) k o =
    let rest : IsStrict (s ∷ rows) = IsStrict-of_order (s ∷ rows) k.1 o.1 in
    let first : newer r s ≡ true = total r s k.0.0 o.0 in
    (
      (
        first,
        All-map (λ x. newer s x ≡ true) (λ x. newer r x ≡ true) rows
            (λ x e. newer_trans r s x first e) rest.0,
      ),
      rest,
    )
  where
    total : (a b : Row) → (b.id == a.id) ≡ false → newer b a ≡ false → newer a b ≡ true
    total a b h o = ground arith

newer-weak : (a b c : Row) → newer b a ≡ false → newer c b ≡ false → newer c a ≡ false
newer-weak a b c h h' = ground arith

insert_first :
    (x : Row) (rows : List Row) → All (λ s. newer s x ≡ false) rows → insert newer x rows ≡ x ∷ rows
unfolding insert
insert_first x [] h = refl
insert_first x (y ∷ rows) h = rw (insert, h.0) refl

none_newer :
    (x : Row) (rows : List Row)
    → IsStrict rows
    → All (λ s. newer x s ≡ true) rows
    → All (λ s. newer s x ≡ false) rows
none_newer x rows s h =
    All-map (λ s. newer x s ≡ true) (λ s. newer s x ≡ false) rows (λ y e. ground arith) h

insert_past :
    (x y : Row) (rows : List Row)
    → newer y x ≡ true
    → insert newer x (y ∷ rows) ≡ y ∷ insert newer x rows
unfolding insert
insert_past x y rows e = rw (insert, e) refl

insert-keep :
    (p : Row → Bool) (x : Row) (rows : List Row)
    → IsStrict rows
    → keep p (insert newer x rows) ≡ (if p x then insert newer x (keep p rows) else keep p rows)
insert-keep p x [] s = elim (Bool-cases (p x)) [
  | inl g ↦ rw (insert_first x [] tt, g) refl
  | inr g ↦ rw (insert_first x [] tt, g) refl
]
insert-keep p x (y ∷ rows) s = elim (Bool-cases (newer y x)) [
  | inl e ↦ elim (Bool-cases (p y)) [
    | inl f ↦ elim (Bool-cases (p x)) [
      | inl g ↦
          rw (insert_past x y rows e, f, insert-keep p x rows s.1, g)
            (sym (insert_past x y (keep p rows) e))
      | inr g ↦ rw (insert_past x y rows e, f, insert-keep p x rows s.1, g) refl
    ]
    | inr f ↦ rw (insert_past x y rows e, f) (insert-keep p x rows s.1)
  ]
  | inr e ↦
      let behind : All (λ t. newer t x ≡ false) (y ∷ rows) = (
        e,
        All-map (λ t. newer y t ≡ true) (λ t. newer t x ≡ false) rows
            (λ t h. newer-weak x y t e (ground arith)) s.0,
      ) in
      let kept : All (λ t. newer t x ≡ false) (keep p (y ∷ rows)) =
        keep-All p (λ t. newer t x ≡ false) (y ∷ rows) behind in
      let first : insert newer x (y ∷ rows) ≡ x ∷ y ∷ rows = insert_first x (y ∷ rows) behind in
      let first' : insert newer x (keep p (y ∷ rows)) ≡ x ∷ keep p (y ∷ rows) =
        insert_first x (keep p (y ∷ rows)) kept in
      ap (keep p) first ∙ ap (λ (t : List Row). if p x then t else keep p (y ∷ rows)) (sym first')
]

pub sort-IsStrict : (rows : List Row) → IsKeyed rows → IsStrict (sort newer rows)
sort-IsStrict rows k =
    IsStrict-of_order (sort newer rows) (sort-IsKeyed rows k)
      (sort-IsInOrder newer (λ a b h. ground arith) rows)

pub sort-keep :
    (p : Row → Bool) (rows : List Row)
    → IsKeyed rows
    → sort newer (keep p rows) ≡ keep p (sort newer rows)
unfolding sort
sort-keep p [] k = refl
sort-keep p (r ∷ rows) k = elim (Bool-cases (p r)) [
  | inl e ↦
      rw (e, sort-keep p rows k.1, insert-keep p r (sort newer rows) (sort-IsStrict rows k.1), e)
        refl
  | inr e ↦
      rw (e, sort-keep p rows k.1, insert-keep p r (sort newer rows) (sort-IsStrict rows k.1), e)
        refl
]

append-All :
    (P : Row → Type 0) (xs : List Row) (y : Row) (ys : List Row) → All P (xs ++ y ∷ ys) → P y
append-All P [] y ys h = h.0
append-All P (x ∷ xs) y ys h = append-All P xs y ys h.1

-- Of rows in order, those after a row are the ones that follow it.
pub keep_after :
    (before : List Row) (r : Row) (after : List Row)
    → IsStrict (before ++ r ∷ after)
    → keep (newer r) (before ++ r ∷ after) ≡ after
keep_after [] r after s =
    let self : newer r r ≡ false = ground arith in rw (self) (keep_of_All (newer r) after s.0)
keep_after (q ∷ before) r after s =
    let ahead : newer q r ≡ true = append-All (λ t. newer q t ≡ true) before r after s.0 in
    let skip : newer r q ≡ false = asym q r ahead in rw (skip) (keep_after before r after s.1)
  where
    asym : (a b : Row) → newer a b ≡ true → newer b a ≡ false
    asym a b h = ground arith

pub last?_split :
    (r : Row) (rows : List Row)
    → (front : List Row) × (l : Row) × (last? (r ∷ rows) ≡ some l) × (r ∷ rows ≡ front ++ l ∷ [])
last?_split r [] = ([], r, refl, refl)
last?_split r (s ∷ rows) =
    let (front, l, e, f) = last?_split s rows in (r ∷ front, l, e, ap (◌∷◌ r) f)

pub take-take : (n m : ℕ) (rows : List Row) → n ≤ m → take n (take m rows) ≡ take n rows
take-take zero m rows h = refl
take-take (suc n) zero rows h = absurd (omega arith)
take-take (suc n) (suc m) [] h = refl
take-take (suc n) (suc m) (r ∷ rows) h = ap (◌∷◌ r) (take-take n m rows (omega arith))

pub take_all : (m : ℕ) (rows : List Row) → length rows ≤ m → take m rows ≡ rows
take_all zero [] h = refl
take_all zero (r ∷ rows) h = absurd (omega arith)
take_all (suc m) [] h = refl
take_all (suc m) (r ∷ rows) h = ap (◌∷◌ r) (take_all m rows (omega arith))

pub take-append-drop : (n : ℕ) (rows : List Row) → take n rows ++ drop n rows ≡ rows
take-append-drop zero rows = refl
take-append-drop (suc n) [] = refl
take-append-drop (suc n) (r ∷ rows) = ap (◌∷◌ r) (take-append-drop n rows)
