-- ===== src/Server/Pagination/Pages.antt =====
-- The pages together.
use openlabels.Prelude.{
  ◌≡◌, refl, inl, inr, true, false, List, [], ◌∷◌, arith, Bool-cases, length-take, length-drop, ℕ,
  ◌++◌, keep, length, some, take, ◌≤◌, ap, drop, suc, sym, ◌∙◌, zero, min, ltb, Option, none, ◌+◌,
  ◌<◌, subst,
}
use openlabels.Prelude.Sort.{sort, insert}
use openlabels.Server.Pagination.{
  Row, newer, last?, decode, respond, apply_cursor_pagination, follow,
}
use openlabels.Prelude.Text.{Str}
use mathlib.Core.List.{append_assoc, append-nil}
use openlabels.Server.Pagination.Order.{
  IsStrict, sort-IsStrict, sort-keep, keep_after, last?_split, take-take, take_all,
  take-append-drop, IsKeyed,
}

fits : (limit n : ℕ) → ltb limit (min (limit + 1) n) ≡ false → n ≤ limit
fits limit n h = ground arith

exceeds : (limit n : ℕ) → ltb limit (min (limit + 1) n) ≡ true → limit < n
exceeds limit n h = ground arith

last_of :
    (rows : List Row)
    → 0 < length rows
    → (front : List Row) × (l : Row) × (last? rows ≡ some l) × (rows ≡ front ++ l ∷ [])
last_of [] h = absurd (omega arith)
last_of (r ∷ rows) h = last?_split r rows

regroup :
    (before front : List Row) (l : Row) (rest : List Row)
    → before ++ ((front ++ l ∷ []) ++ rest) ≡ (before ++ front) ++ l ∷ rest
regroup before front l rest =
    ap (λ (t : List Row). before ++ t) (append_assoc front (l ∷ []) rest)
    ∙ sym (append_assoc before front (l ∷ rest))

length-insert : (x : Row) (rows : List Row) → length (insert newer x rows) ≡ length rows + 1
unfolding insert
length-insert x [] = omega arith
length-insert x (y ∷ rows) = elim (Bool-cases (newer y x)) [
  | inl e ↦ rw (insert, e) (omega (arith, length-insert x rows))
  | inr e ↦ rw (insert, e) (omega arith)
]

length-sort : (rows : List Row) → length (sort newer rows) ≡ length rows
unfolding sort
length-sort [] = omega arith
length-sort (r ∷ rows) = omega (arith, length-insert r (sort newer rows), length-sort rows)

module _ (encode : Row → Str) (decode_ : Str → Option Row)
    (codec : (r : Row) → decode encode decode_ (some (encode r)) ≡ some r) (limit : ℕ)
    (positive : 0 < limit) (rows : List Row) (keyed : IsKeyed rows) where
  -- A page that is followed from where the remaining rows begin.
  page_after :
      (before : List Row) (r : Row) (rest : List Row)
      → sort newer rows ≡ before ++ r ∷ rest
      → apply_cursor_pagination encode decode_ rows
          (record { cursor = some (encode r); limit = limit })
        ≡ respond encode decode_ limit (take (limit + 1) rest)
  unfolding apply_cursor_pagination
  page_after before r rest e =
      let strict : IsStrict (before ++ r ∷ rest) = subst IsStrict e (sort-IsStrict rows keyed) in
      let after : sort newer (keep (newer r) rows) ≡ rest =
        sort-keep (newer r) rows keyed ∙ ap (keep (newer r)) e ∙ keep_after before r rest strict in
      rw (apply_cursor_pagination, codec r, after) refl

  follow_rest :
      (fuel : ℕ) (before rest : List Row) (cursor : Option Str)
      → sort newer rows ≡ before ++ rest
      → apply_cursor_pagination encode decode_ rows (record { cursor = cursor; limit = limit })
        ≡ respond encode decode_ limit (take (limit + 1) rest)
      → length rest < fuel
      → follow encode decode_ fuel limit cursor rows ≡ rest
  unfolding follow
  follow_rest zero before rest cursor e page h = absurd (omega arith)
  follow_rest (suc fuel) before rest cursor e page h =
      elim (Bool-cases (ltb limit (length (take (limit + 1) rest)))) [
        | inr f ↦
            let short : length rest ≤ limit =
              fits limit (length rest)
                (subst (λ n. ltb limit n ≡ false) (length-take (limit + 1) rest) f) in
            rw (follow, page, f)
              (append-nil (take (limit + 1) rest) ∙ take_all (limit + 1) rest (omega arith))
        | inl f ↦
            let long : limit < length rest =
              exceeds limit (length rest)
                (subst (λ n. ltb limit n ≡ true) (length-take (limit + 1) rest) f) in
            let (front, l, last, split) =
              last_of (take limit rest) (omega (arith, length-take limit rest)) in
            let whole : sort newer rows ≡ (before ++ front) ++ l ∷ drop limit rest =
              e
              ∙ ap (λ (t : List Row). before ++ t) (sym (take-append-drop limit rest))
              ∙ ap (λ (t : List Row). before ++ (t ++ drop limit rest)) split
              ∙ regroup before front l (drop limit rest) in
            rw (follow, page, f, take-take limit (limit + 1) rest (omega arith), last)
              (ap (λ (t : List Row). take limit rest ++ t)
                  (follow_rest fuel ((before ++ front) ++ l ∷ []) (drop limit rest)
                    (some (encode l))
                    (whole ∙ sym (append_assoc (before ++ front) (l ∷ []) (drop limit rest)))
                    (page_after (before ++ front) l (drop limit rest) whole)
                    (omega (arith, length-drop limit rest)))
                ∙ take-append-drop limit rest)
      ]

  -- If no two rows have one identifier, a page has one row or more, and a cursor is read back as it was made, a client that
  -- follows the cursors from the first page to the last gets every row exactly once, the newest first.
  pub follow_lem : follow encode decode_ (length rows + 1) limit none rows ≡ sort newer rows
  unfolding apply_cursor_pagination
  follow_lem =
      follow_rest (length rows + 1) [] (sort newer rows) none refl refl
        (omega (arith, length-sort rows))
