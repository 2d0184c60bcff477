-- ===== src/Checksum/Luhn.antt =====
-- What the Luhn sum detects.
use openlabels.Prelude.{
  ℕ, ◌+◌, ◌-◌, ◌%◌, ◌≤◌, ◌<◌, ◌≡◌, ◌⊎◌, Bool, true, false, not, List, [], ◌∷◌, ◌++◌, reverse, arith,
  length, length-append, keep-append,
}
use mathlib.Core.List.{reverse-append, reverse-cons, append_assoc, map-append}
use openlabels.Prelude.Text.{Str}
use openlabels.Checksum.Digits.{is_digit, digit, digits_of, luhn_digit, luhn_total, validate_luhn}

-- The position's parity behind a list.
after : Bool → List ℕ → Bool
after b [] = b
after b (x ∷ xs) = after (not b) xs

luhn_total-append :
    (b : Bool) (xs ys : List ℕ)
    → luhn_total b (xs ++ ys) ≡ luhn_total b xs + luhn_total (after b xs) ys
unfolding luhn_total after
luhn_total-append b [] ys = omega arith
luhn_total-append b (x ∷ xs) ys = omega (arith, luhn_total-append (not b) xs ys)

luhn_digit_bound : (b : Bool) (d : ℕ) → d < 10 → luhn_digit b d < 10
unfolding luhn_digit
luhn_digit_bound b d h = ground arith

luhn_digit-injective :
    (b : Bool) (d e : ℕ) → d < 10 → e < 10 → luhn_digit b d ≡ luhn_digit b e → d ≡ e
unfolding luhn_digit
luhn_digit-injective true d e p q h = ground arith
luhn_digit-injective false d e p q h = h

pub is_digit-bound : (c : ℕ) → is_digit c ≡ true → (digit c < 10) × (digit c + 48 ≡ c)
unfolding is_digit
is_digit-bound c h = (ground arith, ground arith)

reverse_middle :
    (xs : List ℕ) (d : ℕ) (ys : List ℕ) → reverse (xs ++ d ∷ ys) ≡ reverse ys ++ d ∷ reverse xs
reverse_middle xs d ys =
    rw (
      reverse-append xs (d ∷ ys),
      reverse-cons d ys,
      append_assoc (reverse ys) (d ∷ []) (reverse xs),
    )

pub digits_middle :
    (s t : Str) (c : ℕ)
    → is_digit c ≡ true
    → digits_of (s ++ c ∷ t) ≡ digits_of s ++ digit c ∷ digits_of t
digits_middle s t c h = rw (keep-append is_digit s (c ∷ t), h, map-append)

-- The sum over a text with one digit singled out.
total_split :
    (s t : Str) (c : ℕ)
    → is_digit c ≡ true
    → luhn_total false (reverse (digits_of (s ++ c ∷ t)))
      ≡ luhn_total false (reverse (digits_of t))
        + (luhn_digit (after false (reverse (digits_of t))) (digit c)
            + luhn_total (not (after false (reverse (digits_of t)))) (reverse (digits_of s)))
unfolding luhn_total
total_split s t c h =
    rw (digits_middle s t c h, reverse_middle (digits_of s) (digit c) (digits_of t))
      (luhn_total-append false (reverse (digits_of t)) (digit c ∷ reverse (digits_of s)))

accepted_sum :
    (s : Str) → validate_luhn s ≡ true → luhn_total false (reverse (digits_of s)) % 10 ≡ 0
unfolding validate_luhn
accepted_sum s h = ground arith

same_residue :
    (a b p q : ℕ) → p < 10 → q < 10 → (a + (p + b)) % 10 ≡ 0 → (a + (q + b)) % 10 ≡ 0 → p ≡ q
same_residue a b p q h k e f = omega arith

-- If two texts differ in one digit only, the Luhn check does not accept both.
pub validate_luhn_one_digit :
    (s t : Str) (c c' : ℕ)
    → is_digit c ≡ true
    → is_digit c' ≡ true
    → validate_luhn (s ++ c ∷ t) ≡ true
    → validate_luhn (s ++ c' ∷ t) ≡ true
    → c ≡ c'
validate_luhn_one_digit s t c c' d d' h h' =
    let (b, e) = is_digit-bound c d in
    let (b', e') = is_digit-bound c' d' in
    let parity = after false (reverse (digits_of t)) in
    let same =
      same_residue (luhn_total false (reverse (digits_of t)))
        (luhn_total (not parity) (reverse (digits_of s))) (luhn_digit parity (digit c))
        (luhn_digit parity (digit c')) (luhn_digit_bound parity (digit c) b)
        (luhn_digit_bound parity (digit c') b')
        (rw (total_split s t c d) at (accepted_sum (s ++ c ∷ t) h))
        (rw (total_split s t c' d') at (accepted_sum (s ++ c' ∷ t) h')) in
    let equal = luhn_digit-injective parity (digit c) (digit c') b b' same in
    omega (arith, equal, e, e')

-- Two neighbouring digits in either order.
swapped :
    (b : Bool) (d e x y : ℕ)
    → d < 10
    → e < 10
    → (x + (luhn_digit b e + (luhn_digit (not b) d + y))) % 10 ≡ 0
    → (x + (luhn_digit b d + (luhn_digit (not b) e + y))) % 10 ≡ 0
    → (d ≡ e) ⊎ ((d ≡ 0) × (e ≡ 9)) ⊎ ((d ≡ 9) × (e ≡ 0))
unfolding luhn_digit
swapped true d e x y p q h k = ground arith
swapped false d e x y p q h k = ground arith

-- The sum over a text with two neighbouring digits singled out.
pair_split :
    (s t : Str) (c c' : ℕ)
    → is_digit c ≡ true
    → is_digit c' ≡ true
    → let parity = after false (reverse (digits_of t)) in
      luhn_total false (reverse (digits_of (s ++ c ∷ c' ∷ t)))
      ≡ luhn_total false (reverse (digits_of t))
        + (luhn_digit parity (digit c')
            + (luhn_digit (not parity) (digit c)
                + luhn_total (not (not parity)) (reverse (digits_of s))))
unfolding luhn_total
pair_split s t c c' d d' =
    let whole = total_split (s ++ c ∷ []) t c' d' in
    rw
      (
        append_assoc s (c ∷ []) (c' ∷ t),
        digits_middle s [] c d,
        reverse_middle (digits_of s) (digit c) [],
      )
      at whole

-- If a text and the one with two neighbouring digits swapped are both accepted, the digits are equal, or
-- they are 0 and 9.
pub validate_luhn_swap :
    (s t : Str) (c c' : ℕ)
    → is_digit c ≡ true
    → is_digit c' ≡ true
    → validate_luhn (s ++ c ∷ c' ∷ t) ≡ true
    → validate_luhn (s ++ c' ∷ c ∷ t) ≡ true
    → (digit c ≡ digit c') ⊎ ((digit c ≡ 0) × (digit c' ≡ 9)) ⊎ ((digit c ≡ 9) × (digit c' ≡ 0))
validate_luhn_swap s t c c' d d' h h' =
    let parity = after false (reverse (digits_of t)) in
    swapped parity (digit c) (digit c') (luhn_total false (reverse (digits_of t)))
      (luhn_total (not (not parity)) (reverse (digits_of s))) (is_digit-bound c d).0
      (is_digit-bound c' d').0 (rw (pair_split s t c c' d d') at (accepted_sum (s ++ c ∷ c' ∷ t) h))
      (rw (pair_split s t c' c d' d) at (accepted_sum (s ++ c' ∷ c ∷ t) h'))

-- The digit that completes a number.
check_char : Str → ℕ
check_char s = 48 + (10 - luhn_total true (reverse (digits_of s)) % 10) % 10

accepted_of_sum :
    (s : Str)
    → 2 ≤ length (digits_of s)
    → luhn_total false (reverse (digits_of s)) % 10 ≡ 0
    → validate_luhn s ≡ true
unfolding validate_luhn
accepted_of_sum s h e = ground arith

total_last :
    (s : Str) (c : ℕ)
    → is_digit c ≡ true
    → luhn_total false (reverse (digits_of (s ++ c ∷ [])))
      ≡ digit c + luhn_total true (reverse (digits_of s))
unfolding luhn_total luhn_digit after
total_last s c d = omega (arith, total_split s [] c d)

length_last :
    (s : Str) (c : ℕ)
    → is_digit c ≡ true
    → length (digits_of (s ++ c ∷ [])) ≡ length (digits_of s) + 1
length_last s c d = rw (digits_middle s [] c d) (length-append (digits_of s) (digit c ∷ []))

module _ (s : Str) (h : 0 < length (digits_of s)) where
  check_char-is_digit : is_digit (check_char s) ≡ true
  unfolding check_char is_digit
  check_char-is_digit = ground arith

  check_char_accepted : validate_luhn (s ++ check_char s ∷ []) ≡ true
  unfolding check_char
  check_char_accepted =
      accepted_of_sum (s ++ check_char s ∷ [])
        (omega (arith, length_last s (check_char s) check_char-is_digit))
        (omega (arith, total_last s (check_char s) check_char-is_digit))

  -- Every text with a digit in it is accepted with one further digit at its end, and with no other.
  pub validate_luhn_complete :
      (c : ℕ) × (is_digit c ≡ true)
      × (validate_luhn (s ++ c ∷ []) ≡ true)
      × ((c' : ℕ) → is_digit c' ≡ true → validate_luhn (s ++ c' ∷ []) ≡ true → c' ≡ c)
  validate_luhn_complete = (
    check_char s,
    check_char-is_digit,
    check_char_accepted,
    λ c' d' h'.
        validate_luhn_one_digit s [] c' (check_char s) d' check_char-is_digit h'
          check_char_accepted,
  )
