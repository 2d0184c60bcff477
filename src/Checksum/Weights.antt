-- ===== src/Checksum/Weights.antt =====
-- What the routing number's weights detect.
use openlabels.Prelude.{
  ℕ, zero, suc, ◌+◌, ◌*◌, ◌%◌, ◌<◌, ◌≡◌, refl, ◌∙◌, ◌⊎◌, inl, inr, true, List, [], ◌∷◌, ◌++◌, arith,
  length, drop, length-append, length-map,
}
use openlabels.Prelude.Text.{Str}
use openlabels.Checksum.Digits.{is_digit, digit, digits_of, only_digits, at, weighted, accepted}
use openlabels.Checksum.Luhn.{is_digit-bound, digits_middle}
use openlabels.Checksum.Identity.{validate_aba_routing}

abbrev aba_weights : List ℕ
aba_weights = 3 ∷ 7 ∷ 1 ∷ 3 ∷ 7 ∷ 1 ∷ 3 ∷ 7 ∷ 1 ∷ []

abbrev aba_sum : List ℕ → ℕ
aba_sum d =
    3 * (at d 0 + at d 3 + at d 6) + 7 * (at d 1 + at d 4 + at d 7) + 1 * (at d 2 + at d 5 + at d 8)

aba_sum-weighted : (d : List ℕ) → length d ≡ 9 → aba_sum d ≡ weighted d aba_weights
unfolding weighted
aba_sum-weighted (a ∷ b ∷ c ∷ d ∷ e ∷ f ∷ g ∷ h ∷ i ∷ []) n = omega arith
aba_sum-weighted _ n = absurd (omega arith)

weighted-append :
    (xs ys ws : List ℕ)
    → weighted (xs ++ ys) ws ≡ weighted xs ws + weighted ys (drop (length xs) ws)
unfolding weighted
weighted-append [] ys ws = omega arith
weighted-append (x ∷ xs) [] [] = omega (arith, weighted-append xs [] [])
weighted-append (x ∷ xs) (y ∷ ys) [] = omega arith
weighted-append (x ∷ xs) ys (w ∷ ws) = omega (arith, weighted-append xs ys ws)

abbrev IsWeight : ℕ → Type 0
IsWeight w = (w ≡ 1) ⊎ (w ≡ 3) ⊎ (w ≡ 7)

-- A position's weight, and those behind it.
IsWeight-at : (k : ℕ) → k < 9 → (w : ℕ) × (ws : List ℕ) × (drop k aba_weights ≡ w ∷ ws) × IsWeight w
IsWeight-at zero h = (3, _, refl, inr (inl refl))
IsWeight-at (suc zero) h = (7, _, refl, inr (inr refl))
IsWeight-at (suc (suc zero)) h = (1, _, refl, inl refl)
IsWeight-at (suc (suc (suc zero))) h = (3, _, refl, inr (inl refl))
IsWeight-at (suc (suc (suc (suc zero)))) h = (7, _, refl, inr (inr refl))
IsWeight-at (suc (suc (suc (suc (suc zero))))) h = (1, _, refl, inl refl)
IsWeight-at (suc (suc (suc (suc (suc (suc zero)))))) h = (3, _, refl, inr (inl refl))
IsWeight-at (suc (suc (suc (suc (suc (suc (suc zero))))))) h = (7, _, refl, inr (inr refl))
IsWeight-at (suc (suc (suc (suc (suc (suc (suc (suc zero)))))))) h = (1, _, refl, inl refl)
IsWeight-at (suc (suc (suc (suc (suc (suc (suc (suc (suc k))))))))) h = absurd (omega arith)

same_digit :
    (w a b p q : ℕ)
    → IsWeight w
    → p < 10
    → q < 10
    → (a + (p * w + b)) % 10 ≡ 0
    → (a + (q * w + b)) % 10 ≡ 0
    → p ≡ q
same_digit w a b p q (inl e) h k x y = one_ (rw e at x) (rw e at y)
  where
    one_ : (a + (p * 1 + b)) % 10 ≡ 0 → (a + (q * 1 + b)) % 10 ≡ 0 → p ≡ q
    one_ x y = omega arith
same_digit w a b p q (inr (inl e)) h k x y = three (rw e at x) (rw e at y)
  where
    three : (a + (p * 3 + b)) % 10 ≡ 0 → (a + (q * 3 + b)) % 10 ≡ 0 → p ≡ q
    three x y = omega arith
same_digit w a b p q (inr (inr e)) h k x y = seven (rw e at x) (rw e at y)
  where
    seven : (a + (p * 7 + b)) % 10 ≡ 0 → (a + (q * 7 + b)) % 10 ≡ 0 → p ≡ q
    seven x y = omega arith

accepted_parts :
    (s : Str)
    → validate_aba_routing s ≡ accepted
    → (length (digits_of s) ≡ 9) × (aba_sum (digits_of s) % 10 ≡ 0)
unfolding validate_aba_routing
accepted_parts s h = (length-map digit (only_digits s) ∙ ground arith, ground arith)

-- The sum of an accepted text with one digit singled out.
accepted_sum :
    (s t : Str) (c : ℕ)
    → is_digit c ≡ true
    → validate_aba_routing (s ++ c ∷ t) ≡ accepted
    → (length (digits_of s) < 9)
      × ((weighted (digits_of s) aba_weights
              + weighted (digit c ∷ digits_of t) (drop (length (digits_of s)) aba_weights))
            % 10
          ≡ 0)
accepted_sum s t c d h =
    let (n, e) = accepted_parts (s ++ c ∷ t) h in
    let m : length (digits_of s ++ digit c ∷ digits_of t) ≡ 9 = rw (digits_middle s t c d) at n in
    (
      omega (arith, m, length-append {0} (digits_of s) (digit c ∷ digits_of t)),
      rw
          (
            aba_sum-weighted (digits_of (s ++ c ∷ t)) n,
            digits_middle s t c d,
            weighted-append (digits_of s) (digit c ∷ digits_of t) aba_weights,
          )
          at e,
    )

-- If two texts differ in one digit only, they are not both accepted as routing numbers.
pub validate_aba_routing_one_digit :
    (s t : Str) (c c' : ℕ)
    → is_digit c ≡ true
    → is_digit c' ≡ true
    → validate_aba_routing (s ++ c ∷ t) ≡ accepted
    → validate_aba_routing (s ++ c' ∷ t) ≡ accepted
    → c ≡ c'
unfolding weighted
validate_aba_routing_one_digit s t c c' d d' h h' =
    let (k, e) = accepted_sum s t c d h in
    let (k', e') = accepted_sum s t c' d' h' in
    let (w, ws, p, i) = IsWeight-at (length (digits_of s)) k in
    let (b, q) = is_digit-bound c d in
    let (b', q') = is_digit-bound c' d' in
    let same =
      same_digit w (weighted (digits_of s) aba_weights) (weighted (digits_of t) ws) (digit c)
        (digit c') i b b' (rw p at e) (rw p at e') in
    omega (arith, same, q, q')
