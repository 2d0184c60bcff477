-- ===== src/Checksum/Tracking.antt =====
-- Parcel tracking numbers.
use openlabels.Prelude.{
  ℕ, zero, suc, ◌+◌, ◌-◌, ◌*◌, ◌/◌, ◌%◌, Bool, false, not, ◌&&◌, ◌||◌, Option, none, some, List, [],
  ◌∷◌, map, ◌==◌, if◌then◌else◌, length, take, drop, slice, all,
}
use openlabels.Prelude.Text.{Str, codes, upper}
use openlabels.Checksum.Digits.{
  is_digit, is_alpha, digit, only_digits, at, starts_with, without_spaces, weighted, sum, Verdict,
  rejected, accepted,
}

abbrev pub assoc : List (ℕ × ℕ) → ℕ → Option ℕ
assoc [] c = none
assoc ((k, v) ∷ m) c = if k == c then some v else assoc m c

abbrev pub letter_values : List (ℕ × ℕ)
letter_values =
    (b'A', 2)
    ∷ (b'B', 3)
    ∷ (b'C', 4)
    ∷ (b'D', 5)
    ∷ (b'E', 6)
    ∷ (b'F', 7)
    ∷ (b'G', 8)
    ∷ (b'H', 9)
    ∷ (b'J', 1)
    ∷ (b'K', 2)
    ∷ (b'L', 3)
    ∷ (b'M', 4)
    ∷ (b'N', 5)
    ∷ (b'P', 7)
    ∷ (b'Q', 8)
    ∷ (b'R', 9)
    ∷ (b'S', 1)
    ∷ (b'T', 2)
    ∷ (b'U', 3)
    ∷ (b'V', 4)
    ∷ (b'W', 5)
    ∷ (b'X', 6)
    ∷ (b'Y', 7)
    ∷ (b'Z', 8)
    ∷ []

-- The value of a character; `none` where the validator returns early.
unfoldable pub char_value : List (ℕ × ℕ) → ℕ → Option ℕ
unfolding is_digit
char_value table c = if is_digit c then some (digit c) else assoc table c

unfoldable pub char_values : List (ℕ × ℕ) → Str → Option (List ℕ)
unfolding char_value
char_values table [] = some []
char_values table (c ∷ s) = elim (char_value table c) [
  | none ↦ none
  | some v ↦ elim (char_values table s) [ none ↦ none | some vs ↦ some (v ∷ vs) ]
]

-- `v * 2` at odd positions; the position is even if `odd` is false.
unfoldable pub alternating : Bool → List ℕ → ℕ
alternating odd [] = 0
alternating odd (v ∷ vs) = (if odd then v * 2 else v) + alternating (not odd) vs

abbrev pub check_digit : ℕ → ℕ
check_digit total = (10 - total % 10) % 10

unfoldable pub ups_verdict : Option (List ℕ) → Verdict
unfolding alternating
ups_verdict none = rejected
ups_verdict (some values) =
    let total = alternating false (take (length values - 1) values) in
    if not (check_digit total == at values (length values - 1)) then rejected else accepted

unfoldable pub validate_ups_tracking : Str → Verdict
unfolding upper starts_with char_values ups_verdict
validate_ups_tracking text =
    let tracking = without_spaces (upper text) in
    if not (starts_with tracking (codes "1Z")) || not (length tracking == 18)
    then rejected
    else ups_verdict (char_values letter_values (drop 2 tracking))

-- `[3, 1] * n + [3]`
abbrev pub threes : ℕ → List ℕ
threes zero = 3 ∷ []
threes (suc n) = 3 ∷ 1 ∷ threes n

abbrev pub last_is : ℕ → List ℕ → Verdict
last_is check d = if not (check == at d (length d - 1)) then rejected else accepted

unfoldable pub validate_fedex_tracking : Str → Verdict
unfolding is_digit starts_with weighted sum
validate_fedex_tracking text =
    let digits = only_digits text in
    let d = map digit digits in
    if length digits == 12
    then last_is ((weighted (take 11 d) (1 ∷ 7 ∷ 3 ∷ 1 ∷ 7 ∷ 3 ∷ 1 ∷ 7 ∷ 3 ∷ 1 ∷ 7 ∷ []) % 11) % 10)
        d
    else if length digits == 15 && starts_with digits (codes "96")
    then last_is (check_digit (sum (take 14 d))) d
    else if length digits == 20
    then last_is (check_digit (weighted (take 19 d) (threes 9))) d
    else if length digits == 22 && starts_with digits (codes "92")
    then last_is (check_digit (weighted (take 21 d) (threes 10))) d
    else rejected

-- The international format's check digit.
abbrev pub international_check : ℕ → ℕ
international_check total =
    let check = 11 - total % 11 in if check == 10 then 0 else if check == 11 then 5 else check

unfoldable pub validate_usps_tracking : Str → Verdict
unfolding upper is_alpha is_digit weighted
validate_usps_tracking text =
    let tracking = without_spaces (upper text) in
    let serial = slice tracking 2 11 in
    let s = map digit serial in
    let digits = only_digits tracking in
    let d = map digit digits in
    if length tracking == 13 && (all is_alpha (take 2 tracking) && all is_alpha (drop 11 tracking))
    then (if not (all is_digit serial)
        then rejected
        else if not (
            international_check (weighted (take 8 s) (8 ∷ 6 ∷ 4 ∷ 2 ∷ 3 ∷ 5 ∷ 9 ∷ 7 ∷ []))
            == at s 8)
        then rejected
        else accepted)
    else if length digits == 20 || length digits == 22
    then last_is
        (check_digit (
          weighted (take (length d - 1) d) (take (length d - 1) (threes ((length d - 1) / 2 + 1)))))
        d
    else rejected
