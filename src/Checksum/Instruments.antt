-- ===== src/Checksum/Instruments.antt =====
-- Accounts, vehicles and securities.
use openlabels.Prelude.{
  ℕ, ◌+◌, ◌-◌, ◌*◌, ◌/◌, ◌%◌, Bool, false, not, ◌||◌, Option, none, some, List, [], ◌∷◌, ◌++◌, map,
  reverse, ltb, ◌==◌, if◌then◌else◌, length, take, drop, keep, any,
}
use openlabels.Prelude.Text.{Str, upper}
use openlabels.Checksum.Digits.{
  is_digit, is_alpha, digit, int_from, int, at, without_spaces, luhn_total, luhn_digit, Verdict,
  rejected, accepted,
}
use openlabels.Checksum.Tracking.{check_digit, char_value}

-- `str(n)` for n below 100.
abbrev pub decimal : ℕ → Str
decimal n = if ltb n 10 then (n + 48) ∷ [] else (n / 10 + 48) ∷ (n % 10 + 48) ∷ []

-- The loop that spells letters as numbers; `none` is the early return.
unfoldable pub spell : Str → Option Str
unfolding is_digit is_alpha
spell [] = some []
spell (c ∷ s) = elim (spell s) [
  | none ↦ none
  | some t ↦
      if is_digit c then some (c ∷ t) else if is_alpha c then some (decimal (c - 55) ++ t) else none
]

unfoldable pub iban_verdict : Option Str → Verdict
unfolding int_from
iban_verdict none = rejected
iban_verdict (some numeric) = if not (int numeric % 97 == 1) then rejected else accepted

unfoldable pub validate_iban : Str → Verdict
unfolding upper spell iban_verdict
validate_iban text =
    let iban = without_spaces (upper text) in
    if ltb (length iban) 15 || ltb 34 (length iban)
    then rejected
    else iban_verdict (spell (drop 4 iban ++ take 4 iban))

abbrev pub trans : List (ℕ × ℕ)
trans =
    (b'A', 1)
    ∷ (b'B', 2)
    ∷ (b'C', 3)
    ∷ (b'D', 4)
    ∷ (b'E', 5)
    ∷ (b'F', 6)
    ∷ (b'G', 7)
    ∷ (b'H', 8)
    ∷ (b'J', 1)
    ∷ (b'K', 2)
    ∷ (b'L', 3)
    ∷ (b'M', 4)
    ∷ (b'N', 5)
    ∷ (b'P', 7)
    ∷ (b'R', 9)
    ∷ (b'S', 2)
    ∷ (b'T', 3)
    ∷ (b'U', 4)
    ∷ (b'V', 5)
    ∷ (b'W', 6)
    ∷ (b'X', 7)
    ∷ (b'Y', 8)
    ∷ (b'Z', 9)
    ∷ []

-- The loop over the characters and their weights.
unfoldable pub vin_total : Str → List ℕ → Option ℕ
unfolding char_value
vin_total [] ws = some 0
vin_total (c ∷ s) [] = some 0
vin_total (c ∷ s) (w ∷ ws) = elim (char_value trans c) [
  | none ↦ none
  | some v ↦ elim (vin_total s ws) [ none ↦ none | some t ↦ some (v * w + t) ]
]

unfoldable pub vin_verdict : ℕ → Option ℕ → Verdict
vin_verdict c none = rejected
vin_verdict c (some total) =
    let check = total % 11 in
    if not (c == (if check == 10 then b'X' else check + 48)) then rejected else accepted

unfoldable pub validate_vin : Str → Verdict
unfolding upper vin_total vin_verdict
validate_vin text =
    let vin = without_spaces (upper text) in
    if not (length vin == 17)
    then rejected
    else if any (λ c. any (λ v. v == c) vin) (b'I' ∷ b'O' ∷ b'Q' ∷ [])
    then rejected
    else vin_verdict (at vin 8)
        (vin_total vin (8 ∷ 7 ∷ 6 ∷ 5 ∷ 4 ∷ 3 ∷ 2 ∷ 10 ∷ 0 ∷ 9 ∷ 8 ∷ 7 ∷ 6 ∷ 5 ∷ 4 ∷ 3 ∷ 2 ∷ []))

-- `"".join(c for c in text if c.isalnum()).upper()`
abbrev pub cleaned : Str → Str
cleaned text = upper (keep (λ c. is_digit c || is_alpha c) text)

-- `int(c)` or `ord(c) - ord("A") + 10`
abbrev pub alnum_value : ℕ → ℕ
alnum_value c = if is_digit c then digit c else c - 65 + 10

-- The loop over the first eight characters; the position is odd if `odd` is true.
unfoldable pub cusip_total : Bool → Str → ℕ
unfolding is_digit
cusip_total odd [] = 0
cusip_total odd (c ∷ s) =
    let val = if odd then alnum_value c * 2 else alnum_value c in
    val / 10 + val % 10 + cusip_total (not odd) s

-- `validate_cusip` of validators_py.py; a check character that is no digit is the ValueError.
unfoldable pub validate_cusip : Str → Bool
unfolding upper is_digit is_alpha cusip_total
validate_cusip text =
    let s = cleaned text in
    if not (length s == 9)
    then false
    else if not (is_digit (at s 8))
    then false
    else digit (at s 8) == check_digit (cusip_total false (take 8 s))

-- Digits of an ISIN with its letters spelt as numbers.
unfoldable pub isin_digits : Str → List ℕ
unfolding is_digit
isin_digits [] = []
isin_digits (c ∷ s) =
    if is_digit c
    then digit c ∷ isin_digits s
    else map digit (decimal (c - 65 + 10)) ++ isin_digits s

unfoldable pub validate_isin : Str → Bool
unfolding upper is_digit is_alpha isin_digits luhn_total luhn_digit
validate_isin text =
    let s = cleaned text in
    if not (length s == 12)
    then false
    else if not (is_alpha (at s 0)) || not (is_alpha (at s 1))
    then false
    else luhn_total false (reverse (isin_digits s)) % 10 == 0
