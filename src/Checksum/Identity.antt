-- ===== src/Checksum/Identity.antt =====
-- Personal and provider identifiers, payment cards and routing numbers.
use openlabels.Prelude.{
  ℕ, ◌+◌, ◌*◌, ◌%◌, min, Bool, true, false, not, ◌&&◌, ◌||◌, [], ◌∷◌, ◌++◌, map, reverse, ltb, leb,
  ◌==◌, if◌then◌else◌, length, drop, slice, all, any,
}
use openlabels.Prelude.Text.{Str, codes, str_eq, contains, upper}
use openlabels.Checksum.Digits.{
  is_digit, is_alpha, digit, only_digits, int_from, int, at, starts_with, without_spaces,
  validate_luhn, Verdict, rejected, accepted,
}

-- `validate_ssn` of validators_py.py.
unfoldable pub strict_ssn : Str → Bool
unfolding is_digit int_from contains
strict_ssn text =
    let digits = only_digits text in
    let area = int (slice digits 0 3) in
    let group = int (slice digits 3 5) in
    let serial = int (slice digits 5 9) in
    if not (length digits == 9)
    then false
    else if area == 0 || (area == 666 || (leb 900 area && leb area 999))
    then false
    else if group == 0 || serial == 0
    then false
    else not (contains (codes "078051120" ∷ codes "219099999" ∷ []) digits)

-- ASCII white space, for `str.strip`.
unfoldable pub is_space : ℕ → Bool
is_space c = c == 32 || (leb 9 c && leb c 13 || leb 28 c && leb c 31)

unfoldable pub lstrip : Str → Str
unfolding is_space
lstrip [] = []
lstrip (c ∷ s) = if is_space c then lstrip s else c ∷ s

unfoldable pub strip : Str → Str
unfolding lstrip
strip s = reverse (lstrip (reverse (lstrip s)))

-- The pattern `^[0-9\- ]+$` on a stripped text.
unfoldable pub is_ssn_text : Str → Bool
unfolding is_digit
is_ssn_text [] = false
is_ssn_text (c ∷ s) = all (λ c. is_digit c || (c == b'-' || c == b' ')) (c ∷ s)

-- `validate_ssn` of checksum.py.
unfoldable pub validate_ssn : Str → Verdict
unfolding strip is_ssn_text is_digit strict_ssn str_eq
validate_ssn text =
    let ssn = strip text in
    let digits = only_digits ssn in
    let no_group = str_eq (slice digits 3 5) (codes "00") in
    let no_serial = str_eq (drop 5 digits) (codes "0000") in
    if not (is_ssn_text ssn)
    then rejected
    else if not (length digits == 9)
    then rejected
    else if strict_ssn digits
    then accepted
    else let confidence = if no_group then min 85 80 else 85 in
      (true, if no_serial then min confidence 80 else confidence)

-- The card networks' prefixes.
unfoldable pub valid_prefix : Str → Bool
unfolding starts_with int_from
valid_prefix digits =
    let prefix2 = int (slice digits 0 2) in
    let prefix3 = int (slice digits 0 3) in
    let prefix4 = int (slice digits 0 4) in
    any (λ (b : Bool). b)
      (starts_with digits (codes "4")
        ∷ (leb 51 prefix2 && leb prefix2 55)
        ∷ (leb 2221 prefix4 && leb prefix4 2720)
        ∷ (starts_with digits (codes "34") || starts_with digits (codes "37"))
        ∷ starts_with digits (codes "6011")
        ∷ starts_with digits (codes "65")
        ∷ (leb 644 prefix3 && leb prefix3 649)
        ∷ starts_with digits (codes "35")
        ∷ starts_with digits (codes "36")
        ∷ (leb 300 prefix3 && leb prefix3 305)
        ∷ (starts_with digits (codes "38") || starts_with digits (codes "39"))
        ∷ [])

unfoldable pub validate_credit_card : Str → Verdict
unfolding is_digit valid_prefix validate_luhn
validate_credit_card cc' =
    let digits = only_digits cc' in
    if ltb (length digits) 13 || ltb 19 (length digits)
    then rejected
    else if not (valid_prefix digits)
    then rejected
    else if not (validate_luhn digits)
    then (true, 87)
    else accepted

unfoldable pub validate_npi : Str → Verdict
unfolding is_digit validate_luhn
validate_npi npi =
    let digits = only_digits npi in
    if not (length digits == 10)
    then rejected
    else if not (at digits 0 == b'1' || at digits 0 == b'2')
    then rejected
    else if not (validate_luhn (codes "80840" ++ digits))
    then rejected
    else accepted

unfoldable pub validate_dea : Str → Verdict
unfolding upper is_alpha is_digit
validate_dea text =
    let dea = without_spaces (upper text) in
    let d = map digit (drop 2 dea) in
    let checksum = at d 0 + at d 2 + at d 4 + 2 * (at d 1 + at d 3 + at d 5) in
    if not (length dea == 9)
    then rejected
    else if not (is_alpha (at dea 0)) || not (is_alpha (at dea 1))
    then rejected
    else if not (all is_digit (drop 2 dea))
    then rejected
    else if not (checksum % 10 == at d 6)
    then rejected
    else accepted

unfoldable pub validate_aba_routing : Str → Verdict
unfolding is_digit int_from
validate_aba_routing aba =
    let digits = only_digits aba in
    let prefix = int (slice digits 0 2) in
    let valid_prefix =
      leb prefix 12
      || (leb 21 prefix && leb prefix 32 || (leb 61 prefix && leb prefix 72 || prefix == 80)) in
    let d = map digit digits in
    let checksum =
      3 * (at d 0 + at d 3 + at d 6)
      + 7 * (at d 1 + at d 4 + at d 7)
      + 1 * (at d 2 + at d 5 + at d 8) in
    if not (length digits == 9)
    then rejected
    else if not valid_prefix
    then rejected
    else if not (checksum % 10 == 0)
    then rejected
    else accepted
