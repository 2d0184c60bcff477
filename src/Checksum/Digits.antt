-- ===== src/Checksum/Digits.antt =====
-- Digits of a text and the sums that the validators build from them.
use openlabels.Prelude.{
  ℕ, zero, suc, ◌+◌, ◌-◌, ◌*◌, ◌%◌, Bool, true, false, not, ◌&&◌, ◌||◌, List, [], ◌∷◌, map, reverse,
  ltb, leb, ◌==◌, if◌then◌else◌, length, keep,
}
use openlabels.Prelude.Text.{Str, is_upper, is_lower}

-- `c.isdigit()` and `c.isalpha()`
unfoldable pub is_digit : ℕ → Bool
is_digit c = leb b'0' c && leb c b'9'

unfoldable pub is_alpha : ℕ → Bool
unfolding is_upper is_lower
is_alpha c = is_upper c || is_lower c

-- `int(c)`
abbrev pub digit : ℕ → ℕ
digit c = c - 48

-- `re.sub(r'\D', '', s)`
abbrev pub only_digits : Str → Str
only_digits s = keep is_digit s

-- `[int(c) for c in s if c.isdigit()]`
abbrev pub digits_of : Str → List ℕ
digits_of s = map digit (keep is_digit s)

-- `int(s)` of a text of digits.
unfoldable pub int_from : ℕ → Str → ℕ
int_from acc [] = acc
int_from acc (c ∷ s) = int_from (acc * 10 + digit c) s

abbrev pub int : Str → ℕ
int s = int_from 0 s

-- `xs[i]` within the list.
abbrev pub at : List ℕ → ℕ → ℕ
at [] i = 0
at (x ∷ xs) zero = x
at (x ∷ xs) (suc i) = at xs i

-- `s.startswith(p)`
unfoldable pub starts_with : Str → Str → Bool
starts_with s [] = true
starts_with [] (c ∷ p) = false
starts_with (d ∷ s) (c ∷ p) = d == c && starts_with s p

-- `s.replace(' ', '')`
abbrev pub without_spaces : Str → Str
without_spaces s = keep (λ c. not (c == b' ')) s

-- `sum(d * w for d, w in zip(ds, ws))`
unfoldable pub weighted : List ℕ → List ℕ → ℕ
weighted [] ws = 0
weighted (d ∷ ds) [] = 0
weighted (d ∷ ds) (w ∷ ws) = d * w + weighted ds ws

unfoldable pub sum : List ℕ → ℕ
sum [] = 0
sum (d ∷ ds) = d + sum ds

-- One digit of the Luhn sum.
unfoldable pub luhn_digit : Bool → ℕ → ℕ
luhn_digit double d = if double then (if ltb 9 (d * 2) then d * 2 - 9 else d * 2) else d

-- The loop over the reversed digits.
unfoldable pub luhn_total : Bool → List ℕ → ℕ
luhn_total double [] = 0
luhn_total double (d ∷ ds) = luhn_digit double d + luhn_total (not double) ds

-- `validate_luhn`
unfoldable pub validate_luhn : Str → Bool
unfolding is_digit luhn_total luhn_digit
validate_luhn text =
    let digits = digits_of text in
    if ltb (length digits) 2 then false else luhn_total false (reverse digits) % 10 == 0

-- A validator's answer: whether it accepts, and its confidence in hundredths.
abbrev pub Verdict : Type 0
Verdict = Bool × ℕ

abbrev pub rejected : Verdict
rejected = (false, 0)

abbrev pub accepted : Verdict
accepted = (true, 99)
