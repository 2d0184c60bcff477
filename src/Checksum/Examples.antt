-- ===== src/Checksum/Examples.antt =====
-- Runs of the validators, and the theorems about them at concrete inputs.
use openlabels.Prelude.{ℕ, ◌<◌, ◌≡◌, refl, ◌⊎◌, true, [], ◌∷◌, ◌++◌, arith, length}
use openlabels.Prelude.Text.{codes}
use openlabels.Checksum.Digits.{is_digit, digit, digits_of, validate_luhn, accepted}
use openlabels.Checksum.Identity.{
  validate_ssn, validate_credit_card, validate_npi, validate_dea, validate_aba_routing,
}
use openlabels.Checksum.Tracking.{
  validate_ups_tracking, validate_fedex_tracking, validate_usps_tracking,
}
use openlabels.Checksum.Instruments.{validate_iban, validate_vin, validate_cusip, validate_isin}
use openlabels.Checksum.Luhn.{validate_luhn_one_digit, validate_luhn_swap, validate_luhn_complete}
use openlabels.Checksum.Weights.{validate_aba_routing_one_digit}

card : validate_credit_card (codes "4111 1111 1111 1111") ≡ accepted
unfolding validate_credit_card
card = refl

ssn : validate_ssn (codes " 666-45-6789") ≡ (true, 85)
unfolding validate_ssn
ssn = refl

npi : validate_npi (codes "1234567893") ≡ accepted
unfolding validate_npi
npi = refl

dea : validate_dea (codes "ab1234563") ≡ accepted
unfolding validate_dea
dea = refl

iban : validate_iban (codes "GB82 WEST 1234 5698 7654 32") ≡ accepted
unfolding validate_iban
iban = refl

vin : validate_vin (codes "1M8GDM9AXKP042788") ≡ accepted
unfolding validate_vin
vin = refl

ups : validate_ups_tracking (codes "1Z999AA10123456784") ≡ accepted
unfolding validate_ups_tracking
ups = refl

usps : validate_usps_tracking (codes "RB123456785GB") ≡ accepted
unfolding validate_usps_tracking
usps = refl

fedex : validate_fedex_tracking (codes "986578788855") ≡ accepted
unfolding validate_fedex_tracking
fedex = refl

cusip : validate_cusip (codes "037833100") ≡ true
unfolding validate_cusip
cusip = refl

isin : validate_isin (codes "US0378331005") ≡ true
unfolding validate_isin
isin = refl

routing : validate_aba_routing (codes "021000021") ≡ accepted
unfolding validate_aba_routing
routing = refl

luhn_card : validate_luhn (codes "4111 1111 1111 1111") ≡ true
unfolding validate_luhn
luhn_card = refl

luhn_swapped : validate_luhn (codes "1099") ≡ true
unfolding validate_luhn
luhn_swapped = refl

luhn_swapped' : validate_luhn (codes "1909") ≡ true
unfolding validate_luhn
luhn_swapped' = refl

digit_1 : is_digit b'1' ≡ true
unfolding is_digit
digit_1 = refl

digit_0 : is_digit b'0' ≡ true
unfolding is_digit
digit_0 = refl

digit_9 : is_digit b'9' ≡ true
unfolding is_digit
digit_9 = refl

digits_4 : 0 < length (digits_of (codes "411"))
unfolding is_digit
digits_4 = omega arith

validate_luhn_one_digit_example : ◌≡◌ {A = ℕ} b'1' b'1'
validate_luhn_one_digit_example =
    validate_luhn_one_digit (codes "4111 ") (codes "111 1111 1111") b'1' b'1' digit_1 digit_1
      luhn_card luhn_card

validate_luhn_swap_example :
    (digit b'0' ≡ digit b'9')
    ⊎ ((digit b'0' ≡ 0) × (digit b'9' ≡ 9))
    ⊎ ((digit b'0' ≡ 9) × (digit b'9' ≡ 0))
validate_luhn_swap_example =
    validate_luhn_swap (codes "1") (codes "9") b'0' b'9' digit_0 digit_9 luhn_swapped luhn_swapped'

validate_luhn_complete_example :
    (c : ℕ) × (is_digit c ≡ true)
    × (validate_luhn (codes "411" ++ c ∷ []) ≡ true)
    × ((c' : ℕ) → is_digit c' ≡ true → validate_luhn (codes "411" ++ c' ∷ []) ≡ true → c' ≡ c)
validate_luhn_complete_example = validate_luhn_complete (codes "411") digits_4

validate_aba_routing_one_digit_example : ◌≡◌ {A = ℕ} b'1' b'1'
validate_aba_routing_one_digit_example =
    validate_aba_routing_one_digit (codes "02") (codes "000021") b'1' b'1' digit_1 digit_1 routing
      routing
