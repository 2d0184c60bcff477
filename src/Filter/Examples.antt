-- ===== src/Filter/Examples.antt =====
-- Runs of the filter parser, and the theorems about it at a concrete filter.
use openlabels.Prelude.{◌≡◌, refl, ◌≢◌, none, some, List, [], ◌∷◌}
use openlabels.Prelude.Text.{codes}
use openlabels.Filter.{
  FilterExpression, binary_op, unary_op, comparison, function_call, and_op, or_op, has, missing,
  count, gt, ge, eq, number, text, Token, identifier, number_token, operator, or_token, and_token,
  not_token, has_token, count_token, lparen, rparen, eof, parsed, parse_error, past_end,
  out_of_fuel, parse,
}
use openlabels.Filter.Total.{parse_total}
use openlabels.Filter.Printer.{print, parse-print}
use openlabels.Filter.Made.{parse-print-parse}

-- has(SSN) OR NOT count(SSN) >= 10 AND tier = HIGH
abbrev filter_tokens : List Token
filter_tokens =
    has_token
    ∷ lparen
    ∷ identifier (codes "SSN")
    ∷ rparen
    ∷ or_token
    ∷ not_token
    ∷ count_token
    ∷ lparen
    ∷ identifier (codes "SSN")
    ∷ rparen
    ∷ operator ge
    ∷ number_token (codes "10")
    ∷ and_token
    ∷ identifier (codes "tier")
    ∷ operator eq
    ∷ identifier (codes "HIGH")
    ∷ eof
    ∷ []

abbrev filter : FilterExpression
filter = binary_op (function_call has (codes "SSN") none) or_op (
    binary_op (unary_op (function_call count (codes "SSN") (some (ge, number (codes "10"))))) and_op
      (comparison (codes "tier") eq (text (codes "HIGH"))))

filter_parsed : parse filter_tokens ≡ parsed filter (eof ∷ [])
unfolding parse
filter_parsed = refl

-- `score >`
unfinished : parse (identifier (codes "score") ∷ operator gt ∷ eof ∷ []) ≡ parse_error
unfolding parse
unfinished = refl

-- Without EOF the parser reads behind the last token.
unended : parse (not_token ∷ []) ≡ past_end
unfolding parse
unended = refl

parse_total_example : (parse filter_tokens ≢ past_end) × (parse filter_tokens ≢ out_of_fuel)
parse_total_example = parse_total filter_tokens refl

-- (has(SSN) OR has(MRN)) AND NOT missing(owner)
abbrev grouped : FilterExpression
grouped =
    binary_op
      (binary_op (function_call has (codes "SSN") none) or_op
        (function_call has (codes "MRN") none))
      and_op (unary_op (function_call missing (codes "owner") none))

parse-print_example : parse (print grouped) ≡ parsed grouped (eof ∷ [])
parse-print_example = parse-print grouped ((tt, tt), tt)

parse-print-parse_example : parse (print filter) ≡ parsed filter (eof ∷ [])
parse-print-parse_example = parse-print-parse filter_tokens (eof ∷ []) filter filter_parsed
