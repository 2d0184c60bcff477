-- ===== src/Filter/Made.antt =====
-- Which expressions the parser makes.
use openlabels.Prelude.{ℕ, zero, suc, ◌≡◌, subst, inl, inr, List, [], ◌∷◌}
use openlabels.Filter.{
  FilterExpression, binary_op, and_op, or_op, Token, Outcome, parsed, parse_error, past_end,
  out_of_fuel, or_type, and_type, not_type, lparen_type, rparen_type, eof_type, eof, Mode, or_expr,
  and_expr, condition, or_rest, and_rest, and_then, accept, close, finish, parse_simple, parse_at,
  parse, enough,
}
use openlabels.Filter.Steps.{IsWellFormed, Accepted-cases, expect-all, parse_simple-all}
use openlabels.Filter.Printer.{print, parse-print}

-- What is parsed is well formed.
abbrev Makes : Outcome → Type 0
Makes (parsed e ts) = IsWellFormed e
Makes parse_error = Unit
Makes past_end = Unit
Makes out_of_fuel = Unit

-- The expression that a loop starts with is well formed.
abbrev StartsWith : Mode → Type 0
StartsWith (or_rest e) = IsWellFormed e
StartsWith (and_rest e) = IsWellFormed e
StartsWith _ = Unit

and_then-Makes :
    (o : Outcome) (k : FilterExpression → List Token → Outcome)
    → Makes o
    → ((e : FilterExpression) (ts : List Token) → IsWellFormed e → Makes (k e ts))
    → Makes (and_then o k)
and_then-Makes (parsed e ts) k h g = g e ts h
and_then-Makes parse_error k h g = tt
and_then-Makes past_end k h g = tt
and_then-Makes out_of_fuel k h g = tt

parse_simple-Makes : (ts : List Token) → Makes (parse_simple ts)
parse_simple-Makes ts =
    parse_simple-all Makes tt (λ rest. Unit) (λ xs e q. tt) (λ xs rest l q. tt) (λ e rest w q. w) ts
      (λ e. tt) (λ rest l. tt)

close-Makes : (e : FilterExpression) (ts : List Token) → IsWellFormed e → Makes (close e ts)
close-Makes e ts v = expect-all Makes tt rparen_type (parsed e) ts (λ x. tt) (λ rest a. v)

parse_at-Makes : (fuel : ℕ) (m : Mode) (ts : List Token) → StartsWith m → Makes (parse_at fuel m ts)
unfolding parse_at
parse_at-Makes zero m ts w = tt
parse_at-Makes (suc f) or_expr ts w =
    and_then-Makes (parse_at f and_expr ts) _ (parse_at-Makes f and_expr ts tt)
      (λ e rest v. parse_at-Makes f (or_rest e) rest v)
parse_at-Makes (suc f) and_expr ts w =
    and_then-Makes (parse_at f condition ts) _ (parse_at-Makes f condition ts tt)
      (λ e rest v. parse_at-Makes f (and_rest e) rest v)
parse_at-Makes (suc f) (or_rest left) ts w = elim (Accepted-cases (accept or_type ts)) [
  | inl e ↦ rw (parse_at, e) tt
  | inr (inl e) ↦ rw (parse_at, e) w
  | inr (inr (r, e)) ↦
      rw (parse_at, e)
        (and_then-Makes (parse_at f and_expr r) _ (parse_at-Makes f and_expr r tt)
          (λ x rest v. parse_at-Makes f (or_rest (binary_op left or_op x)) rest (w, v)))
]
parse_at-Makes (suc f) (and_rest left) ts w = elim (Accepted-cases (accept and_type ts)) [
  | inl e ↦ rw (parse_at, e) tt
  | inr (inl e) ↦ rw (parse_at, e) w
  | inr (inr (r, e)) ↦
      rw (parse_at, e)
        (and_then-Makes (parse_at f condition r) _ (parse_at-Makes f condition r tt)
          (λ x rest v. parse_at-Makes f (and_rest (binary_op left and_op x)) rest (w, v)))
]
parse_at-Makes (suc f) condition ts w = elim (Accepted-cases (accept not_type ts)) [
  | inr (inr (r, e)) ↦
      rw (parse_at, e)
        (and_then-Makes (parse_at f condition r) _ (parse_at-Makes f condition r tt)
          (λ x rest v. v))
  | inl e ↦ rw (parse_at, e) tt
  | inr (inl e) ↦ elim (Accepted-cases (accept lparen_type ts)) [
    | inr (inr (r, q)) ↦
        rw (parse_at, e, q)
          (and_then-Makes (parse_at f or_expr r) _ (parse_at-Makes f or_expr r tt) close-Makes)
    | inl q ↦ rw (parse_at, e, q) tt
    | inr (inl q) ↦ rw (parse_at, e, q) (parse_simple-Makes ts)
  ]
]

finish-Makes : (e : FilterExpression) (ts : List Token) → IsWellFormed e → Makes (finish e ts)
finish-Makes e ts v = expect-all Makes tt eof_type (λ rest. parsed e ts) ts (λ x. tt) (λ rest a. v)

parse-Makes : (ts : List Token) → Makes (parse ts)
unfolding parse
parse-Makes ts =
    and_then-Makes (parse_at (enough or_expr ts) or_expr ts) finish
      (parse_at-Makes (enough or_expr ts) or_expr ts tt) finish-Makes

-- Every expression that the parser returns, whatever the tokens, is read back from its printed tokens.
pub parse-print-parse :
    (ts rest : List Token) (e : FilterExpression)
    → parse ts ≡ parsed e rest
    → parse (print e) ≡ parsed e (eof ∷ [])
parse-print-parse ts rest e h = parse-print e (subst Makes h (parse-Makes ts))
