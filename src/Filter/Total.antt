-- ===== src/Filter/Total.antt =====
-- The parser at the end of the tokens.
use openlabels.Prelude.{ℕ, zero, suc, ◌≡◌, refl, subst, ◌≢◌, inl, inr, List, [], ◌∷◌, arith}
use openlabels.Filter.{
  FilterExpression, Token, Outcome, parsed, parse_error, past_end, out_of_fuel, or_type, and_type,
  not_type, lparen_type, rparen_type, eof_type, Mode, or_expr, and_expr, condition, or_rest,
  and_rest, and_then, accept, close, finish, binary_op, or_op, and_op, parse_simple, parse_at,
  parse, enough, TokenType, past,
}
use openlabels.Filter.Steps.{EndsInEof, accept-Leaves, Accepted-cases, expect-all, parse_simple-all}
use openlabels.Filter.Fuel.{parse_enough}

-- The parser has not read behind the last token, and has left the EOF at the end.
abbrev Stays : Outcome → Type 0
Stays (parsed e ts) = EndsInEof ts
Stays parse_error = Unit
Stays past_end = ⊥
Stays out_of_fuel = Unit

and_then-Stays :
    (o : Outcome) (k : FilterExpression → List Token → Outcome)
    → Stays o
    → ((e : FilterExpression) (ts : List Token) → EndsInEof ts → Stays (k e ts))
    → Stays (and_then o k)
and_then-Stays (parsed e ts) k h g = g e ts h
and_then-Stays parse_error k h g = tt
and_then-Stays past_end k h g = h
and_then-Stays out_of_fuel k h g = tt

not_empty : (ts : List Token) → ts ≡ [] → EndsInEof ts → ⊥
not_empty ts e h = subst EndsInEof e h

parse_simple-Stays : (ts : List Token) → EndsInEof ts → Stays (parse_simple ts)
parse_simple-Stays ts h =
    parse_simple-all Stays tt EndsInEof not_empty (λ xs rest l q. l.1 q) (λ e rest w q. q) ts
      (λ e. not_empty ts e h) (λ rest l. l.1 h)

close-Stays : (e : FilterExpression) (ts : List Token) → EndsInEof ts → Stays (close e ts)
close-Stays e ts h =
    expect-all Stays tt rparen_type (parsed e) ts (λ x. not_empty ts x h)
      (λ rest a. (accept-Leaves rparen_type ts rest refl a).1 h)

never_past : (k : TokenType) (ts : List Token) → EndsInEof ts → accept k ts ≢ past
never_past k [] h e = h
never_past k (t ∷ ts) h e = ground (arith, e)

parse_at-Stays : (fuel : ℕ) (m : Mode) (ts : List Token) → EndsInEof ts → Stays (parse_at fuel m ts)
unfolding parse_at
parse_at-Stays zero m ts w = tt
parse_at-Stays (suc f) or_expr ts w =
    and_then-Stays (parse_at f and_expr ts) _ (parse_at-Stays f and_expr ts w)
      (λ e rest v. parse_at-Stays f (or_rest e) rest v)
parse_at-Stays (suc f) and_expr ts w =
    and_then-Stays (parse_at f condition ts) _ (parse_at-Stays f condition ts w)
      (λ e rest v. parse_at-Stays f (and_rest e) rest v)
parse_at-Stays (suc f) (or_rest left) ts w = elim (Accepted-cases (accept or_type ts)) [
  | inl e ↦ absurd (never_past or_type ts w e)
  | inr (inl e) ↦ rw (parse_at, e) w
  | inr (inr (r, e)) ↦
      rw (parse_at, e)
        (and_then-Stays (parse_at f and_expr r) _
          (parse_at-Stays f and_expr r ((accept-Leaves or_type ts r refl e).1 w))
          (λ x rest v. parse_at-Stays f (or_rest (binary_op left or_op x)) rest v))
]
parse_at-Stays (suc f) (and_rest left) ts w = elim (Accepted-cases (accept and_type ts)) [
  | inl e ↦ absurd (never_past and_type ts w e)
  | inr (inl e) ↦ rw (parse_at, e) w
  | inr (inr (r, e)) ↦
      rw (parse_at, e)
        (and_then-Stays (parse_at f condition r) _
          (parse_at-Stays f condition r ((accept-Leaves and_type ts r refl e).1 w))
          (λ x rest v. parse_at-Stays f (and_rest (binary_op left and_op x)) rest v))
]
parse_at-Stays (suc f) condition ts w = elim (Accepted-cases (accept not_type ts)) [
  | inl e ↦ absurd (never_past not_type ts w e)
  | inr (inr (r, e)) ↦
      rw (parse_at, e)
        (and_then-Stays (parse_at f condition r) _
          (parse_at-Stays f condition r ((accept-Leaves not_type ts r refl e).1 w)) (λ x rest v. v))
  | inr (inl e) ↦ elim (Accepted-cases (accept lparen_type ts)) [
    | inl q ↦ absurd (never_past lparen_type ts w q)
    | inr (inr (r, q)) ↦
        rw (parse_at, e, q)
          (and_then-Stays (parse_at f or_expr r) _
            (parse_at-Stays f or_expr r ((accept-Leaves lparen_type ts r refl q).1 w)) close-Stays)
    | inr (inl q) ↦ rw (parse_at, e, q) (parse_simple-Stays ts w)
  ]
]

-- On a list of tokens that ends with EOF, as the lexer's does, the parser returns an expression or raises a ParseError:
-- it never reads behind the last token, and the model's fuel is enough.
pub parse_total :
    (ts : List Token) → EndsInEof ts → (parse ts ≢ past_end) × (parse ts ≢ out_of_fuel)
unfolding parse
parse_total ts w = (
  (λ h. subst Stays h (
      and_then-Stays (parse_at (enough or_expr ts) or_expr ts) finish
        (parse_at-Stays (enough or_expr ts) or_expr ts w)
        (λ e rest v.
          expect-all Stays tt eof_type (λ r. parsed e rest) rest (λ x. not_empty rest x v)
            (λ r a. v)))),
  parse_enough ts,
)
