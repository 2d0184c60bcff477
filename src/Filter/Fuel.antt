-- ===== src/Filter/Fuel.antt =====
-- The parser's fuel.
use openlabels.Prelude.{
  ℕ, zero, suc, ◌+◌, ◌*◌, ◌≤◌, ◌<◌, ◌≡◌, refl, ap, ◌≢◌, inl, inr, List, [], ◌∷◌, arith, length,
}
use openlabels.Filter.{
  FilterExpression, Outcome, parsed, parse_error, past_end, out_of_fuel, Token, TokenType, or_type,
  and_type, not_type, lparen_type, rparen_type, eof_type, Mode, or_expr, and_expr, condition,
  or_rest, and_rest, and_then, accept, accepted, parse_simple, close, finish, parse_at, parse,
  weight, enough, binary_op, unary_op, or_op, and_op, or_token, and_token, not_token, lparen,
}
use openlabels.Filter.Steps.{Accepted-cases, expect-all, parse_simple-all}

-- The tokens that a mode consumes at least.
abbrev pub progress : Mode → ℕ
progress (or_rest e) = 0
progress (and_rest e) = 0
progress _ = 1

-- The parser did not run out of fuel, and consumed tokens.
abbrev pub Fits : ℕ → ℕ → Outcome → Type 0
Fits c n (parsed e ts) = c + length ts ≤ n
Fits c n parse_error = Unit
Fits c n past_end = Unit
Fits c n out_of_fuel = ⊥

accept-length :
    (k : TokenType) (ts rest : List Token)
    → accept k ts ≡ accepted rest
    → length ts ≡ suc (length rest)
accept-length k [] rest h = cc
accept-length k (t ∷ ts) rest h = ground arith

and_then-Fits :
    (c d n m : ℕ) (o : Outcome) (k : FilterExpression → List Token → Outcome)
    → Fits c m o
    → ((e : FilterExpression) (ts : List Token) → c + length ts ≤ m → Fits d n (k e ts))
    → Fits d n (and_then o k)
and_then-Fits c d n m (parsed e ts) k h g = g e ts h
and_then-Fits c d n m parse_error k h g = tt
and_then-Fits c d n m past_end k h g = tt
and_then-Fits c d n m out_of_fuel k h g = absurd h

parse_simple-Fits : (ts : List Token) → Fits 1 (length ts) (parse_simple ts)
parse_simple-Fits ts =
    parse_simple-all (Fits 1 (length ts)) tt (λ rest. length rest < length ts) (λ xs e q. tt)
      (λ xs rest l q. omega (arith, l.0, q)) (λ e rest w q. omega (arith, q)) ts (λ e. tt)
      (λ rest l. omega (arith, l.0))

wider : (c d n m : ℕ) (o : Outcome) → c + m ≤ d + n → Fits d m o → Fits c n o
wider c d n m (parsed e ts) h p = omega arith
wider c d n m parse_error h p = tt
wider c d n m past_end h p = tt
wider c d n m out_of_fuel h p = absurd p

close-Fits :
    (e : FilterExpression) (ts : List Token) (n : ℕ) → length ts < n → Fits 1 n (close e ts)
close-Fits e ts n h =
    expect-all (Fits 1 n) tt rparen_type (parsed e) ts (λ x. tt)
      (λ rest a. let l = accept-length rparen_type ts rest a in omega arith)

parse_at-Fits :
    (fuel : ℕ) (m : Mode) (ts : List Token)
    → weight m + 4 * length ts < fuel
    → Fits (progress m) (length ts) (parse_at fuel m ts)
unfolding parse_at
parse_at-Fits zero m ts h = absurd (omega arith)
parse_at-Fits (suc fuel) or_expr ts h =
    and_then-Fits 1 1 (length ts) (length ts) (parse_at fuel and_expr ts) _
      (parse_at-Fits fuel and_expr ts (omega arith))
      (λ e rest p.
        wider 1 0 _ _ _ (omega arith) (parse_at-Fits fuel (or_rest e) rest (omega arith)))
parse_at-Fits (suc fuel) and_expr ts h =
    and_then-Fits 1 1 (length ts) (length ts) (parse_at fuel condition ts) _
      (parse_at-Fits fuel condition ts (omega arith))
      (λ e rest p.
        wider 1 0 _ _ _ (omega arith) (parse_at-Fits fuel (and_rest e) rest (omega arith)))
parse_at-Fits (suc fuel) (or_rest left) ts h = elim (Accepted-cases (accept or_type ts)) [
  | inl e ↦ rw (parse_at, e) tt
  | inr (inl e) ↦ rw (parse_at, e) (omega arith)
  | inr (inr (r, e)) ↦
      let l = accept-length or_type ts r e in
      rw (parse_at, e)
        (and_then-Fits 1 0 (length ts) (length r) (parse_at fuel and_expr r) _
          (parse_at-Fits fuel and_expr r (omega arith))
          (λ e' rest p.
            wider 0 0 _ _ _ (omega arith)
              (parse_at-Fits fuel (or_rest (binary_op left or_op e')) rest (omega arith))))
]
parse_at-Fits (suc fuel) (and_rest left) ts h = elim (Accepted-cases (accept and_type ts)) [
  | inl e ↦ rw (parse_at, e) tt
  | inr (inl e) ↦ rw (parse_at, e) (omega arith)
  | inr (inr (r, e)) ↦
      let l = accept-length and_type ts r e in
      rw (parse_at, e)
        (and_then-Fits 1 0 (length ts) (length r) (parse_at fuel condition r) _
          (parse_at-Fits fuel condition r (omega arith))
          (λ e' rest p.
            wider 0 0 _ _ _ (omega arith)
              (parse_at-Fits fuel (and_rest (binary_op left and_op e')) rest (omega arith))))
]
parse_at-Fits (suc fuel) condition ts h = elim (Accepted-cases (accept not_type ts)) [
  | inr (inr (r, e)) ↦
      let l = accept-length not_type ts r e in
      rw (parse_at, e)
        (and_then-Fits 1 1 (length ts) (length r) (parse_at fuel condition r) _
          (parse_at-Fits fuel condition r (omega arith)) (λ e' rest p. omega arith))
  | inl e ↦ rw (parse_at, e) tt
  | inr (inl e) ↦ elim (Accepted-cases (accept lparen_type ts)) [
    | inr (inr (r, f)) ↦
        let l = accept-length lparen_type ts r f in
        rw (parse_at, e, f)
          (and_then-Fits 1 1 (length ts) (length r) (parse_at fuel or_expr r) _
            (parse_at-Fits fuel or_expr r (omega arith))
            (λ e' rest p. close-Fits e' rest (length ts) (omega arith)))
    | inl f ↦ rw (parse_at, e, f) tt
    | inr (inl f) ↦ rw (parse_at, e, f) (parse_simple-Fits ts)
  ]
]

and_then-eq :
    (c n : ℕ) (o o' : Outcome) (k k' : FilterExpression → List Token → Outcome)
    → o ≡ o'
    → Fits c n o
    → ((e : FilterExpression) (ts : List Token) → c + length ts ≤ n → k e ts ≡ k' e ts)
    → and_then o k ≡ and_then o' k'
and_then-eq c n (parsed e ts) o' k k' q f h = rw (← q) (h e ts f)
and_then-eq c n parse_error o' k k' q f h = rw (← q) refl
and_then-eq c n past_end o' k k' q f h = rw (← q) refl
and_then-eq c n out_of_fuel o' k k' q f h = absurd f

-- With enough fuel, the outcome does not depend on the fuel.
pub parse_at-fuel :
    (f g : ℕ) (m : Mode) (ts : List Token)
    → weight m + 4 * length ts < f
    → weight m + 4 * length ts < g
    → parse_at f m ts ≡ parse_at g m ts
unfolding parse_at
parse_at-fuel zero g m ts h h' = absurd (omega arith)
parse_at-fuel (suc f) zero m ts h h' = absurd (omega arith)
parse_at-fuel (suc f) (suc g) or_expr ts h h' =
    and_then-eq 1 (length ts) _ _ _ _ (parse_at-fuel f g and_expr ts (omega arith) (omega arith))
      (parse_at-Fits f and_expr ts (omega arith))
      (λ e rest p. parse_at-fuel f g (or_rest e) rest (omega arith) (omega arith))
parse_at-fuel (suc f) (suc g) and_expr ts h h' =
    and_then-eq 1 (length ts) _ _ _ _ (parse_at-fuel f g condition ts (omega arith) (omega arith))
      (parse_at-Fits f condition ts (omega arith))
      (λ e rest p. parse_at-fuel f g (and_rest e) rest (omega arith) (omega arith))
parse_at-fuel (suc f) (suc g) (or_rest left) ts h h' = elim (Accepted-cases (accept or_type ts)) [
  | inl e ↦ rw (parse_at, e) refl
  | inr (inl e) ↦ rw (parse_at, e) refl
  | inr (inr (r, e)) ↦
      let l = accept-length or_type ts r e in
      rw (parse_at, e)
        (and_then-eq 1 (length r) _ _ _ _ (parse_at-fuel f g and_expr r (omega arith) (omega arith))
          (parse_at-Fits f and_expr r (omega arith))
          (λ e' rest p.
            parse_at-fuel f g (or_rest (binary_op left or_op e')) rest (omega arith) (omega arith)))
]
parse_at-fuel (suc f) (suc g) (and_rest left) ts h h' = elim (Accepted-cases (accept and_type ts)) [
  | inl e ↦ rw (parse_at, e) refl
  | inr (inl e) ↦ rw (parse_at, e) refl
  | inr (inr (r, e)) ↦
      let l = accept-length and_type ts r e in
      rw (parse_at, e)
        (and_then-eq 1 (length r) _ _ _ _
          (parse_at-fuel f g condition r (omega arith) (omega arith))
          (parse_at-Fits f condition r (omega arith))
          (λ e' rest p.
            parse_at-fuel f g (and_rest (binary_op left and_op e')) rest (omega arith)
              (omega arith)))
]
parse_at-fuel (suc f) (suc g) condition ts h h' = elim (Accepted-cases (accept not_type ts)) [
  | inr (inr (r, e)) ↦
      let l = accept-length not_type ts r e in
      rw (parse_at, e)
        (ap (λ o. and_then o (λ e rest. parsed (unary_op e) rest))
          (parse_at-fuel f g condition r (omega arith) (omega arith)))
  | inl e ↦ rw (parse_at, e) refl
  | inr (inl e) ↦ elim (Accepted-cases (accept lparen_type ts)) [
    | inr (inr (r, q)) ↦
        let l = accept-length lparen_type ts r q in
        rw (parse_at, e, q)
          (ap (λ o. and_then o close) (parse_at-fuel f g or_expr r (omega arith) (omega arith)))
    | inl q ↦ rw (parse_at, e, q) refl
    | inr (inl q) ↦ rw (parse_at, e, q) refl
  ]
]

-- The outcome of a method, with enough fuel.
abbrev pub outcome : Mode → List Token → Outcome
outcome m ts = parse_at (enough m ts) m ts

pub outcome-or_expr :
    (ts : List Token)
    → outcome or_expr ts ≡ and_then (outcome and_expr ts) (λ e rest. outcome (or_rest e) rest)
unfolding parse_at
outcome-or_expr ts =
    and_then-eq 1 (length ts) _ _ _ (λ x. outcome (or_rest x))
      (parse_at-fuel (weight or_expr + 4 * length ts) (enough and_expr ts) and_expr ts (omega arith)
        (omega arith))
      (parse_at-Fits (weight or_expr + 4 * length ts) and_expr ts (omega arith))
      (λ e rest p.
        parse_at-fuel (weight or_expr + 4 * length ts) (enough (or_rest e) rest) (or_rest e) rest
          (omega arith) (omega arith))

pub outcome-and_expr :
    (ts : List Token)
    → outcome and_expr ts ≡ and_then (outcome condition ts) (λ e rest. outcome (and_rest e) rest)
unfolding parse_at
outcome-and_expr ts =
    and_then-eq 1 (length ts) _ _ _ (λ x. outcome (and_rest x))
      (parse_at-fuel (weight and_expr + 4 * length ts) (enough condition ts) condition ts
        (omega arith) (omega arith))
      (parse_at-Fits (weight and_expr + 4 * length ts) condition ts (omega arith))
      (λ e rest p.
        parse_at-fuel (weight and_expr + 4 * length ts) (enough (and_rest e) rest) (and_rest e) rest
          (omega arith) (omega arith))

pub outcome-or_token :
    (left : FilterExpression) (ts : List Token)
    → outcome (or_rest left) (or_token ∷ ts)
      ≡ and_then
          (outcome and_expr ts)
          (λ right rest. outcome (or_rest (binary_op left or_op right)) rest)
unfolding parse_at
outcome-or_token left ts =
    and_then-eq 1 (length ts) _ _ _ (λ x. outcome (or_rest (binary_op left or_op x)))
      (parse_at-fuel (0 + 4 * length (or_token ∷ ts)) (enough and_expr ts) and_expr ts (omega arith)
        (omega arith))
      (parse_at-Fits (0 + 4 * length (or_token ∷ ts)) and_expr ts (omega arith))
      (λ e rest p.
        parse_at-fuel (0 + 4 * length (or_token ∷ ts))
          (enough (or_rest (binary_op left or_op e)) rest) (or_rest (binary_op left or_op e)) rest
          (omega arith) (omega arith))

pub outcome-and_token :
    (left : FilterExpression) (ts : List Token)
    → outcome (and_rest left) (and_token ∷ ts)
      ≡ and_then
          (outcome condition ts)
          (λ right rest. outcome (and_rest (binary_op left and_op right)) rest)
unfolding parse_at
outcome-and_token left ts =
    and_then-eq 1 (length ts) _ _ _ (λ x. outcome (and_rest (binary_op left and_op x)))
      (parse_at-fuel (0 + 4 * length (and_token ∷ ts)) (enough condition ts) condition ts
        (omega arith) (omega arith))
      (parse_at-Fits (0 + 4 * length (and_token ∷ ts)) condition ts (omega arith))
      (λ e rest p.
        parse_at-fuel (0 + 4 * length (and_token ∷ ts))
          (enough (and_rest (binary_op left and_op e)) rest) (and_rest (binary_op left and_op e))
          rest (omega arith) (omega arith))

pub outcome-not_token :
    (ts : List Token)
    → outcome condition (not_token ∷ ts)
      ≡ and_then (outcome condition ts) (λ e rest. parsed (unary_op e) rest)
unfolding parse_at
outcome-not_token ts =
    ap (λ o. and_then o (λ e rest. parsed (unary_op e) rest))
      (parse_at-fuel (0 + 4 * length (not_token ∷ ts)) (enough condition ts) condition ts
        (omega arith) (omega arith))

pub outcome-lparen :
    (ts : List Token) → outcome condition (lparen ∷ ts) ≡ and_then (outcome or_expr ts) close
unfolding parse_at
outcome-lparen ts =
    ap (λ o. and_then o close)
      (parse_at-fuel (0 + 4 * length (lparen ∷ ts)) (enough or_expr ts) or_expr ts (omega arith)
        (omega arith))

-- The parser never runs out of fuel, whatever the tokens.
pub parse_enough : (ts : List Token) → parse ts ≢ out_of_fuel
unfolding parse
parse_enough ts h =
    finished (parse_at (enough or_expr ts) or_expr ts)
      (parse_at-Fits (enough or_expr ts) or_expr ts (omega arith)) h
  where
    finished : (o : Outcome) → Fits 1 (length ts) o → and_then o finish ≢ out_of_fuel
    finished (parsed e rest) f h =
        expect-all (λ o. o ≢ out_of_fuel) (λ p. cc) eof_type (λ r. parsed e rest) rest (λ x p. cc)
          (λ r a p. cc) h
    finished parse_error f h = cc
    finished past_end f h = cc
    finished out_of_fuel f h = f
