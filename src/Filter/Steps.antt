-- ===== src/Filter/Steps.antt =====
-- The single steps of the parser, and the conditions without parts of their own.
use openlabels.Prelude.{
  suc, ◌≡◌, refl, subst, ◌⊎◌, inl, inr, false, none, some, List, [], ◌∷◌, arith, ◌==◌, Bool-cases,
  length,
}
use openlabels.Filter.{
  FilterExpression, binary_op, unary_op, comparison, function_call, Function, has, missing, count,
  ComparisonOp, Value, text, number, Token, string, number_token, identifier, operator, has_token,
  missing_token, count_token, parsed, parse_error, past_end, Outcome, TokenType, type_code, type_of,
  accept, Accepted, past, refused, accepted, expect, parse_value, parse_operator, parse_name,
  parse_argument, parse_call, parse_simple, lparen_type, rparen_type, eof_type, Str,
}

pub Accepted-cases :
    (a : Accepted) → (a ≡ past) ⊎ ((a ≡ refused) ⊎ ((rest : List Token) × (a ≡ accepted rest)))
Accepted-cases past = inl refl
Accepted-cases refused = inr (inl refl)
Accepted-cases (accepted rest) = inr (inr (rest, refl))

-- The last of the tokens is EOF, as in every list that the lexer makes.
abbrev pub EndsInEof : List Token → Type 0
EndsInEof [] = ⊥
EndsInEof (t ∷ []) = type_code (type_of t) ≡ type_code eof_type
EndsInEof (t ∷ u ∷ ts) = EndsInEof (u ∷ ts)

-- One token has been consumed, which is not the EOF at the end.
abbrev pub Leaves : List Token → List Token → Type 0
Leaves ts rest = (length ts ≡ suc (length rest)) × (EndsInEof ts → EndsInEof rest)

Leaves-cons :
    (t : Token) (ts : List Token)
    → (type_code (type_of t) == type_code eof_type) ≡ false
    → Leaves (t ∷ ts) ts
Leaves-cons t [] h = (refl, λ e. absurd (ground (arith, e, h)))
Leaves-cons t (u ∷ ts) h = (refl, λ e. e)

pub accept-Leaves :
    (k : TokenType) (ts rest : List Token)
    → (type_code k == type_code eof_type) ≡ false
    → accept k ts ≡ accepted rest
    → Leaves ts rest
accept-Leaves k [] rest h e = cc
accept-Leaves k (t ∷ ts) rest h e = elim (Bool-cases (type_code (type_of t) == type_code k)) [
  | inr f ↦ absurd (cc (rw f at e))
  | inl f ↦
      let same : ts ≡ rest = accepted_inj (rw f at e) in
      subst (Leaves (t ∷ ts)) same (Leaves-cons t ts (ground (arith, f, h)))
]
  where
    accepted_inj : {xs ys : List Token} → accepted xs ≡ accepted ys → xs ≡ ys
    accepted_inj p = cc

-- What the parser makes: exactly `count` has a comparison.
abbrev pub IsWellFormed : FilterExpression → Type 0
IsWellFormed (binary_op l op r) = IsWellFormed l × IsWellFormed r
IsWellFormed (unary_op e) = IsWellFormed e
IsWellFormed (comparison f op v) = Unit
IsWellFormed (function_call count a (some c)) = Unit
IsWellFormed (function_call count a none) = ⊥
IsWellFormed (function_call f a none) = Unit
IsWellFormed (function_call f a (some c)) = ⊥

-- What holds of the outcome of a test holds if it does at the end, in error and after the token.
module _ (P : Outcome → Type 0) (bad : P parse_error) where
  pub expect-all :
      (k : TokenType) (next : List Token → Outcome) (ts : List Token)
      → (ts ≡ [] → P past_end)
      → ((rest : List Token) → accept k ts ≡ accepted rest → P (next rest))
      → P (expect k next ts)
  expect-all k next [] a c = a refl
  expect-all k next (t ∷ ts) a c = elim (Bool-cases (type_code (type_of t) == type_code k)) [
    | inl e ↦ rw (expect, e) (c ts (rw e refl))
    | inr e ↦ rw (expect, e) bad
  ]

  pub parse_value-all :
      (next : Value → List Token → Outcome) (ts : List Token)
      → (ts ≡ [] → P past_end)
      → ((v : Value) (rest : List Token) → Leaves ts rest → P (next v rest))
      → P (parse_value next ts)
  parse_value-all next [] a c = a refl
  parse_value-all next (string s ∷ ts) a c = c (text s) ts (Leaves-cons (string s) ts refl)
  parse_value-all next (number_token n ∷ ts) a c =
      c (number n) ts (Leaves-cons (number_token n) ts refl)
  parse_value-all next (identifier s ∷ ts) a c = c (text s) ts (Leaves-cons (identifier s) ts refl)
  parse_value-all next (_ ∷ ts) a c = bad

  pub parse_name-all :
      (next : Str → List Token → Outcome) (ts : List Token)
      → (ts ≡ [] → P past_end)
      → ((s : Str) (rest : List Token) → Leaves ts rest → P (next s rest))
      → P (parse_name next ts)
  parse_name-all next [] a c = a refl
  parse_name-all next (string s ∷ ts) a c = c s ts (Leaves-cons (string s) ts refl)
  parse_name-all next (identifier s ∷ ts) a c = c s ts (Leaves-cons (identifier s) ts refl)
  parse_name-all next (_ ∷ ts) a c = bad

  -- A condition without parts of its own, where the end is not reached while tokens are left.
  module _ (Q : List Token → Type 0) (full : (ts : List Token) → ts ≡ [] → Q ts → P past_end)
      (tail_ : (ts rest : List Token) → Leaves ts rest → Q ts → Q rest) where
    pub parse_operator-all :
        (next : (ComparisonOp × Value) → List Token → Outcome) (ts : List Token)
        → Q ts
        → ((c : ComparisonOp × Value) (rest : List Token) → Q rest → P (next c rest))
        → P (parse_operator next ts)
    parse_operator-all next [] q c = full [] refl q
    parse_operator-all next (operator op ∷ ts) q c =
        let here : Q ts = tail_ (operator op ∷ ts) ts (Leaves-cons (operator op) ts refl) q in
        parse_value-all (λ v. next (op, v)) ts (λ e. full ts e here)
          (λ v rest l. c (op, v) rest (tail_ ts rest l here))
    parse_operator-all next (_ ∷ ts) q c = bad

    pub parse_argument-all :
        (next : Str → List Token → Outcome) (ts : List Token)
        → Q ts
        → ((s : Str) (rest : List Token) → Q rest → P (next s rest))
        → P (parse_argument next ts)
    parse_argument-all next ts q c =
        expect-all lparen_type (parse_name (λ arg. expect rparen_type (next arg))) ts
          (λ e. full ts e q)
          (λ r e.
            let q' : Q r = tail_ ts r (accept-Leaves lparen_type ts r refl e) q in
            parse_name-all (λ arg. expect rparen_type (next arg)) r (λ e. full r e q')
              (λ s r' l.
                let q'' : Q r' = tail_ r r' l q' in
                expect-all rparen_type (next s) r' (λ e. full r' e q'')
                  (λ rest e'.
                    c s rest (tail_ r' rest (accept-Leaves rparen_type r' rest refl e') q''))))

    -- `parse_simple` makes a well-formed expression, or fails as its tests do.
    module _
        (done : (e : FilterExpression) (rest : List Token)
          → IsWellFormed e
          → Q rest
          → P (parsed e rest)) where
      parse_call-all : (f : Function) (a : Str) (ts : List Token) → Q ts → P (parse_call f a ts)
      parse_call-all has a ts q = done (function_call has a none) ts tt q
      parse_call-all missing a ts q = done (function_call missing a none) ts tt q
      parse_call-all count a ts q =
          parse_operator-all (λ c. parsed (function_call count a (some c))) ts q
            (λ c rest. done (function_call count a (some c)) rest tt)

      pub parse_simple-all :
          (ts : List Token)
          → (ts ≡ [] → P past_end)
          → ((rest : List Token) → Leaves ts rest → Q rest)
          → P (parse_simple ts)
      unfolding parse_simple
      parse_simple-all [] a c = a refl
      parse_simple-all (has_token ∷ ts) a c =
          parse_argument-all (parse_call has) ts (c ts (Leaves-cons has_token ts refl))
            (parse_call-all has)
      parse_simple-all (missing_token ∷ ts) a c =
          parse_argument-all (parse_call missing) ts (c ts (Leaves-cons missing_token ts refl))
            (parse_call-all missing)
      parse_simple-all (count_token ∷ ts) a c =
          parse_argument-all (parse_call count) ts (c ts (Leaves-cons count_token ts refl))
            (parse_call-all count)
      parse_simple-all (identifier s ∷ ts) a c =
          parse_operator-all (λ x. parsed (comparison s x.0 x.1)) ts
            (c ts (Leaves-cons (identifier s) ts refl))
            (λ x rest. done (comparison s x.0 x.1) rest tt)
      parse_simple-all (_ ∷ ts) a c = bad
