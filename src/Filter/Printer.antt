-- ===== src/Filter/Printer.antt =====
-- A printer of filter expressions, with parentheses only where the grammar needs them.
use openlabels.Prelude.{◌≡◌, refl, ap, ◌∙◌, Option, none, some, List, [], ◌∷◌}
use openlabels.Filter.{
  FilterExpression, binary_op, unary_op, comparison, function_call, and_op, or_op, Function, has,
  missing, count, ComparisonOp, Value, text, number, Token, string, number_token, identifier,
  operator, and_token, or_token, not_token, has_token, missing_token, count_token, lparen, rparen,
  eof, parsed, and_type, not_type, lparen_type, or_expr, and_expr, condition, or_rest, and_rest,
  and_then, accept, refused, close, finish, parse_simple, parse_at, parse,
}
use openlabels.Filter.Steps.{IsWellFormed}
use openlabels.Filter.Fuel.{
  outcome, outcome-or_expr, outcome-and_expr, outcome-or_token, outcome-and_token,
  outcome-not_token, outcome-lparen,
}

abbrev value_token : Value → Token
value_token (text s) = string s
value_token (number n) = number_token n

abbrev function_token : Function → Token
function_token has = has_token
function_token missing = missing_token
function_token count = count_token

abbrev comparison_tokens : Option (ComparisonOp × Value) → List Token → List Token
comparison_tokens none ts = ts
comparison_tokens (some (op, v)) ts = operator op ∷ value_token v ∷ ts

pub data Level : Type 0 where
  or_level and_level condition_level : Level

-- The tokens of an expression at a level of the grammar, in front of others.
unfoldable pub print_at : Level → FilterExpression → List Token → List Token
print_at or_level (binary_op l or_op r) ts =
    print_at or_level l (or_token ∷ print_at and_level r ts)
print_at and_level (binary_op l or_op r) ts =
    lparen ∷ print_at or_level l (or_token ∷ print_at and_level r (rparen ∷ ts))
print_at condition_level (binary_op l or_op r) ts =
    lparen ∷ print_at or_level l (or_token ∷ print_at and_level r (rparen ∷ ts))
print_at or_level (binary_op l and_op r) ts =
    print_at and_level l (and_token ∷ print_at condition_level r ts)
print_at and_level (binary_op l and_op r) ts =
    print_at and_level l (and_token ∷ print_at condition_level r ts)
print_at condition_level (binary_op l and_op r) ts =
    lparen ∷ print_at and_level l (and_token ∷ print_at condition_level r (rparen ∷ ts))
print_at level (unary_op e) ts = not_token ∷ print_at condition_level e ts
print_at level (comparison f op v) ts = identifier f ∷ operator op ∷ value_token v ∷ ts
print_at level (function_call f a c) ts =
    function_token f ∷ lparen ∷ string a ∷ rparen ∷ comparison_tokens c ts

and_rest-stops :
    (e : FilterExpression) (ts : List Token)
    → accept and_type ts ≡ refused
    → outcome (and_rest e) ts ≡ parsed e ts
unfolding parse_at
and_rest-stops e ts h = rw (parse_at, h) refl

module _ (e : FilterExpression) (xs ts : List Token) where
  and_of_condition :
      outcome condition xs ≡ parsed e ts → outcome and_expr xs ≡ outcome (and_rest e) ts
  and_of_condition h =
      outcome-and_expr xs ∙ ap (λ o. and_then o (λ e rest. outcome (and_rest e) rest)) h

  or_of_and :
      accept and_type ts ≡ refused
      → outcome and_expr xs ≡ outcome (and_rest e) ts
      → outcome or_expr xs ≡ outcome (or_rest e) ts
  or_of_and n h =
      outcome-or_expr xs
      ∙ ap (λ o. and_then o (λ e rest. outcome (or_rest e) rest)) (h ∙ and_rest-stops e ts n)

  in_parens :
      outcome or_expr xs ≡ outcome (or_rest e) (rparen ∷ ts)
      → outcome condition (lparen ∷ xs) ≡ parsed e ts
  unfolding parse_at
  in_parens h = outcome-lparen xs ∙ ap (λ o. and_then o close) h

-- The three levels of an expression's text are read back.
record Reads (e : FilterExpression) (o a c : List Token → List Token) : Type 0 where
  at_or :
      (ts : List Token)
      → accept and_type ts ≡ refused
      → outcome or_expr (o ts) ≡ outcome (or_rest e) ts
  at_and : (ts : List Token) → outcome and_expr (a ts) ≡ outcome (and_rest e) ts
  at_condition : (ts : List Token) → outcome condition (c ts) ≡ parsed e ts

condition-Reads :
    (e : FilterExpression) (c : List Token → List Token)
    → ((ts : List Token) → outcome condition (c ts) ≡ parsed e ts)
    → Reads e c c c
condition-Reads e c h = record {
  at_or = λ ts n. or_of_and e (c ts) ts n (and_of_condition e (c ts) ts (h ts));
  at_and = λ ts. and_of_condition e (c ts) ts (h ts);
  at_condition = h;
}

simple-reads :
    (e : FilterExpression) (xs ts : List Token)
    → accept not_type xs ≡ refused
    → accept lparen_type xs ≡ refused
    → parse_simple xs ≡ parsed e ts
    → outcome condition xs ≡ parsed e ts
unfolding parse_at
simple-reads e xs ts h h' p = rw (parse_at, h, h') p

print_at-Reads :
    (e : FilterExpression)
    → IsWellFormed e
    → Reads e (print_at or_level e) (print_at and_level e) (print_at condition_level e)
unfolding print_at parse_simple
print_at-Reads (binary_op l or_op r) (wl, wr) =
    let left = print_at-Reads l wl in
    let right = print_at-Reads r wr in
    let e = binary_op l or_op r in
    let o : (ts : List Token)
        → accept and_type ts ≡ refused
        → outcome or_expr (print_at or_level e ts) ≡ outcome (or_rest e) ts =
      λ ts n.
        left.at_or (or_token ∷ print_at and_level r ts) refl
        ∙ (outcome-or_token l (print_at and_level r ts)
            ∙ ap (λ o. and_then o (λ x rest. outcome (or_rest (binary_op l or_op x)) rest))
                (right.at_and ts ∙ and_rest-stops r ts n)) in
    let c : (ts : List Token) → outcome condition (print_at condition_level e ts) ≡ parsed e ts =
      λ ts. in_parens e (print_at or_level e (rparen ∷ ts)) ts (o (rparen ∷ ts) refl) in
    record {
      at_or = o;
      at_and = λ ts. and_of_condition e (print_at condition_level e ts) ts (c ts);
      at_condition = c;
    }
print_at-Reads (binary_op l and_op r) (wl, wr) =
    let left = print_at-Reads l wl in
    let right = print_at-Reads r wr in
    let e = binary_op l and_op r in
    let a : (ts : List Token)
        → outcome and_expr (print_at and_level e ts) ≡ outcome (and_rest e) ts =
      λ ts.
        left.at_and (and_token ∷ print_at condition_level r ts)
        ∙ (outcome-and_token l (print_at condition_level r ts)
            ∙ ap (λ o. and_then o (λ x rest. outcome (and_rest (binary_op l and_op x)) rest))
                (right.at_condition ts)) in
    record {
      at_or = λ ts n. or_of_and e (print_at and_level e ts) ts n (a ts);
      at_and = a;
      at_condition = λ ts.
          in_parens e (print_at and_level e (rparen ∷ ts)) ts
            (or_of_and e (print_at and_level e (rparen ∷ ts)) (rparen ∷ ts) refl (a (rparen ∷ ts)));
    }
print_at-Reads (unary_op e) w =
    let inner = print_at-Reads e w in
    condition-Reads (unary_op e) (print_at condition_level (unary_op e)) (λ ts.
      outcome-not_token (print_at condition_level e ts)
      ∙ ap (λ o. and_then o (λ x rest. parsed (unary_op x) rest)) (inner.at_condition ts))
print_at-Reads (comparison f op (text s)) w =
    condition-Reads _ _ (λ ts. simple-reads _ _ ts refl refl refl)
print_at-Reads (comparison f op (number n)) w =
    condition-Reads _ _ (λ ts. simple-reads _ _ ts refl refl refl)
print_at-Reads (function_call has a none) w =
    condition-Reads _ _ (λ ts. simple-reads _ _ ts refl refl refl)
print_at-Reads (function_call missing a none) w =
    condition-Reads _ _ (λ ts. simple-reads _ _ ts refl refl refl)
print_at-Reads (function_call count a (some (op, text s))) w =
    condition-Reads _ _ (λ ts. simple-reads _ _ ts refl refl refl)
print_at-Reads (function_call count a (some (op, number n))) w =
    condition-Reads _ _ (λ ts. simple-reads _ _ ts refl refl refl)
print_at-Reads (function_call has a (some c)) w = absurd w
print_at-Reads (function_call missing a (some c)) w = absurd w
print_at-Reads (function_call count a none) w = absurd w

-- The tokens of a filter.
abbrev pub print : FilterExpression → List Token
print e = print_at or_level e (eof ∷ [])

-- Parsing the printed tokens of an expression in which exactly the calls of `count` have a comparison gives
-- the expression back: AND binds tighter than OR, both associate to the left, and NOT applies to the next
-- condition.
pub parse-print : (e : FilterExpression) → IsWellFormed e → parse (print e) ≡ parsed e (eof ∷ [])
unfolding parse
parse-print e w = ap (λ o. and_then o finish) ((print_at-Reads e w).at_or (eof ∷ []) refl)
