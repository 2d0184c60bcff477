-- ===== src/Filter.antt =====
-- The filter grammar (src/openlabels/cli/filter_parser.py): tokens, expressions and the recursive descent
-- parser. A token's position, which only messages show, is left out, and a number is its literal. The
-- parser's state is the list of the tokens that are left. The lexer ends its tokens with EOF, which no method
-- consumes; what the code does behind the end of other lists is left out, and marked as `past_end`.
pub mod Steps
pub mod Fuel
pub mod Total
pub mod Printer
pub mod Made
mod Examples
use openlabels.Prelude.{
  ℕ, zero, suc, ◌+◌, ◌-◌, ◌*◌, ◌/◌, ◌%◌, ◌≤◌, ◌<◌, min, max, ◌≡◌, refl, sym, ap, ◌∙◌, subst, ◌≢◌,
  ◌↔◌, ◌⊎◌, inl, inr, Bool, true, false, not, ◌&&◌, ◌||◌, Option, none, some, List, [], ◌∷◌, ◌++◌,
  map, reverse, arith, ltb, leb, ◌==◌, if◌then◌else◌, ltb→lt, lt→ltb, ge→ltb, leb→le, le→leb,
  gt→leb, ==_iff, Bool-cases, Option-cases, some_inj, length, get_elem?, take, drop, slice, keep,
  All, Any, all, any, length-append, length-take, length-drop,
}
use openlabels.Prelude.Text.{Str}

-- TokenType
pub data TokenType : Type 0 where
  string_type number_type identifier_type operator_type and_type or_type not_type has_type
        missing_type count_type lparen_type rparen_type eof_type :
      TokenType

abbrev pub type_code : TokenType → ℕ
type_code string_type = 0
type_code number_type = 1
type_code identifier_type = 2
type_code operator_type = 3
type_code and_type = 4
type_code or_type = 5
type_code not_type = 6
type_code has_type = 7
type_code missing_type = 8
type_code count_type = 9
type_code lparen_type = 10
type_code rparen_type = 11
type_code eof_type = 12

-- COMPARISON_OPS
pub data ComparisonOp : Type 0 where
  eq ne gt lt ge le regex contains_op : ComparisonOp

pub data Value : Type 0 where
  text : Str → Value
  number : Str → Value

pub data Token : Type 0 where
  string : Str → Token
  number_token : Str → Token
  identifier : Str → Token
  operator : ComparisonOp → Token
  and_token or_token not_token has_token missing_token count_token lparen rparen eof : Token

abbrev pub type_of : Token → TokenType
type_of (string s) = string_type
type_of (number_token n) = number_type
type_of (identifier s) = identifier_type
type_of (operator op) = operator_type
type_of and_token = and_type
type_of or_token = or_type
type_of not_token = not_type
type_of has_token = has_type
type_of missing_token = missing_type
type_of count_token = count_type
type_of lparen = lparen_type
type_of rparen = rparen_type
type_of eof = eof_type

pub data LogicalOp : Type 0 where
  and_op or_op : LogicalOp

pub data Function : Type 0 where
  has missing count : Function

pub data FilterExpression : Type 0 where
  binary_op : FilterExpression → LogicalOp → FilterExpression → FilterExpression
  unary_op : FilterExpression → FilterExpression
  comparison : Str → ComparisonOp → Value → FilterExpression
  function_call : Function → Str → Option (ComparisonOp × Value) → FilterExpression

-- What a parsing method does: it returns, or raises a ParseError. The other two are the model's own. A method
-- that reads behind the last token is `past_end`: there the code reads the last token over and over, or raises
-- IndexError on the empty list, so that it may also recurse without end.
pub data Outcome : Type 0 where
  parsed : FilterExpression → List Token → Outcome
  parse_error : Outcome
  past_end : Outcome
  out_of_fuel : Outcome

abbrev pub and_then : Outcome → (FilterExpression → List Token → Outcome) → Outcome
and_then (parsed e ts) k = k e ts
and_then parse_error k = parse_error
and_then past_end k = past_end
and_then out_of_fuel k = out_of_fuel

-- A test of the current token's type: there is none, it has another, or it has it and others follow.
pub data Accepted : Type 0 where
  past : Accepted
  refused : Accepted
  accepted : List Token → Accepted

abbrev pub accept : TokenType → List Token → Accepted
accept k [] = past
accept k (t ∷ ts) = if type_code (type_of t) == type_code k then accepted ts else refused

-- `_expect`
abbrev pub expect : TokenType → (List Token → Outcome) → List Token → Outcome
expect k next ts = elim (accept k ts) [
  | past ↦ past_end
  | refused ↦ parse_error
  | accepted rest ↦ next rest
]

-- `_parse_value`, and what follows.
abbrev pub parse_value : (Value → List Token → Outcome) → List Token → Outcome
parse_value next [] = past_end
parse_value next (string s ∷ ts) = next (text s) ts
parse_value next (number_token n ∷ ts) = next (number n) ts
parse_value next (identifier s ∷ ts) = next (text s) ts
parse_value next _ = parse_error

-- A comparison operator and a value.
abbrev pub parse_operator : ((ComparisonOp × Value) → List Token → Outcome) → List Token → Outcome
parse_operator next [] = past_end
parse_operator next (operator op ∷ ts) = parse_value (λ v. next (op, v)) ts
parse_operator next _ = parse_error

-- `_parse_comparison`, behind the field.
abbrev pub parse_comparison : Str → List Token → Outcome
parse_comparison field = parse_operator (λ c. parsed (comparison field c.0 c.1))

-- The argument of a function.
abbrev pub parse_name : (Str → List Token → Outcome) → List Token → Outcome
parse_name next [] = past_end
parse_name next (identifier s ∷ ts) = next s ts
parse_name next (string s ∷ ts) = next s ts
parse_name next _ = parse_error

-- The argument in its parentheses.
abbrev pub parse_argument : (Str → List Token → Outcome) → List Token → Outcome
parse_argument next = expect lparen_type (parse_name (λ arg. expect rparen_type (next arg)))

-- `_parse_function_call`, behind the argument.
abbrev pub parse_call : Function → Str → List Token → Outcome
parse_call has arg ts = parsed (function_call has arg none) ts
parse_call missing arg ts = parsed (function_call missing arg none) ts
parse_call count arg ts = parse_operator (λ c. parsed (function_call count arg (some c))) ts

-- `_parse_function_call`
abbrev pub parse_function_call : Function → List Token → Outcome
parse_function_call f = parse_argument (parse_call f)

-- The conditions without parts of their own.
unfoldable pub parse_simple : List Token → Outcome
parse_simple [] = past_end
parse_simple (has_token ∷ ts) = parse_function_call has ts
parse_simple (missing_token ∷ ts) = parse_function_call missing ts
parse_simple (count_token ∷ ts) = parse_function_call count ts
parse_simple (identifier field ∷ ts) = parse_comparison field ts
parse_simple _ = parse_error

-- The parsing methods, and the loops of the first two with the expression so far.
pub data Mode : Type 0 where
  or_expr and_expr condition : Mode
  or_rest and_rest : FilterExpression → Mode

-- `_expect(RPAREN)`
abbrev pub close : FilterExpression → List Token → Outcome
close e = expect rparen_type (parsed e)

unfoldable pub parse_at : ℕ → Mode → List Token → Outcome
unfolding parse_simple
parse_at zero m ts = out_of_fuel
parse_at (suc fuel) or_expr ts =
    and_then (parse_at fuel and_expr ts) (λ e rest. parse_at fuel (or_rest e) rest)
parse_at (suc fuel) and_expr ts =
    and_then (parse_at fuel condition ts) (λ e rest. parse_at fuel (and_rest e) rest)
parse_at (suc fuel) (or_rest left) ts = elim (accept or_type ts) [
  | past ↦ past_end
  | refused ↦ parsed left ts
  | accepted rest ↦
      and_then (parse_at fuel and_expr rest)
        (λ right rest'. parse_at fuel (or_rest (binary_op left or_op right)) rest')
]
parse_at (suc fuel) (and_rest left) ts = elim (accept and_type ts) [
  | past ↦ past_end
  | refused ↦ parsed left ts
  | accepted rest ↦
      and_then (parse_at fuel condition rest)
        (λ right rest'. parse_at fuel (and_rest (binary_op left and_op right)) rest')
]
parse_at (suc fuel) condition ts = elim (accept not_type ts) [
  | past ↦ past_end
  | accepted rest ↦ and_then (parse_at fuel condition rest) (λ e rest'. parsed (unary_op e) rest')
  | refused ↦ elim (accept lparen_type ts) [
    | past ↦ past_end
    | accepted rest ↦ and_then (parse_at fuel or_expr rest) close
    | refused ↦ parse_simple ts
  ]
]

-- How much fuel is enough.
abbrev pub weight : Mode → ℕ
weight or_expr = 2
weight and_expr = 1
weight condition = 0
weight (or_rest e) = 0
weight (and_rest e) = 0

abbrev pub enough : Mode → List Token → ℕ
enough m ts = suc (weight m + 4 * length ts)

-- Only EOF may follow the expression.
abbrev pub finish : FilterExpression → List Token → Outcome
finish e ts = expect eof_type (λ rest. parsed e ts) ts

-- `Parser(tokens).parse()`
unfoldable pub parse : List Token → Outcome
unfolding parse_at
parse ts = and_then (parse_at (enough or_expr ts) or_expr ts) finish
