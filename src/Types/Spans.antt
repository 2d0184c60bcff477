-- ===== src/Types/Spans.antt =====
-- Detection tiers and spans (src/openlabels/core/types.py). A confidence is a non-negative float
-- that is only compared and maximised here: it is a number in millionths, with 1.0 as `one`.
use openlabels.Prelude.{
  ℕ, ◌-◌, ◌<◌, ◌≤◌, ◌≡◌, ◌↔◌, Bool, not, ◌&&◌, ◌||◌, Option, none, some, ltb, leb, ◌==◌,
  if◌then◌else◌, length, arith, slice,
}
use openlabels.Prelude.Text.{Str}

abbrev pub one : ℕ
one = 1_000_000

pub data Tier : Type 0 where
  ml pattern_ structured checksum : Tier

-- `tier.value`
abbrev pub value : Tier → ℕ
value ml = 1
value pattern_ = 2
value structured = 3
value checksum = 4

-- `Tier.from_value`; `none` is the ValueError.
unfoldable pub from_value : ℕ → Option Tier
from_value n =
    if n == 1
    then some ml
    else if n == 2
    then some pattern_
    else if n == 3
    then some structured
    else if n == 4
    then some checksum
    else none

pub record SpanContext : Type 0 where
  pub source_page : Option ℕ
  pub source_sheet : Option Str
  pub source_section : Option Str
  pub source_cell : Option Str
  pub surrounding_text : Option Str
  pub extraction_method : Option Str

pub record Span : Type 0 where
  pub start : ℕ
  pub end : ℕ
  pub text : Str
  pub entity_type : Str
  pub confidence : ℕ
  pub detector : Str
  pub tier : Tier
  pub context : Option SpanContext
  pub needs_review : Bool
  pub review_reason : Option Str
  pub coref_anchor_value : Option Str

-- What `__post_init__` checks of a span. A start is never negative here.
abbrev pub post_init : Span → Option Span
post_init s =
    if leb s.end s.start
    then none
    else if ltb one s.confidence
    then none
    else if not (length s.text == s.end - s.start)
    then none
    else some s

pub record IsValid (s : Span) : Type 0 where
  pub nonempty : s.start < s.end
  pub bounded : s.confidence ≤ one
  pub measured : length s.text ≡ s.end - s.start

unfoldable pub overlaps : Span → Span → Bool
overlaps s o = not (leb s.end o.start || leb o.end s.start)

unfoldable pub contains : Span → Span → Bool
contains s o = leb s.start o.start && leb o.end s.end

-- `len(span)`
unfoldable pub len : Span → ℕ
len s = s.end - s.start

-- The constructor accepts exactly the valid spans, and keeps them as they are.
pub post_init_iff : (s : Span) → IsValid s ↔ (post_init s ≡ some s)
post_init_iff s = (
  λ v. ground arith,
  λ h. record { nonempty = ground arith; bounded = ground arith; measured = ground arith },
)

-- The span's text is what the document has at its positions.
pub record IsSlice (doc : Str) (s : Span) : Type 0 where
  pub inside : s.end ≤ length doc
  pub matches : s.text ≡ slice doc s.start s.end
