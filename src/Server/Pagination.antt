-- ===== src/Server/Pagination.antt =====
-- Pagination by cursors (src/openlabels/server/pagination.py). Of a row the two columns that are read are kept, as
-- numbers. The text of a cursor, which is base64 and JSON, is made and read by arguments.
pub mod Order
pub mod Pages
mod Examples
use openlabels.Prelude.{
  ℕ, zero, suc, ◌+◌, ◌-◌, ◌*◌, ◌/◌, ◌%◌, ◌≤◌, ◌<◌, min, max, ◌≡◌, refl, sym, ap, ◌∙◌, subst, ◌≢◌,
  ◌↔◌, ◌⊎◌, inl, inr, Bool, true, false, not, ◌&&◌, ◌||◌, Option, none, some, List, [], ◌∷◌, ◌++◌,
  map, reverse, arith, ltb, leb, ◌==◌, if◌then◌else◌, ltb→lt, lt→ltb, ge→ltb, leb→le, le→leb,
  gt→leb, ==_iff, Bool-cases, Option-cases, some_inj, length, get_elem?, take, drop, slice, keep,
  All, Any, all, any, length-append, length-take, length-drop,
}
use openlabels.Prelude.Sort.{sort}
use openlabels.Prelude.Text.{Str}

pub record Row : Type 0 where
  pub id : ℕ
  pub timestamp : ℕ

pub record CursorPaginationParams : Type 0 where
  pub cursor : Option Str
  pub limit : ℕ

pub record CursorPaginatedResponse : Type 0 where
  pub items : List Row
  pub next_cursor : Option Str
  pub has_more : Bool

-- The order of the query: timestamp DESC, id DESC. The rows after a cursor are those that it is newer than.
abbrev pub newer : Row → Row → Bool
newer a b = ltb b.timestamp a.timestamp || (b.timestamp == a.timestamp && ltb b.id a.id)

-- items[-1]
abbrev pub last? : List Row → Option Row
last? [] = none
last? (r ∷ []) = some r
last? (r ∷ s ∷ rows) = last? (s ∷ rows)

module _ (encode_cursor : Row → Str) (decode_cursor : Str → Option Row) where
  -- `CursorPaginationParams.decode`
  abbrev pub decode : Option Str → Option Row
  decode none = none
  decode (some []) = none
  decode (some (c ∷ s)) = decode_cursor (c ∷ s)

  abbrev pub respond : ℕ → List Row → CursorPaginatedResponse
  respond limit fetched =
      if ltb limit (length fetched)
      then record {
        items = take limit fetched;
        next_cursor = elim (last? (take limit fetched)) [
          | none ↦ none
          | some r ↦ some (encode_cursor r)
        ];
        has_more = true;
      }
      else record { items = fetched; next_cursor = none; has_more = false }

  -- `apply_cursor_pagination`
  unfoldable pub apply_cursor_pagination :
      List Row → CursorPaginationParams → CursorPaginatedResponse
  unfolding sort
  apply_cursor_pagination rows params = elim (decode params.cursor) [
    | none ↦ respond params.limit (take (params.limit + 1) (sort newer rows))
    | some c ↦ respond params.limit (take (params.limit + 1) (sort newer (keep (newer c) rows)))
  ]

  -- A client that follows the cursors, on fuel.
  unfoldable pub follow : ℕ → ℕ → Option Str → List Row → List Row
  unfolding apply_cursor_pagination
  follow zero limit cursor rows = []
  follow (suc fuel) limit cursor rows =
      let page = apply_cursor_pagination rows (record { cursor = cursor; limit = limit }) in
      page.items ++ elim page.next_cursor [ none ↦ [] | some c ↦ follow fuel limit (some c) rows ]
