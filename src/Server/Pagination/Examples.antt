-- ===== src/Server/Pagination/Examples.antt =====
-- Five rows on pages of two, and the theorem at them.
use openlabels.Prelude.{ℕ, ◌≡◌, refl, true, Option, none, some, List, [], ◌∷◌, arith}
use openlabels.Prelude.Sort.{sort}
use openlabels.Prelude.Text.{Str}
use openlabels.Server.Pagination.{Row, newer, decode, apply_cursor_pagination, follow}
use openlabels.Server.Pagination.Pages.{follow_lem}
use openlabels.Server.Pagination.Order.{IsKeyed}

abbrev at : ℕ → ℕ → Row
at i t = record { id = i; timestamp = t }

abbrev rows : List Row
rows = at 1 10 ∷ at 2 30 ∷ at 3 30 ∷ at 4 20 ∷ at 5 5 ∷ []

-- A cursor of two characters.
abbrev encode : Row → Str
encode r = r.id ∷ r.timestamp ∷ []

abbrev read : Str → Option Row
read (i ∷ t ∷ []) = some (at i t)
read _ = none

first_page :
    apply_cursor_pagination encode read rows (record { cursor = none; limit = 2 })
    ≡ record { items = at 3 30 ∷ at 2 30 ∷ []; next_cursor = some (2 ∷ 30 ∷ []); has_more = true }
unfolding apply_cursor_pagination
first_page = refl

codec : (r : Row) → decode encode read (some (encode r)) ≡ some r
codec r = refl

rows-IsKeyed : IsKeyed rows
rows-IsKeyed = (
  (refl, (refl, (refl, (refl, tt)))),
  ((refl, (refl, (refl, tt))), ((refl, (refl, tt)), ((refl, tt), (tt, tt)))),
)

follow_lem_example : follow encode read 6 2 none rows ≡ sort newer rows
follow_lem_example = follow_lem encode read codec 2 (omega arith) rows rows-IsKeyed
