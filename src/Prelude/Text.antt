-- ===== src/Prelude/Text.antt =====
-- Python's `str` as its code points, and the methods that the modelled code calls.
use Prim.Native.Nat.{ℕ, ◌+◌, ◌-◌}
use Prim.Native.Char.{code}
use Prim.Native.String.{String}
use mathlib.Core.Path.{◌≡◌, refl, ap₂}
use mathlib.Core.Bool.{Bool, true, false, ◌&&◌, ◌||◌}
use mathlib.Core.Option.{Option, none, some}
use mathlib.Core.List.{List, [], ◌∷◌, ◌++◌}
use native.Mathlib.Omega.{arith}
use openlabels.Prelude.Tests.{leb, ◌==◌, if◌then◌else◌}
use openlabels.Prelude.Lists.{all, keep}
use openlabels.Prelude.{ap}

abbrev pub Str : Type 0
Str = List ℕ

-- The code points of a literal.
abbrev pub codes : String → Str
codes String.[] = []
codes (String.◌∷◌ c s) = code c ∷ codes s

unfoldable pub str_eq : Str → Str → Bool
str_eq [] [] = true
str_eq (a ∷ s) (b ∷ t) = a == b && str_eq s t
str_eq _ _ = false

pub str_eq_refl : (s : Str) → str_eq s s ≡ true
unfolding str_eq
str_eq_refl [] = refl
str_eq_refl (a ∷ s) = ground (arith, str_eq_refl s)

pub str_eq→eq : (s t : Str) → str_eq s t ≡ true → s ≡ t
unfolding str_eq
str_eq→eq [] [] h = refl
str_eq→eq (a ∷ s) (b ∷ t) h = ground (arith, str_eq→eq s t)
str_eq→eq [] (b ∷ t) h = cc
str_eq→eq (a ∷ s) [] h = cc

unfoldable pub is_lower : ℕ → Bool
is_lower c = leb b'a' c && leb c b'z'

unfoldable pub is_upper : ℕ → Bool
is_upper c = leb b'A' c && leb c b'Z'

-- `str.upper` and `str.lower` on ASCII; other characters are kept.
unfoldable pub upper_char : ℕ → ℕ
unfolding is_lower
upper_char c = if is_lower c then c - 32 else c

unfoldable pub lower_char : ℕ → ℕ
unfolding is_upper
lower_char c = if is_upper c then c + 32 else c

unfoldable pub upper : Str → Str
unfolding upper_char
upper [] = []
upper (c ∷ s) = upper_char c ∷ upper s

unfoldable pub lower : Str → Str
unfolding lower_char
lower [] = []
lower (c ∷ s) = lower_char c ∷ lower s

upper_char-upper_char : (c : ℕ) → upper_char (upper_char c) ≡ upper_char c
unfolding upper_char
upper_char-upper_char c = ground arith

lower_char-lower_char : (c : ℕ) → lower_char (lower_char c) ≡ lower_char c
unfolding lower_char
lower_char-lower_char c = ground arith

pub upper-upper : (s : Str) → upper (upper s) ≡ upper s
unfolding upper
upper-upper [] = refl
upper-upper (c ∷ s) = ap₂ ◌∷◌ (upper_char-upper_char c) (upper-upper s)

pub lower-lower : (s : Str) → lower (lower s) ≡ lower s
unfolding lower
lower-lower [] = refl
lower-lower (c ∷ s) = ap₂ ◌∷◌ (lower_char-lower_char c) (lower-lower s)

-- A dictionary with string keys, in insertion order.
abbrev pub Dict : Type 0 → Type 0
Dict V = List (Str × V)

module _ {V : Type 0} where
  unfoldable pub lookup : Str → Dict V → Option V
  unfolding str_eq
  lookup k [] = none
  lookup k ((j, v) ∷ d) = if str_eq j k then some v else lookup k d

  -- `d.get(k, default)`
  unfoldable pub get_or : Dict V → Str → V → V
  unfolding lookup
  get_or d k v = elim (lookup k d) [ some w ↦ w | none ↦ v ]

-- `k in xs` for a list or a set of strings.
unfoldable pub contains : List Str → Str → Bool
unfolding str_eq
contains [] k = false
contains (j ∷ js) k = str_eq j k || contains js k

-- A test that every value of a dictionary passes holds of each value looked up.
pub lookup-all :
    {V : Type 0} (p : V → Bool) (d : Dict V) (k : Str) (v : V)
    → all (λ e. p e.1) d ≡ true
    → lookup k d ≡ some v
    → p v ≡ true
unfolding lookup
lookup-all p [] k v h e = cc
lookup-all p ((j, w) ∷ d) k v h e = ground (arith, lookup-all p d k v)

module _ {V : Type 0} (d : Dict V) (k : Str) (v : V) where
  pub get_or-some : {w : V} → lookup k d ≡ some w → get_or d k v ≡ w
  unfolding get_or
  get_or-some e = rw (e, get_or)

  pub get_or-none : lookup k d ≡ none → get_or d k v ≡ v
  unfolding get_or
  get_or-none e = rw (e, get_or)

module _ {V : Type 0} where
  -- `d[k] = v`
  unfoldable pub put : Str → V → Dict V → Dict V
  unfolding str_eq
  put k v [] = (k, v) ∷ []
  put k v ((j, w) ∷ d) = if str_eq j k then (j, v) ∷ d else (j, w) ∷ put k v d

  pub get_or-put :
      (k j : Str) (v w : V) (d : Dict V)
      → get_or (put k v d) j w ≡ (if str_eq k j then v else get_or d j w)
  unfolding put get_or lookup
  get_or-put k j v w [] = ground arith
  get_or-put k j v w ((i, u) ∷ d) = ground (
    arith,
    str_eq→eq i k,
    str_eq→eq k j,
    str_eq→eq i j,
    str_eq_refl i,
    str_eq_refl k,
    str_eq_refl j,
    get_or-put k j v w d,
  )

-- `s.add(k)`, and the set of a list.
unfoldable pub add : Str → List Str → List Str
unfolding contains
add k s = if contains s k then s else s ++ k ∷ []

unfoldable pub union : List Str → List Str → List Str
unfolding add
union s [] = s
union s (k ∷ ks) = union (add k s) ks

unfoldable pub intersection : List Str → List Str → List Str
unfolding contains
intersection s t = keep (contains t) s

unfoldable pub is_subset : List Str → List Str → Bool
unfolding contains
is_subset s t = all (contains t) s

contains-append : (s t : List Str) (k : Str) → contains (s ++ t) k ≡ (contains s k || contains t k)
unfolding contains
contains-append [] t k = refl
contains-append (j ∷ s) t k = ground (arith, contains-append s t k)

contains-same : (s : List Str) (j k : Str) → str_eq j k ≡ true → contains s j ≡ contains s k
contains-same s j k h = ap (contains s) (str_eq→eq j k h)

pub contains-add : (s : List Str) (j k : Str) → contains (add j s) k ≡ (str_eq j k || contains s k)
unfolding contains add
contains-add s j k = ground (arith, contains-append s (j ∷ []) k, contains-same s j k)

-- A key is in a union exactly if it is in one of the two.
pub contains-union :
    (t s : List Str) (k : Str) → contains (union s t) k ≡ (contains s k || contains t k)
unfolding contains union
contains-union [] s k = ground arith
contains-union (j ∷ t) s k = ground (arith, contains-union t (add j s) k, contains-add s j k)

-- A key is in an intersection exactly if it is in both.
pub contains-intersection :
    (s t : List Str) (k : Str) → contains (intersection s t) k ≡ (contains s k && contains t k)
unfolding contains intersection
contains-intersection [] t k = refl
contains-intersection (j ∷ s) t k = ground (arith, contains-intersection s t k, contains-same t j k)
