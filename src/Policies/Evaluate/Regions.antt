-- ===== src/Policies/Evaluate/Regions.antt =====
-- What becomes of the allowed regions.
use openlabels.Prelude.{◌≡◌, ap, ◌∙◌, false, ◌&&◌, List, [], ◌∷◌}
use openlabels.Prelude.Text.{
  Str, contains, contains-union, contains-intersection, union, intersection,
}
use openlabels.Policies.Schema.{PolicyPack, PolicyResult, is_nil}
use openlabels.Policies.Evaluate.{merge_policy_into_result, merge_allowed}

-- The allowed regions of a result and of a policy.
abbrev pub allowed : PolicyResult → List Str
allowed r = r.handling.geographic_restrictions

abbrev pub regions : PolicyPack → List Str
regions p = p.handling.geographic_restrictions

merge_allowed-contains :
    (rh ph : List Str) (k : Str)
    → is_nil rh ≡ false
    → is_nil ph ≡ false
    → contains (merge_allowed rh ph) k ≡ (contains rh k && contains ph k)
merge_allowed-contains [] ph k h h' = cc
merge_allowed-contains (r ∷ rs) [] k h h' = cc
merge_allowed-contains (r ∷ rs) (g ∷ gs) k h h' =
    contains-intersection (union [] (r ∷ rs)) (g ∷ gs) k
    ∙ ap (λ b. b && contains (g ∷ gs) k) (unfold contains in contains-union (r ∷ rs) [] k)

-- While the result allows some regions, merging a policy that names regions leaves exactly those
-- that both allow.
pub merge-allowed :
    (p : PolicyPack) (r : PolicyResult) (k : Str)
    → is_nil (allowed r) ≡ false
    → is_nil (regions p) ≡ false
    → contains (allowed (merge_policy_into_result p r)) k
      ≡ (contains (allowed r) k && contains (regions p) k)
unfolding merge_policy_into_result
merge-allowed p r k h h' = merge_allowed-contains (allowed r) (regions p) k h h'

-- Once two policies have no allowed region in common, the next policy that names regions makes
-- the result allow exactly its own regions, also those that the first two rule out.
pub merge_reopens :
    (p q : PolicyPack) (r : PolicyResult)
    → intersection (union [] (allowed r)) (regions p) ≡ []
    → is_nil (allowed r) ≡ false
    → is_nil (regions p) ≡ false
    → allowed (merge_policy_into_result q (merge_policy_into_result p r)) ≡ regions q
unfolding merge_policy_into_result
merge_reopens p q r e h h' = emptied (allowed r) (regions p) (regions q) e h h'
  where
    emptied :
        (rh ph qh : List Str)
        → intersection (union [] rh) ph ≡ []
        → is_nil rh ≡ false
        → is_nil ph ≡ false
        → merge_allowed (merge_allowed rh ph) qh ≡ qh
    emptied [] ph qh e h h' = cc
    emptied (x ∷ xs) [] qh e h h' = cc
    emptied (x ∷ xs) (y ∷ ys) [] e h h' = e
    emptied (x ∷ xs) (y ∷ ys) (z ∷ zs) e h h' = rw e
