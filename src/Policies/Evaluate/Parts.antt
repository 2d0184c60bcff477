-- ===== src/Policies/Evaluate/Parts.antt =====
-- When a result is as restrictive as a policy, and the parts of a merge.
use openlabels.Prelude.{
  ℕ, ◌≤◌, ◌≡◌, inl, inr, true, ◌||◌, Option, none, some, List, [], ◌∷◌, ◌++◌, arith, ltb, ◌==◌,
  Bool-cases,
}
use openlabels.Prelude.Text.{Str, contains, contains-union, union}
use openlabels.Policies.Schema.{
  PolicyPack, PolicyCategory, ordinal, PolicyResult, HandlingRequirements, DataSubjectRights,
}
use openlabels.Policies.Engine.{risk_order}
use openlabels.Policies.Evaluate.{has_category, longer, shorter, merge_prohibited, add_category}

-- A result demands at least the security measures of a policy.
pub record Secures (p r : HandlingRequirements) : Type 0 where
  pub encryption_required : p.encryption_required ≡ true → r.encryption_required ≡ true
  pub encryption_at_rest : p.encryption_at_rest ≡ true → r.encryption_at_rest ≡ true
  pub encryption_in_transit : p.encryption_in_transit ≡ true → r.encryption_in_transit ≡ true
  pub tokenization_required : p.tokenization_required ≡ true → r.tokenization_required ≡ true
  pub masking_required : p.masking_required ≡ true → r.masking_required ≡ true
  pub audit_access : p.audit_access ≡ true → r.audit_access ≡ true
  pub access_logging : p.access_logging ≡ true → r.access_logging ≡ true
  pub mfa_required : p.mfa_required ≡ true → r.mfa_required ≡ true
  pub prohibited_regions :
      (k : Str) → contains p.prohibited_regions k ≡ true → contains r.prohibited_regions k ≡ true

-- A result grants at least the rights of a policy.
pub record Grants (p r : DataSubjectRights) : Type 0 where
  pub access : p.access ≡ true → r.access ≡ true
  pub rectification : p.rectification ≡ true → r.rectification ≡ true
  pub erasure : p.erasure ≡ true → r.erasure ≡ true
  pub portability : p.portability ≡ true → r.portability ≡ true
  pub restriction : p.restriction ≡ true → r.restriction ≡ true
  pub objection : p.objection ≡ true → r.objection ≡ true

-- The second retention is at least as long, or as short, as the first asks.
abbrev pub AtLeast : Option ℕ → Option ℕ → Type 0
AtLeast none r = Unit
AtLeast (some p) none = ⊥
AtLeast (some p) (some r) = p ≤ r

abbrev pub AtMost : Option ℕ → Option ℕ → Type 0
AtMost none r = Unit
AtMost (some p) none = ⊥
AtMost (some p) (some r) = r ≤ p

-- The result is as restrictive as the policy asks in its risk level, category, security measures, prohibited
-- regions, data subject rights, minimum and maximum retention, review interval and jurisdictions. The allowed
-- regions and the automatic deletion are left out: the former may be lost, and the latter is never merged.
pub record IsAsStrict (p : PolicyPack) (r : PolicyResult) : Type 0 where
  pub risk : risk_order p.risk_level ≤ risk_order r.risk_level
  pub category : has_category r.categories p.category ≡ true
  pub secures : Secures p.handling r.handling
  pub grants : Grants p.data_subject_rights r.data_subject_rights
  pub min_days : AtLeast p.retention.min_days r.retention.min_days
  pub max_days : AtMost p.retention.max_days r.retention.max_days
  pub review : AtMost p.retention.review_frequency_days r.retention.review_frequency_days
  pub jurisdictions :
      (k : Str) → contains p.jurisdictions k ≡ true → contains r.jurisdictions k ≡ true

pub longer_right : (r p : Option ℕ) → AtLeast p (longer r p)
longer_right r none = tt
longer_right none (some p) = omega arith
longer_right (some r) (some p) = elim (Bool-cases (ltb r p)) [
  | inl e ↦ rw e (omega arith)
  | inr e ↦ rw e (ground arith)
]

pub longer_left : (q r p : Option ℕ) → AtLeast q r → AtLeast q (longer r p)
longer_left none r p h = tt
longer_left (some q) none p h = absurd h
longer_left (some q) (some r) none h = h
longer_left (some q) (some r) (some p) h = elim (Bool-cases (ltb r p)) [
  | inl e ↦ rw e (ground arith)
  | inr e ↦ rw e h
]

pub shorter_right : (r p : Option ℕ) → AtMost p (shorter r p)
shorter_right r none = tt
shorter_right none (some p) = omega arith
shorter_right (some r) (some p) = elim (Bool-cases (ltb p r)) [
  | inl e ↦ rw e (omega arith)
  | inr e ↦ rw e (ground arith)
]

pub shorter_left : (q r p : Option ℕ) → AtMost q r → AtMost q (shorter r p)
shorter_left none r p h = tt
shorter_left (some q) none p h = absurd h
shorter_left (some q) (some r) none h = h
shorter_left (some q) (some r) (some p) h = elim (Bool-cases (ltb p r)) [
  | inl e ↦ rw e (ground arith)
  | inr e ↦ rw e h
]

has_category-append :
    (cs : List PolicyCategory) (c d : PolicyCategory)
    → has_category (cs ++ c ∷ []) d ≡ (has_category cs d || ordinal c == ordinal d)
has_category-append [] c d = ground arith
has_category-append (b ∷ cs) c d = ground (arith, has_category-append cs c d)

pub has_category-add_self :
    (cs : List PolicyCategory) (c : PolicyCategory) → has_category (add_category c cs) c ≡ true
has_category-add_self cs c = ground (arith, has_category-append cs c c)

pub has_category-add_old :
    (cs : List PolicyCategory) (c d : PolicyCategory)
    → has_category cs d ≡ true
    → has_category (add_category c cs) d ≡ true
has_category-add_old cs c d h = ground (arith, has_category-append cs c d)

pub merge_prohibited-contains :
    (rh ph : List Str) (k : Str)
    → contains (merge_prohibited rh ph) k ≡ (contains rh k || contains ph k)
unfolding contains
merge_prohibited-contains rh [] k = ground arith
merge_prohibited-contains rh (g ∷ gs) k =
    ground (arith, contains-union (g ∷ gs) (union [] rh) k, contains-union rh [] k)
