-- ===== src/Policies/Schema.antt =====
-- The records of policy packs (src/openlabels/core/policies/schema.py). A confidence is in millionths.
use openlabels.Prelude.{ℕ, Bool, true, false, ◌&&◌, Option, none, List, [], ◌∷◌}
use openlabels.Prelude.Text.{Str}

pub data RiskLevel : Type 0 where
  minimal low medium high critical : RiskLevel

pub data PolicyCategory : Type 0 where
  hipaa ferpa glba sox coppa ccpa cpra nydfs shield gdpr lgpd pipeda popia pdpa pci_dss soc2
        iso27001 pii phi custom :
      PolicyCategory

-- An enum member's position, for equality.
unfoldable pub ordinal : PolicyCategory → ℕ
ordinal hipaa = 0
ordinal ferpa = 1
ordinal glba = 2
ordinal sox = 3
ordinal coppa = 4
ordinal ccpa = 5
ordinal cpra = 6
ordinal nydfs = 7
ordinal shield = 8
ordinal gdpr = 9
ordinal lgpd = 10
ordinal pipeda = 11
ordinal popia = 12
ordinal pdpa = 13
ordinal pci_dss = 14
ordinal soc2 = 15
ordinal iso27001 = 16
ordinal pii = 17
ordinal phi = 18
ordinal custom = 19

pub record PolicyTrigger : Type 0 where
  pub any_of : List Str
  pub all_of : List Str
  pub combinations : List (List Str)
  pub min_confidence : ℕ
  pub min_count : ℕ
  pub exclude_if_only : List Str

abbrev pub is_nil : {A : Type 0} → List A → Bool
is_nil [] = true
is_nil (x ∷ xs) = false

-- `PolicyTrigger.is_empty`
unfoldable pub is_empty : PolicyTrigger → Bool
is_empty t = is_nil t.any_of && (is_nil t.all_of && is_nil t.combinations)

pub record DataSubjectRights : Type 0 where
  pub access : Bool
  pub rectification : Bool
  pub erasure : Bool
  pub portability : Bool
  pub restriction : Bool
  pub objection : Bool

pub record RetentionPolicy : Type 0 where
  pub max_days : Option ℕ
  pub min_days : Option ℕ
  pub review_frequency_days : Option ℕ
  pub auto_delete : Bool

pub record HandlingRequirements : Type 0 where
  pub encryption_required : Bool
  pub encryption_at_rest : Bool
  pub encryption_in_transit : Bool
  pub tokenization_required : Bool
  pub masking_required : Bool
  pub audit_access : Bool
  pub access_logging : Bool
  pub mfa_required : Bool
  pub geographic_restrictions : List Str
  pub prohibited_regions : List Str

-- Version, description, tags and metadata take no part in the evaluation.
pub record PolicyPack : Type 0 where
  pub name : Str
  pub category : PolicyCategory
  pub risk_level : RiskLevel
  pub triggers : PolicyTrigger
  pub special_category_triggers : PolicyTrigger
  pub handling : HandlingRequirements
  pub retention : RetentionPolicy
  pub data_subject_rights : DataSubjectRights
  pub jurisdictions : List Str
  pub enabled : Bool
  pub priority : ℕ

pub record EntityMatch : Type 0 where
  pub entity_type : Str
  pub value : Str
  pub confidence : ℕ

pub data TriggerType : Type 0 where
  by_any_of by_all_of by_combination by_special_category : TriggerType

pub record PolicyMatch : Type 0 where
  pub policy_name : Str
  pub trigger_type : TriggerType
  pub matched_entities : List Str
  pub matched_values : List Str

pub record PolicyResult : Type 0 where
  pub matches : List PolicyMatch
  pub risk_level : RiskLevel
  pub categories : List PolicyCategory
  pub handling : HandlingRequirements
  pub retention : RetentionPolicy
  pub data_subject_rights : DataSubjectRights
  pub jurisdictions : List Str
  pub has_phi : Bool
  pub has_pii : Bool
  pub has_pci : Bool
  pub has_gdpr_special : Bool

-- `PolicyResult()`
abbrev pub empty_result : PolicyResult
empty_result = record {
  matches = [];
  risk_level = minimal;
  categories = [];
  handling = record {
    encryption_required = false;
    encryption_at_rest = false;
    encryption_in_transit = false;
    tokenization_required = false;
    masking_required = false;
    audit_access = false;
    access_logging = false;
    mfa_required = false;
    geographic_restrictions = [];
    prohibited_regions = [];
  };
  retention = record {
    max_days = none;
    min_days = none;
    review_frequency_days = none;
    auto_delete = false;
  };
  data_subject_rights = record {
    access = false;
    rectification = false;
    erasure = false;
    portability = false;
    restriction = false;
    objection = false;
  };
  jurisdictions = [];
  has_phi = false;
  has_pii = false;
  has_pci = false;
  has_gdpr_special = false;
}
