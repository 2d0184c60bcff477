-- ===== src/Types/Examples.antt =====
-- Runs of the entity type functions, and their theorems at concrete names.
use openlabels.Prelude.Text.{codes}
use openlabels.Prelude.{◌≡◌, refl, true, none, false}
use openlabels.Types.Spans.{Span, ml}
use openlabels.Types.Entities.{
  validate_entity_type, is_clinical_context_type, normalize_entity_type,
}

ssn_alias : normalize_entity_type (codes "us_ssn") ≡ codes "SSN"
unfolding normalize_entity_type
ssn_alias = refl

unlisted : normalize_entity_type (codes "widget") ≡ codes "WIDGET"
unfolding normalize_entity_type
unlisted = refl

known_alias : validate_entity_type (codes "us_ssn") ≡ true
unfolding validate_entity_type
known_alias = refl

clinical : is_clinical_context_type (codes "diagnosis") ≡ true
unfolding is_clinical_context_type
clinical = refl

abbrev name_span : Span
name_span = record {
  start = 3;
  end = 6;
  text = codes "Ann";
  entity_type = codes "NAME";
  confidence = 900_000;
  detector = codes "ml";
  tier = ml;
  context = none;
  needs_review = false;
  review_reason = none;
  coref_anchor_value = none;
}
