-- ===== src/Types/Entities.antt =====
-- Entity type names (src/openlabels/core/types.py): the known types, the clinical ones, the aliases
-- and the normalisation that every later stage applies.
use openlabels.Prelude.{
  ◌≡◌, refl, ◌∙◌, Bool, true, false, ◌&&◌, none, some, List, [], ◌∷◌, inl, inr, arith, all,
  Option-cases,
}
use openlabels.Prelude.Text.{
  Str, Dict, codes, upper, upper-upper, str_eq, str_eq→eq, contains, lookup, get_or, lookup-all,
  get_or-some, get_or-none,
}

abbrev pub known_entity_types : List Str
known_entity_types =
    codes "NAME"
    ∷ codes "NAME_PATIENT"
    ∷ codes "NAME_PROVIDER"
    ∷ codes "NAME_RELATIVE"
    ∷ codes "PERSON"
    ∷ codes "PER"
    ∷ codes "PATIENT"
    ∷ codes "DOCTOR"
    ∷ codes "PHYSICIAN"
    ∷ codes "NURSE"
    ∷ codes "STAFF"
    ∷ codes "FIRSTNAME"
    ∷ codes "LASTNAME"
    ∷ codes "MIDDLENAME"
    ∷ codes "PREFIX"
    ∷ codes "SUFFIX"
    ∷ codes "FULLNAME"
    ∷ codes "DATE"
    ∷ codes "DATE_DOB"
    ∷ codes "DATE_TIME"
    ∷ codes "DATETIME"
    ∷ codes "TIME"
    ∷ codes "BIRTHDAY"
    ∷ codes "DOB"
    ∷ codes "DATEOFBIRTH"
    ∷ codes "DATE_OF_BIRTH"
    ∷ codes "BIRTH_DATE"
    ∷ codes "BIRTHDATE"
    ∷ codes "BIRTH_YEAR"
    ∷ codes "YEAR_OF_BIRTH"
    ∷ codes "DATE_RANGE"
    ∷ codes "AGE"
    ∷ codes "ADDRESS"
    ∷ codes "ZIP"
    ∷ codes "CITY"
    ∷ codes "STATE"
    ∷ codes "COUNTRY"
    ∷ codes "COUNTY"
    ∷ codes "GPS_COORDINATE"
    ∷ codes "LATITUDE"
    ∷ codes "LONGITUDE"
    ∷ codes "COORDINATE"
    ∷ codes "COORDINATES"
    ∷ codes "GPE"
    ∷ codes "LOC"
    ∷ codes "STREET_ADDRESS"
    ∷ codes "STREET"
    ∷ codes "ZIPCODE"
    ∷ codes "LOCATION_ZIP"
    ∷ codes "ZIP_CODE"
    ∷ codes "POSTCODE"
    ∷ codes "LOCATION_OTHER"
    ∷ codes "ROOM"
    ∷ codes "ROOM_NUMBER"
    ∷ codes "SSN"
    ∷ codes "SSN_PARTIAL"
    ∷ codes "US_SSN"
    ∷ codes "SOCIAL_SECURITY"
    ∷ codes "SOCIALSECURITYNUMBER"
    ∷ codes "UKNINUMBER"
    ∷ codes "SIN"
    ∷ codes "SIN_CA"
    ∷ codes "DRIVER_LICENSE"
    ∷ codes "LICENSE"
    ∷ codes "US_DRIVER_LICENSE"
    ∷ codes "DRIVERSLICENSE"
    ∷ codes "STATE_ID"
    ∷ codes "STATEID"
    ∷ codes "PASSPORT"
    ∷ codes "US_PASSPORT"
    ∷ codes "PASSPORT_NUMBER"
    ∷ codes "MILITARY_ID"
    ∷ codes "EDIPI"
    ∷ codes "DOD_ID"
    ∷ codes "TAX_ID"
    ∷ codes "TIN"
    ∷ codes "EIN"
    ∷ codes "ITIN"
    ∷ codes "MRN"
    ∷ codes "MEDICAL_RECORD"
    ∷ codes "MEDICALRECORD"
    ∷ codes "NPI"
    ∷ codes "DEA"
    ∷ codes "MEDICAL_LICENSE"
    ∷ codes "ENCOUNTER_ID"
    ∷ codes "ACCESSION_ID"
    ∷ codes "HEALTH_PLAN_ID"
    ∷ codes "HEALTHPLAN"
    ∷ codes "HEALTH_PLAN"
    ∷ codes "MEMBERID"
    ∷ codes "MEMBER_ID"
    ∷ codes "MEDICARE_ID"
    ∷ codes "MBI"
    ∷ codes "PHARMACY_ID"
    ∷ codes "NDC"
    ∷ codes "VIN"
    ∷ codes "VEHICLEVIN"
    ∷ codes "VEHICLE_VIN"
    ∷ codes "VEHICLE_IDENTIFICATION"
    ∷ codes "LICENSE_PLATE"
    ∷ codes "VEHICLEVRM"
    ∷ codes "VEHICLE_PLATE"
    ∷ codes "PLATE_NUMBER"
    ∷ codes "PHONE"
    ∷ codes "PHONE_NUMBER"
    ∷ codes "PHONENUMBER"
    ∷ codes "US_PHONE_NUMBER"
    ∷ codes "TELEPHONE"
    ∷ codes "EMAIL"
    ∷ codes "EMAIL_ADDRESS"
    ∷ codes "EMAILADDRESS"
    ∷ codes "FAX"
    ∷ codes "FAX_NUMBER"
    ∷ codes "FAXNUMBER"
    ∷ codes "PAGER"
    ∷ codes "PAGER_NUMBER"
    ∷ codes "URL"
    ∷ codes "USERNAME"
    ∷ codes "IP_ADDRESS"
    ∷ codes "IP"
    ∷ codes "IPADDRESS"
    ∷ codes "IPV4"
    ∷ codes "IPV6"
    ∷ codes "MAC_ADDRESS"
    ∷ codes "MAC"
    ∷ codes "MACADDRESS"
    ∷ codes "DEVICE_ID"
    ∷ codes "IMEI"
    ∷ codes "DEVICE"
    ∷ codes "BIOID"
    ∷ codes "USERAGENT"
    ∷ codes "BIOMETRIC_ID"
    ∷ codes "FINGERPRINT"
    ∷ codes "DNA_ID"
    ∷ codes "IMAGE_ID"
    ∷ codes "PHOTO_ID"
    ∷ codes "DICOM_UID"
    ∷ codes "CERTIFICATE_NUMBER"
    ∷ codes "CLAIM_NUMBER"
    ∷ codes "CREDIT_CARD"
    ∷ codes "CREDIT_CARD_NUMBER"
    ∷ codes "CREDITCARDNUMBER"
    ∷ codes "CC"
    ∷ codes "CREDIT_CARD_PARTIAL"
    ∷ codes "ACCOUNT_NUMBER"
    ∷ codes "ACCOUNT"
    ∷ codes "BANK_ACCOUNT"
    ∷ codes "IBAN"
    ∷ codes "IBAN_CODE"
    ∷ codes "ABA_ROUTING"
    ∷ codes "ROUTING"
    ∷ codes "ROUTING_NUMBER"
    ∷ codes "BIC"
    ∷ codes "SWIFT"
    ∷ codes "SWIFT_BIC"
    ∷ codes "CUSIP"
    ∷ codes "ISIN"
    ∷ codes "SEDOL"
    ∷ codes "FIGI"
    ∷ codes "LEI"
    ∷ codes "BITCOIN_ADDRESS"
    ∷ codes "ETHEREUM_ADDRESS"
    ∷ codes "CRYPTO_SEED_PHRASE"
    ∷ codes "SOLANA_ADDRESS"
    ∷ codes "CARDANO_ADDRESS"
    ∷ codes "LITECOIN_ADDRESS"
    ∷ codes "DOGECOIN_ADDRESS"
    ∷ codes "XRP_ADDRESS"
    ∷ codes "AWS_ACCESS_KEY"
    ∷ codes "AWS_SECRET_KEY"
    ∷ codes "AWS_SESSION_TOKEN"
    ∷ codes "AZURE_STORAGE_KEY"
    ∷ codes "AZURE_CONNECTION_STRING"
    ∷ codes "AZURE_SAS_TOKEN"
    ∷ codes "GOOGLE_API_KEY"
    ∷ codes "GOOGLE_OAUTH_ID"
    ∷ codes "GOOGLE_OAUTH_SECRET"
    ∷ codes "FIREBASE_KEY"
    ∷ codes "GITHUB_TOKEN"
    ∷ codes "GITLAB_TOKEN"
    ∷ codes "NPM_TOKEN"
    ∷ codes "PYPI_TOKEN"
    ∷ codes "NUGET_KEY"
    ∷ codes "SLACK_TOKEN"
    ∷ codes "SLACK_WEBHOOK"
    ∷ codes "DISCORD_TOKEN"
    ∷ codes "DISCORD_WEBHOOK"
    ∷ codes "TWILIO_ACCOUNT_SID"
    ∷ codes "TWILIO_KEY"
    ∷ codes "TWILIO_TOKEN"
    ∷ codes "SENDGRID_KEY"
    ∷ codes "MAILCHIMP_KEY"
    ∷ codes "STRIPE_KEY"
    ∷ codes "SQUARE_TOKEN"
    ∷ codes "SQUARE_SECRET"
    ∷ codes "SHOPIFY_TOKEN"
    ∷ codes "SHOPIFY_KEY"
    ∷ codes "SHOPIFY_SECRET"
    ∷ codes "HEROKU_KEY"
    ∷ codes "DATADOG_KEY"
    ∷ codes "NEWRELIC_KEY"
    ∷ codes "DATABASE_URL"
    ∷ codes "PRIVATE_KEY"
    ∷ codes "JWT"
    ∷ codes "BASIC_AUTH"
    ∷ codes "BEARER_TOKEN"
    ∷ codes "PASSWORD"
    ∷ codes "API_KEY"
    ∷ codes "SECRET"
    ∷ codes "CLASSIFICATION_LEVEL"
    ∷ codes "CLASSIFICATION_MARKING"
    ∷ codes "SCI_MARKING"
    ∷ codes "DISSEMINATION_CONTROL"
    ∷ codes "CAGE_CODE"
    ∷ codes "DUNS_NUMBER"
    ∷ codes "UEI"
    ∷ codes "DOD_CONTRACT"
    ∷ codes "GSA_CONTRACT"
    ∷ codes "CLEARANCE_LEVEL"
    ∷ codes "ITAR_MARKING"
    ∷ codes "EAR_MARKING"
    ∷ codes "PROFESSION"
    ∷ codes "OCCUPATION"
    ∷ codes "JOB"
    ∷ codes "JOB_TITLE"
    ∷ codes "DRUG"
    ∷ codes "MEDICATION"
    ∷ codes "LAB_TEST"
    ∷ codes "DIAGNOSIS"
    ∷ codes "PROCEDURE"
    ∷ codes "PAYER"
    ∷ codes "RX_NUMBER"
    ∷ codes "PRESCRIPTION"
    ∷ codes "BLOOD_TYPE"
    ∷ codes "FACILITY"
    ∷ codes "HOSPITAL"
    ∷ codes "ORG"
    ∷ codes "ORGANIZATION"
    ∷ codes "VENDOR"
    ∷ codes "COMPANYNAME"
    ∷ codes "COMPANY"
    ∷ codes "EMPLOYER"
    ∷ codes "DOCUMENT_ID"
    ∷ codes "ID_NUMBER"
    ∷ codes "TRACKING_NUMBER"
    ∷ codes "SHIPMENT_ID"
    ∷ codes "RELATIVE"
    ∷ codes "FAMILY"
    ∷ codes "UNIQUE_ID"
    ∷ codes "HCW"
    ∷ codes "ID"
    ∷ []

abbrev pub clinical_context_types : List Str
clinical_context_types =
    codes "LAB_TEST"
    ∷ codes "DIAGNOSIS"
    ∷ codes "MEDICATION"
    ∷ codes "DRUG"
    ∷ codes "PROCEDURE"
    ∷ codes "PAYER"
    ∷ codes "PHYSICAL_DESC"
    ∷ []

abbrev pub entity_aliases : Dict Str
entity_aliases =
    (codes "US_SSN", codes "SSN")
    ∷ (codes "SOCIAL_SECURITY", codes "SSN")
    ∷ (codes "SOCIALSECURITYNUMBER", codes "SSN")
    ∷ (codes "PER", codes "NAME")
    ∷ (codes "PERSON", codes "NAME")
    ∷ (codes "PATIENT", codes "NAME_PATIENT")
    ∷ (codes "DOCTOR", codes "NAME_PROVIDER")
    ∷ (codes "PHYSICIAN", codes "NAME_PROVIDER")
    ∷ (codes "HCW", codes "NAME_PROVIDER")
    ∷ (codes "DOB", codes "DATE_DOB")
    ∷ (codes "BIRTHDAY", codes "DATE_DOB")
    ∷ (codes "DATEOFBIRTH", codes "DATE_DOB")
    ∷ (codes "DATE_OF_BIRTH", codes "DATE_DOB")
    ∷ (codes "BIRTH_DATE", codes "DATE_DOB")
    ∷ (codes "BIRTHDATE", codes "DATE_DOB")
    ∷ (codes "CC", codes "CREDIT_CARD")
    ∷ (codes "CREDITCARD", codes "CREDIT_CARD")
    ∷ (codes "CREDITCARDNUMBER", codes "CREDIT_CARD")
    ∷ (codes "CREDIT_CARD_NUMBER", codes "CREDIT_CARD")
    ∷ (codes "TELEPHONE", codes "PHONE")
    ∷ (codes "TEL", codes "PHONE")
    ∷ (codes "MOBILE", codes "PHONE")
    ∷ (codes "CELL", codes "PHONE")
    ∷ (codes "PHONENUMBER", codes "PHONE")
    ∷ (codes "PHONE_NUMBER", codes "PHONE")
    ∷ (codes "US_PHONE_NUMBER", codes "PHONE")
    ∷ (codes "EMAILADDRESS", codes "EMAIL")
    ∷ (codes "EMAIL_ADDRESS", codes "EMAIL")
    ∷ (codes "STREET_ADDRESS", codes "ADDRESS")
    ∷ (codes "STREET", codes "ADDRESS")
    ∷ (codes "IP", codes "IP_ADDRESS")
    ∷ (codes "IPADDRESS", codes "IP_ADDRESS")
    ∷ (codes "IPV4", codes "IP_ADDRESS")
    ∷ (codes "IPV6", codes "IP_ADDRESS")
    ∷ (codes "MEDICAL_RECORD", codes "MRN")
    ∷ (codes "MEDICALRECORD", codes "MRN")
    ∷ (codes "LICENSE", codes "DRIVER_LICENSE")
    ∷ (codes "US_DRIVER_LICENSE", codes "DRIVER_LICENSE")
    ∷ (codes "DRIVERSLICENSE", codes "DRIVER_LICENSE")
    ∷ (codes "US_PASSPORT", codes "PASSPORT")
    ∷ (codes "PASSPORT_NUMBER", codes "PASSPORT")
    ∷ (codes "ZIPCODE", codes "ZIP")
    ∷ (codes "ZIP_CODE", codes "ZIP")
    ∷ (codes "POSTCODE", codes "ZIP")
    ∷ (codes "LOCATION_ZIP", codes "ZIP")
    ∷ []

unfoldable pub validate_entity_type : Str → Bool
unfolding contains upper
validate_entity_type entity_type = contains known_entity_types (upper entity_type)

unfoldable pub is_clinical_context_type : Str → Bool
unfolding contains upper
is_clinical_context_type entity_type = contains clinical_context_types (upper entity_type)

unfoldable pub normalize_entity_type : Str → Str
unfolding get_or upper
normalize_entity_type entity_type = get_or entity_aliases (upper entity_type) (upper entity_type)

-- A target of an alias is a known type in upper case and is no alias itself.
abbrev is_canonical : List Str → Dict Str → Str → Bool
is_canonical known aliases v =
    str_eq (upper v) v
    && (contains known v && elim (lookup v aliases) [ none ↦ true | some _ ↦ false ])

record IsCanonical (known : List Str) (aliases : Dict Str) (v : Str) : Type 0 where
  in_upper_case : upper v ≡ v
  is_known : contains known v ≡ true
  is_no_alias : lookup v aliases ≡ none

is_canonical_sound :
    (known : List Str) (aliases : Dict Str) (v : Str)
    → is_canonical known aliases v ≡ true
    → IsCanonical known aliases v
is_canonical_sound known aliases v h = ground (arith, str_eq→eq (upper v) v)

alias_targets : all (λ e. is_canonical known_entity_types entity_aliases e.1) entity_aliases ≡ true
unfolding str_eq upper contains lookup
alias_targets = refl

alias-IsCanonical :
    (k v : Str) → lookup k entity_aliases ≡ some v → IsCanonical known_entity_types entity_aliases v
alias-IsCanonical k v e =
    is_canonical_sound known_entity_types entity_aliases v (
      lookup-all (is_canonical known_entity_types entity_aliases) entity_aliases k v alias_targets
        e)

-- An alias yields its target, and any other name is put in upper case.
normalize_alias :
    (x v : Str) → lookup (upper x) entity_aliases ≡ some v → normalize_entity_type x ≡ v
unfolding normalize_entity_type
normalize_alias x v e = get_or-some entity_aliases (upper x) (upper x) e

normalize_plain :
    (x : Str) → lookup (upper x) entity_aliases ≡ none → normalize_entity_type x ≡ upper x
unfolding normalize_entity_type
normalize_plain x e = get_or-none entity_aliases (upper x) (upper x) e

normalize_canonical :
    (x : Str) → upper x ≡ x → lookup x entity_aliases ≡ none → normalize_entity_type x ≡ x
normalize_canonical x u e = normalize_plain x (rw u e) ∙ u

-- Every name normalises to one in upper case that is no alias.
normalize-fixed :
    (x : Str)
    → (upper (normalize_entity_type x) ≡ normalize_entity_type x)
      × (lookup (normalize_entity_type x) entity_aliases ≡ none)
normalize-fixed x = elim (Option-cases (lookup (upper x) entity_aliases)) [
  | inl e ↦ rw (normalize_plain x e) (upper-upper x, e)
  | inr (v, e) ↦
      let c = alias-IsCanonical (upper x) v e in
      rw (normalize_alias x v e) (c.in_upper_case, c.is_no_alias)
]

-- Normalising an entity type twice is the same as normalising it once.
pub normalize_entity_type_idem :
    (x : Str) → normalize_entity_type (normalize_entity_type x) ≡ normalize_entity_type x
normalize_entity_type_idem x =
    let (u, e) = normalize-fixed x in normalize_canonical (normalize_entity_type x) u e

-- A known entity type stays known when it is normalised.
pub validate-normalize_entity_type :
    (x : Str)
    → validate_entity_type x ≡ true
    → validate_entity_type (normalize_entity_type x) ≡ true
unfolding validate_entity_type
validate-normalize_entity_type x h = elim (Option-cases (lookup (upper x) entity_aliases)) [
  | inl e ↦ rw (normalize_plain x e, upper-upper x) h
  | inr (v, e) ↦
      let c = alias-IsCanonical (upper x) v e in
      rw (normalize_alias x v e, c.in_upper_case) c.is_known
]
