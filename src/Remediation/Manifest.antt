-- ===== src/Remediation/Manifest.antt =====
-- The quarantine manifest (src/openlabels/remediation/manifest.py). Its JSON file and the log are left out: the
-- manifest is the dictionary of its entries. Identifiers and times are arguments.
use openlabels.Prelude.{
  ◌≡◌, Bool, true, false, not, Option, none, some, List, [], ◌∷◌, map, arith, if◌then◌else◌, keep,
}
use openlabels.Prelude.Text.{Str, str_eq, str_eq→eq, str_eq_refl, Dict, lookup, put}

pub record QuarantineEntry : Type 0 where
  pub id : Str
  pub original_path : Str
  pub quarantine_path : Str
  pub quarantined_at : Str
  pub reason : Str
  pub risk_tier : Str
  pub triggered_by : Str
  pub scan_job_id : Option Str
  pub file_hash : Option Str
  pub restored : Bool
  pub restored_at : Option Str

abbrev pub Manifest : Type 0
Manifest = Dict QuarantineEntry

-- `add`
unfoldable pub add_entry :
    Str
    → Str
    → Str
    → Str
    → Str
    → Str
    → Str
    → Option Str
    → Option Str
    → Manifest
    → Manifest × QuarantineEntry
unfolding put
add_entry new_id now original_path quarantine_path reason risk_tier triggered_by scan_job_id
      file_hash manifest =
    let entry : QuarantineEntry = record {
      id = new_id;
      original_path = original_path;
      quarantine_path = quarantine_path;
      quarantined_at = now;
      reason = reason;
      risk_tier = risk_tier;
      triggered_by = triggered_by;
      scan_job_id = scan_job_id;
      file_hash = file_hash;
      restored = false;
      restored_at = none;
    } in
    (put new_id entry manifest, entry)

-- `get`
abbrev pub get_entry : Str → Manifest → Option QuarantineEntry
get_entry entry_id manifest = lookup entry_id manifest

abbrev pub values : Manifest → List QuarantineEntry
values manifest = map (λ e. e.1) manifest

-- `find_by_original_path`
unfoldable pub find_by_original_path : Str → Manifest → List QuarantineEntry
unfolding str_eq
find_by_original_path path manifest = keep (λ e. str_eq e.original_path path) (values manifest)

-- `mark_restored`
unfoldable pub mark_restored : Str → Str → Manifest → Manifest
unfolding lookup put
mark_restored now entry_id manifest = elim (lookup entry_id manifest) [
  | none ↦ manifest
  | some e ↦ put entry_id (record e { restored = true; restored_at = some now }) manifest
]

-- `list_active` and `list_all`
unfoldable pub list_active : Manifest → List QuarantineEntry
list_active manifest = keep (λ e. not e.restored) (values manifest)

unfoldable pub list_all : Manifest → List QuarantineEntry
list_all manifest = values manifest

pub lookup-put :
    (k j : Str) (v : QuarantineEntry) (d : Manifest)
    → lookup j (put k v d) ≡ (if str_eq k j then some v else lookup j d)
unfolding lookup put
lookup-put k j v [] = ground arith
lookup-put k j v ((i, w) ∷ d) = ground (
  arith,
  str_eq→eq i k,
  str_eq→eq k j,
  str_eq→eq i j,
  str_eq_refl i,
  str_eq_refl k,
  str_eq_refl j,
  lookup-put k j v d,
)
