-- ===== src/Remediation/Quarantine/Examples.antt =====
-- Small file systems with moves that succeed and one that fails, and the theorems at them.
use openlabels.Prelude.{
  ◌≡◌, refl, sym, ap, ◌∙◌, subst, ◌≢◌, inl, inr, Bool, true, false, none, some, [], ◌∷◌,
  if◌then◌else◌, Bool-cases, Option-cases, some_inj,
}
use openlabels.Prelude.Text.{Str, codes, str_eq, str_eq→eq, str_eq_refl, lookup}
use openlabels.Remediation.Manifest.{QuarantineEntry, Manifest}
use openlabels.Remediation.Quarantine.{
  Files, Mover, hash_mismatch, RemediationResult, restore_from_quarantine, dest_file, name_from,
  success_quarantine,
}
use openlabels.Remediation.Quarantine.Restore.{
  Moves, Keeps, IsRestored, restore_failure, restore_success,
}
use openlabels.Remediation.Quarantine.RoundTrip.{IsMoved, recorded}

-- os.rename on one file system.
rename : Mover
unfolding str_eq
rename files source dest = elim (files source) [
  | none ↦ (files, false)
  | some content ↦
      (λ p. if str_eq p dest then some content else if str_eq p source then none else files p, true)
]

-- rsync into a directory, by a rename.
sync : Mover
unfolding rename
sync files source destination = rename files source (dest_file source destination)

differ : (p q : Str) → p ≢ q → str_eq p q ≡ false
differ p q ne = elim (Bool-cases (str_eq p q)) [ inl e ↦ absurd (ne (str_eq→eq p q e)) | inr e ↦ e ]

rename-IsMoved :
    (files files' : Files) (source dest : Str)
    → source ≢ dest
    → rename files source dest ≡ (files', true)
    → IsMoved source dest files files'
unfolding rename
rename-IsMoved files files' source dest ne m = elim (Option-cases (files source)) [
  | inl e ↦ absurd (cc (ap (λ (x : Files × Bool). x.1) (rw (rename, e) at m)))
  | inr (content, e) ↦
      let same : (λ (p : Str).
        if str_eq p dest then some content else if str_eq p source then none else files p)
          ≡ files' =
        ap (λ (x : Files × Bool). x.0) (rw (rename, e) at m) in
      (
        sym (ap (λ (g : Files). g dest) same) ∙ rw (str_eq_refl dest) (sym e),
        sym (ap (λ (g : Files). g source) same)
            ∙ rw (differ source dest ne, str_eq_refl source) refl,
        (λ p np nd.
            sym (ap (λ (g : Files). g p) same) ∙ rw (differ p dest nd, differ p source np) refl),
      )
]

rename-Moves : Moves rename
rename-Moves files files' source dest ne m = rename-IsMoved files files' source dest ne m

abbrev digest : Str → Str
digest content = b'h' ∷ content

abbrev secret : Str
secret = codes "/home/a/ssn.txt"

abbrev vault : Str
vault = codes "/q"

abbrev files : Files
files p = if str_eq p secret then some (codes "078-05-1120") else none

abbrev id : Str
id = codes "e1"

-- The file in quarantine, and restored.
quarantined : Files
unfolding sync
quarantined = (sync files secret vault).0

back : Files
unfolding rename quarantined name_from
back = (rename quarantined (dest_file secret vault) secret).0

told : RemediationResult
told = record (success_quarantine secret (dest_file secret vault)) {
  file_hash = some (digest (codes "078-05-1120"));
}

kept : Manifest
kept =
    (recorded digest rename (some sync) id (codes "t") secret vault (codes "policy") (codes "HIGH")
      (codes "scan") (codes "078-05-1120") []).0

-- The entry of a file that another has taken the place of.
abbrev entry : QuarantineEntry
entry = record {
  id = id;
  original_path = secret;
  quarantine_path = codes "/q/ssn.txt";
  quarantined_at = codes "t";
  reason = codes "policy";
  risk_tier = codes "HIGH";
  triggered_by = codes "scan";
  scan_job_id = none;
  file_hash = some (digest (codes "078-05-1120"));
  restored = false;
  restored_at = none;
}

abbrev held : Str → Files
held content p = if str_eq p (codes "/q/ssn.txt") then some content else none

refused :
    (restore_from_quarantine digest rename none
      (codes "u")
      id
      true
      false
      ((id, entry) ∷ [])
      (held (codes "x"))).2.error
    ≡ some (hash_mismatch (digest (codes "078-05-1120")) (digest (codes "x")))
unfolding restore_from_quarantine
refused = refl

-- A move across file systems that has copied the file and cannot remove it.
copies : Mover
unfolding str_eq
copies files source dest = (λ p. if str_eq p dest then files source else files p, false)

-- The restore by a move that fails.
abbrev failing : Manifest × Files × RemediationResult
failing =
    restore_from_quarantine digest copies none (codes "u") id true false ((id, entry) ∷ [])
      (held (codes "078-05-1120"))

leaves_copy :
    (failing.2.success ≡ false)
    × (failing.1 secret ≡ some (codes "078-05-1120"))
    × (failing.1 (codes "/q/ssn.txt") ≡ some (codes "078-05-1120"))
unfolding restore_from_quarantine copies
leaves_copy = (refl, refl, refl)

restore_failure_example :
    (failing.0 ≡ (id, entry) ∷ [])
    × Keeps digest copies none id false
        ((id, entry) ∷ [])
        (held (codes "078-05-1120"))
        failing.1
        failing.2
unfolding restore_from_quarantine copies
restore_failure_example =
    restore_failure digest copies none (codes "u") id true false ((id, entry) ∷ [])
      (held (codes "078-05-1120")) (inl refl)

apart :
    (e : QuarantineEntry)
    → lookup id ((id, entry) ∷ []) ≡ some e
    → e.quarantine_path ≢ e.original_path
unfolding lookup str_eq
apart e h q =
    let same : entry ≡ e = some_inj h in
    let paths : entry.quarantine_path ≡ entry.original_path =
      subst (λ x. x.quarantine_path ≡ x.original_path) (sym same) q in
    absurd (cc (ap (λ p. str_eq p secret) paths))

restore_success_example :
    IsRestored digest rename none
      (codes "u")
      id
      true
      ((id, entry) ∷ [])
      (held (codes "078-05-1120"))
      (restore_from_quarantine digest rename none
        (codes "u")
        id
        true
        false
        ((id, entry) ∷ [])
        (held (codes "078-05-1120"))).0
      (restore_from_quarantine digest rename none
        (codes "u")
        id
        true
        false
        ((id, entry) ∷ [])
        (held (codes "078-05-1120"))).1
unfolding restore_from_quarantine rename
restore_success_example =
    restore_success digest rename none (codes "u") id true ((id, entry) ∷ [])
      (held (codes "078-05-1120")) rename-Moves apart refl
