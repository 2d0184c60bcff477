-- ===== src/Remediation/Quarantine.antt =====
-- Quarantine and restore on Unix (src/openlabels/remediation/quarantine.py). `Files` gives the content of the file at
-- a path, and a file that exists can be read. SHA-256, `shutil.move` and rsync are arguments: a move and rsync answer
-- the files that they leave, also where they fail, and whether they succeeded. Directories are left out, with
-- the failures of mkdir but for a file that stands at the destination, and so are the log, time, user and the
-- saving of the manifest, which may fail after a restore. Paths are resolved.
pub mod Restore
pub mod RoundTrip
mod Examples
use openlabels.Prelude.{
  ℕ, zero, suc, ◌+◌, ◌-◌, ◌*◌, ◌/◌, ◌%◌, ◌≤◌, ◌<◌, min, max, ◌≡◌, refl, sym, ap, ◌∙◌, subst, ◌≢◌,
  ◌↔◌, ◌⊎◌, inl, inr, Bool, true, false, not, ◌&&◌, ◌||◌, Option, none, some, List, [], ◌∷◌, ◌++◌,
  map, reverse, arith, ltb, leb, ◌==◌, if◌then◌else◌, ltb→lt, lt→ltb, ge→ltb, leb→le, le→leb,
  gt→leb, ==_iff, Bool-cases, Option-cases, some_inj, length, get_elem?, take, drop, slice, keep,
  All, Any, all, any, length-append, length-take, length-drop,
}
use openlabels.Prelude.Text.{Str, str_eq, codes}
use openlabels.Remediation.Manifest.{QuarantineEntry, Manifest, get_entry, mark_restored}

abbrev pub Files : Type 0
Files = Str → Option Str

pub data RemediationAction : Type 0 where
  quarantine_ restore lockdown none_ : RemediationAction

-- The texts of the errors.
pub data Failure : Type 0 where
  entry_not_found file_gone move_failed integrity_warning : Failure
  hash_mismatch : (expected actual : Str) → Failure

pub record RemediationResult : Type 0 where
  pub success : Bool
  pub action : RemediationAction
  pub source_path : Str
  pub dest_path : Option Str
  pub error : Option Failure
  pub file_hash : Option Str

abbrev pub failure : RemediationAction → Str → Failure → RemediationResult
failure action source error = record {
  success = false;
  action = action;
  source_path = source;
  dest_path = none;
  error = some error;
  file_hash = none;
}

abbrev pub success_quarantine : Str → Str → RemediationResult
success_quarantine source dest = record {
  success = true;
  action = quarantine_;
  source_path = source;
  dest_path = some dest;
  error = none;
  file_hash = none;
}

-- `source.name`, with the letters since the last separator.
unfoldable pub name_from : Str → Str → Str
name_from word [] = word
name_from word (c ∷ s) = name_from (if c == b'/' then [] else word ++ c ∷ []) s

abbrev pub dest_file : Str → Str → Str
dest_file source destination = destination ++ b'/' ∷ name_from [] source

-- What a tool that moves a file leaves, and whether it succeeded.
abbrev pub Mover : Type 0
Mover = Files → Str → Str → Files × Bool

-- The error of a source that is not there, and mkdir's of a file at the destination.
pub data Exception : Type 0 where
  quarantine_error file_exists_error : Exception

-- How `quarantine` ends.
pub data Quarantined : Type 0 where
  raised : Exception → Quarantined
  answered : Files → RemediationResult → Quarantined

abbrev pub reply : Files × RemediationResult → Quarantined
reply p = answered p.0 p.1

module _ (sha256 : Str → Str) (move : Mover) (rsync : Option Mover) where
  -- `shutil.move`, with the result that reports it.
  abbrev pub fall_back : Str → Str → Files → Files × RemediationResult
  fall_back source dest files =
      let (files', done) = move files source dest in
      if done
      then (files', success_quarantine source dest)
      else (files', failure quarantine_ source move_failed)

  -- `_quarantine_unix`
  unfoldable pub quarantine_unix : Str → Str → Bool → Bool → Files → Files × RemediationResult
  unfolding name_from
  quarantine_unix source destination preserve_acls dry_run files =
      if dry_run
      then (files, success_quarantine source (dest_file source destination))
      else if not preserve_acls
      then fall_back source (dest_file source destination) files
      else elim rsync [
        | none ↦ fall_back source (dest_file source destination) files
        | some sync ↦
            let (files', done) = sync files source destination in
            if done
            then (files', success_quarantine source (dest_file source destination))
            else fall_back source (dest_file source destination) files'
      ]

  -- The check after the move.
  abbrev pub verified : Str → Files × RemediationResult → Files × RemediationResult
  verified pre_hash (files, r) =
      if r.success
      then elim r.dest_path [
        | none ↦ (files, r)
        | some dest ↦ elim (files dest) [
          | none ↦ (files, r)
          | some content ↦
              if str_eq pre_hash (sha256 content)
              then (files, r)
              else (files, record r { error = some integrity_warning })
        ]
      ]
      else (files, r)

  -- The result with the hash of before the move.
  abbrev pub attach : Str → Files × RemediationResult → Files × RemediationResult
  attach hash p = (p.0, record p.1 { file_hash = some hash })

  -- `quarantine`
  unfoldable pub quarantine : Str → Str → Bool → Bool → Files → Quarantined
  unfolding quarantine_unix str_eq
  quarantine source destination preserve_acls dry_run files = elim (files source) [
    | none ↦ raised quarantine_error
    | some content ↦
        if dry_run
        then reply (quarantine_unix source destination preserve_acls true files)
        else elim (files destination) [
          | some c ↦ raised file_exists_error
          | none ↦ reply (
              attach (sha256 content) (
                verified (sha256 content)
                  (quarantine_unix source destination preserve_acls false files)))
        ]
  ]

  -- The hash that is to be verified, if the file has another.
  abbrev pub mismatch : Bool → Option Str → Str → Option (Str × Str)
  mismatch verify_hash none content = none
  mismatch verify_hash (some []) content = none
  mismatch verify_hash (some (c ∷ expected)) content =
      if verify_hash && not (str_eq (sha256 content) (c ∷ expected))
      then some (c ∷ expected, sha256 content)
      else none

  abbrev pub success_restore : QuarantineEntry → RemediationResult
  success_restore entry = record {
    success = true;
    action = restore;
    source_path = entry.quarantine_path;
    dest_path = some entry.original_path;
    error = none;
    file_hash = none;
  }

  -- `restore_from_quarantine`
  unfoldable pub restore_from_quarantine :
      Str → Str → Bool → Bool → Manifest → Files → Manifest × Files × RemediationResult
  unfolding mark_restored str_eq
  restore_from_quarantine now entry_id verify_hash dry_run manifest files =
      elim (get_entry entry_id manifest) [
        | none ↦ (manifest, files, failure restore entry_id entry_not_found)
        | some entry ↦ elim (files entry.quarantine_path) [
          | none ↦ (manifest, files, failure restore entry.quarantine_path file_gone)
          | some content ↦ elim (mismatch verify_hash entry.file_hash content) [
            | some (expected, actual) ↦ (
              manifest,
              files,
              failure restore entry.quarantine_path (hash_mismatch expected actual),
            )
            | none ↦
                if dry_run
                then (manifest, files, success_restore entry)
                else (let (files', done) = move files entry.quarantine_path entry.original_path in
                    if done
                    then (mark_restored now entry_id manifest, files', success_restore entry)
                    else (manifest, files', failure restore entry.quarantine_path move_failed))
          ]
        ]
      ]
