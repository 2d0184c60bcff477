-- ===== src/Remediation/Quarantine/RoundTrip.antt =====
-- A quarantine that is undone.
use openlabels.Prelude.{◌≡◌, ◌≢◌, true, false, Option, none, some}
use openlabels.Prelude.Text.{Str}
use openlabels.Remediation.Quarantine.{
  Mover, Files, RemediationResult, dest_file, success_quarantine, Manifest, QuarantineEntry,
}
use openlabels.Remediation.Manifest.{QuarantineEntry, Manifest, add_entry}

-- A file has gone from one path to another, and no other has changed.
abbrev pub IsMoved : Str → Str → Files → Files → Type 0
IsMoved source dest files files' =
    (files' dest ≡ files source)
    × (files' source ≡ none)
    × ((p : Str) → p ≢ source → p ≢ dest → files' p ≡ files p)

-- What rsync's documentation says of a transfer of a file into a directory, with the removal of the source, that
-- succeeds.
abbrev pub Syncs : Option Mover → Type 0
Syncs none = Unit
Syncs (some sync) =
    (files files' : Files) (source destination : Str)
    → files (dest_file source destination) ≡ none
    → sync files source destination ≡ (files', true)
    → IsMoved source (dest_file source destination) files files'

-- If rsync fails at this file, it leaves all files as they were.
abbrev pub FailsClean : Option Mover → Str → Str → Files → Type 0
FailsClean none source destination files = Unit
FailsClean (some sync) source destination files =
    (files' : Files) → sync files source destination ≡ (files', false) → files' ≡ files

-- A result that reports success tells of a file that has been moved.
abbrev IsSound : Str → Str → Files → Files × RemediationResult → Type 0
IsSound source dest files p =
    p.1.success ≡ true → IsMoved source dest files p.0 × (p.1 ≡ success_quarantine source dest)

module _ (sha256 : Str → Str) (move : Mover) (rsync : Option Mover) where
  -- The entry that records a quarantine with the hash of its result.
  abbrev pub recorded :
      Str → Str → Str → Str → Str → Str → Str → Str → Manifest → Manifest × QuarantineEntry
  recorded new_id at source destination reason tier by content manifest =
      add_entry new_id at source (dest_file source destination) reason tier by none
        (some (sha256 content)) manifest
