-- ===== src/Remediation/Quarantine/Restore.antt =====
-- What a restore does, and that it undoes a quarantine.
use openlabels.Prelude.{
  ◌≡◌, refl, sym, ◌∙◌, subst, ◌≢◌, ◌⊎◌, inl, inr, Bool, true, false, Option, none, some, [], ◌∷◌,
  if◌then◌else◌, Bool-cases, Option-cases, some_inj,
}
use openlabels.Prelude.Text.{Str, str_eq, str_eq→eq, lookup}
use openlabels.Remediation.Manifest.{QuarantineEntry, Manifest, mark_restored, lookup-put}
use openlabels.Remediation.Quarantine.{
  Files, Mover, RemediationResult, move_failed, restore_from_quarantine, mismatch,
}

-- What the documentation of `shutil.move` says of a move that succeeds.
abbrev pub Moves : Mover → Type 0
Moves move =
    (files files' : Files) (source dest : Str)
    → source ≢ dest
    → move files source dest ≡ (files', true)
    → (files' dest ≡ files source)
      × (files' source ≡ none)
      × ((p : Str) → p ≢ source → p ≢ dest → files' p ≡ files p)

-- A move has succeeded or failed.
pub move_cases :
    (m : Files × Bool)
    → ((files' : Files) × (m ≡ (files', true))) ⊎ ((files' : Files) × (m ≡ (files', false)))
move_cases (files', true) = inl (files', refl)
move_cases (files', false) = inr (files', refl)

lookup-mark_restored :
    (now entry_id i : Str) (manifest : Manifest) (entry : QuarantineEntry)
    → lookup entry_id manifest ≡ some entry
    → lookup i (mark_restored now entry_id manifest) ≡ (
        if str_eq entry_id i
        then some (record entry { restored = true; restored_at = some now })
        else lookup i manifest)
unfolding mark_restored
lookup-mark_restored now entry_id i manifest entry e =
    rw (mark_restored, e)
      (lookup-put entry_id i (record entry { restored = true; restored_at = some now }) manifest)

module _ (sha256 : Str → Str) (move : Mover) (rsync : Option Mover) where
  -- The files are as they were, or as a move to the original place of the entry has left them that failed.
  abbrev pub Keeps : Str → Bool → Manifest → Files → Files → RemediationResult → Type 0
  Keeps entry_id dry_run manifest files files' result =
      (files' ≡ files)
      ⊎ ((dry_run ≡ false)
          × (result.error ≡ some move_failed)
          × ((entry : QuarantineEntry) × (lookup entry_id manifest ≡ some entry)
              × (move files entry.quarantine_path entry.original_path ≡ (files', false))))

  -- A restore that reports a failure, and every trial run, leaves the manifest as it was, and all files, unless it was no
  -- trial run and the move of the entry's file to its original place was tried and failed: then the files are as that
  -- move has left them, and the error says that the move failed.
  pub restore_failure :
      (now entry_id : Str) (verify_hash dry_run : Bool) (manifest : Manifest) (files : Files)
      → ((restore_from_quarantine sha256 move rsync now entry_id verify_hash dry_run manifest
            files).2.success
          ≡ false)
        ⊎ (dry_run ≡ true)
      → ((restore_from_quarantine sha256 move rsync now entry_id verify_hash dry_run manifest
            files).0
          ≡ manifest)
        × Keeps entry_id dry_run manifest files
            (restore_from_quarantine sha256 move rsync now entry_id verify_hash dry_run manifest
              files).1
            (restore_from_quarantine sha256 move rsync now entry_id verify_hash dry_run manifest
              files).2
  unfolding restore_from_quarantine
  restore_failure now entry_id verify_hash dry_run manifest files h =
      elim (Option-cases (lookup entry_id manifest)) [
        | inl e ↦ rw (restore_from_quarantine, e) (refl, inl refl)
        | inr (entry, e) ↦ elim (Option-cases (files entry.quarantine_path)) [
          | inl f ↦ rw (restore_from_quarantine, e, f) (refl, inl refl)
          | inr (content, f) ↦
              elim (Option-cases (mismatch sha256 move rsync verify_hash entry.file_hash content)) [
                | inr (pair, g) ↦ rw (restore_from_quarantine, e, f, g) (refl, inl refl)
                | inl g ↦ elim (Bool-cases dry_run) [
                  | inl d ↦ rw (restore_from_quarantine, e, f, g, d) (refl, inl refl)
                  | inr d ↦
                      elim (move_cases (move files entry.quarantine_path entry.original_path)) [
                        | inr (files', k) ↦
                            rw (restore_from_quarantine, e, f, g, d, k)
                              (refl, inr (refl, refl, (entry, refl, k)))
                        | inl (files', k) ↦ elim h [
                          | inl p ↦ absurd (cc (rw (restore_from_quarantine, e, f, g, d, k) at p))
                          | inr q ↦ absurd (cc (q, d))
                        ]
                      ]
                ]
              ]
        ]
      ]

  mismatch-none :
      (h : Option Str) (content : Str)
      → mismatch sha256 move rsync true h content ≡ none
      → (expected : Str) → h ≡ some expected
      → expected ≢ []
      → sha256 content ≡ expected
  unfolding str_eq
  mismatch-none none content e expected q ne = absurd (cc)
  mismatch-none (some []) content e expected q ne = absurd (ne (sym (some_inj q)))
  mismatch-none (some (c ∷ h)) content e expected q ne =
      elim (Bool-cases (str_eq (sha256 content) (c ∷ h))) [
        | inl f ↦ str_eq→eq (sha256 content) (c ∷ h) f ∙ some_inj q
        | inr f ↦ absurd (cc (rw (f) at e))
      ]

  -- What a restore that succeeds has done.
  abbrev pub IsRestored : Str → Str → Bool → Manifest → Files → Manifest → Files → Type 0
  IsRestored now entry_id verify_hash manifest files manifest' files' =
      (entry : QuarantineEntry) × (content : Str) × (lookup entry_id manifest ≡ some entry)
      × (files entry.quarantine_path ≡ some content)
      × (files' entry.original_path ≡ some content)
      × (files' entry.quarantine_path ≡ none)
      × ((p : Str) → p ≢ entry.quarantine_path → p ≢ entry.original_path → files' p ≡ files p)
      × ((h : Str) → verify_hash ≡ true → entry.file_hash ≡ some h → h ≢ [] → sha256 content ≡ h)
      × ((i : Str)
          → lookup i manifest' ≡ (
              if str_eq entry_id i
              then some (record entry { restored = true; restored_at = some now })
              else lookup i manifest))

  -- A restore that reports success, and was no trial run, has moved the file of the entry from its place in quarantine to
  -- its original place and changed no other file; where the hash was to be verified, the file has the hash that the entry
  -- records; and of the manifest only the entry has changed, which is marked as restored. This supposes that a move
  -- does what its documentation says, and that no entry has one path for both places.
  pub restore_success :
      (now entry_id : Str) (verify_hash : Bool) (manifest : Manifest) (files : Files)
      → Moves move
      → ((entry : QuarantineEntry)
          → lookup entry_id manifest ≡ some entry
          → entry.quarantine_path ≢ entry.original_path)
      → (restore_from_quarantine sha256 move rsync now entry_id verify_hash false manifest
          files).2.success
        ≡ true
      → IsRestored now entry_id verify_hash manifest files
          (restore_from_quarantine sha256 move rsync now entry_id verify_hash false manifest
            files).0
          (restore_from_quarantine sha256 move rsync now entry_id verify_hash false manifest
            files).1
  unfolding restore_from_quarantine
  restore_success now entry_id verify_hash manifest files moves apart h =
      elim (Option-cases (lookup entry_id manifest)) [
        | inl e ↦ absurd (cc (rw (restore_from_quarantine, e) at h))
        | inr (entry, e) ↦ elim (Option-cases (files entry.quarantine_path)) [
          | inl f ↦ absurd (cc (rw (restore_from_quarantine, e, f) at h))
          | inr (content, f) ↦
              elim (Option-cases (mismatch sha256 move rsync verify_hash entry.file_hash content)) [
                | inr (pair, g) ↦ absurd (cc (rw (restore_from_quarantine, e, f, g) at h))
                | inl g ↦ elim (move_cases (move files entry.quarantine_path entry.original_path)) [
                  | inr (files', k) ↦ absurd (cc (rw (restore_from_quarantine, e, f, g, k) at h))
                  | inl (files', k) ↦
                      let (arrived, gone, rest) =
                        moves files files' entry.quarantine_path entry.original_path (apart entry e)
                          k in
                      rw (restore_from_quarantine, e, f, g, k)
                        (
                          entry,
                          content,
                          refl,
                          f,
                          arrived ∙ f,
                          gone,
                          rest,
                          (λ p v q ne.
                              mismatch-none entry.file_hash content
                                (subst
                                  (λ b. mismatch sha256 move rsync b entry.file_hash content ≡ none)
                                  v g)
                                p q ne),
                          (λ i. lookup-mark_restored now entry_id i manifest entry e),
                        )
                ]
              ]
        ]
      ]
