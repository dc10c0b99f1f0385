-- ===== src/Audit/Recorded.antt =====
-- The two files after an append that returns.
use systeme_local.Prelude.{
  ℕ, ◌+◌, String, ◌≡◌, refl, sym, ap, true, Option, none, some, List, [], ◌∷◌, ◌++◌, Result, ok,
  err, Post, Post-err, Post-bind,
}
use mathlib.Core.Path.{subst}
use systeme_local.Anchor.Files.{LogFile, missing, irregular, unterminated, lines, with_line}
use systeme_local.Anchor.{
  AnchorError, AnchorVerification, AnchorCalls, anchor_verify, anchor_append,
}
use systeme_local.Anchor.Grows.{ReadsBack, append-IsAppended}
use systeme_local.Audit.{
  AuditError, anchor_error, AuditVerification, AuditRecord, AuditCalls, AuditScan, AuditFiles,
  Fresh, scan_log, scan_against, caught_up, verify_against, new_record, append_verified,
  verify_anchored, append_anchored, audit_append, answered,
}

-- The lines of a file that has whole lines only; a missing file has none.
pub full_lines : LogFile → Option (List String)
full_lines missing = some []
full_lines (lines full) = some full
full_lines irregular = none
full_lines (unterminated full rest) = none

HasLines : LogFile → Type 0
HasLines log = (full : List String) × (full_lines log ≡ some full)

module _ {V : Type 0} (calls : AuditCalls V) (fresh : Fresh) (event : V) where
  -- The record that is to be written after a log that ends with an HMAC, and its own HMAC.
  abbrev unsigned_entry : String → AuditRecord V
  unsigned_entry last = record {
    version = some 2;
    audit_id = some fresh.audit_id;
    timestamp = some fresh.timestamp;
    previous_hmac = some last;
    entry_hmac = none;
    event = event;
  }

  abbrev pub hmac_of_entry : String → String
  hmac_of_entry last = calls.entry_digest (unsigned_entry last)

  abbrev signed_entry : String → AuditRecord V
  signed_entry last = record {
    version = some 2;
    audit_id = some fresh.audit_id;
    timestamp = some fresh.timestamp;
    previous_hmac = some last;
    entry_hmac = some (hmac_of_entry last);
    event = event;
  }

module _ {V : Type 0} (calls : AuditCalls V) (anchor_calls : AnchorCalls) (log_id : String) where
  -- The checkpoint of the new record would read back as it is written.
  unfoldable pub NextReadsBack :
      Fresh → V → LogFile → Result AuditError AuditVerification × LogFile → Type 0
  NextReadsBack fresh event log p =
      (v : AuditVerification)
      → p.0 ≡ ok v
      → ReadsBack anchor_calls log_id fresh.checkpoint_id fresh.checkpoint_time (v.records + 1)
          (hmac_of_entry calls fresh event v.last_hmac) p.1

  -- The log was verified, and has one line more at its end, the new record's; the anchor is valid
  -- and has the checkpoint of exactly that state of the log.
  pub record IsRecorded (fresh : Fresh) (event : V) (log : LogFile)
      (found : Result AuditError AuditVerification) (files' : AuditFiles) : Type 0 where
    pub before : AuditVerification
    pub verified_before : found ≡ ok before
    pub old_lines : List String
    pub lines_before : full_lines log ≡ some old_lines
    pub lines_after :
        full_lines files'.log
        ≡ some (old_lines ++ calls.dumps (signed_entry calls fresh event before.last_hmac) ∷ [])
    pub after : AnchorVerification
    pub verified_after : anchor_verify anchor_calls log_id files'.anchor ≡ ok after
    pub one_more : after.records ≡ before.records + 1
    pub same_hmac : after.last_hmac ≡ hmac_of_entry calls fresh event before.last_hmac

  scan_log-HasLines :
      (checkpoint : Option ℕ) (log : LogFile) (scan : AuditScan)
      → scan_log calls checkpoint log ≡ ok scan
      → HasLines log
  unfolding scan_log full_lines HasLines
  scan_log-HasLines checkpoint missing scan h = ([], refl)
  scan_log-HasLines checkpoint (lines full) scan h = (full, refl)
  scan_log-HasLines checkpoint irregular scan h = cc
  scan_log-HasLines checkpoint (unterminated full rest) scan h = cc

  caught_up-HasLines :
      (fresh : Fresh) (log anchor : LogFile) (a : AnchorVerification)
      (r : Result AuditError AuditVerification)
      → Post (λ v. HasLines log) r
      → Post (λ v. HasLines log) (caught_up calls anchor_calls log_id fresh anchor a r).0
  unfolding caught_up
  caught_up-HasLines fresh log anchor a (err e) h = Post-err e
  caught_up-HasLines fresh log anchor a (ok v) h = record { at = λ w q. h.at v refl }

  verify_against-HasLines :
      (fresh : Fresh) (log anchor : LogFile) (r : Result AnchorError AnchorVerification)
      → Post (λ v. HasLines log) (verify_against calls anchor_calls log_id fresh log anchor r).0
  unfolding verify_against scan_against
  verify_against-HasLines fresh log anchor (err e) = Post-err (anchor_error e)
  verify_against-HasLines fresh log anchor (ok a) =
      caught_up-HasLines fresh log anchor a (scan_against calls a log) (
        Post-bind (scan_log calls (some a.records) log) _
          (λ scan q. record { at = λ v k. scan_log-HasLines (some a.records) log scan q }))

  lines-with_line :
      (line : String) (log : LogFile) (full : List String)
      → full_lines log ≡ some full
      → full_lines (with_line line log) ≡ some (full ++ line ∷ [])
  unfolding full_lines
  lines-with_line line missing full h = let q : [] ≡ full = cc in ap (λ l. some (l ++ line ∷ [])) q
  lines-with_line line (lines old) full h =
      let q : old ≡ full = cc in ap (λ l. some (l ++ line ∷ [])) q
  lines-with_line line irregular full h = cc
  lines-with_line line (unterminated old rest) full h = cc

  answered-ok :
      (fresh : Fresh) (log : LogFile) (p : Result AnchorError AnchorVerification × LogFile)
      (id : String)
      → (answered calls anchor_calls log_id fresh log p).0 ≡ ok id
      → (a : AnchorVerification) × (p.0 ≡ ok a)
        × ((answered calls anchor_calls log_id fresh log p).1 ≡ record { log = log; anchor = p.1 })
        × (id ≡ fresh.audit_id)
  answered-ok fresh log (ok a, file) id h = (a, refl, refl, cc)
  answered-ok fresh log (err e, file) id h = cc

  append_anchored-IsRecorded :
      (fresh : Fresh) (event : V) (log : LogFile)
      (p : Result AuditError AuditVerification × LogFile) (id : String)
      → NextReadsBack fresh event log p
      → Post (λ v. HasLines log) p.0
      → (append_anchored calls anchor_calls log_id fresh event log p).0 ≡ ok id
      → IsRecorded fresh event log p.0
          (append_anchored calls anchor_calls log_id fresh event log p).1
        × (id ≡ fresh.audit_id)
  unfolding append_anchored append_verified new_record NextReadsBack HasLines
  append_anchored-IsRecorded fresh event log (err e, anchor) id reads whole h = cc
  append_anchored-IsRecorded fresh event log (ok v, anchor) id reads whole h =
      let next = append_verified calls fresh event v log in
      let (a, done, files, same) =
        answered-ok fresh next.1
          (anchor_append anchor_calls log_id fresh.checkpoint_id fresh.checkpoint_time
            next.0.records next.0.last_hmac anchor)
          id h in
      let grown =
        append-IsAppended anchor_calls log_id fresh.checkpoint_id fresh.checkpoint_time
          next.0.records next.0.last_hmac anchor a (reads v refl) done in
      (
        subst (IsRecorded fresh event log (ok v)) (sym files) (record {
          before = v;
          verified_before = refl;
          old_lines = (whole.at v refl).0;
          lines_before = (whole.at v refl).1;
          lines_after = lines-with_line _ log (whole.at v refl).0 (whole.at v refl).1;
          after = a;
          verified_after = grown.verified;
          one_more = grown.records;
          same_hmac = grown.last_hmac;
        }),
        same,
      )

  -- Where the checkpoint of the new record would read back as it is written: an anchored append
  -- that returns gives the new record's identifier, has verified the log with its anchor first, and
  -- leaves the log with the same lines and one more at the end. That line is the encoding of the
  -- record with version 2, the given identifier, time and event, the verified log's last HMAC, and
  -- the digest of these. The anchor is valid, and has one record more than that verification and
  -- the new record's HMAC.
  pub append-IsRecorded :
      (fresh : Fresh) (event : V) (files : AuditFiles) (id : String)
      → NextReadsBack fresh event files.log
          (verify_anchored calls anchor_calls log_id fresh files.log files.anchor)
      → (audit_append calls anchor_calls log_id true fresh event files).0 ≡ ok id
      → IsRecorded fresh event files.log
          (verify_anchored calls anchor_calls log_id fresh files.log files.anchor).0
          (audit_append calls anchor_calls log_id true fresh event files).1
        × (id ≡ fresh.audit_id)
  unfolding audit_append verify_anchored
  append-IsRecorded fresh event files id reads h =
      append_anchored-IsRecorded fresh event files.log
        (verify_anchored calls anchor_calls log_id fresh files.log files.anchor) id reads
        (verify_against-HasLines fresh files.log files.anchor
          (anchor_verify anchor_calls log_id files.anchor))
        h
