-- ===== src/Audit.antt =====
-- src/systeme_local_gateway/audit.py: the chained log of audit records, with and without an
-- external anchor (Anchor). The projected event, which the log only stores, is a type of its own;
-- locks and file modes are left out.
mod Sound
mod Tamper
mod Appends
mod Recorded
mod Examples
use systeme_local.Prelude.{
  ℕ, zero, suc, ◌+◌, ◌-◌, ◌*◌, ◌≤◌, ◌<◌, String, ◌≡◌, refl, sym, ap, ◌∙◌, ◌≢◌, ◌↔◌, ◌⊎◌, inl, inr,
  Bool, true, false, not, ◌&&◌, ◌||◌, Option, none, some, List, [], ◌∷◌, ◌++◌, map, arith, str_eq,
  eq_iff, eq_refl, ltb, leb, ◌==◌, if◌then◌else◌, leb→le, Bool-cases, Option-cases, is_some, Result,
  ok, err, ◌>>=◌, ◌>>◌, raise_if, Method, commit_or_rollback, Post, Post-ok, Post-err, Post-bind,
  Post-then, raise_if-ok, Post-commit, committed, length, any, find, keep, length-append,
  length-keep, All, All-append, any-append, All-keep, any-keep, keep-keep, find-all_false,
  find-true, All-find, Distinct, str_eq_comm, Distinct-keep, Distinct-append, has_key, dict_get,
  dict_set, dict_pop, has_key-dict_set, has_key-dict_pop, All-dict_set, All-dict_pop,
}
use systeme_local.Anchor.Files.{
  LogFile, missing, irregular, unterminated, lines, Loaded, not_json, not_object, object, with_line,
}
use systeme_local.Anchor.{
  AnchorError, AnchorVerification, AnchorCalls, anchor_verify, anchor_append, anchor_bootstrap,
  genesis_hmac, text_or_raise, is_number, is_text, mem,
}

pub data AuditError : Type 0 where
  audit_integrity not_configured : AuditError
  anchor_error : AnchorError → AuditError

pub record AuditVerification : Type 0 where
  pub records : ℕ
  pub last_hmac : String
  pub anchor_checkpoints : Option ℕ

-- A record as it is parsed: `none` is a field that is absent or not of its type.
pub record AuditRecord (V : Type 0) : Type 0 where
  pub version : Option ℕ
  pub audit_id : Option String
  pub timestamp : Option String
  pub previous_hmac : Option String
  pub entry_hmac : Option String
  pub event : V

-- What the module calls: `json`, and `hmac` with the log's key.
pub record AuditCalls (V : Type 0) : Type 0 where
  pub loads : String → Loaded (AuditRecord V)
  pub dumps : AuditRecord V → String
  pub entry_digest : AuditRecord V → String

-- the state of the loop over the lines
pub record AuditScan : Type 0 where
  pub previous_hmac : String
  pub records : ℕ
  pub audit_ids : List String
  pub checkpoint_hmac : Option String

-- both files
pub record AuditFiles : Type 0 where
  pub log : LogFile
  pub anchor : LogFile

-- What `uuid4` and the clock give to one call: for the record, for a checkpoint that was missing,
-- and for the checkpoint of the record.
pub record Fresh : Type 0 where
  pub audit_id : String
  pub timestamp : String
  pub missed_id : String
  pub missed_time : String
  pub checkpoint_id : String
  pub checkpoint_time : String

abbrev pub is_at : Option ℕ → ℕ → Bool
is_at none n = false
is_at (some c) n = n == c

-- `checkpoint_hmac` before the first line
abbrev pub start_hmac : Option ℕ → Option String
start_hmac checkpoint = if is_at checkpoint 0 then some genesis_hmac else none

abbrev pub new_audit_scan : Option ℕ → AuditScan
new_audit_scan checkpoint = record {
  previous_hmac = genesis_hmac;
  records = 0;
  audit_ids = [];
  checkpoint_hmac = start_hmac checkpoint;
}

abbrev pub anchored_result {ℓ} : {A : Type ℓ} → Result AnchorError A → Result AuditError A
anchored_result (ok a) = ok a
anchored_result (err e) = err (anchor_error e)

-- the log's own verification, with the anchor's count of checkpoints
abbrev pub with_checkpoints : ℕ → AuditVerification → AuditVerification
with_checkpoints n v = record v { anchor_checkpoints = some n }

module _ {V : Type 0} (calls : AuditCalls V) where
  abbrev pub unsigned_record : AuditRecord V → AuditRecord V
  unsigned_record r = record r { entry_hmac = none }

  abbrev as_record : Loaded (AuditRecord V) → Result AuditError (AuditRecord V)
  as_record not_json = err audit_integrity
  as_record not_object = err audit_integrity
  as_record (object r) = ok r

  pub check_record : Option ℕ → AuditRecord V → AuditScan → Result AuditError AuditScan
  check_record checkpoint r scan = do
    raise_if (not (is_number 2 r.version)) audit_integrity
    raise_if (not (is_text scan.previous_hmac r.previous_hmac)) audit_integrity
    entry_hmac ← text_or_raise audit_integrity r.entry_hmac
    raise_if (not (str_eq entry_hmac (calls.entry_digest (unsigned_record r)))) audit_integrity
    audit_id ← text_or_raise audit_integrity r.audit_id
    raise_if (mem audit_id scan.audit_ids) audit_integrity
    ok (record {
      previous_hmac = entry_hmac;
      records = scan.records + 1;
      audit_ids = audit_id ∷ scan.audit_ids;
      checkpoint_hmac =
          if is_at checkpoint (scan.records + 1) then some entry_hmac else scan.checkpoint_hmac;
    })

  pub scan_line : Option ℕ → String → AuditScan → Result AuditError AuditScan
  scan_line checkpoint line scan = do
    raise_if (str_eq line "") audit_integrity
    r ← as_record (calls.loads line)
    check_record checkpoint r scan

  pub scan_lines : Option ℕ → List String → AuditScan → Result AuditError AuditScan
  scan_lines checkpoint [] scan = ok scan
  scan_lines checkpoint (line ∷ rest) scan =
      scan_line checkpoint line scan >>= scan_lines checkpoint rest

  abbrev pub verified_scan : AuditScan → AuditVerification
  verified_scan scan = record {
    records = scan.records;
    last_hmac = scan.previous_hmac;
    anchor_checkpoints = none;
  }

  -- `_scan_unlocked`, which returns the last state of its loop
  pub scan_log : Option ℕ → LogFile → Result AuditError AuditScan
  scan_log checkpoint missing = ok (new_audit_scan checkpoint)
  scan_log checkpoint irregular = err audit_integrity
  scan_log checkpoint (unterminated full rest) = err audit_integrity
  scan_log checkpoint (lines full) = scan_lines checkpoint full (new_audit_scan checkpoint)

  pub verify_log : LogFile → Result AuditError AuditVerification
  verify_log log = do scan ← scan_log none log; ok (verified_scan scan)

  pub new_record : Fresh → V → AuditVerification → AuditRecord V
  new_record fresh event v =
      let r : AuditRecord V = record {
        version = some 2;
        audit_id = some fresh.audit_id;
        timestamp = some fresh.timestamp;
        previous_hmac = some v.last_hmac;
        entry_hmac = none;
        event = event;
      } in
      record r { entry_hmac = some (calls.entry_digest r) }

  -- `_append_verified_unlocked`: the file, and what it is verified to from now on
  pub append_verified : Fresh → V → AuditVerification → LogFile → AuditVerification × LogFile
  unfolding new_record
  append_verified fresh event v log =
      let r = new_record fresh event v in
      (
        record {
          records = v.records + 1;
          last_hmac = calls.entry_digest (unsigned_record r);
          anchor_checkpoints = none;
        },
        with_line (calls.dumps r) log,
      )

  -- what the anchor says of the log: that it has the record of the last checkpoint
  pub check_against : AnchorVerification → AuditScan → Result AuditError (Unit {0})
  check_against a scan = do
    raise_if (ltb scan.records a.records) audit_integrity
    anchored_hmac ← text_or_raise audit_integrity scan.checkpoint_hmac
    raise_if (not (str_eq anchored_hmac a.last_hmac)) audit_integrity

  pub scan_against : AnchorVerification → LogFile → Result AuditError AuditVerification
  scan_against a log = do
    scan ← scan_log (some a.records) log
    check_against a scan
    ok (verified_scan scan)

module _ {V : Type 0} (calls : AuditCalls V) (anchor_calls : AnchorCalls) (log_id : String) where
  -- a record that was written without its checkpoint
  pub catch_up :
      Fresh → AnchorVerification → AuditVerification → Method LogFile AuditError AnchorVerification
  catch_up fresh a v anchor =
      if ltb a.records v.records
      then (let appended =
            anchor_append anchor_calls log_id fresh.missed_id fresh.missed_time v.records
              v.last_hmac anchor in
          (anchored_result appended.0, appended.1))
      else (ok a, anchor)

  abbrev counted :
      AuditVerification
      → Result AuditError AnchorVerification × LogFile
      → Result AuditError AuditVerification × LogFile
  counted v (ok a, anchor) = (ok (with_checkpoints a.checkpoints v), anchor)
  counted v (err e, anchor) = (err e, anchor)

  pub caught_up :
      Fresh
      → LogFile
      → AnchorVerification
      → Result AuditError AuditVerification
      → Result AuditError AuditVerification × LogFile
  caught_up fresh anchor a (err e) = (err e, anchor)
  caught_up fresh anchor a (ok v) = counted v (catch_up fresh a v anchor)

  pub verify_against :
      Fresh
      → LogFile
      → LogFile
      → Result AnchorError AnchorVerification
      → Result AuditError AuditVerification × LogFile
  verify_against fresh log anchor (err e) = (err (anchor_error e), anchor)
  verify_against fresh log anchor (ok a) = caught_up fresh anchor a (scan_against calls a log)

  -- `_verify_anchored_unlocked`, which can change the anchor
  pub verify_anchored : Fresh → LogFile → Method LogFile AuditError AuditVerification
  verify_anchored fresh log anchor =
      verify_against fresh log anchor (anchor_verify anchor_calls log_id anchor)

  abbrev with_anchor :
      LogFile
      → Result AuditError AuditVerification × LogFile
      → Result AuditError AuditVerification × AuditFiles
  with_anchor log (r, anchor) = (r, record { log = log; anchor = anchor })

  -- `AuditLog.verify`
  pub audit_verify : Bool → Fresh → Method AuditFiles AuditError AuditVerification
  audit_verify false fresh files = (verify_log calls files.log, files)
  audit_verify true fresh files =
      with_anchor files.log (verify_anchored fresh files.log files.anchor)

  bootstrap_with :
      Fresh
      → AuditFiles
      → Result AuditError AuditVerification
      → Result AuditError AuditVerification × AuditFiles
  bootstrap_with fresh files (err e) = (err e, files)
  bootstrap_with fresh files (ok v) =
      let written =
        anchor_bootstrap anchor_calls log_id fresh.checkpoint_id fresh.checkpoint_time v.records
          v.last_hmac files.anchor in
      with_anchor files.log (counted v (anchored_result written.0, written.1))

  pub bootstrap_anchor : Bool → Fresh → Method AuditFiles AuditError AuditVerification
  bootstrap_anchor false fresh files = (err not_configured, files)
  bootstrap_anchor true fresh files = bootstrap_with fresh files (verify_log calls files.log)

  abbrev append_plain :
      Fresh
      → V
      → AuditFiles
      → Result AuditError AuditVerification
      → Result AuditError String × AuditFiles
  append_plain fresh event files (err e) = (err e, files)
  append_plain fresh event files (ok v) =
      (ok fresh.audit_id, record files { log = (append_verified calls fresh event v files.log).1 })

  abbrev answered :
      Fresh
      → LogFile
      → Result AnchorError AnchorVerification × LogFile
      → Result AuditError String × AuditFiles
  answered fresh log (ok a, anchor) = (ok fresh.audit_id, record { log = log; anchor = anchor })
  answered fresh log (err e, anchor) = (err (anchor_error e), record { log = log; anchor = anchor })

  pub append_anchored :
      Fresh
      → V
      → LogFile
      → Result AuditError AuditVerification × LogFile
      → Result AuditError String × AuditFiles
  append_anchored fresh event log (err e, anchor) = (err e, record { log = log; anchor = anchor })
  append_anchored fresh event log (ok v, anchor) =
      let (next, log') = append_verified calls fresh event v log in
      answered fresh log' (
        anchor_append anchor_calls log_id fresh.checkpoint_id fresh.checkpoint_time next.records
          next.last_hmac anchor)

  -- `AuditLog.append`
  pub audit_append : Bool → Fresh → V → Method AuditFiles AuditError String
  audit_append false fresh event files = append_plain fresh event files (verify_log calls files.log)
  audit_append true fresh event files =
      append_anchored fresh event files.log (verify_anchored fresh files.log files.anchor)
