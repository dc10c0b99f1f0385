-- ===== src/Anchor.antt =====
-- src/systeme_local_gateway/audit_anchor.py: the file of checkpoints that the audit log is held
-- against. A file is what is read from it; locks and file modes are left out.
pub mod Files
pub mod Grows
use systeme_local.Prelude.{
  ℕ, zero, suc, ◌+◌, ◌-◌, ◌*◌, ◌≤◌, ◌<◌, String, ◌≡◌, refl, sym, ap, ◌∙◌, ◌≢◌, ◌↔◌, ◌⊎◌, inl, inr,
  Bool, true, false, not, ◌&&◌, ◌||◌, Option, none, some, List, [], ◌∷◌, ◌++◌, map, arith, str_eq,
  eq_iff, eq_refl, ltb, leb, ◌==◌, if◌then◌else◌, leb→le, Bool-cases, Option-cases, is_some, Result,
  ok, err, ◌>>=◌, ◌>>◌, raise_if, Method, commit_or_rollback, Post, Post-ok, Post-err, Post-bind,
  Post-then, raise_if-ok, Post-commit, committed, length, any, find, keep, length-append,
  length-keep, All, All-append, any-append, All-keep, any-keep, keep-keep, find-all_false,
  find-true, All-find, Distinct, str_eq_comm, Distinct-keep, Distinct-append, has_key, dict_get,
  dict_set, dict_pop, has_key-dict_set, has_key-dict_pop, All-dict_set, All-dict_pop,
}
use systeme_local.Anchor.Files.{
  LogFile, missing, irregular, unterminated, lines, Loaded, not_json, not_object, object, with_line,
}

abbrev pub genesis_hmac : String
genesis_hmac = "0000000000000000000000000000000000000000000000000000000000000000"

pub data AnchorError : Type 0 where
  not_initialized integrity value_error : AnchorError

pub record AnchorVerification : Type 0 where
  pub checkpoints : ℕ
  pub records : ℕ
  pub last_hmac : String
  pub last_checkpoint_hmac : String

-- A checkpoint as it is parsed: `none` is a value that is not of the field's type.
pub record Checkpoint : Type 0 where
  pub version : Option ℕ
  pub checkpoint_id : Option String
  pub timestamp : Option String
  pub audit_log_id : Option String
  pub records : Option ℕ
  pub last_hmac : Option String
  pub previous_checkpoint_hmac : Option String
  pub checkpoint_hmac : Option String

-- What the module calls: `json`, `hmac` with the anchor's key, `uuid.UUID`,
-- `datetime.fromisoformat` and `bytes.fromhex`. `has_expected_keys` compares the keys of a parsed
-- object.
pub record AnchorCalls : Type 0 where
  pub loads : String → Loaded (Bool × Checkpoint)
  pub dumps : Checkpoint → String
  pub keyed_digest : Checkpoint → String
  pub is_uuid : String → Bool
  pub is_aware_timestamp : String → Bool
  pub text_length : String → ℕ
  pub is_hex : String → Bool

abbrev pub text_or_raise {ℓ} : {E : Type ℓ} → E → Option String → Result E String
text_or_raise e none = err e
text_or_raise e (some s) = ok s

abbrev pub is_number : ℕ → Option ℕ → Bool
is_number n none = false
is_number n (some m) = m == n

abbrev pub is_text : String → Option String → Bool
is_text s none = false
is_text s (some t) = str_eq t s

abbrev pub mem : String → List String → Bool
mem s ids = any (str_eq s) ids

-- The state of the loop over the lines. `next_records` is one more than `previous_records`, which
-- starts at -1.
pub record AnchorScan : Type 0 where
  pub previous_checkpoint_hmac : String
  pub next_records : ℕ
  pub checkpoints : ℕ
  pub checkpoint_ids : List String
  pub last_hmac : String

abbrev pub new_scan : AnchorScan
new_scan = record {
  previous_checkpoint_hmac = genesis_hmac;
  next_records = 0;
  checkpoints = 0;
  checkpoint_ids = [];
  last_hmac = genesis_hmac;
}

-- a checkpoint without its HMAC
abbrev pub unsigned : Checkpoint → Checkpoint
unsigned c = record c { checkpoint_hmac = none }

abbrev required_count : Option ℕ → Result AnchorError ℕ
required_count none = err integrity
required_count (some n) = ok n

abbrev as_checkpoint : Loaded (Bool × Checkpoint) → Result AnchorError Checkpoint
as_checkpoint not_json = err integrity
as_checkpoint not_object = err integrity
as_checkpoint (object (false, c)) = err integrity
as_checkpoint (object (true, c)) = ok c

module _ (calls : AnchorCalls) (log_id : String) where
  abbrev pub validate_hex_digest : Option String → Result AnchorError String
  validate_hex_digest none = err integrity
  validate_hex_digest (some s) =
      if calls.text_length s == 64 && calls.is_hex s then ok s else err integrity

  unfoldable pub decode_checkpoint : String → Result AnchorError Checkpoint
  decode_checkpoint line = do
    raise_if (str_eq line "") integrity
    c ← as_checkpoint (calls.loads line)
    raise_if (not (is_number 1 c.version)) integrity
    ok c

  unfoldable pub validate_checkpoint_identity : Checkpoint → List String → Result AnchorError String
  validate_checkpoint_identity c ids = do
    id ← text_or_raise integrity c.checkpoint_id
    raise_if (not (calls.is_uuid id)) integrity
    raise_if (mem id ids) integrity
    time ← text_or_raise integrity c.timestamp
    raise_if (not (calls.is_aware_timestamp time)) integrity
    raise_if (not (is_text log_id c.audit_log_id)) integrity
    ok id

  -- the body of the loop of `_verify_unlocked`, after the line is decoded
  unfoldable pub check_checkpoint : Checkpoint → AnchorScan → Result AnchorError AnchorScan
  check_checkpoint c scan = do
    id ← validate_checkpoint_identity c scan.checkpoint_ids
    records ← required_count c.records
    raise_if (ltb records scan.next_records) integrity
    last_hmac ← validate_hex_digest c.last_hmac
    raise_if (records == 0 && not (str_eq last_hmac genesis_hmac)) integrity
    raise_if (not (is_text scan.previous_checkpoint_hmac c.previous_checkpoint_hmac)) integrity
    checkpoint_hmac ← validate_hex_digest c.checkpoint_hmac
    raise_if (not (str_eq checkpoint_hmac (calls.keyed_digest (unsigned c)))) integrity
    ok (record {
      previous_checkpoint_hmac = checkpoint_hmac;
      next_records = records + 1;
      checkpoints = scan.checkpoints + 1;
      checkpoint_ids = id ∷ scan.checkpoint_ids;
      last_hmac = last_hmac;
    })

  unfoldable pub check_line : String → AnchorScan → Result AnchorError AnchorScan
  check_line line scan = do c ← decode_checkpoint line; check_checkpoint c scan

  unfoldable pub check_lines : List String → AnchorScan → Result AnchorError AnchorScan
  check_lines [] scan = ok scan
  check_lines (line ∷ rest) scan = check_line line scan >>= check_lines rest

  abbrev pub verification_of : AnchorScan → AnchorVerification
  verification_of scan = record {
    checkpoints = scan.checkpoints;
    records = scan.next_records - 1;
    last_hmac = scan.last_hmac;
    last_checkpoint_hmac = scan.previous_checkpoint_hmac;
  }

  unfoldable pub anchor_verify : LogFile → Result AnchorError AnchorVerification
  anchor_verify missing = err not_initialized
  anchor_verify irregular = err integrity
  anchor_verify (unterminated full rest) = err integrity
  anchor_verify (lines []) = err not_initialized
  anchor_verify (lines (line ∷ rest)) = do
    scan ← check_lines (line ∷ rest) new_scan
    ok (verification_of scan)

  unfoldable pub validate_state : ℕ → String → Result AnchorError (Unit {0})
  validate_state records last_hmac = do
    valid ← validate_hex_digest (some last_hmac)
    raise_if (records == 0 && not (str_eq last_hmac genesis_hmac)) value_error

  -- `_append_checkpoint_unlocked`: the checkpoint, and the file with its line
  abbrev pub new_checkpoint : String → String → ℕ → String → String → Checkpoint
  new_checkpoint id time records last_hmac previous =
      let c : Checkpoint = record {
        version = some 1;
        checkpoint_id = some id;
        timestamp = some time;
        audit_log_id = some log_id;
        records = some records;
        last_hmac = some last_hmac;
        previous_checkpoint_hmac = some previous;
        checkpoint_hmac = none;
      } in
      record c { checkpoint_hmac = some (calls.keyed_digest c) }

  abbrev pub append_checkpoint : String → String → ℕ → String → String → LogFile → LogFile
  append_checkpoint id time records last_hmac previous file =
      with_line (calls.dumps (new_checkpoint id time records last_hmac previous)) file

  -- the tests of `AuditAnchorTransaction.bootstrap` on the file
  abbrev is_unused : LogFile → Result AnchorError (Unit {0})
  is_unused missing = ok tt
  is_unused (lines []) = ok tt
  is_unused _ = err integrity

  bootstrap_tests : ℕ → String → LogFile → Result AnchorError (Unit {0})
  bootstrap_tests records last_hmac file = do validate_state records last_hmac; is_unused file

  -- what is written, and then verified again
  unfoldable pub write_if {ℓ} :
      {A : Type ℓ}
      → Result AnchorError A
      → (A → LogFile)
      → Method LogFile AnchorError AnchorVerification
  write_if (err e) written file = (err e, file)
  write_if (ok a) written file = (anchor_verify (written a), written a)

  pub anchor_bootstrap :
      String → String → ℕ → String → Method LogFile AnchorError AnchorVerification
  anchor_bootstrap id time records last_hmac file =
      write_if (bootstrap_tests records last_hmac file)
        (λ tests. append_checkpoint id time records last_hmac genesis_hmac file) file

  unfoldable pub append_tests : ℕ → String → LogFile → Result AnchorError AnchorVerification
  append_tests records last_hmac file = do
    validate_state records last_hmac
    verification ← anchor_verify file
    raise_if (leb records verification.records) integrity
    ok verification

  unfoldable pub anchor_append :
      String → String → ℕ → String → Method LogFile AnchorError AnchorVerification
  anchor_append id time records last_hmac file =
      write_if (append_tests records last_hmac file)
        (λ v. append_checkpoint id time records last_hmac v.last_checkpoint_hmac file) file
