-- ===== src/Audit/Examples.antt =====
-- A log of two records, and an anchor that has the first: runs, and the theorems at them.
use systeme_local.Prelude.{
  ℕ, ◌+◌, String, ◌≡◌, refl, sym, ap, ◌∙◌, true, Option, none, some, [], ◌∷◌, map, str_eq,
  if◌then◌else◌, Result, ok, err,
}
use mathlib.Core.Path.{subst}
use systeme_local.Anchor.Files.{LogFile, lines, Loaded, not_json, object}
use systeme_local.Anchor.{
  AnchorError, AnchorCalls, Checkpoint, anchor_verify, anchor_append, genesis_hmac,
}
use systeme_local.Anchor.Grows.{ReadsBack, IsAppended, append-IsAppended}
use systeme_local.Audit.{
  AuditError, audit_integrity, AuditVerification, AuditRecord, AuditCalls, AuditScan, AuditFiles,
  Fresh, unsigned_record, check_record, scan_line, scan_lines, verified_scan, scan_log, verify_log,
  new_record, append_verified, check_against, scan_against, catch_up, caught_up, verify_against,
  verify_anchored, append_anchored, audit_append,
}
use systeme_local.Anchor.{
  check_lines, check_line, decode_checkpoint, check_checkpoint, validate_checkpoint_identity,
  new_checkpoint, write_if, append_tests, validate_state,
}
use systeme_local.Audit.Tamper.{NoCollision, same_hmac_same_log}
use systeme_local.Audit.Recorded.{NextReadsBack, IsRecorded, append-IsRecorded}
use systeme_local.Audit.Appends.{append-verifies, IsHeld, verify_anchored-IsHeld}

abbrev entry : String → String → String → String → AuditRecord String
entry id time previous event = record {
  version = some 2;
  audit_id = some id;
  timestamp = some time;
  previous_hmac = some previous;
  entry_hmac = some event;
  event = event;
}

-- The HMAC and the line of a record are its event here.
abbrev calls : AuditCalls String
calls = record {
  loads = λ line.
      if str_eq line "e1"
      then object (entry "a1" "t1" genesis_hmac "e1")
      else if str_eq line "e2"
      then object (entry "a2" "t2" "e1" "e2")
      else not_json;
  dumps = λ r. r.event;
  entry_digest = λ r. r.event;
}

abbrev text_of : Option String → String
text_of none = ""
text_of (some s) = s

abbrev checkpoint : String → ℕ → String → String → Checkpoint
checkpoint id n previous last = record {
  version = some 1;
  checkpoint_id = some id;
  timestamp = some "t";
  audit_log_id = some "log";
  records = some n;
  last_hmac = some last;
  previous_checkpoint_hmac = some previous;
  checkpoint_hmac = some last;
}

abbrev anchor_calls : AnchorCalls
anchor_calls = record {
  loads = λ line.
      if str_eq line "e1"
      then object (true, checkpoint "c1" 1 genesis_hmac "e1")
      else if str_eq line "e2"
      then object (true, checkpoint "c2" 2 "e1" "e2")
      else not_json;
  dumps = λ c. text_of c.last_hmac;
  keyed_digest = λ c. text_of c.last_hmac;
  is_uuid = λ s. true;
  is_aware_timestamp = λ s. true;
  text_length = λ s. 64;
  is_hex = λ s. true;
}

abbrev fresh : Fresh
fresh = record {
  audit_id = "a2";
  timestamp = "t2";
  missed_id = "c2";
  missed_time = "t";
  checkpoint_id = "c3";
  checkpoint_time = "t";
}

abbrev one_scanned : AuditScan
one_scanned = record {
  previous_hmac = "e1";
  records = 1;
  audit_ids = "a1" ∷ [];
  checkpoint_hmac = none;
}

abbrev one : LogFile
one = lines ("e1" ∷ [])

abbrev two : LogFile
two = lines ("e1" ∷ "e2" ∷ [])

broken_chain : verify_log calls (lines ("e2" ∷ [])) ≡ err audit_integrity
unfolding verify_log scan_log scan_lines scan_line check_record
broken_chain = refl

append-verifies_example :
    verify_log calls (append_verified calls fresh "e2" (verified_scan calls one_scanned) one).1
    ≡ ok (append_verified calls fresh "e2" (verified_scan calls one_scanned) one).0
unfolding verify_log scan_log scan_lines scan_line check_record new_record append_verified
append-verifies_example = append-verifies calls fresh "e2" one one_scanned refl refl refl refl

object-same :
    (a b : AuditRecord String) → ◌≡◌ {A = Loaded (AuditRecord String)} (object a) (object b) → a ≡ b
object-same a b h = cc

same_hmac_same_log_example : map calls.loads ("e1" ∷ "e2" ∷ []) ≡ map calls.loads ("e1" ∷ "e2" ∷ [])
unfolding verify_log scan_log scan_lines scan_line check_record NoCollision
same_hmac_same_log_example =
    same_hmac_same_log calls ("e1" ∷ "e2" ∷ []) ("e1" ∷ "e2" ∷ [])
      (record { records = 2; last_hmac = "e2"; anchor_checkpoints = none })
      (record { records = 2; last_hmac = "e2"; anchor_checkpoints = none })
      (
        (λ a b x y q. ap (unsigned_record calls) (object-same a b (sym x ∙ y))),
        ((λ a b x y q. ap (unsigned_record calls) (object-same a b (sym x ∙ y))), tt),
      )
      refl refl refl refl

-- the second record was written without its checkpoint
late :
    (verify_anchored calls anchor_calls "log" fresh two one).0
    ≡ ok (record { records = 2; last_hmac = "e2"; anchor_checkpoints = some 2 })
unfolding verify_anchored verify_against caught_up catch_up scan_against check_against scan_log
    scan_lines scan_line check_record anchor_verify check_lines check_line decode_checkpoint
    check_checkpoint validate_checkpoint_identity anchor_append write_if append_tests validate_state
late = refl

rolled_back : (verify_anchored calls anchor_calls "log" fresh one two).0 ≡ err audit_integrity
unfolding verify_anchored verify_against caught_up catch_up scan_against check_against scan_log
    scan_lines scan_line check_record anchor_verify check_lines check_line decode_checkpoint
    check_checkpoint validate_checkpoint_identity anchor_append write_if append_tests validate_state
rolled_back = refl

read_one :
    anchor_verify anchor_calls "log" one
    ≡ ok (record { checkpoints = 1; records = 1; last_hmac = "e1"; last_checkpoint_hmac = "e1" })
unfolding anchor_verify check_lines check_line decode_checkpoint check_checkpoint
    validate_checkpoint_identity
read_one = refl

ok-same : {A : Type 0} (a b : A) → ◌≡◌ {A = Result AnchorError A} (ok a) (ok b) → a ≡ b
ok-same a b h = cc

reads_back : ReadsBack anchor_calls "log" "c2" "t" 2 "e2" one
unfolding ReadsBack
reads_back b h =
    subst
      (λ v.
        anchor_calls.loads (
          anchor_calls.dumps
            (new_checkpoint anchor_calls "log" "c2" "t" 2 "e2" v.last_checkpoint_hmac))
        ≡ object (true, new_checkpoint anchor_calls "log" "c2" "t" 2 "e2" v.last_checkpoint_hmac))
      (ok-same
        (record { checkpoints = 1; records = 1; last_hmac = "e1"; last_checkpoint_hmac = "e1" }) b
        (sym read_one ∙ h))
      refl

verify_anchored-IsHeld_example :
    IsHeld calls anchor_calls "log" two one
      (verify_anchored calls anchor_calls "log" fresh two one).1
      (record { records = 2; last_hmac = "e2"; anchor_checkpoints = some 2 })
verify_anchored-IsHeld_example =
    verify_anchored-IsHeld calls anchor_calls "log" fresh two one
      (record { records = 2; last_hmac = "e2"; anchor_checkpoints = some 2 }) reads_back late

appended :
    (anchor_append anchor_calls "log" "c2" "t" 2 "e2" one).0
    ≡ ok (record { checkpoints = 2; records = 2; last_hmac = "e2"; last_checkpoint_hmac = "e2" })
unfolding anchor_verify check_lines check_line decode_checkpoint check_checkpoint
    validate_checkpoint_identity anchor_append write_if append_tests validate_state
appended = refl

append-IsAppended_example :
    IsAppended anchor_calls "log" 2 "e2" one
      (anchor_append anchor_calls "log" "c2" "t" 2 "e2" one).1
      (record { checkpoints = 2; records = 2; last_hmac = "e2"; last_checkpoint_hmac = "e2" })
append-IsAppended_example =
    append-IsAppended anchor_calls "log" "c2" "t" 2 "e2" one _ reads_back appended

abbrev level : AuditFiles
level = record { log = one; anchor = one }

abbrev next : Fresh
next = record {
  audit_id = "a2";
  timestamp = "t2";
  missed_id = "c1";
  missed_time = "t";
  checkpoint_id = "c2";
  checkpoint_time = "t";
}

abbrev first_verified : AuditVerification
first_verified = record { records = 1; last_hmac = "e1"; anchor_checkpoints = some 1 }

found_one : (verify_anchored calls anchor_calls "log" next one one).0 ≡ ok first_verified
unfolding verify_anchored verify_against caught_up catch_up scan_against check_against scan_log
    scan_lines scan_line check_record anchor_verify check_lines check_line decode_checkpoint
    check_checkpoint validate_checkpoint_identity
found_one = refl

kept_one : (verify_anchored calls anchor_calls "log" next one one).1 ≡ one
unfolding verify_anchored verify_against caught_up catch_up scan_against check_against scan_log
    scan_lines scan_line check_record anchor_verify check_lines check_line decode_checkpoint
    check_checkpoint validate_checkpoint_identity
kept_one = refl

verified-same :
    (v w : AuditVerification) → ◌≡◌ {A = Result AuditError AuditVerification} (ok v) (ok w) → v ≡ w
verified-same v w h = cc

next_reads :
    NextReadsBack calls anchor_calls "log" next "e2" one
      (verify_anchored calls anchor_calls "log" next one one)
unfolding NextReadsBack append_verified new_record
next_reads v h =
    let here : ReadsBack anchor_calls "log" "c2" "t" (first_verified.records + 1) "e2"
        (verify_anchored calls anchor_calls "log" next one one).1 =
      subst (ReadsBack anchor_calls "log" "c2" "t" 2 "e2") (sym kept_one) reads_back in
    subst
      (λ (x : AuditVerification).
        ReadsBack anchor_calls "log" "c2" "t" (x.records + 1) "e2"
          (verify_anchored calls anchor_calls "log" next one one).1)
      (verified-same first_verified v (sym found_one ∙ h)) here

recorded : (audit_append calls anchor_calls "log" true next "e2" level).0 ≡ ok "a2"
unfolding verify_anchored verify_against caught_up catch_up scan_against check_against scan_log
    scan_lines scan_line check_record anchor_verify check_lines check_line decode_checkpoint
    check_checkpoint validate_checkpoint_identity audit_append append_anchored append_verified
    new_record anchor_append write_if append_tests validate_state
recorded = refl

append-IsRecorded_example :
    IsRecorded calls anchor_calls "log" next "e2" one
      (verify_anchored calls anchor_calls "log" next one one).0
      (audit_append calls anchor_calls "log" true next "e2" level).1
    × (next.audit_id ≡ next.audit_id)
append-IsRecorded_example =
    append-IsRecorded calls anchor_calls "log" next "e2" level next.audit_id next_reads recorded
