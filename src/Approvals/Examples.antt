-- ===== src/Approvals/Examples.antt =====
-- The approval store at concrete inputs, with toy digests.
use systeme_local.Prelude.{◌≡◌, refl, true, none, some, List, [], ◌∷◌, arith, ok, err}
use systeme_local.Models.{TaskEnvelope}
use systeme_local.Approvals.Row.{
  approved, StoredApproval, record_from_stored, approval_request_payload, approval_expired,
}
use systeme_local.Approvals.Calls.{
  Call, create_call, approve_call, deny_call, consume_call, list_call, run, count_uses,
}
use systeme_local.Approvals.{
  ApprovalStore, ApprovalDatabase, request_hmac, verify_stored, load, check_found, check_alive,
  check_request, consume_state, consume_transaction, consume, replace_state, seal_row,
}
use systeme_local.Approvals.Sound.{run-IsSound}
use systeme_local.Approvals.Sound.Rows.{IsSound}
use systeme_local.Approvals.Exact.{
  IsUsable, IsReplaced, consumed_record, consumed_row, consume_sound, consume_complete,
}
use systeme_local.Approvals.SingleUse.{used_once}

abbrev store : ApprovalStore (Unit {0})
store = record {
  request_digest = λ p. p.capability;
  row_digest = λ f. f.approval_id;
  max_entries = 3;
  ttl_seconds = 900;
}

abbrev task : TaskEnvelope (Unit {0})
task = record {
  task_id = "task-0001";
  issued_at = record { instant = 100; utc_offset = 86_400 };
  expires_at = record { instant = 200; utc_offset = 86_400 };
  agent = record { provider = "p"; model = none; session_id = "s" };
  capability = "git.diff";
  arguments = tt;
  approval_id = some "apr_x";
  nonce = "nonce-0000000001";
  signature = "s";
}

abbrev row : StoredApproval
row = record {
  fields = record {
    approval_id = "apr_x";
    request_hmac = "git.diff";
    task_id = "task-0001";
    capability = "git.diff";
    provider = "p";
    model = none;
    state = approved;
    created_at_us = 10;
    expires_at_us = 1000;
    decided_at_us = some 20;
    consumed_at_us = none;
  };
  row_hmac = "apr_x";
}

abbrev db : ApprovalDatabase
db = record {
  quick_check_ok = true;
  columns_ok = true;
  schema_version = some "1";
  approvals = row ∷ [];
}

abbrev calls : List (Call (Unit {0}))
calls =
    consume_call 60 "apr_x" task
    ∷ create_call 61 "y" task
    ∷ deny_call 62 "apr_x"
    ∷ approve_call 63 "apr_x" task
    ∷ list_call 64
    ∷ consume_call 65 "apr_x" task
    ∷ []

late : (consume store 1000 "apr_x" task db).0 ≡ err approval_expired
unfolding consume consume_transaction load check_found verify_stored check_alive check_request
    consume_state
late = refl

used_ok : (consume store 50 "apr_x" task db).0 ≡ ok (consumed_record store 50 "apr_x" task db row)
unfolding consume consume_transaction load check_found verify_stored check_alive check_request
    consume_state request_hmac approval_request_payload replace_state seal_row record_from_stored
used_ok = refl

row-IsUsable : IsUsable store 50 "apr_x" task db row
row-IsUsable = record {
  found = refl;
  lasting = omega arith;
  sealed = refl;
  alive = omega arith;
  same_request = refl;
  is_approved = refl;
}

db-IsSound : IsSound store db
db-IsSound = record {
  fits = omega arith;
  one_each = (refl, tt);
  genuine = (record { lasting = omega arith; sealed = refl; stamps = tt }, tt);
}

run-IsSound_example : IsSound store (run store calls db)
run-IsSound_example = run-IsSound store calls db (omega arith) db-IsSound

consume_sound_example :
    (stored : StoredApproval) × IsUsable store 50 "apr_x" task db stored
    × (consumed_record store 50 "apr_x" task db row
        ≡ consumed_record store 50 "apr_x" task db stored)
    × IsReplaced "apr_x"
        (consumed_row store 50 "apr_x" task db stored)
        db
        (consume store 50 "apr_x" task db).1
consume_sound_example = consume_sound store 50 "apr_x" task db used_ok

consume_complete_example :
    ((consume store 50 "apr_x" task db).0 ≡ ok (consumed_record store 50 "apr_x" task db row))
    × IsReplaced "apr_x"
        (consumed_row store 50 "apr_x" task db row)
        db
        (consume store 50 "apr_x" task db).1
consume_complete_example = consume_complete store 50 "apr_x" task db row row-IsUsable

used_once_example : count_uses store "apr_x" calls (consume store 50 "apr_x" task db).1 ≡ 0
used_once_example = used_once store "apr_x" 50 task db calls used_ok refl
