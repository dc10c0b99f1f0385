-- ===== src/Processor/Examples.antt =====
-- The processor over toy services, whose world counts executions and audit records.
use systeme_local.Models.{TaskEnvelope, completed}
use systeme_local.Prelude.{
  ℕ, ◌+◌, ◌≡◌, refl, Bool, true, false, none, some, [], ◌∷◌, arith, if◌then◌else◌, ok, err,
}
use systeme_local.Policy.{require_approval, evaluate}
use systeme_local.Approvals.Row.{ApprovalRecord, approved}
use systeme_local.Processor.Protocols.{
  Services, approval_refused, executed, ◌>>=◌ as then_do, ◌>>◌ as then_run,
}
use systeme_local.Processor.{
  append, go_on, handle_verified, verify, handle_consumed, handle_approval, after_approval, execute,
  execution_result, report, decided, process,
}
use systeme_local.Processor.Gate.{Quiet, process_gate}
use systeme_local.Processor.Audited.{Answered, process_audited}

record World : Type 0 where
  executions : ℕ
  records : ℕ
  spent : Bool

abbrev start : World
start = record { executions = 0; records = 0; spent = false }

abbrev approval : ApprovalRecord
approval = record {
  approval_id = "apr_0000000000001";
  request_fingerprint = "f";
  task_id = "task-0001";
  capability = "git.diff";
  provider = "p";
  model = none;
  state = approved;
  created_at = 0;
  expires_at = 900;
  decided_at = some 1;
  consumed_at = some 2;
}

abbrev services : Services (Unit {0}) (Unit {0}) World
services = record {
  policy = record {
    capabilities = ("git.diff", record { decision = require_approval; allowed_commands = [] }) ∷ [];
  };
  verify_task = λ task w. (ok tt, w);
  create_approval = λ task w. (ok approval, w);
  consume_approval = λ id task w.
      if w.spent
      then (err (approval_refused "approval was already used"), w)
      else (ok approval, record w { spent = true });
  execute_capability =
      λ name arguments config w. (ok tt, record w { executions = w.executions + 1 });
  audit_append = λ event w. (ok "audit", record w { records = w.records + 1 });
}

abbrev task : TaskEnvelope (Unit {0})
task = record {
  task_id = "task-0001";
  issued_at = record { instant = 100; utc_offset = 86_400 };
  expires_at = record { instant = 200; utc_offset = 86_400 };
  agent = record { provider = "p"; model = none; session_id = "s" };
  capability = "git.diff";
  arguments = tt;
  approval_id = some "apr_0000000000001";
  nonce = "nonce-0000000001";
  signature = "s";
}

runs_once : process services task start ≡ (
  ok (record {
    task_id = "task-0001";
    status = completed;
    output = executed tt;
    error = none;
    audit_id = "audit";
  }),
  record { executions = 1; records = 2; spent = true },
)
unfolding process verify handle_verified decided handle_approval handle_consumed go_on
    after_approval execute report append execution_result then_do then_run evaluate
runs_once = refl

abbrev after_use : World
after_use = record { executions = 1; records = 2; spent = true }

never_ran : Quiet services (λ w. w.executions ≡ 1)
never_ran = record {
  verify_keeps = λ t w h. h;
  create_keeps = λ t w h. h;
  consume_keeps = λ id t w h. ground arith;
  append_keeps = λ e w h. h;
}

process_gate_example : (process services task after_use).1.executions ≡ 1
unfolding evaluate
process_gate_example =
    process_gate services (λ w. w.executions ≡ 1) never_ran task after_use refl refl

process_audited_example :
    Answered services task (process services task start).0 (process services task start).1
process_audited_example = process_audited services task start
