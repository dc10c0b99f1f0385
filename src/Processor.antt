-- ===== src/Processor.antt =====
-- src/systeme_local_gateway/task_processor.py: `TaskProcessor.process` over the services that its
-- protocols name. `W` is the state of the world, `A` and `O` are the arguments' and outputs' JSON.
pub mod Protocols
pub mod Gate
pub mod Audited
mod Examples
use systeme_local.Prelude.{
  ℕ, zero, suc, ◌+◌, ◌-◌, ◌*◌, ◌≤◌, ◌<◌, String, ◌≡◌, refl, sym, ap, ◌∙◌, ◌≢◌, ◌↔◌, ◌⊎◌, inl, inr,
  Bool, true, false, not, ◌&&◌, ◌||◌, Option, none, some, List, [], ◌∷◌, ◌++◌, map, arith, str_eq,
  eq_iff, eq_refl, ltb, leb, ◌==◌, if◌then◌else◌, leb→le, Bool-cases, Option-cases, is_some, Result,
  ok, err, Method, commit_or_rollback, Post, Post-ok, Post-err, Post-bind, Post-then, raise_if-ok,
  Post-commit, committed, length, any, find, keep, length-append, length-keep, All, All-append,
  any-append, All-keep, any-keep, keep-keep, find-all_false, find-true, All-find, Distinct,
  str_eq_comm, Distinct-keep, Distinct-append,
}
use systeme_local.Models.{
  AgentIdentity, TaskEnvelope, TaskResult, completed, denied, approval_required, failed,
}
use systeme_local.Policy.{
  Decision, allow, deny, require_approval, CapabilityConfig, PolicyDecision, evaluate,
}
use systeme_local.Approvals.Row.{ApprovalRecord}
use systeme_local.Processor.Protocols.{
  Services, VerifierException, replay_unavailable, value_error, other_exception, StoreException,
  still_pending, approval_refused, store_unavailable, other_store_exception, AuditEvent,
  rejected_event, consumed_event, executed_event, required_event, denied_event, unavailable_event,
  Output, empty, executed, approval_created, approval_waiting, Outcome, returned, raised,
  ProcessError, authentication_error, service_unavailable, uncaught_verifier, uncaught_store,
  uncaught_audit, pure, raise, ◌>>=◌, ◌>>◌,
}

-- what the executor raises is caught, whatever it is
abbrev outcome_of : {O W : Type 0} → Result String O × W → Outcome O × W
outcome_of (ok output, w) = (returned output, w)
outcome_of (err message, w) = (raised message, w)

-- an exception of the audit log is not caught
abbrev audit_result : {W : Type 0} → Result (Unit {0}) String × W → Result ProcessError String × W
audit_result (ok audit_id, w) = (ok audit_id, w)
audit_result (err _, w) = (err uncaught_audit, w)

module _ {A O W : Type 0} (s : Services A O W) where
  append : AuditEvent A O → Method W ProcessError String
  append event w = audit_result (s.audit_append event w)

  raise_unavailable : {B : Type 0} → TaskEnvelope A → String → Method W ProcessError B
  raise_unavailable task detail = do
    audit_id ← append (unavailable_event task.task_id task.capability detail)
    raise (service_unavailable detail audit_id)

  denied_result : TaskEnvelope A → String → Method W ProcessError (TaskResult (Output O))
  denied_result task reason = do
    audit_id ← append (denied_event task.task_id task.capability reason task.approval_id)
    pure (record {
      task_id = task.task_id;
      status = denied;
      output = empty;
      error = some reason;
      audit_id = audit_id;
    })

  -- `_approval_required` with the record of a new approval
  created_result : TaskEnvelope A → ApprovalRecord → Method W ProcessError (TaskResult (Output O))
  created_result task approval = do
    audit_id ← append (
        required_event task.task_id task.capability task.arguments (some approval.approval_id) none)
    pure (record {
      task_id = task.task_id;
      status = approval_required;
      output = approval_created approval;
      error = none;
      audit_id = audit_id;
    })

  -- `_approval_required` with a reason and no record
  waiting_result : TaskEnvelope A → String → Method W ProcessError (TaskResult (Output O))
  waiting_result task reason = do
    audit_id ←
        append (
          required_event task.task_id task.capability task.arguments task.approval_id (some reason))
    pure (record {
      task_id = task.task_id;
      status = approval_required;
      output = approval_waiting task.approval_id;
      error = none;
      audit_id = audit_id;
    })

  reject : TaskEnvelope A → String → Method W ProcessError (Unit {0})
  reject task reason = do
    audit_id ← append (rejected_event task.task_id task.capability reason)
    raise (authentication_error reason audit_id)

  stop_with :
      Method W ProcessError (TaskResult (Output O))
      → Method W ProcessError (Option (TaskResult (Output O)))
  stop_with method = do result ← method; pure (some result)

  go_on : TaskEnvelope A → ApprovalRecord → Method W ProcessError (Option (TaskResult (Output O)))
  go_on task approval = do
    audit_id ← append (consumed_event task.task_id task.capability approval.approval_id)
    pure none

  handle_verified :
      TaskEnvelope A → Result VerifierException (Unit {0}) × W → Result ProcessError (Unit {0}) × W
  handle_verified task (ok _, w) = (ok tt, w)
  handle_verified task (err replay_unavailable, w) =
      raise_unavailable task "replay protection unavailable" w
  handle_verified task (err (value_error reason), w) = reject task reason w
  handle_verified task (err other_exception, w) = (err uncaught_verifier, w)

  verify : TaskEnvelope A → Method W ProcessError (Unit {0})
  verify task w = handle_verified task (s.verify_task task w)

  handle_created :
      TaskEnvelope A
      → Result StoreException ApprovalRecord × W
      → Result ProcessError (Option (TaskResult (Output O))) × W
  handle_created task (ok approval, w) = stop_with (created_result task approval) w
  handle_created task (err store_unavailable, w) =
      raise_unavailable task "approval service unavailable" w
  handle_created task (err _, w) = (err uncaught_store, w)

  handle_consumed :
      TaskEnvelope A
      → Result StoreException ApprovalRecord × W
      → Result ProcessError (Option (TaskResult (Output O))) × W
  handle_consumed task (ok approval, w) = go_on task approval w
  handle_consumed task (err still_pending, w) =
      stop_with (waiting_result task "approval is still pending") w
  handle_consumed task (err (approval_refused reason), w) = stop_with (denied_result task reason) w
  handle_consumed task (err store_unavailable, w) =
      raise_unavailable task "approval service unavailable" w
  handle_consumed task (err other_store_exception, w) = (err uncaught_store, w)

  -- `none` where the approval was consumed and the task may run
  handle_approval :
      TaskEnvelope A → Option String → Method W ProcessError (Option (TaskResult (Output O)))
  handle_approval task none w = handle_created task (s.create_approval task w)
  handle_approval task (some approval_id) w =
      handle_consumed task (s.consume_approval approval_id task w)

  execution_result : TaskEnvelope A → Outcome O → String → TaskResult (Output O)
  execution_result task (returned output) audit_id = record {
    task_id = task.task_id;
    status = completed;
    output = executed output;
    error = none;
    audit_id = audit_id;
  }
  execution_result task (raised message) audit_id = record {
    task_id = task.task_id;
    status = failed;
    output = empty;
    error = some "task execution failed";
    audit_id = audit_id;
  }

  report : TaskEnvelope A → Outcome O → Method W ProcessError (TaskResult (Output O))
  report task outcome = do
    audit_id ← append (
        executed_event task.task_id task.agent task.capability outcome task.arguments
          task.approval_id)
    pure (execution_result task outcome audit_id)

  execute : TaskEnvelope A → Option CapabilityConfig → Method W ProcessError (TaskResult (Output O))
  execute task config w =
      let (outcome, w') =
        outcome_of (s.execute_capability task.capability task.arguments config w) in
      report task outcome w'

  after_approval :
      TaskEnvelope A
      → Option CapabilityConfig
      → Option (TaskResult (Output O))
      → Method W ProcessError (TaskResult (Output O))
  after_approval task config none = execute task config
  after_approval task config (some result) = pure result

  -- an approval identifier for a capability that is simply allowed is refused
  run_allowed :
      TaskEnvelope A
      → Option CapabilityConfig
      → Option String
      → Method W ProcessError (TaskResult (Output O))
  run_allowed task config none = execute task config
  run_allowed task config (some _) =
      denied_result task "approval ID is not valid for this capability"

  decided :
      TaskEnvelope A → PolicyDecision → Decision → Method W ProcessError (TaskResult (Output O))
  decided task d deny = denied_result task d.reason
  decided task d require_approval = do
    result ← handle_approval task task.approval_id
    after_approval task d.config result
  decided task d allow = run_allowed task d.config task.approval_id

  pub process : TaskEnvelope A → Method W ProcessError (TaskResult (Output O))
  process task = do
    verify task
    let d = evaluate s.policy task.capability
    decided task d d.decision
