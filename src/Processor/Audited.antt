-- ===== src/Processor/Audited.antt =====
-- What `process` answers has been audited.
use systeme_local.Models.{TaskEnvelope, TaskResult}
use mathlib.Core.Path.{subst}
use systeme_local.Prelude.{String, ◌≡◌, refl, sym, Option, none, some, Result, ok, err, Method}
use systeme_local.Policy.{
  Decision, allow, deny, require_approval, CapabilityConfig, PolicyDecision, evaluate,
}
use systeme_local.Approvals.Row.{ApprovalRecord}
use systeme_local.Processor.Protocols.{
  Services, VerifierException, replay_unavailable, value_error, other_exception, StoreException,
  still_pending, approval_refused, store_unavailable, other_store_exception, AuditEvent, Output,
  Outcome, returned, raised, ProcessError, authentication_error, service_unavailable,
  uncaught_verifier, uncaught_store, uncaught_audit, continue,
}
use systeme_local.Processor.Protocols.{◌>>=◌ as then_do, ◌>>◌ as then_run}
use systeme_local.Processor.{
  audit_result, outcome_of, append, raise_unavailable, denied_result, created_result,
  waiting_result, reject, stop_with, go_on, handle_verified, verify, handle_created,
  handle_consumed, handle_approval, after_approval, execute, execution_result, report, run_allowed,
  decided, process,
}

module _ {A O W : Type 0} (s : Services A O W) (task : TaskEnvelope A) where
  -- The world is what the audit log left when it gave out the identifier, as the last thing done.
  abbrev pub Recorded : String → W → Type 0
  Recorded audit_id w =
      (event : AuditEvent A O) × (before : W) × (s.audit_append event before ≡ (ok audit_id, w))

  -- what an exception owes: the identifier that it carries is the one of the last record
  abbrev pub Owed : ProcessError → W → Type 0
  Owed (authentication_error detail audit_id) w = Recorded audit_id w
  Owed (service_unavailable detail audit_id) w = Recorded audit_id w
  Owed uncaught_verifier w = Unit
  Owed uncaught_store w = Unit
  Owed uncaught_audit w = Unit

  abbrev pub Answered : Result ProcessError (TaskResult (Output O)) → W → Type 0
  Answered (ok result) w = Recorded result.audit_id w
  Answered (err e) w = Owed e w

  -- the same for an answer that may be still to come
  abbrev Pending : Result ProcessError (Option (TaskResult (Output O))) → W → Type 0
  Pending (ok none) w = Unit
  Pending (ok (some result)) w = Recorded result.audit_id w
  Pending (err e) w = Owed e w

  abbrev Verified : Result ProcessError (Unit {0}) → W → Type 0
  Verified (ok _) w = Unit
  Verified (err e) w = Owed e w

  abbrev Appended : Result ProcessError String × W → Type 0
  Appended (ok i, w) = Recorded i w
  Appended (err e, w) = e ≡ uncaught_audit

  append-Appended : (event : AuditEvent A O) (w : W) → Appended (append s event w)
  unfolding append
  append-Appended event w = go (s.audit_append event w) refl
    where
      go :
          (x : Result (Unit {0}) String × W)
          → s.audit_append event w ≡ x
          → Appended (audit_result x)
      go (ok i, w') e = (event, w, e)
      go (err _, w') e = refl

  reported :
      {B : Type 0} (Q : Result ProcessError B → W → Type 0) (event : AuditEvent A O)
      (f : String → Method W ProcessError B) (w : W)
      → ((w : W) → Q (err uncaught_audit) w)
      → ((i : String) (w' : W) → Recorded i w' → Q (f i w').0 (f i w').1)
      → Q (then_do (append s event) f w).0 (then_do (append s event) f w).1
  unfolding then_do
  reported Q event f w u k = go (append s event w) (append-Appended event w)
    where
      go : (x : Result ProcessError String × W) → Appended x → Q (continue x f).0 (continue x f).1
      go (ok i, w') r = k i w' r
      go (err e, w') r = subst (λ x. Q (err x) w') (sym r) (u w')

  denied-Answered :
      (reason : String) (w : W)
      → Answered (denied_result s task reason w).0 (denied_result s task reason w).1
  unfolding denied_result
  denied-Answered reason w = reported Answered _ _ w (λ _. tt) (λ i w' r. r)

  created-Answered :
      (a : ApprovalRecord) (w : W)
      → Answered (created_result s task a w).0 (created_result s task a w).1
  unfolding created_result
  created-Answered a w = reported Answered _ _ w (λ _. tt) (λ i w' r. r)

  waiting-Answered :
      (reason : String) (w : W)
      → Answered (waiting_result s task reason w).0 (waiting_result s task reason w).1
  unfolding waiting_result
  waiting-Answered reason w = reported Answered _ _ w (λ _. tt) (λ i w' r. r)

  unavailable-Pending :
      (detail : String) (w : W)
      → Pending
          (raise_unavailable s {B = Option (TaskResult (Output O))} task detail w).0
          (raise_unavailable s {B = Option (TaskResult (Output O))} task detail w).1
  unfolding raise_unavailable
  unavailable-Pending detail w = reported Pending _ _ w (λ _. tt) (λ i w' r. r)

  unavailable-Verified :
      (detail : String) (w : W)
      → Verified
          (raise_unavailable s {B = Unit {0}} task detail w).0
          (raise_unavailable s {B = Unit {0}} task detail w).1
  unfolding raise_unavailable
  unavailable-Verified detail w = reported Verified _ _ w (λ _. tt) (λ i w' r. r)

  stop-Pending :
      (m : Method W ProcessError (TaskResult (Output O))) (w : W)
      → Answered (m w).0 (m w).1
      → Pending (stop_with s m w).0 (stop_with s m w).1
  unfolding stop_with then_do
  stop-Pending m w h = go (m w) h
    where
      go :
          (x : Result ProcessError (TaskResult (Output O)) × W)
          → Answered x.0 x.1
          → Pending
              (continue x (λ result w'. (ok (some result), w'))).0
              (continue x (λ result w'. (ok (some result), w'))).1
      go (ok r, w') k = k
      go (err e, w') k = k

  handle_verified-Verified :
      (x : Result VerifierException (Unit {0}) × W)
      → Verified (handle_verified s task x).0 (handle_verified s task x).1
  unfolding handle_verified reject
  handle_verified-Verified (ok _, w) = tt
  handle_verified-Verified (err replay_unavailable, w) = unavailable-Verified _ w
  handle_verified-Verified (err (value_error reason), w) =
      reported Verified _ _ w (λ _. tt) (λ i w' r. r)
  handle_verified-Verified (err other_exception, w) = tt

  handle_created-Pending :
      (x : Result StoreException ApprovalRecord × W)
      → Pending (handle_created s task x).0 (handle_created s task x).1
  unfolding handle_created
  handle_created-Pending (ok r, w) = stop-Pending (created_result s task r) w (created-Answered r w)
  handle_created-Pending (err store_unavailable, w) = unavailable-Pending _ w
  handle_created-Pending (err still_pending, w) = tt
  handle_created-Pending (err (approval_refused reason), w) = tt
  handle_created-Pending (err other_store_exception, w) = tt

  handle_consumed-Pending :
      (x : Result StoreException ApprovalRecord × W)
      → Pending (handle_consumed s task x).0 (handle_consumed s task x).1
  unfolding handle_consumed go_on
  handle_consumed-Pending (ok r, w) = reported Pending _ _ w (λ _. tt) (λ i w' r. tt)
  handle_consumed-Pending (err store_unavailable, w) = unavailable-Pending _ w
  handle_consumed-Pending (err still_pending, w) =
      stop-Pending (waiting_result s task _) w (waiting-Answered _ w)
  handle_consumed-Pending (err (approval_refused reason), w) =
      stop-Pending (denied_result s task reason) w (denied-Answered reason w)
  handle_consumed-Pending (err other_store_exception, w) = tt

  approval-Pending :
      (id : Option String) (w : W)
      → Pending (handle_approval s task id w).0 (handle_approval s task id w).1
  unfolding handle_approval
  approval-Pending none w = handle_created-Pending (s.create_approval task w)
  approval-Pending (some id) w = handle_consumed-Pending (s.consume_approval id task w)

  execution_id : (o : Outcome O) (i : String) → (execution_result s task o i).audit_id ≡ i
  unfolding execution_result
  execution_id (returned output) i = refl
  execution_id (raised message) i = refl

  report-Answered : (o : Outcome O) (w : W) → Answered (report s task o w).0 (report s task o w).1
  unfolding report
  report-Answered o w =
      reported Answered _ _ w (λ _. tt)
        (λ i w' r. subst (λ a. Recorded a w') (sym (execution_id o i)) r)

  execute-Answered :
      (config : Option CapabilityConfig) (w : W)
      → Answered (execute s task config w).0 (execute s task config w).1
  unfolding execute
  execute-Answered config w =
      let (o, w') = outcome_of (s.execute_capability task.capability task.arguments config w) in
      report-Answered o w'

  allowed-Answered :
      (config : Option CapabilityConfig) (id : Option String) (w : W)
      → Answered (run_allowed s task config id w).0 (run_allowed s task config id w).1
  unfolding run_allowed
  allowed-Answered config none w = execute-Answered config w
  allowed-Answered config (some id) w = denied-Answered _ w

  after-Answered :
      (config : Option CapabilityConfig)
      (x : Result ProcessError (Option (TaskResult (Output O))) × W)
      → Pending x.0 x.1
      → Answered
          (continue x (after_approval s task config)).0
          (continue x (after_approval s task config)).1
  unfolding after_approval
  after-Answered config (ok none, w) h = execute-Answered config w
  after-Answered config (ok (some r), w) h = h
  after-Answered config (err e, w) h = h

  decided-Answered :
      (d : PolicyDecision) (decision : Decision) (w : W)
      → Answered (decided s task d decision w).0 (decided s task d decision w).1
  unfolding decided then_do
  decided-Answered d deny w = denied-Answered d.reason w
  decided-Answered d allow w = allowed-Answered d.config task.approval_id w
  decided-Answered d require_approval w =
      after-Answered d.config (handle_approval s task task.approval_id w)
        (approval-Pending task.approval_id w)

  -- Whatever `process` answers is the audit log's last record: a result, a refused envelope and an
  -- unavailable service carry the identifier that the log gave for an event appended as the last
  -- thing done. The only answers without one are exceptions that the processor does not catch.
  pub process_audited : (w : W) → Answered (process s task w).0 (process s task w).1
  unfolding process then_run verify
  process_audited w =
      go (handle_verified s task (s.verify_task task w))
        (handle_verified-Verified (s.verify_task task w))
    where
      go :
          (x : Result ProcessError (Unit {0}) × W)
          → Verified x.0 x.1
          → let d = evaluate s.policy task.capability in
            Answered
              (continue x (λ _. decided s task d d.decision)).0
              (continue x (λ _. decided s task d d.decision)).1
      go (ok _, w') h =
          decided-Answered (evaluate s.policy task.capability)
            (evaluate s.policy task.capability).decision w'
      go (err e, w') h = h
