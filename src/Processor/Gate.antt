-- ===== src/Processor/Gate.antt =====
-- When the executor may run.
use systeme_local.Models.{TaskEnvelope, TaskResult}
use systeme_local.Prelude.{
  String, ◌≡◌, refl, ap, ◌∙◌, ◌≢◌, Bool, true, false, ◌&&◌, Option, none, some, arith, Result, ok,
  err, Method,
}
use systeme_local.Policy.{
  Decision, allow, deny, require_approval, CapabilityConfig, PolicyDecision, evaluate,
}
use systeme_local.Approvals.Row.{ApprovalRecord}
use systeme_local.Processor.Protocols.{
  Services, VerifierException, replay_unavailable, value_error, other_exception, StoreException,
  still_pending, approval_refused, store_unavailable, other_store_exception, AuditEvent, Output,
  ProcessError, continue,
}
use systeme_local.Processor.Protocols.{◌>>=◌ as then_do, ◌>>◌ as then_run}
use systeme_local.Processor.{
  audit_result, append, raise_unavailable, denied_result, created_result, waiting_result, reject,
  stop_with, go_on, handle_verified, verify, handle_created, handle_consumed, handle_approval,
  after_approval, run_allowed, decided, process,
}

abbrev pub succeeds {ℓ κ} : {E : Type ℓ} {B : Type κ} → Result E B → Bool
succeeds (ok _) = true
succeeds (err _) = false

module _ {A O W : Type 0} (s : Services A O W) (task : TaskEnvelope A) where
  -- by policy, for an envelope that was verified
  abbrev pub authorized : Decision → Option String → W → Bool
  authorized allow none w = true
  authorized require_approval (some id) w = succeeds (s.consume_approval id task w).0
  authorized _ _ w = false

  -- The envelope verifies, and its capability is allowed outright and carries no approval, or wants
  -- an approval and carries one that the store lets it consume.
  abbrev pub permitted : W → Bool
  permitted w =
      succeeds (s.verify_task task w).0
      && authorized (evaluate s.policy task.capability).decision task.approval_id
          (s.verify_task task w).1

and_false : (a b : Bool) → a ≡ true → (a && b) ≡ false → b ≡ false
and_false true b h k = k
and_false false b h k = cc

-- A property of the world that no service but the executor can break.
pub record Quiet {A O W : Type 0} (s : Services A O W) (P : W → Type 0) : Type 0 where
  pub verify_keeps : (task : TaskEnvelope A) (w : W) → P w → P (s.verify_task task w).1
  pub create_keeps : (task : TaskEnvelope A) (w : W) → P w → P (s.create_approval task w).1
  pub consume_keeps :
      (id : String) (task : TaskEnvelope A) (w : W) → P w → P (s.consume_approval id task w).1
  pub append_keeps : (event : AuditEvent A O) (w : W) → P w → P (s.audit_append event w).1

module _ {A O W : Type 0} (s : Services A O W) (P : W → Type 0) (quiet : Quiet s P)
    (task : TaskEnvelope A) where
  continue_keeps :
      {E B C : Type 0} (x : Result E B × W) (f : B → Method W E C)
      → P x.1
      → ((b : B) → x.0 ≡ ok b → P x.1 → P (f b x.1).1)
      → P (continue x f).1
  continue_keeps (ok b, w) f h k = k b refl h
  continue_keeps (err e, w) f h k = h

  audit_keeps : (x : Result (Unit {0}) String × W) → P x.1 → P (audit_result x).1
  audit_keeps (ok i, w) h = h
  audit_keeps (err e, w) h = h

  append_step : (event : AuditEvent A O) (w : W) → P w → P (append s event w).1
  unfolding append
  append_step event w h = audit_keeps (s.audit_append event w) (quiet.append_keeps event w h)

  reported :
      {B : Type 0} (event : AuditEvent A O) (f : String → Method W ProcessError B) (w : W)
      → ((i : String) (w' : W) → P w' → P (f i w').1)
      → P w
      → P (then_do (append s event) f w).1
  unfolding then_do
  reported event f w k h =
      continue_keeps (append s event w) f (append_step event w h) (λ i _ p. k i _ p)

  unavailable_keeps :
      (B : Type 0) (detail : String) (w : W) → P w → P (raise_unavailable s {B = B} task detail w).1
  unfolding raise_unavailable
  unavailable_keeps B detail w h = reported _ _ w (λ i w' p. p) h

  denied_keeps : (reason : String) (w : W) → P w → P (denied_result s task reason w).1
  unfolding denied_result
  denied_keeps reason w h = reported _ _ w (λ i w' p. p) h

  created_keeps : (r : ApprovalRecord) (w : W) → P w → P (created_result s task r w).1
  unfolding created_result
  created_keeps r w h = reported _ _ w (λ i w' p. p) h

  waiting_keeps : (reason : String) (w : W) → P w → P (waiting_result s task reason w).1
  unfolding waiting_result
  waiting_keeps reason w h = reported _ _ w (λ i w' p. p) h

  stop_keeps :
      (m : Method W ProcessError (TaskResult (Output O))) (w : W)
      → P (m w).1
      → P (stop_with s m w).1
  unfolding stop_with then_do
  stop_keeps m w h = continue_keeps (m w) _ h (λ b e p. p)

  verified_keeps :
      (x : Result VerifierException (Unit {0}) × W) → P x.1 → P (handle_verified s task x).1
  unfolding handle_verified reject
  verified_keeps (ok _, w) h = h
  verified_keeps (err replay_unavailable, w) h = unavailable_keeps _ _ w h
  verified_keeps (err (value_error reason), w) h = reported _ _ w (λ i w' p. p) h
  verified_keeps (err other_exception, w) h = h

  created_step :
      (x : Result StoreException ApprovalRecord × W) → P x.1 → P (handle_created s task x).1
  unfolding handle_created
  created_step (ok r, w) h = stop_keeps (created_result s task r) w (created_keeps r w h)
  created_step (err store_unavailable, w) h = unavailable_keeps _ _ w h
  created_step (err still_pending, w) h = h
  created_step (err (approval_refused reason), w) h = h
  created_step (err other_store_exception, w) h = h

  consumed_step :
      (x : Result StoreException ApprovalRecord × W) → P x.1 → P (handle_consumed s task x).1
  unfolding handle_consumed go_on
  consumed_step (ok r, w) h = reported _ _ w (λ i w' p. p) h
  consumed_step (err store_unavailable, w) h = unavailable_keeps _ _ w h
  consumed_step (err still_pending, w) h =
      stop_keeps (waiting_result s task _) w (waiting_keeps _ w h)
  consumed_step (err (approval_refused reason), w) h =
      stop_keeps (denied_result s task reason) w (denied_keeps reason w h)
  consumed_step (err other_store_exception, w) h = h

  approval_keeps : (id : Option String) (w : W) → P w → P (handle_approval s task id w).1
  unfolding handle_approval
  approval_keeps none w h = created_step (s.create_approval task w) (quiet.create_keeps task w h)
  approval_keeps (some id) w h =
      consumed_step (s.consume_approval id task w) (quiet.consume_keeps id task w h)

  -- `handle_approval` lets the task run only where an approval was consumed
  created_stops :
      (x : Result StoreException ApprovalRecord × W) → (handle_created s task x).0 ≢ ok none
  unfolding handle_created stop_with raise_unavailable append then_do
  created_stops (ok r, w) e = ground arith
  created_stops (err store_unavailable, w) e = ground arith
  created_stops (err still_pending, w) e = cc
  created_stops (err (approval_refused reason), w) e = cc
  created_stops (err other_store_exception, w) e = cc

  consumed_stops :
      (x : Result StoreException ApprovalRecord × W)
      → succeeds x.0 ≡ false
      → (handle_consumed s task x).0 ≢ ok none
  unfolding handle_consumed stop_with raise_unavailable append then_do
  consumed_stops (ok r, w) h e = cc
  consumed_stops (err store_unavailable, w) h e = ground arith
  consumed_stops (err still_pending, w) h e = ground arith
  consumed_stops (err (approval_refused reason), w) h e = ground arith
  consumed_stops (err other_store_exception, w) h e = cc

  approval_stops :
      (id : Option String) (w : W)
      → authorized s task require_approval id w ≡ false
      → (handle_approval s task id w).0 ≢ ok none
  unfolding handle_approval
  approval_stops none w h = created_stops (s.create_approval task w)
  approval_stops (some id) w h = consumed_stops (s.consume_approval id task w) h

  after_keeps :
      (config : Option CapabilityConfig) (r : Option (TaskResult (Output O))) (w : W)
      → r ≢ none
      → P w
      → P (after_approval s task config r w).1
  unfolding after_approval
  after_keeps config none w go h = absurd (go refl)
  after_keeps config (some r) w go h = h

  allowed_keeps :
      (config : Option CapabilityConfig) (id : Option String) (w : W)
      → authorized s task allow id w ≡ false
      → P w
      → P (run_allowed s task config id w).1
  unfolding run_allowed
  allowed_keeps config none w go h = cc
  allowed_keeps config (some id) w go h = denied_keeps _ w h

  decided_keeps :
      (d : PolicyDecision) (decision : Decision) (w : W)
      → authorized s task decision task.approval_id w ≡ false
      → P w
      → P (decided s task d decision w).1
  unfolding decided then_do
  decided_keeps d deny w go h = denied_keeps d.reason w h
  decided_keeps d allow w go h = allowed_keeps d.config task.approval_id w go h
  decided_keeps d require_approval w go h =
      continue_keeps (handle_approval s task task.approval_id w) _
        (approval_keeps task.approval_id w h)
        (λ r e p.
          after_keeps d.config r _ (λ q. approval_stops task.approval_id w go (e ∙ ap ok q)) p)

  verified_world :
      (x : Result VerifierException (Unit {0}) × W)
      → (handle_verified s task x).0 ≡ ok tt
      → (succeeds x.0 ≡ true) × ((handle_verified s task x).1 ≡ x.1)
  unfolding handle_verified reject raise_unavailable append then_do
  verified_world (ok _, w) h = (refl, refl)
  verified_world (err replay_unavailable, w) h = ground arith
  verified_world (err (value_error reason), w) h = ground arith
  verified_world (err other_exception, w) h = cc

  -- A task that is not permitted does not run: whatever `process` returns or raises, each property
  -- of the world that none of the other services can break still holds. A task is permitted where
  -- its envelope verifies and its capability is either allowed outright and carries no approval, or
  -- wants an approval and carries one that the store lets it consume.
  pub process_gate : (w : W) → permitted s task w ≡ false → P w → P (process s task w).1
  unfolding process then_run verify
  process_gate w go h =
      continue_keeps (handle_verified s task (s.verify_task task w)) _
        (verified_keeps (s.verify_task task w) (quiet.verify_keeps task w h))
        (λ b e p.
          let (good, same) = verified_world (s.verify_task task w) e in
          decided_keeps (evaluate s.policy task.capability)
            (evaluate s.policy task.capability).decision
            (handle_verified s task (s.verify_task task w)).1 (rw same (and_false _ _ good go)) p)
