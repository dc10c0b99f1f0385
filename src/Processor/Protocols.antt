-- ===== src/Processor/Protocols.antt =====
-- src/systeme_local_gateway/task_processor.py: the protocols, the events, the results and the
-- exceptions of the processor, and its methods' sequencing.
use systeme_local.Prelude.{String, Option, Result, ok, err, Method}
use systeme_local.Models.{AgentIdentity, TaskEnvelope}
use systeme_local.Policy.{PolicyEngine, CapabilityConfig}
use systeme_local.Approvals.Row.{ApprovalRecord}

-- What the task verifier raises: the configured class for an unavailable replay guard, a
-- `ValueError` with its text, or any other exception.
pub data VerifierException : Type 0 where
  replay_unavailable : VerifierException
  value_error : String → VerifierException
  other_exception : VerifierException

-- What the approval store raises. `approval_refused` is one of the five classes whose text is
-- passed on: not found, denied, consumed, expired, mismatch.
pub data StoreException : Type 0 where
  still_pending : StoreException
  approval_refused : String → StoreException
  store_unavailable : StoreException
  other_store_exception : StoreException

-- What the executor did: its output, or the text of the exception that it raised.
pub data Outcome (O : Type 0) : Type 0 where
  returned : O → Outcome O
  raised : String → Outcome O

-- One constructor for each dictionary that the processor appends, with the values it holds.
pub data AuditEvent (A O : Type 0) : Type 0 where
  rejected_event : (task_id capability reason : String) → AuditEvent A O
  consumed_event : (task_id capability approval_id : String) → AuditEvent A O
  executed_event :
      (task_id : String)
      → AgentIdentity
      → (capability : String) → Outcome O
      → A
      → Option String
      → AuditEvent A O
  required_event :
      (task_id capability : String) → A → (approval_id reason : Option String) → AuditEvent A O
  denied_event : (task_id capability reason : String) → Option String → AuditEvent A O
  unavailable_event : (task_id capability detail : String) → AuditEvent A O

pub data Output (O : Type 0) : Type 0 where
  empty : Output O
  executed : O → Output O
  approval_created : ApprovalRecord → Output O
  approval_waiting : Option String → Output O

pub data ProcessError : Type 0 where
  authentication_error : (detail audit_id : String) → ProcessError
  service_unavailable : (detail audit_id : String) → ProcessError
  uncaught_verifier uncaught_store uncaught_audit : ProcessError

-- The protocols, with the replay guard and the shared secret inside `verify_task`.
pub record Services (A O W : Type 0) : Type 0 where
  pub policy : PolicyEngine
  pub verify_task : TaskEnvelope A → Method W VerifierException (Unit {0})
  pub create_approval : TaskEnvelope A → Method W StoreException ApprovalRecord
  pub consume_approval : String → TaskEnvelope A → Method W StoreException ApprovalRecord
  pub execute_capability : String → A → Option CapabilityConfig → Method W String O
  pub audit_append : AuditEvent A O → Method W (Unit {0}) String

module _ {E W A : Type 0} where
  abbrev pub pure : A → Method W E A
  pure a w = (ok a, w)

  abbrev pub raise : E → Method W E A
  raise e w = (err e, w)

module _ {E W A B : Type 0} where
  abbrev pub continue : Result E A × W → (A → Method W E B) → Result E B × W
  continue (ok a, w) f = f a w
  continue (err e, w) f = (err e, w)

  -- What was written before an exception stays written.
  infixl 5 ◌>>=◌
  unfoldable pub ◌>>=◌ : Method W E A → (A → Method W E B) → Method W E B
  ◌>>=◌ m f w = continue (m w) f

module _ {E W B : Type 0} where
  infixl 5 ◌>>◌
  unfoldable pub ◌>>◌ : Method W E (Unit {0}) → Method W E B → Method W E B
  ◌>>◌ m k w = continue (m w) (λ _. k)
