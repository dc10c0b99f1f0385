-- ===== src/Approvals/Row.antt =====
-- src/systeme_local_gateway/approvals.py: the rows, the records and the errors of the store.
use Prim.Native.String.{slice}
use systeme_local.Prelude.{ℕ, String, Bool, true, false, Option}
use systeme_local.Models.{AgentIdentity, TaskEnvelope}

-- The table's CHECK constraint admits these four states only.
pub data ApprovalState : Type 0 where
  pending approved denied consumed : ApprovalState

abbrev pub state_eq : ApprovalState → ApprovalState → Bool
state_eq pending pending = true
state_eq approved approved = true
state_eq denied denied = true
state_eq consumed consumed = true
state_eq _ _ = false

-- The columns that the row's digest covers (`_stored_fields`).
pub record ApprovalFields : Type 0 where
  pub approval_id : String
  pub request_hmac : String
  pub task_id : String
  pub capability : String
  pub provider : String
  pub model : Option String
  pub state : ApprovalState
  pub created_at_us : ℕ
  pub expires_at_us : ℕ
  pub decided_at_us : Option ℕ
  pub consumed_at_us : Option ℕ

pub record StoredApproval : Type 0 where
  pub fields : ApprovalFields
  pub open fields use *
  pub row_hmac : String

-- What callers are given: the row without its digests, and a fingerprint of the request.
pub record ApprovalRecord : Type 0 where
  pub approval_id : String
  pub request_fingerprint : String
  pub task_id : String
  pub capability : String
  pub provider : String
  pub model : Option String
  pub state : ApprovalState
  pub created_at : ℕ
  pub expires_at : ℕ
  pub decided_at : Option ℕ
  pub consumed_at : Option ℕ

unfoldable pub record_from_stored : StoredApproval → ApprovalRecord
record_from_stored stored = record {
  approval_id = stored.approval_id;
  request_fingerprint = slice stored.request_hmac 0 16;
  task_id = stored.task_id;
  capability = stored.capability;
  provider = stored.provider;
  model = stored.model;
  state = stored.state;
  created_at = stored.created_at_us;
  expires_at = stored.expires_at_us;
  decided_at = stored.decided_at_us;
  consumed_at = stored.consumed_at_us;
}

-- The part of an envelope that an approval is bound to (`version` has one value).
pub record ApprovalPayload (A : Type 0) : Type 0 where
  pub task_id : String
  pub agent : AgentIdentity
  pub capability : String
  pub arguments : A

unfoldable pub approval_request_payload : {A : Type 0} → TaskEnvelope A → ApprovalPayload A
approval_request_payload task = record {
  task_id = task.task_id;
  agent = task.agent;
  capability = task.capability;
  arguments = task.arguments;
}

-- One constructor for each exception and message. Those from `invalid_timestamps` to
-- `database_error` are all `ApprovalStoreUnavailableError`.
pub data ApprovalError : Type 0 where
  approval_not_found approval_pending approval_denied approval_consumed : ApprovalError
  approval_expired approval_mismatch : ApprovalError
  approval_state_error : ApprovalState → ApprovalError
  invalid_timestamps invalid_row_hmac capacity_exhausted exceeds_capacity : ApprovalError
  quick_check_failed unsupported_schema unexpected_schema database_error : ApprovalError
  key_too_short max_entries_not_positive ttl_too_short busy_timeout_not_positive : ApprovalError
