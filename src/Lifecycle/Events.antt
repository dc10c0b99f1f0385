-- ===== src/Lifecycle/Events.antt =====
-- src/systeme_local_gateway/providers/models.py: provider runs and the nine kinds of lifecycle
-- event, with the validators of their models. Times are whole microseconds. The patterns of the
-- identifiers and digests are not checked here; fields with one value (`version`, `kind`,
-- `source`, `valid`) are left out.
use systeme_local.Prelude.{ℕ, String, Bool, true, false, ◌&&◌, Option, none, some, leb}

pub record ProviderRun : Type 0 where
  pub run_id : String
  pub conversation_id : String
  pub turn_id : String
  pub trace_id : String
  pub idempotency_key : String
  pub provider : String
  pub surface : String
  pub started_at : ℕ
  pub provider_run_id : Option String

pub data ProviderResponseStatus : Type 0 where
  completed failed cancelled incomplete : ProviderResponseStatus

pub data ToolResolutionOutcome : Type 0 where
  tool_completed tool_failed tool_denied : ToolResolutionOutcome

pub data ApprovalDecision : Type 0 where
  approved denied expired : ApprovalDecision

pub data Payload : Type 0 where
  response_started : (provider_response_id : String) → Payload
  output_digest_delta : (delta_sha256 : String) → (utf8_bytes : ℕ) → Payload
  tool_call_requested :
      (tool_call_id provider_tool_call_id tool_name arguments_sha256 : String) → Payload
  tool_call_resolved :
      (tool_call_id : String) → ToolResolutionOutcome → (result_sha256 : Option String) → Payload
  approval_requested : (approval_id tool_call_id : String) → Payload
  approval_resolved : (approval_id : String) → ApprovalDecision → Payload
  response_terminal : ProviderResponseStatus → (error_code : Option String) → Payload
  output_validated : (output_sha256 : String) → (schema_id : Option String) → Payload
  audit_persisted : (audit_id receipt_sha256 : String) → Payload

pub record LifecycleEvent : Type 0 where
  pub event_id : String
  pub run_id : String
  pub sequence : ℕ
  pub observed_at : ℕ
  pub provider_event_id : Option String
  pub payload : Payload

abbrev max_utf8_bytes : ℕ
max_utf8_bytes = 16_777_216

-- the models' validators: `require_result_digest`, `validate_error_code` and the numeric bounds
unfoldable pub valid_payload : Payload → Bool
valid_payload (output_digest_delta digest bytes) = leb 1 bytes && leb bytes max_utf8_bytes
valid_payload (tool_call_resolved id tool_completed none) = false
valid_payload (response_terminal completed (some code)) = false
valid_payload (response_terminal failed none) = false
valid_payload (response_terminal cancelled none) = false
valid_payload (response_terminal incomplete none) = false
valid_payload _ = true

unfoldable pub valid_event : LifecycleEvent → Bool
unfolding valid_payload
valid_event event = leb 1 event.sequence && valid_payload event.payload
