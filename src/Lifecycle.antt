-- ===== src/Lifecycle.antt =====
-- src/systeme_local_gateway/providers/state_machine.py: the state of a provider run, and the
-- application of one lifecycle event to it.
pub mod Events
pub mod Invariant
pub mod Replay
pub mod Receipts
mod Examples
use systeme_local.Prelude.{
  ℕ, zero, suc, ◌+◌, ◌-◌, ◌*◌, ◌≤◌, ◌<◌, String, ◌≡◌, refl, sym, ap, ◌∙◌, ◌≢◌, ◌↔◌, ◌⊎◌, inl, inr,
  Bool, true, false, not, ◌&&◌, ◌||◌, Option, none, some, List, [], ◌∷◌, ◌++◌, map, arith, str_eq,
  eq_iff, eq_refl, ltb, leb, ◌==◌, if◌then◌else◌, leb→le, Bool-cases, Option-cases, is_some, Result,
  ok, err, ◌>>=◌, ◌>>◌, raise_if, Method, commit_or_rollback, Post, Post-ok, Post-err, Post-bind,
  Post-then, raise_if-ok, Post-commit, committed, length, any, find, keep, length-append,
  length-keep, All, All-append, any-append, All-keep, any-keep, keep-keep, find-all_false,
  find-true, All-find, Distinct, str_eq_comm, Distinct-keep, Distinct-append, has_key, dict_get,
  dict_set, dict_pop, has_key-dict_set, has_key-dict_pop, All-dict_set, All-dict_pop,
}
use systeme_local.Lifecycle.Events.{
  ProviderRun, ProviderResponseStatus, completed, failed, cancelled, incomplete,
  ToolResolutionOutcome, ApprovalDecision, Payload, response_started, output_digest_delta,
  tool_call_requested, tool_call_resolved, approval_requested, approval_resolved, response_terminal,
  output_validated, audit_persisted, LifecycleEvent,
}

-- The exceptions, by their classes.
pub data LifecycleError : Type 0 where
  event_conflict event_sequence_gap invalid_transition : LifecycleError

pub record AppliedEventReceipt : Type 0 where
  pub sequence : ℕ
  pub event_id : String
  pub fingerprint : String

pub record ToolCallState : Type 0 where
  pub tool_call_id : String
  pub provider_tool_call_id : String
  pub tool_name : String
  pub arguments_sha256 : String
  pub outcome : Option ToolResolutionOutcome
  pub result_sha256 : Option String

pub record ProviderRunState : Type 0 where
  pub run : ProviderRun
  pub last_sequence : ℕ
  pub last_observed_at : Option ℕ
  pub response_started : Bool
  pub response_status : Option ProviderResponseStatus
  pub output_digests : List String
  pub pending_tool_calls : List (String × ToolCallState)
  pub resolved_tool_calls : List (String × ToolCallState)
  pub pending_approvals : List (String × String)
  pub resolved_approvals : List (String × ApprovalDecision)
  pub output_validated : Bool
  pub output_sha256 : Option String
  pub audit_id : Option String
  pub audit_receipt_sha256 : Option String
  pub provider_event_ids : List (String × String)
  pub applied_events : List AppliedEventReceipt

abbrev pub initial_run_state : ProviderRun → ProviderRunState
initial_run_state run = record {
  run = run;
  last_sequence = 0;
  last_observed_at = none;
  response_started = false;
  response_status = none;
  output_digests = [];
  pending_tool_calls = [];
  resolved_tool_calls = [];
  pending_approvals = [];
  resolved_approvals = [];
  output_validated = false;
  output_sha256 = none;
  audit_id = none;
  audit_receipt_sha256 = none;
  provider_event_ids = [];
  applied_events = [];
}

abbrev pub is_completed : Option ProviderResponseStatus → Bool
is_completed (some completed) = true
is_completed _ = false

abbrev pub is_nil {ℓ} : {A : Type ℓ} → List A → Bool
is_nil [] = true
is_nil (x ∷ xs) = false

-- `not pending_tool_calls and not pending_approvals`
abbrev pub is_idle : ProviderRunState → Bool
is_idle s = is_nil s.pending_tool_calls && is_nil s.pending_approvals

pub delegation_completed : ProviderRunState → Bool
delegation_completed s =
    is_completed s.response_status && is_idle s && s.output_validated && is_some s.audit_id

pub delegation_terminal : ProviderRunState → Bool
delegation_terminal s = is_some s.response_status && is_idle s && is_some s.audit_id

unfoldable pub require_active_response : ProviderRunState → Result LifecycleError (Unit {0})
require_active_response s = do
  raise_if (not s.response_started) invalid_transition
  raise_if (is_some s.response_status) invalid_transition

abbrev has_provider_id : String → String × ToolCallState → Bool
has_provider_id id entry = str_eq entry.1.provider_tool_call_id id

-- `tool_call_id in pending_approvals.values()`
abbrev has_value : String → String × String → Bool
has_value id entry = str_eq entry.1 id

pub resolve_call :
    ToolResolutionOutcome
    → Option String
    → String
    → Option ToolCallState
    → ProviderRunState
    → Result LifecycleError ProviderRunState
resolve_call outcome result id none s = err invalid_transition
resolve_call outcome result id (some call) s = ok (record s {
  pending_tool_calls = dict_pop id s.pending_tool_calls;
  resolved_tool_calls =
      dict_set id (record call { outcome = some outcome; result_sha256 = result })
        s.resolved_tool_calls;
})

-- the branches on the kind of event
unfoldable pub apply_payload : Payload → ProviderRunState → Result LifecycleError ProviderRunState
unfolding resolve_call require_active_response
apply_payload (response_started id) s = do
  raise_if (s.response_started || is_some s.response_status) invalid_transition
  ok (record s { response_started = true })
apply_payload (output_digest_delta digest bytes) s = do
  require_active_response s
  ok (record s { output_digests = s.output_digests ++ digest ∷ [] })
apply_payload (tool_call_requested id provider_id name arguments) s = do
  require_active_response s
  raise_if (has_key id s.pending_tool_calls || has_key id s.resolved_tool_calls) event_conflict
  raise_if
      (any (has_provider_id provider_id) s.pending_tool_calls
        || any (has_provider_id provider_id) s.resolved_tool_calls)
      event_conflict
  ok (record s {
    pending_tool_calls =
        dict_set id
          (record {
            tool_call_id = id;
            provider_tool_call_id = provider_id;
            tool_name = name;
            arguments_sha256 = arguments;
            outcome = none;
            result_sha256 = none;
          })
          s.pending_tool_calls;
  })
apply_payload (approval_requested approval_id id) s = do
  require_active_response s
  raise_if (not (has_key id s.pending_tool_calls)) invalid_transition
  raise_if (has_key approval_id s.pending_approvals || has_key approval_id s.resolved_approvals)
      event_conflict
  ok (record s { pending_approvals = dict_set approval_id id s.pending_approvals })
apply_payload (approval_resolved approval_id decision) s = do
  require_active_response s
  raise_if (not (has_key approval_id s.pending_approvals)) invalid_transition
  ok (record s {
    pending_approvals = dict_pop approval_id s.pending_approvals;
    resolved_approvals = dict_set approval_id decision s.resolved_approvals;
  })
apply_payload (tool_call_resolved id outcome result) s = do
  require_active_response s
  raise_if (any (has_value id) s.pending_approvals) invalid_transition
  resolve_call outcome result id (dict_get id s.pending_tool_calls) s
apply_payload (response_terminal status code) s = do
  require_active_response s
  raise_if (not (is_idle s)) invalid_transition
  ok (record s { response_status = some status })
apply_payload (output_validated digest schema) s = do
  raise_if (not (is_completed s.response_status)) invalid_transition
  raise_if (not (is_idle s)) invalid_transition
  raise_if s.output_validated invalid_transition
  ok (record s { output_validated = true; output_sha256 = some digest })
apply_payload (audit_persisted audit_id receipt) s = do
  raise_if (not (is_some s.response_status)) invalid_transition
  raise_if (not (is_idle s)) invalid_transition
  raise_if (is_completed s.response_status && not s.output_validated) invalid_transition
  ok (record s { audit_id = some audit_id; audit_receipt_sha256 = some receipt })

abbrev before_some : ℕ → Option ℕ → Bool
before_some t none = false
before_some t (some last) = ltb t last

abbrev known_provider_event : Option String → List (String × String) → Bool
known_provider_event none ids = false
known_provider_event (some id) ids = has_key id ids

abbrev note_provider_event :
    Option String → String → List (String × String) → List (String × String)
note_provider_event none event_id ids = ids
note_provider_event (some id) event_id ids = dict_set id event_id ids

abbrev pub at_sequence : ℕ → AppliedEventReceipt → Bool
at_sequence n receipt = receipt.sequence == n

abbrev pub of_event : String → AppliedEventReceipt → Bool
of_event id receipt = str_eq receipt.event_id id

-- `fingerprint` is the SHA-256 of the event's JSON, which is not part of the program.
module _ (fingerprint : LifecycleEvent → String) where
  abbrev pub receipt_of : LifecycleEvent → AppliedEventReceipt
  receipt_of event = record {
    sequence = event.sequence;
    event_id = event.event_id;
    fingerprint = fingerprint event;
  }

  -- a sequence number that was applied before
  unfoldable pub replay_event :
      LifecycleEvent
      → Option AppliedEventReceipt
      → ProviderRunState
      → Result LifecycleError ProviderRunState
  replay_event event none s = err event_conflict
  replay_event event (some receipt) s =
      if str_eq receipt.event_id event.event_id && str_eq receipt.fingerprint (fingerprint event)
      then ok s
      else err event_conflict

  -- the tests on an event with the next sequence number
  unfoldable pub check_new : LifecycleEvent → ProviderRunState → Result LifecycleError (Unit {0})
  check_new event s = do
    raise_if (not (event.sequence == s.last_sequence + 1)) event_sequence_gap
    raise_if (ltb event.observed_at s.run.started_at) invalid_transition
    raise_if (before_some event.observed_at s.last_observed_at) invalid_transition
    raise_if (any (of_event event.event_id) s.applied_events) event_conflict
    raise_if (known_provider_event event.provider_event_id s.provider_event_ids) event_conflict
    raise_if (is_some s.audit_id) invalid_transition

  -- what is recorded of every event that is applied
  unfoldable pub sign_off : LifecycleEvent → ProviderRunState → ProviderRunState
  sign_off event s = record s {
    provider_event_ids =
        note_provider_event event.provider_event_id event.event_id s.provider_event_ids;
    last_sequence = event.sequence;
    last_observed_at = some event.observed_at;
    applied_events = s.applied_events ++ receipt_of event ∷ [];
  }

  unfoldable pub apply_new :
      LifecycleEvent → ProviderRunState → Result LifecycleError ProviderRunState
  apply_new event s = do
    check_new event s
    updated ← apply_payload event.payload s
    ok (sign_off event updated)

  unfoldable pub apply_lifecycle_event :
      ProviderRunState → LifecycleEvent → Result LifecycleError ProviderRunState
  apply_lifecycle_event s event =
      if not (str_eq event.run_id s.run.run_id)
      then err event_conflict
      else if leb event.sequence s.last_sequence
      then replay_event event (find (at_sequence event.sequence) s.applied_events) s
      else apply_new event s
