-- ===== src/Store/Equal.antt =====
-- Equality of the stored models, as their `==` compares them: field by field.
use systeme_local.Prelude.{
  ℕ, String, ◌≡◌, refl, Bool, true, false, ◌&&◌, Option, none, some, arith, str_eq, eq_refl, ◌==◌,
}
use systeme_local.Lifecycle.Events.{
  ProviderRun, ProviderResponseStatus, completed, failed, cancelled, incomplete,
  ToolResolutionOutcome, tool_completed, tool_failed, tool_denied, ApprovalDecision, approved,
  denied, expired, Payload, response_started, output_digest_delta, tool_call_requested,
  tool_call_resolved, approval_requested, approval_resolved, response_terminal, output_validated,
  audit_persisted, LifecycleEvent,
}
use systeme_local.Turns.{
  AgentPrincipalRef, CommittedTurn, ConversationState, active, closed, ConversationHandle,
}

abbrev pub option_eq : Option String → Option String → Bool
option_eq none none = true
option_eq (some s) (some t) = str_eq s t
option_eq _ _ = false

abbrev state_eq : ConversationState → ConversationState → Bool
state_eq active active = true
state_eq closed closed = true
state_eq _ _ = false

abbrev principal_eq : AgentPrincipalRef → AgentPrincipalRef → Bool
principal_eq a b =
    str_eq a.agent_id b.agent_id
    && str_eq a.instance_id b.instance_id
    && str_eq a.key_id b.key_id
    && str_eq a.verification_id b.verification_id

pub conversation_eq : ConversationHandle → ConversationHandle → Bool
conversation_eq a b =
    str_eq a.conversation_id b.conversation_id
    && str_eq a.provider b.provider
    && str_eq a.surface b.surface
    && str_eq a.created_by_agent b.created_by_agent
    && a.created_at == b.created_at
    && a.updated_at == b.updated_at
    && state_eq a.state b.state
    && option_eq a.provider_conversation_id b.provider_conversation_id

pub turn_eq : CommittedTurn → CommittedTurn → Bool
turn_eq a b =
    str_eq a.conversation_id b.conversation_id
    && str_eq a.turn_id b.turn_id
    && str_eq a.trace_id b.trace_id
    && str_eq a.idempotency_key b.idempotency_key
    && principal_eq a.principal b.principal
    && a.committed_at == b.committed_at
    && str_eq a.content_sha256 b.content_sha256
    && a.utf8_bytes == b.utf8_bytes
    && a.part_count == b.part_count

pub run_eq : ProviderRun → ProviderRun → Bool
run_eq a b =
    str_eq a.run_id b.run_id
    && str_eq a.conversation_id b.conversation_id
    && str_eq a.turn_id b.turn_id
    && str_eq a.trace_id b.trace_id
    && str_eq a.idempotency_key b.idempotency_key
    && str_eq a.provider b.provider
    && str_eq a.surface b.surface
    && a.started_at == b.started_at
    && option_eq a.provider_run_id b.provider_run_id

abbrev status_eq : ProviderResponseStatus → ProviderResponseStatus → Bool
status_eq completed completed = true
status_eq failed failed = true
status_eq cancelled cancelled = true
status_eq incomplete incomplete = true
status_eq _ _ = false

abbrev outcome_eq : ToolResolutionOutcome → ToolResolutionOutcome → Bool
outcome_eq tool_completed tool_completed = true
outcome_eq tool_failed tool_failed = true
outcome_eq tool_denied tool_denied = true
outcome_eq _ _ = false

abbrev decision_eq : ApprovalDecision → ApprovalDecision → Bool
decision_eq approved approved = true
decision_eq denied denied = true
decision_eq expired expired = true
decision_eq _ _ = false

unfoldable pub payload_eq : Payload → Payload → Bool
payload_eq (response_started a) (response_started b) = str_eq a b
payload_eq (output_digest_delta a n) (output_digest_delta b m) = str_eq a b && n == m
payload_eq (tool_call_requested a b c d) (tool_call_requested a' b' c' d') =
    str_eq a a' && str_eq b b' && str_eq c c' && str_eq d d'
payload_eq (tool_call_resolved a o r) (tool_call_resolved a' o' r') =
    str_eq a a' && outcome_eq o o' && option_eq r r'
payload_eq (approval_requested a b) (approval_requested a' b') = str_eq a a' && str_eq b b'
payload_eq (approval_resolved a d) (approval_resolved a' d') = str_eq a a' && decision_eq d d'
payload_eq (response_terminal s c) (response_terminal s' c') = status_eq s s' && option_eq c c'
payload_eq (output_validated a b) (output_validated a' b') = str_eq a a' && option_eq b b'
payload_eq (audit_persisted a b) (audit_persisted a' b') = str_eq a a' && str_eq b b'
payload_eq _ _ = false

unfoldable pub event_eq : LifecycleEvent → LifecycleEvent → Bool
event_eq a b =
    str_eq a.event_id b.event_id
    && str_eq a.run_id b.run_id
    && a.sequence == b.sequence
    && a.observed_at == b.observed_at
    && option_eq a.provider_event_id b.provider_event_id
    && payload_eq a.payload b.payload

same_number : (n : ℕ) → (n == n) ≡ true
same_number n = ground arith

option_eq_refl : (o : Option String) → option_eq o o ≡ true
option_eq_refl none = refl
option_eq_refl (some s) = eq_refl s

state_eq_refl : (s : ConversationState) → state_eq s s ≡ true
state_eq_refl active = refl
state_eq_refl closed = refl

-- A model equals itself.
pub conversation_eq_refl : (c : ConversationHandle) → conversation_eq c c ≡ true
unfolding conversation_eq
conversation_eq_refl c =
    rw
      (
        eq_refl c.conversation_id,
        eq_refl c.provider,
        eq_refl c.surface,
        eq_refl c.created_by_agent,
        same_number c.created_at,
        same_number c.updated_at,
        state_eq_refl c.state,
        option_eq_refl c.provider_conversation_id,
      )
      refl

pub turn_eq_refl : (t : CommittedTurn) → turn_eq t t ≡ true
unfolding turn_eq
turn_eq_refl t =
    rw
      (
        eq_refl t.conversation_id,
        eq_refl t.turn_id,
        eq_refl t.trace_id,
        eq_refl t.idempotency_key,
        eq_refl t.principal.agent_id,
        eq_refl t.principal.instance_id,
        eq_refl t.principal.key_id,
        eq_refl t.principal.verification_id,
        same_number t.committed_at,
        eq_refl t.content_sha256,
        same_number t.utf8_bytes,
        same_number t.part_count,
      )
      refl

pub run_eq_refl : (r : ProviderRun) → run_eq r r ≡ true
unfolding run_eq
run_eq_refl r =
    rw
      (
        eq_refl r.run_id,
        eq_refl r.conversation_id,
        eq_refl r.turn_id,
        eq_refl r.trace_id,
        eq_refl r.idempotency_key,
        eq_refl r.provider,
        eq_refl r.surface,
        same_number r.started_at,
        option_eq_refl r.provider_run_id,
      )
      refl

status_eq_refl : (s : ProviderResponseStatus) → status_eq s s ≡ true
status_eq_refl completed = refl
status_eq_refl failed = refl
status_eq_refl cancelled = refl
status_eq_refl incomplete = refl

outcome_eq_refl : (s : ToolResolutionOutcome) → outcome_eq s s ≡ true
outcome_eq_refl tool_completed = refl
outcome_eq_refl tool_failed = refl
outcome_eq_refl tool_denied = refl

decision_eq_refl : (s : ApprovalDecision) → decision_eq s s ≡ true
decision_eq_refl approved = refl
decision_eq_refl denied = refl
decision_eq_refl expired = refl

payload_eq_refl : (p : Payload) → payload_eq p p ≡ true
unfolding payload_eq
payload_eq_refl (response_started a) = eq_refl a
payload_eq_refl (output_digest_delta a n) = rw (eq_refl a, same_number n) refl
payload_eq_refl (tool_call_requested a b c d) = rw (eq_refl a, eq_refl b, eq_refl c, eq_refl d) refl
payload_eq_refl (tool_call_resolved a o r) =
    rw (eq_refl a, outcome_eq_refl o, option_eq_refl r) refl
payload_eq_refl (approval_requested a b) = rw (eq_refl a, eq_refl b) refl
payload_eq_refl (approval_resolved a d) = rw (eq_refl a, decision_eq_refl d) refl
payload_eq_refl (response_terminal s c) = rw (status_eq_refl s, option_eq_refl c) refl
payload_eq_refl (output_validated a b) = rw (eq_refl a, option_eq_refl b) refl
payload_eq_refl (audit_persisted a b) = rw (eq_refl a, eq_refl b) refl

pub event_eq_refl : (e : LifecycleEvent) → event_eq e e ≡ true
unfolding event_eq
event_eq_refl e =
    rw
      (
        eq_refl e.event_id,
        eq_refl e.run_id,
        same_number e.sequence,
        same_number e.observed_at,
        option_eq_refl e.provider_event_id,
        payload_eq_refl e.payload,
      )
      refl
