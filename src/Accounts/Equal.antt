-- ===== src/Accounts/Equal.antt =====
-- The profile of an account, and its equality field by field.
use systeme_local.Prelude.{ℕ, String, Bool, true, false, ◌&&◌, Option, str_eq, ◌==◌}
use systeme_local.Attachments.{
  CapabilitySupport, supported, unsupported, unknown, CapabilityEvidence, documented, observed,
  simulated, no_evidence, CapabilityClaim,
}
use systeme_local.Experience.{
  AvailabilityState, available, unavailable, degraded, unknown as unknown_availability,
}
use systeme_local.Store.Equal.{option_eq}

pub data PlanKind : Type 0 where
  free paid managed unknown_plan : PlanKind

pub record ProviderContextCapabilities : Type 0 where
  pub can_create_projects : CapabilityClaim
  pub can_enumerate_projects : CapabilityClaim
  pub exposes_project_id : CapabilityClaim
  pub can_create_conversations : CapabilityClaim
  pub can_enumerate_conversations : CapabilityClaim
  pub exposes_conversation_id : CapabilityClaim

pub record ProviderAccountProfile : Type 0 where
  pub account_id : String
  pub provider : String
  pub surface : String
  pub provider_account_id : Option String
  pub plan_kind : PlanKind
  pub plan_code : Option String
  pub availability : AvailabilityState
  pub profile_evidence : CapabilityEvidence
  pub work_capability : CapabilityClaim
  pub context_capabilities : ProviderContextCapabilities
  pub revision : ℕ
  pub created_at : ℕ
  pub updated_at : ℕ

abbrev plan_eq : PlanKind → PlanKind → Bool
plan_eq free free = true
plan_eq paid paid = true
plan_eq managed managed = true
plan_eq unknown_plan unknown_plan = true
plan_eq _ _ = false

abbrev support_eq : CapabilitySupport → CapabilitySupport → Bool
support_eq supported supported = true
support_eq unsupported unsupported = true
support_eq unknown unknown = true
support_eq _ _ = false

abbrev evidence_eq : CapabilityEvidence → CapabilityEvidence → Bool
evidence_eq documented documented = true
evidence_eq observed observed = true
evidence_eq simulated simulated = true
evidence_eq no_evidence no_evidence = true
evidence_eq _ _ = false

abbrev claim_eq : CapabilityClaim → CapabilityClaim → Bool
claim_eq a b = support_eq a.state b.state && evidence_eq a.evidence b.evidence

abbrev availability_eq : AvailabilityState → AvailabilityState → Bool
availability_eq available available = true
availability_eq unavailable unavailable = true
availability_eq degraded degraded = true
availability_eq unknown_availability unknown_availability = true
availability_eq _ _ = false

unfoldable pub capabilities_eq : ProviderContextCapabilities → ProviderContextCapabilities → Bool
capabilities_eq a b =
    claim_eq a.can_create_projects b.can_create_projects
    && claim_eq a.can_enumerate_projects b.can_enumerate_projects
    && claim_eq a.exposes_project_id b.exposes_project_id
    && claim_eq a.can_create_conversations b.can_create_conversations
    && claim_eq a.can_enumerate_conversations b.can_enumerate_conversations
    && claim_eq a.exposes_conversation_id b.exposes_conversation_id

unfoldable pub profile_eq : ProviderAccountProfile → ProviderAccountProfile → Bool
unfolding capabilities_eq
profile_eq a b =
    str_eq a.account_id b.account_id
    && str_eq a.provider b.provider
    && str_eq a.surface b.surface
    && option_eq a.provider_account_id b.provider_account_id
    && plan_eq a.plan_kind b.plan_kind
    && option_eq a.plan_code b.plan_code
    && availability_eq a.availability b.availability
    && evidence_eq a.profile_evidence b.profile_evidence
    && claim_eq a.work_capability b.work_capability
    && capabilities_eq a.context_capabilities b.context_capabilities
    && a.revision == b.revision
    && a.created_at == b.created_at
    && a.updated_at == b.updated_at
