-- ===== src/Router.antt =====
-- src/systeme_local_gateway/brains/router.py: the choice of a remote intelligence for a request,
-- with the models of src/systeme_local_gateway/brains/models.py that it reads. Priorities are
-- counted from -10 000, their least value. Display names and the flag on quotas are left out.
mod Eligible
mod Choice
mod Sound
mod Examples
use Prim.Native.Nat.{Ordering}
use Prim.Native.String.{compare, ◌++◌ as ◌^◌}
use systeme_local.Prelude.{
  ℕ, zero, suc, ◌+◌, ◌-◌, ◌*◌, ◌≤◌, ◌<◌, String, ◌≡◌, refl, sym, ap, ◌∙◌, ◌≢◌, ◌↔◌, ◌⊎◌, inl, inr,
  Bool, true, false, not, ◌&&◌, ◌||◌, Option, none, some, List, [], ◌∷◌, ◌++◌, map, arith, str_eq,
  eq_iff, eq_refl, ltb, leb, ◌==◌, if◌then◌else◌, leb→le, Bool-cases, Option-cases, is_some, Result,
  ok, err, ◌>>=◌, ◌>>◌, raise_if, Method, commit_or_rollback, Post, Post-ok, Post-err, Post-bind,
  Post-then, raise_if-ok, Post-commit, committed, length, any, find, keep, length-append,
  length-keep, All, All-append, any-append, All-keep, any-keep, keep-keep, find-all_false,
  find-true, All-find, Distinct, str_eq_comm, Distinct-keep, Distinct-append, has_key, dict_get,
  dict_set, dict_pop, has_key-dict_set, has_key-dict_pop, All-dict_set, All-dict_pop,
}

pub data BrainTransport : Type 0 where
  mcp_client official_api interactive_handoff : BrainTransport

pub data Availability : Type 0 where
  available degraded temporary_capacity rate_limited quota_exhausted user_action_required offline
        unknown :
      Availability

pub data BrainCapability : Type 0 where
  general_reasoning coding architecture debugging security_review long_context structured_output
        tool_use :
      BrainCapability

pub data DataClass : Type 0 where
  public internal confidential : DataClass

pub data Mode : Type 0 where
  autonomous_outbound inbound_claim handoff : Mode

pub data RouterError : Type 0 where
  no_eligible_brain : RouterError

-- The sets are predicates.
pub record BrainProfile : Type 0 where
  pub provider_id : String
  pub transport : BrainTransport
  pub capabilities : BrainCapability → Bool
  pub priority : ℕ
  pub enabled : Bool
  pub availability : Availability
  pub max_parallel_tasks : ℕ
  pub active_tasks : ℕ
  pub allowed_data_classes : DataClass → Bool

pub record BrainRequest : Type 0 where
  pub task_id : String
  pub capability : BrainCapability
  pub data_class : DataClass
  pub preferred_provider_id : Option String
  pub allow_fallback : Bool

pub record RouteDecision : Type 0 where
  pub provider_id : String
  pub transport : BrainTransport
  pub mode : Mode
  pub reason : String

-- `validate_parallelism` and the bounds
pub valid_profile : BrainProfile → Bool
valid_profile p =
    leb p.active_tasks p.max_parallel_tasks
    && leb p.priority 20_000
    && leb 1 p.max_parallel_tasks
    && leb p.max_parallel_tasks 128

abbrev pub has_capacity : BrainProfile → Bool
has_capacity p = ltb p.active_tasks p.max_parallel_tasks

abbrev pub common_eligibility : BrainRequest → BrainProfile → Bool
common_eligibility request p =
    p.enabled
    && has_capacity p
    && p.capabilities request.capability
    && p.allowed_data_classes request.data_class

abbrev pub is_official_api : BrainTransport → Bool
is_official_api official_api = true
is_official_api _ = false

abbrev pub is_mcp_client : BrainTransport → Bool
is_mcp_client mcp_client = true
is_mcp_client _ = false

abbrev pub is_interactive : BrainTransport → Bool
is_interactive interactive_handoff = true
is_interactive _ = false

-- `_OUTBOUND_STATES`
abbrev pub is_outbound_state : Availability → Bool
is_outbound_state available = true
is_outbound_state degraded = true
is_outbound_state _ = false

-- `_CLAIM_STATES`
abbrev pub is_claim_state : Availability → Bool
is_claim_state available = true
is_claim_state degraded = true
is_claim_state unknown = true
is_claim_state _ = false

abbrev pub is_handoff_state : Availability → Bool
is_handoff_state offline = false
is_handoff_state quota_exhausted = false
is_handoff_state _ = true

abbrev capability_value : BrainCapability → String
capability_value general_reasoning = "general_reasoning"
capability_value coding = "coding"
capability_value architecture = "architecture"
capability_value debugging = "debugging"
capability_value security_review = "security_review"
capability_value long_context = "long_context"
capability_value structured_output = "structured_output"
capability_value tool_use = "tool_use"

abbrev availability_value : Availability → String
availability_value available = "available"
availability_value degraded = "degraded"
availability_value temporary_capacity = "temporary_capacity"
availability_value rate_limited = "rate_limited"
availability_value quota_exhausted = "quota_exhausted"
availability_value user_action_required = "user_action_required"
availability_value offline = "offline"
availability_value unknown = "unknown"

abbrev transport_value : BrainTransport → String
transport_value mcp_client = "mcp_client"
transport_value official_api = "official_api"
transport_value interactive_handoff = "interactive_handoff"

abbrev pub is_preferred : BrainRequest → BrainProfile → Bool
is_preferred request p = elim request.preferred_provider_id [
  | none ↦ false
  | some id ↦ str_eq id p.provider_id
]

reason_for : BrainRequest → BrainProfile → String
reason_for request p =
    "selected as "
    ^ (if is_preferred request p then "preferred provider" else "highest eligible priority")
    ^ "; capability="
    ^ capability_value request.capability
    ^ "; availability="
    ^ availability_value p.availability
    ^ "; transport="
    ^ transport_value p.transport

abbrev text_before : String → String → Bool
text_before s t = elim (compare s t) [ Ordering.lt ↦ true | _ ↦ false ]

-- the order of the keys `(-priority, provider_id)`
abbrev pub comes_before : BrainProfile → BrainProfile → Bool
comes_before p q =
    ltb q.priority p.priority
    || (p.priority == q.priority && text_before p.provider_id q.provider_id)

-- `min`, which keeps the first of equal keys
pub first_of : BrainProfile → List BrainProfile → BrainProfile
first_of best [] = best
first_of best (p ∷ rest) = first_of (if comes_before p best then p else best) rest

-- `by_id.get`: a later profile replaces an earlier one with its identifier
pub by_id : String → List BrainProfile → Option BrainProfile
by_id id [] = none
by_id id (p ∷ rest) = elim (by_id id rest) [
  | some later ↦ some later
  | none ↦ if str_eq p.provider_id id then some p else none
]

-- an empty text is no preference
abbrev pub preference : Option String → Option String
preference none = none
preference (some id) = if str_eq id "" then none else some id

pub or_fallback : Bool → BrainProfile → Option BrainProfile → Result RouterError BrainProfile
or_fallback allow first (some preferred) = ok preferred
or_fallback true first none = ok first
or_fallback false first none = err no_eligible_brain

pub select_from : BrainRequest → Option String → List BrainProfile → Result RouterError BrainProfile
select_from request wanted [] = err no_eligible_brain
select_from request none (p ∷ rest) = ok (first_of p rest)
select_from request (some id) (p ∷ rest) =
    or_fallback request.allow_fallback (first_of p rest) (by_id id (p ∷ rest))

pub select : BrainRequest → List BrainProfile → Result RouterError BrainProfile
select request eligible = select_from request (preference request.preferred_provider_id) eligible

abbrev decision_for : Mode → BrainRequest → BrainProfile → RouteDecision
unfolding reason_for
decision_for mode request p = record {
  provider_id = p.provider_id;
  transport = p.transport;
  mode = mode;
  reason = reason_for request p;
}

abbrev pub outbound_eligible : BrainRequest → BrainProfile → Bool
outbound_eligible request p =
    common_eligibility request p && is_official_api p.transport && is_outbound_state p.availability

abbrev pub inbound_eligible : BrainRequest → BrainProfile → Bool
inbound_eligible request p =
    common_eligibility request p && is_mcp_client p.transport && is_claim_state p.availability

abbrev pub handoff_eligible : BrainRequest → BrainProfile → Bool
handoff_eligible request p =
    common_eligibility request p && is_interactive p.transport && is_handoff_state p.availability

pub select_outbound : BrainRequest → List BrainProfile → Result RouterError RouteDecision
select_outbound request profiles = do
  selected ← select request (keep (outbound_eligible request) profiles)
  ok (decision_for autonomous_outbound request selected)

pub select_inbound_claimant : BrainRequest → List BrainProfile → Result RouterError RouteDecision
select_inbound_claimant request profiles = do
  selected ← select request (keep (inbound_eligible request) profiles)
  ok (decision_for inbound_claim request selected)

pub select_interactive_handoff : BrainRequest → List BrainProfile → Result RouterError RouteDecision
select_interactive_handoff request profiles = do
  selected ← select request (keep (handoff_eligible request) profiles)
  ok (decision_for handoff request selected)
