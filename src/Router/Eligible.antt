-- ===== src/Router/Eligible.antt =====
-- Which profiles the three selections of brains/router.py may name, said on the profile's fields.
use systeme_local.Prelude.{◌<◌, ◌≡◌, refl, ◌≢◌, ◌⊎◌, Bool, true, ◌&&◌, arith, ltb}
use systeme_local.Router.{
  BrainTransport, mcp_client, official_api, interactive_handoff, Availability, available, degraded,
  temporary_capacity, rate_limited, quota_exhausted, user_action_required, offline, unknown, Mode,
  autonomous_outbound, inbound_claim, handoff, BrainProfile, BrainRequest, is_official_api,
  is_mcp_client, is_interactive, is_outbound_state, is_claim_state, is_handoff_state,
  common_eligibility, outbound_eligible, inbound_eligible, handoff_eligible,
}

-- the transport of each way to reach a brain
abbrev pub transport_of : Mode → BrainTransport
transport_of autonomous_outbound = official_api
transport_of inbound_claim = mcp_client
transport_of handoff = interactive_handoff

-- the states in which each of them is possible
abbrev pub InState : Mode → Availability → Type 0
InState autonomous_outbound a = (a ≡ available) ⊎ (a ≡ degraded)
InState inbound_claim a = (a ≡ available) ⊎ ((a ≡ degraded) ⊎ (a ≡ unknown))
InState handoff a = (a ≢ offline) × (a ≢ quota_exhausted)

pub record IsEligible (mode : Mode) (request : BrainRequest) (p : BrainProfile) : Type 0 where
  pub enabled : p.enabled ≡ true
  pub has_room : p.active_tasks < p.max_parallel_tasks
  pub capable : p.capabilities request.capability ≡ true
  pub allowed : p.allowed_data_classes request.data_class ≡ true
  pub reached_by : p.transport ≡ transport_of mode
  pub in_state : InState mode p.availability

-- the code's filter for each way
abbrev pub filter_of : Mode → BrainRequest → BrainProfile → Bool
filter_of autonomous_outbound = outbound_eligible
filter_of inbound_claim = inbound_eligible
filter_of handoff = handoff_eligible

abbrev pub is_transport : Mode → BrainTransport → Bool
is_transport autonomous_outbound = is_official_api
is_transport inbound_claim = is_mcp_client
is_transport handoff = is_interactive

abbrev pub is_state : Mode → Availability → Bool
is_state autonomous_outbound = is_outbound_state
is_state inbound_claim = is_claim_state
is_state handoff = is_handoff_state

filter-parts :
    (mode : Mode) (request : BrainRequest) (p : BrainProfile)
    → filter_of mode request p ≡ (
        common_eligibility request p
        && is_transport mode p.transport
        && is_state mode p.availability)
filter-parts autonomous_outbound request p = refl
filter-parts inbound_claim request p = refl
filter-parts handoff request p = refl

transport→ : (mode : Mode) (t : BrainTransport) → is_transport mode t ≡ true → t ≡ transport_of mode
transport→ autonomous_outbound official_api h = refl
transport→ autonomous_outbound mcp_client h = cc
transport→ autonomous_outbound interactive_handoff h = cc
transport→ inbound_claim official_api h = cc
transport→ inbound_claim mcp_client h = refl
transport→ inbound_claim interactive_handoff h = cc
transport→ handoff official_api h = cc
transport→ handoff mcp_client h = cc
transport→ handoff interactive_handoff h = refl

←transport : (mode : Mode) (t : BrainTransport) → t ≡ transport_of mode → is_transport mode t ≡ true
←transport autonomous_outbound t h = rw h refl
←transport inbound_claim t h = rw h refl
←transport handoff t h = rw h refl

state→ : (mode : Mode) (a : Availability) → is_state mode a ≡ true → InState mode a
state→ autonomous_outbound a h = ground arith
state→ inbound_claim a h = ground arith
state→ handoff a h = ((λ q. ground arith), (λ q. ground arith))

←state : (mode : Mode) (a : Availability) → InState mode a → is_state mode a ≡ true
←state autonomous_outbound a h = ground arith
←state inbound_claim a h = ground arith
←state handoff offline h = absurd (h.0 refl)
←state handoff quota_exhausted h = absurd (h.1 refl)
←state handoff available h = refl
←state handoff degraded h = refl
←state handoff temporary_capacity h = refl
←state handoff rate_limited h = refl
←state handoff user_action_required h = refl
←state handoff unknown h = refl

pub filter-IsEligible :
    (mode : Mode) (request : BrainRequest) (p : BrainProfile)
    → filter_of mode request p ≡ true
    → IsEligible mode request p
filter-IsEligible mode request p h =
    let t = rw (filter-parts mode request p) at h in
    record {
      enabled = ground arith;
      has_room = ground arith;
      capable = ground arith;
      allowed = ground arith;
      reached_by = transport→ mode p.transport (ground arith);
      in_state = state→ mode p.availability (ground arith);
    }

pub IsEligible-filter :
    (mode : Mode) (request : BrainRequest) (p : BrainProfile)
    → IsEligible mode request p
    → filter_of mode request p ≡ true
IsEligible-filter mode request p h =
    let room : ltb p.active_tasks p.max_parallel_tasks ≡ true =
      let r = h.has_room in ground arith in
    rw
      (
        filter-parts mode request p,
        h.enabled,
        room,
        h.capable,
        h.allowed,
        ←transport mode p.transport h.reached_by,
        ←state mode p.availability h.in_state,
      )
      refl
