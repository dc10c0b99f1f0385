-- ===== src/Lifecycle/Examples.antt =====
-- Runs of a provider at concrete events, and the theorems at them.
use systeme_local.Prelude.{ℕ, String, ◌≡◌, refl, true, ◌&&◌, none, is_some, ok, err}
use systeme_local.Lifecycle.Events.{
  ProviderRun, completed, Payload, response_started, response_terminal, output_validated,
  audit_persisted, LifecycleEvent, valid_event,
}
use systeme_local.Lifecycle.{
  ProviderRunState, initial_run_state, apply_payload, require_active_response, check_new, sign_off,
  apply_new, replay_event, apply_lifecycle_event, delegation_terminal, delegation_completed,
  is_completed, invalid_transition, event_sequence_gap,
}
use systeme_local.Lifecycle.Invariant.{
  IsConsistent, IsNumbered, Reaches, here, further, reached-IsConsistent, reached_terminal_iff,
}
use systeme_local.Lifecycle.Replay.{accepted_again, audited_is_final}

abbrev run : ProviderRun
run = record {
  run_id = "r";
  conversation_id = "c";
  turn_id = "t";
  trace_id = "x";
  idempotency_key = "k";
  provider = "p";
  surface = "s";
  started_at = 5;
  provider_run_id = none;
}

abbrev print : LifecycleEvent → String
print event = event.event_id

abbrev event_of : ℕ → String → Payload → LifecycleEvent
event_of n id p = record {
  event_id = id;
  run_id = "r";
  sequence = n;
  observed_at = 10;
  provider_event_id = none;
  payload = p;
}

abbrev started : LifecycleEvent
started = event_of 1 "e1" (response_started "resp")

abbrev ended : LifecycleEvent
ended = event_of 2 "e2" (response_terminal completed none)

abbrev validated : LifecycleEvent
validated = event_of 3 "e3" (output_validated "d" none)

abbrev audited : LifecycleEvent
audited = event_of 4 "e4" (audit_persisted "a" "h")

abbrev early : LifecycleEvent
early = event_of 3 "e3" (audit_persisted "a" "h")

abbrev after : ProviderRunState → LifecycleEvent → ProviderRunState
after s event = elim (apply_lifecycle_event print s event) [ ok updated ↦ updated | err e ↦ s ]

abbrev s1 : ProviderRunState
s1 = after (initial_run_state run) started

abbrev s2 : ProviderRunState
s2 = after s1 ended

abbrev s3 : ProviderRunState
s3 = after s2 validated

abbrev s4 : ProviderRunState
s4 = after s3 audited

all_valid :
    (valid_event started && valid_event ended && valid_event validated && valid_event audited)
    ≡ true
unfolding valid_event
all_valid = refl

-- the audit of a completed response waits for the validation
audit_too_early : apply_lifecycle_event print s2 early ≡ err invalid_transition
unfolding apply_lifecycle_event apply_new check_new apply_payload require_active_response sign_off
audit_too_early = refl

out_of_order : apply_lifecycle_event print s1 validated ≡ err event_sequence_gap
unfolding apply_lifecycle_event apply_new check_new apply_payload require_active_response sign_off
out_of_order = refl

Reaches-s2 : Reaches print (initial_run_state run) s2
unfolding apply_lifecycle_event apply_new check_new apply_payload require_active_response sign_off
Reaches-s2 = further {t = s1} ended (further {t = initial_run_state run} started here refl) refl

ends_twice : apply_lifecycle_event print s2 ended ≡ ok s2
unfolding apply_lifecycle_event apply_new check_new apply_payload require_active_response sign_off
    replay_event
ends_twice = refl

s2_to_s4 : Reaches print s2 s4
unfolding apply_lifecycle_event apply_new check_new apply_payload require_active_response sign_off
s2_to_s4 = further {t = s3} audited (further {t = s2} validated here refl) refl

Reaches-s4 : Reaches print (initial_run_state run) s4
unfolding apply_lifecycle_event apply_new check_new apply_payload require_active_response sign_off
Reaches-s4 = further {t = s3} audited (further {t = s2} validated Reaches-s2 refl) refl

s4_again : Reaches print s4 s4
unfolding apply_lifecycle_event apply_new check_new apply_payload require_active_response sign_off
    replay_event
s4_again = further {t = s4} ended here refl

reached-IsConsistent_example : IsConsistent s4 × IsNumbered s4
reached-IsConsistent_example = reached-IsConsistent print run Reaches-s4

reached_terminal_iff_example :
    (delegation_terminal s4 ≡ is_some s4.audit_id)
    × (delegation_completed s4 ≡ (is_completed s4.response_status && is_some s4.audit_id))
reached_terminal_iff_example = reached_terminal_iff print run Reaches-s4

accepted_again_example : apply_lifecycle_event print s4 ended ≡ ok s4
unfolding apply_lifecycle_event apply_new check_new apply_payload require_active_response sign_off
accepted_again_example =
    accepted_again print run ended {s = s1} {t = s2} {u = s4}
      (further {t = initial_run_state run} started here refl) refl s2_to_s4

audited_is_final_example : s4 ≡ s4
unfolding apply_lifecycle_event apply_new check_new apply_payload require_active_response sign_off
audited_is_final_example = audited_is_final print {s = s4} {t = s4} refl s4_again
