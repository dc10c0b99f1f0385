-- ===== src/Lifecycle/Invariant.antt =====
-- What holds of the state of a run after any events.
use systeme_local.Prelude.{
  ℕ, ◌+◌, ◌≤◌, String, ◌≡◌, refl, sym, ap, ◌∙◌, ◌≢◌, inl, inr, true, false, ◌&&◌, Option, none,
  some, List, [], ◌∷◌, ◌++◌, arith, str_eq, leb, leb→le, Bool-cases, is_some, Result, ok, err, Post,
  Post-ok, Post-bind, Post-then, length, any, find, length-append, All, All-append, Distinct,
  str_eq_comm, Distinct-append, has_key, dict_set, dict_pop, has_key-dict_set, has_key-dict_pop,
  All-dict_set, All-dict_pop,
}
use mathlib.Core.Path.{subst}
use systeme_local.Lifecycle.Events.{
  ProviderRun, Payload, response_started, output_digest_delta, tool_call_requested,
  tool_call_resolved, approval_requested, approval_resolved, response_terminal, output_validated,
  audit_persisted, LifecycleEvent,
}
use systeme_local.Lifecycle.{
  LifecycleError, AppliedEventReceipt, ToolCallState, ProviderRunState, initial_run_state,
  is_completed, is_idle, has_value, delegation_completed, delegation_terminal,
  require_active_response, apply_payload, receipt_of, replay_event, check_new, sign_off, apply_new,
  apply_lifecycle_event, of_event, at_sequence,
}

pub err-ne-ok {ℓ} :
    {B : Type ℓ} {e : LifecycleError} {b : B} → ◌≢◌ {A = Result LifecycleError B} (err e) (ok b)
err-ne-ok h = cc

abbrev Refers : List (String × ToolCallState) → String × String → Type 0
Refers calls approval = has_key approval.1 calls ≡ true

-- How the response, the local work, the validation and the audit follow one another.
pub record IsConsistent (s : ProviderRunState) : Type 0 where
  pub terminal_started : is_some s.response_status ≡ true → s.response_started ≡ true
  pub terminal_idle : is_some s.response_status ≡ true → is_idle s ≡ true
  pub validated_completed : s.output_validated ≡ true → is_completed s.response_status ≡ true
  pub audited_terminal : is_some s.audit_id ≡ true → is_some s.response_status ≡ true
  pub audited_validated :
      is_some s.audit_id ≡ true → is_completed s.response_status ≡ true → s.output_validated ≡ true
  pub approvals_refer : All (Refers s.pending_tool_calls) s.pending_approvals

Refers-dict_set :
    (id : String) (call : ToolCallState) (calls : List (String × ToolCallState))
    (l : List (String × String))
    → All (Refers calls) l
    → All (Refers (dict_set id call calls)) l
Refers-dict_set id call calls [] h = h
Refers-dict_set id call calls (a ∷ l) h =
    (ground (arith, has_key-dict_set id a.1 call calls, h.0), Refers-dict_set id call calls l h.1)

Refers-dict_pop :
    (id : String) (calls : List (String × ToolCallState)) (l : List (String × String))
    → any (has_value id) l ≡ false
    → All (Refers calls) l
    → All (Refers (dict_pop id calls)) l
Refers-dict_pop id calls [] free h = h
Refers-dict_pop id calls (a ∷ l) free h = (
  ground (arith, has_key-dict_pop id a.1 calls, h.0, str_eq_comm a.1 id),
  Refers-dict_pop id calls l (ground arith) h.1,
)

-- a run at work: nothing is terminal, validated or audited
working :
    (s : ProviderRunState)
    → IsConsistent s
    → require_active_response s ≡ ok tt
    → (s.response_started ≡ true) × (is_some s.response_status ≡ false)
unfolding require_active_response
working s h e = ground arith

apply_payload-IsConsistent :
    (p : Payload) (s s' : ProviderRunState)
    → is_some s.audit_id ≡ false
    → IsConsistent s
    → apply_payload p s ≡ ok s'
    → IsConsistent s'
unfolding apply_payload require_active_response
apply_payload-IsConsistent (response_started id) s s' open_ h e = ground arith
apply_payload-IsConsistent (output_digest_delta digest bytes) s s' open_ h e = ground arith
apply_payload-IsConsistent (tool_call_requested id provider_id name arguments) s s' open_ h e =
    ground (
      arith,
      Refers-dict_set id
          (record {
            tool_call_id = id;
            provider_tool_call_id = provider_id;
            tool_name = name;
            arguments_sha256 = arguments;
            outcome = none;
            result_sha256 = none;
          })
          s.pending_tool_calls s.pending_approvals h.approvals_refer,
    )
apply_payload-IsConsistent (tool_call_resolved id outcome result) s s' open_ h e =
    ground (arith, Refers-dict_pop id s.pending_tool_calls s.pending_approvals)
apply_payload-IsConsistent (approval_requested approval_id id) s s' open_ h e =
    ground (arith, All-dict_set (Refers s.pending_tool_calls) approval_id id s.pending_approvals)
apply_payload-IsConsistent (approval_resolved approval_id decision) s s' open_ h e = ground (
  arith,
  All-dict_pop (Refers s.pending_tool_calls) approval_id s.pending_approvals h.approvals_refer,
)
apply_payload-IsConsistent (response_terminal status code) s s' open_ h e = ground arith
apply_payload-IsConsistent (output_validated digest schema) s s' open_ h e = ground arith
apply_payload-IsConsistent (audit_persisted audit_id receipt) s s' open_ h e = ground arith

-- What is recorded of the applied events: they are numbered without a gap, and have their own
-- identifiers.
pub record IsNumbered (s : ProviderRunState) : Type 0 where
  pub counted : length s.applied_events ≡ s.last_sequence
  pub numbered : All (λ r. r.sequence ≤ s.last_sequence) s.applied_events
  pub one_each : Distinct (λ (r : AppliedEventReceipt). r.event_id) s.applied_events

All-mono :
    (n m : ℕ) (l : List AppliedEventReceipt)
    → n ≤ m
    → All (λ r. r.sequence ≤ n) l
    → All (λ r. r.sequence ≤ m) l
All-mono n m [] le h = h
All-mono n m (r ∷ l) le h = (omega arith, All-mono n m l le h.1)

-- the branches on the kind of event leave these fields alone
pub apply_payload_frame :
    (p : Payload) (s s' : ProviderRunState)
    → apply_payload p s ≡ ok s'
    → (s'.applied_events ≡ s.applied_events)
      × (s'.last_sequence ≡ s.last_sequence)
      × (s'.run ≡ s.run)
unfolding apply_payload
apply_payload_frame (response_started id) s s' e = ground arith
apply_payload_frame (output_digest_delta digest bytes) s s' e = ground arith
apply_payload_frame (tool_call_requested id provider_id name arguments) s s' e = ground arith
apply_payload_frame (tool_call_resolved id outcome result) s s' e = ground arith
apply_payload_frame (approval_requested approval_id id) s s' e = ground arith
apply_payload_frame (approval_resolved approval_id decision) s s' e = ground arith
apply_payload_frame (response_terminal status code) s s' e = ground arith
apply_payload_frame (output_validated digest schema) s s' e = ground arith
apply_payload_frame (audit_persisted audit_id receipt) s s' e = ground arith

module _ (fingerprint : LifecycleEvent → String) where
  -- an accepted event is either a replay, which changes nothing, or the next one
  pub data Accepted (s : ProviderRunState) (event : LifecycleEvent) (s' : ProviderRunState)
      : Type 0 where
    replayed : event.sequence ≤ s.last_sequence → s' ≡ s → Accepted s event s'
    advanced :
        (updated : ProviderRunState)
        → event.sequence ≡ s.last_sequence + 1
        → is_some s.audit_id ≡ false
        → any (of_event event.event_id) s.applied_events ≡ false
        → apply_payload event.payload s ≡ ok updated
        → s' ≡ sign_off fingerprint event updated
        → Accepted s event s'

  replay_event_same :
      (event : LifecycleEvent) (o : Option AppliedEventReceipt) (s s' : ProviderRunState)
      → replay_event fingerprint event o s ≡ ok s'
      → s' ≡ s
  unfolding replay_event
  replay_event_same event none s s' h = cc
  replay_event_same event (some r) s s' h = ground arith

  check_new-ok :
      (event : LifecycleEvent) (s : ProviderRunState)
      → check_new fingerprint event s ≡ ok tt
      → (event.sequence ≡ s.last_sequence + 1)
        × (is_some s.audit_id ≡ false)
        × (any (of_event event.event_id) s.applied_events ≡ false)
  unfolding check_new
  check_new-ok event s h = ground arith

  abbrev NextState : LifecycleEvent → ProviderRunState → ProviderRunState → Type 0
  NextState event s s' = Accepted s event s'

  apply_new-Accepted :
      (event : LifecycleEvent) (s : ProviderRunState)
      → Post (NextState event s) (apply_new fingerprint event s)
  unfolding apply_new
  apply_new-Accepted event s = Post-then (check_new fingerprint event s) _ (λ checked.
      Post-bind (apply_payload event.payload s) _ (λ updated applied.
        let (next, open_, fresh) = check_new-ok event s checked in
        Post-ok (advanced updated next open_ fresh applied refl)))

  pub apply-Accepted :
      (s : ProviderRunState) (event : LifecycleEvent) (s' : ProviderRunState)
      → apply_lifecycle_event fingerprint s event ≡ ok s'
      → Accepted s event s'
  unfolding apply_lifecycle_event
  apply-Accepted s event s' h = elim (Bool-cases (str_eq event.run_id s.run.run_id)) [
    | inr other ↦ absurd (err-ne-ok (rw (other, apply_lifecycle_event) at h))
    | inl own ↦ elim (Bool-cases (leb event.sequence s.last_sequence)) [
      | inl old ↦ replayed (leb→le _ _ old) (
          replay_event_same event (find (at_sequence event.sequence) s.applied_events) s s'
            (rw (own, old, apply_lifecycle_event) at h))
      | inr new ↦ (apply_new-Accepted event s).at s' (rw (own, new, apply_lifecycle_event) at h)
    ]
  ]

  apply-IsConsistent :
      (s : ProviderRunState) (event : LifecycleEvent) (s' : ProviderRunState)
      → IsConsistent s
      → Accepted s event s'
      → IsConsistent s'
  unfolding sign_off
  apply-IsConsistent s event s' h (replayed old same) = subst IsConsistent (sym same) h
  apply-IsConsistent s event s' h (advanced updated next open_ fresh applied signed) =
      let k = apply_payload-IsConsistent event.payload s updated open_ h applied in
      subst IsConsistent (sym signed) (record {
        terminal_started = k.terminal_started;
        terminal_idle = k.terminal_idle;
        validated_completed = k.validated_completed;
        audited_terminal = k.audited_terminal;
        audited_validated = k.audited_validated;
        approvals_refer = k.approvals_refer;
      })

  apply-IsNumbered :
      (s : ProviderRunState) (event : LifecycleEvent) (s' : ProviderRunState)
      → IsNumbered s
      → Accepted s event s'
      → IsNumbered s'
  unfolding sign_off
  apply-IsNumbered s event s' h (replayed old same) = subst IsNumbered (sym same) h
  apply-IsNumbered s event s' h (advanced updated next open_ fresh applied signed) =
      let (events, last, _) = apply_payload_frame event.payload s updated applied in
      let r = receipt_of fingerprint event in
      subst IsNumbered (sym signed) (record {
        counted =
            ap (λ l. length (l ++ r ∷ [])) events
            ∙ omega (arith, length-append s.applied_events (r ∷ []), h.counted);
        numbered = rw events (
            All-append (λ x. x.sequence ≤ event.sequence) s.applied_events (r ∷ [])
              (All-mono s.last_sequence event.sequence s.applied_events (omega arith) h.numbered)
              (omega arith));
        one_each = rw events (
            Distinct-append (λ (x : AppliedEventReceipt). x.event_id) r s.applied_events h.one_each
              fresh);
      })

  -- The states that a run can come to: by accepted events, one after the other.
  pub data Reaches (s : ProviderRunState) : ProviderRunState → Type 0 where
    here : Reaches s s
    further :
        {t u : ProviderRunState} (event : LifecycleEvent)
        → Reaches s t
        → apply_lifecycle_event fingerprint t event ≡ ok u
        → Reaches s u

  pub Reaches-IsConsistent :
      {s t : ProviderRunState} → IsConsistent s → Reaches s t → IsConsistent t
  Reaches-IsConsistent h here = h
  Reaches-IsConsistent h (further {t} {u} event r e) =
      apply-IsConsistent t event u (Reaches-IsConsistent h r) (apply-Accepted t event u e)

  pub Reaches-IsNumbered : {s t : ProviderRunState} → IsNumbered s → Reaches s t → IsNumbered t
  Reaches-IsNumbered h here = h
  Reaches-IsNumbered h (further {t} {u} event r e) =
      apply-IsNumbered t event u (Reaches-IsNumbered h r) (apply-Accepted t event u e)

  initial-IsConsistent : (run : ProviderRun) → IsConsistent (initial_run_state run)
  initial-IsConsistent run = ground arith

  pub initial-IsNumbered : (run : ProviderRun) → IsNumbered (initial_run_state run)
  initial-IsNumbered run = record { counted = refl; numbered = tt; one_each = tt }

  -- In every state that a run reaches from its start: a response that has ended was started and
  -- leaves no tool call or approval pending; the output was validated only after a completed
  -- response; the audit was persisted only after the end, and after the validation where the
  -- response completed; each pending approval refers to a pending tool call; and the applied events
  -- are as many as the last sequence number, with no identifier twice.
  pub reached-IsConsistent :
      (run : ProviderRun) {s : ProviderRunState}
      → Reaches (initial_run_state run) s
      → IsConsistent s × IsNumbered s
  reached-IsConsistent run r = (
    Reaches-IsConsistent (initial-IsConsistent run) r,
    Reaches-IsNumbered (initial-IsNumbered run) r,
  )

  -- In every state that a run reaches, the delegation counts as terminal exactly if its audit was
  -- persisted, and as completed exactly if moreover the response's status is completed.
  pub reached_terminal_iff :
      (run : ProviderRun) {s : ProviderRunState}
      → Reaches (initial_run_state run) s
      → (delegation_terminal s ≡ is_some s.audit_id)
        × (delegation_completed s ≡ (is_completed s.response_status && is_some s.audit_id))
  unfolding delegation_terminal delegation_completed
  reached_terminal_iff run {s} r =
      let h = Reaches-IsConsistent (initial-IsConsistent run) r in ground arith
