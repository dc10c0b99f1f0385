-- ===== src/Lifecycle/Replay.antt =====
-- Events that arrive again, and events after the audit.
use systeme_local.Prelude.{
  find-append, ℕ, ◌+◌, ◌≤◌, String, ◌≡◌, refl, sym, ◌∙◌, inl, inr, true, false, ◌&&◌, Option, none,
  some, List, [], ◌∷◌, ◌++◌, arith, str_eq, eq_refl, leb, leb→le, Bool-cases, is_some, ok, find,
  All,
}
use mathlib.Core.Path.{subst}
use systeme_local.Lifecycle.Events.{ProviderRun, LifecycleEvent}
use systeme_local.Lifecycle.{
  AppliedEventReceipt, ProviderRunState, initial_run_state, receipt_of, replay_event, sign_off,
  apply_lifecycle_event, at_sequence,
}
use systeme_local.Lifecycle.Invariant.{
  IsNumbered, Accepted, replayed, advanced, apply-Accepted, Reaches, here, further,
  Reaches-IsNumbered, initial-IsNumbered, apply_payload_frame, err-ne-ok,
}

find-append_new :
    (n : ℕ) (xs : List AppliedEventReceipt) (r : AppliedEventReceipt)
    → All (λ x. x.sequence ≤ n) xs
    → r.sequence ≡ n + 1
    → find (at_sequence r.sequence) (xs ++ r ∷ []) ≡ some r
find-append_new n [] r h e = ground arith
find-append_new n (x ∷ xs) r h e = ground (arith, find-append_new n xs r h.1 e, h.0)

module _ (fingerprint : LifecycleEvent → String) where
  pub record IsReceived (event : LifecycleEvent) (s : ProviderRunState) : Type 0 where
    pub own : str_eq event.run_id s.run.run_id ≡ true
    pub numbered : event.sequence ≤ s.last_sequence
    pub receipt : AppliedEventReceipt
    pub found : find (at_sequence event.sequence) s.applied_events ≡ some receipt
    pub same :
        (str_eq receipt.event_id event.event_id && str_eq receipt.fingerprint (fingerprint event))
        ≡ true

  replay_event_found :
      (event : LifecycleEvent) (o : Option AppliedEventReceipt) (s s' : ProviderRunState)
      → replay_event fingerprint event o s ≡ ok s'
      → (r : AppliedEventReceipt) × (o ≡ some r)
        × ((str_eq r.event_id event.event_id && str_eq r.fingerprint (fingerprint event)) ≡ true)
  unfolding replay_event
  replay_event_found event none s s' h = cc
  replay_event_found event (some r) s s' h = (r, refl, ground arith)

  IsReceived-again :
      (event : LifecycleEvent) (s : ProviderRunState)
      → IsReceived event s
      → apply_lifecycle_event fingerprint s event ≡ ok s
  unfolding apply_lifecycle_event replay_event
  IsReceived-again event s h =
      let old : leb event.sequence s.last_sequence ≡ true = ground (arith, h.numbered) in
      rw (h.own, old, h.found, h.same) refl

  IsReceived-Accepted :
      (old event : LifecycleEvent) (s t : ProviderRunState)
      → IsReceived old s
      → Accepted fingerprint s event t
      → IsReceived old t
  unfolding sign_off
  IsReceived-Accepted old event s t h (replayed le same) = subst (IsReceived old) (sym same) h
  IsReceived-Accepted old event s t h (advanced updated next open_ fresh applied signed) =
      let (events, last, run) = apply_payload_frame event.payload s updated applied in
      subst (IsReceived old) (sym signed) (record {
        own = rw run h.own;
        numbered = omega (arith, h.numbered);
        receipt = h.receipt;
        found = rw events (
            find-append (at_sequence old.sequence) s.applied_events
              (receipt_of fingerprint event ∷ []) h.found);
        same = h.same;
      })

  IsReceived-Reaches :
      (old : LifecycleEvent) {s t : ProviderRunState}
      → IsReceived old s
      → Reaches fingerprint s t
      → IsReceived old t
  IsReceived-Reaches old h here = h
  IsReceived-Reaches old h (further {t} {u} event r e) =
      IsReceived-Accepted old event t u (IsReceived-Reaches old h r)
        (apply-Accepted fingerprint t event u e)

  apply-own :
      (s : ProviderRunState) (event : LifecycleEvent) (t : ProviderRunState)
      → apply_lifecycle_event fingerprint s event ≡ ok t
      → str_eq event.run_id s.run.run_id ≡ true
  unfolding apply_lifecycle_event
  apply-own s event t h = elim (Bool-cases (str_eq event.run_id s.run.run_id)) [
    | inr other ↦ absurd (err-ne-ok (rw (other, apply_lifecycle_event) at h))
    | inl own ↦ own
  ]

  pub replayed-IsReceived :
      (s : ProviderRunState) (event : LifecycleEvent) (t : ProviderRunState)
      → leb event.sequence s.last_sequence ≡ true
      → apply_lifecycle_event fingerprint s event ≡ ok t
      → IsReceived event s
  unfolding apply_lifecycle_event
  replayed-IsReceived s event t old h =
      let own = apply-own s event t h in
      let (r, found, same) =
        replay_event_found event (find (at_sequence event.sequence) s.applied_events) s t
          (rw (own, old, apply_lifecycle_event) at h) in
      record { own = own; numbered = leb→le _ _ old; receipt = r; found = found; same = same }

  applied-IsReceived :
      (s : ProviderRunState) (event : LifecycleEvent) (t : ProviderRunState)
      → IsNumbered s
      → apply_lifecycle_event fingerprint s event ≡ ok t
      → Accepted fingerprint s event t
      → IsReceived event t
  unfolding sign_off
  applied-IsReceived s event t n h (replayed old same) =
      subst (IsReceived event) (sym same) (replayed-IsReceived s event t (ground arith) h)
  applied-IsReceived s event t n h (advanced updated next open_ fresh applied signed) =
      let (events, last, run) = apply_payload_frame event.payload s updated applied in
      let r = receipt_of fingerprint event in
      subst (IsReceived event) (sym signed) (record {
        own = rw run (apply-own s event t h);
        numbered = omega arith;
        receipt = r;
        found = rw events (find-append_new s.last_sequence s.applied_events r n.numbered next);
        same = rw (eq_refl event.event_id, eq_refl (fingerprint event)) refl;
      })

  -- An event that a run has accepted can arrive any number of times: in every state that the run
  -- reaches from then on, the same event is accepted and changes nothing.
  pub accepted_again :
      (run : ProviderRun) (event : LifecycleEvent) {s t u : ProviderRunState}
      → Reaches fingerprint (initial_run_state run) s
      → apply_lifecycle_event fingerprint s event ≡ ok t
      → Reaches fingerprint t u
      → apply_lifecycle_event fingerprint u event ≡ ok u
  accepted_again run event {s} {t} {u} before h after = IsReceived-again event u (
      IsReceived-Reaches event
        (applied-IsReceived s event t
          (Reaches-IsNumbered fingerprint (initial-IsNumbered fingerprint run) before) h
          (apply-Accepted fingerprint s event t h))
        after)

  -- Once the audit of a run is persisted, its state is final: every state that it reaches from
  -- there is the same state.
  pub audited_is_final :
      {s t : ProviderRunState} → is_some s.audit_id ≡ true → Reaches fingerprint s t → t ≡ s
  audited_is_final h here = refl
  audited_is_final {s} h (further {t} {u} event r e) =
      let same = audited_is_final h r in
      elim (apply-Accepted fingerprint t event u e) [
        | replayed old q ↦ q ∙ same
        | advanced updated next open_ fresh applied signed ↦
            let k : is_some s.audit_id ≡ false = rw (sym same) open_ in absurd (cc)
      ]
