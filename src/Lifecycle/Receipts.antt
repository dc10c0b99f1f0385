-- ===== src/Lifecycle/Receipts.antt =====
-- The numbers and receipts of the events that a run has accepted.
use systeme_local.Prelude.{
  ℕ, ◌≤◌, String, ◌≡◌, true, ◌||◌, [], ◌∷◌, ◌++◌, arith, ◌==◌, any, any-append,
}
use systeme_local.Lifecycle.Events.{LifecycleEvent}
use systeme_local.Lifecycle.{ProviderRunState, sign_off, receipt_of, at_sequence}
use mathlib.Core.Path.{subst}
use systeme_local.Lifecycle.Invariant.{Accepted, replayed, advanced, apply_payload_frame}

module _ (fingerprint : LifecycleEvent → String) where
  pub Accepted-last :
      (s : ProviderRunState) (e : LifecycleEvent) (t : ProviderRunState)
      → Accepted fingerprint s e t
      → (s.last_sequence ≤ t.last_sequence) × (e.sequence ≤ t.last_sequence)
  unfolding sign_off
  Accepted-last s e t (replayed old same) = rw same (omega arith, old)
  Accepted-last s e t (advanced updated next open_ fresh applied signed) =
      rw signed (omega arith, omega arith)

  pub Accepted-receipts :
      (n : ℕ) (s : ProviderRunState) (e : LifecycleEvent) (t : ProviderRunState)
      → Accepted fingerprint s e t
      → any (at_sequence n) t.applied_events ≡ true
      → (any (at_sequence n) s.applied_events || e.sequence == n) ≡ true
  unfolding sign_off
  Accepted-receipts n s e t (replayed old same) h =
      let k : any (at_sequence n) s.applied_events ≡ true =
        subst (λ (x : ProviderRunState). any (at_sequence n) x.applied_events ≡ true) same h in
      ground arith
  Accepted-receipts n s e t (advanced updated next open_ fresh applied signed) h =
      let (events, _, _) = apply_payload_frame e.payload s updated applied in
      let k : any (at_sequence n) (s.applied_events ++ receipt_of fingerprint e ∷ []) ≡ true =
        subst (λ l. any (at_sequence n) (l ++ receipt_of fingerprint e ∷ []) ≡ true) events
          (subst (λ (x : ProviderRunState). any (at_sequence n) x.applied_events ≡ true) signed
            h) in
      ground (arith, any-append (at_sequence n) s.applied_events (receipt_of fingerprint e ∷ []))
