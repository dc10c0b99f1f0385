-- ===== src/Verify/Accept.antt =====
-- What an accepted envelope has, and what a refused one leaves alone.
use systeme_local.Prelude.{
  ℕ, ◌+◌, ◌-◌, ◌≤◌, ◌<◌, String, ◌≡◌, refl, ◌≢◌, ◌↔◌, ◌⊎◌, inl, inr, some, arith, eq_iff, Result,
  ok, err,
}
use systeme_local.Models.{TaskEnvelope}
use systeme_local.Replay.{ReplayError}
use systeme_local.Verify.{
  SignedPayload, canonical_payload, VerifyError, VerifyLimits, GuardOf, compute_task_signature,
  check_envelope, verify_task, raise_replay,
}

envelope_cases :
    (r : Result VerifyError (Unit {0})) → (r ≡ ok tt) ⊎ ((e : VerifyError) × (r ≡ err e))
envelope_cases (ok tt) = inl refl
envelope_cases (err e) = inr (e, refl)

err-ne-ok : {e : VerifyError} → ◌≢◌ {A = Result VerifyError (Unit {0})} (err e) (ok tt)
err-ne-ok h = cc

guard_ok :
    {G : Type 0} (r : Result ReplayError (Unit {0}) × G) → (raise_replay r).0 ≡ ok tt → r.0 ≡ ok tt
guard_ok (ok tt, g) h = refl
guard_ok (err e, g) h = absurd (err-ne-ok h)

raise_replay-state : {G : Type 0} (r : Result ReplayError (Unit {0}) × G) → (raise_replay r).1 ≡ r.1
raise_replay-state (ok u, g) = refl
raise_replay-state (err e, g) = refl

ok_guard :
    {G : Type 0} (r : Result ReplayError (Unit {0}) × G) → r.0 ≡ ok tt → (raise_replay r).0 ≡ ok tt
ok_guard (ok tt, g) h = refl
ok_guard (err e, g) h = cc

module _ {A : Type 0} (mac : String → SignedPayload A → String) (limits : VerifyLimits) (now : ℕ)
    (secret : String) (task : TaskEnvelope A) where
  -- What the tests before the replay guard establish.
  pub record IsAuthentic : Type 0 where
    pub short_lived : task.expires_at.instant - task.issued_at.instant ≤ limits.max_task_lifetime
    pub alive : now < task.expires_at.instant
    pub not_early : task.issued_at.instant ≤ now + limits.max_clock_skew
    pub signed :
        task.signature
        ≡ mac secret (record {
          task_id = task.task_id;
          issued_at = task.issued_at;
          expires_at = task.expires_at;
          agent = task.agent;
          capability = task.capability;
          arguments = task.arguments;
          approval_id = task.approval_id;
          nonce = task.nonce;
        })

  pub check_envelope-IsAuthentic : check_envelope mac limits now secret task ≡ ok tt → IsAuthentic
  unfolding check_envelope compute_task_signature canonical_payload
  check_envelope-IsAuthentic h =
      ground (arith, eq_iff (mac secret (canonical_payload task)) task.signature)

  pub check_envelope-ok : IsAuthentic → check_envelope mac limits now secret task ≡ ok tt
  unfolding check_envelope compute_task_signature canonical_payload
  check_envelope-ok h = ground (
    arith,
    eq_iff (mac secret (canonical_payload task)) task.signature,
    h.short_lived,
    h.alive,
    h.not_early,
    h.signed,
  )

module _ {A G : Type 0} (mac : String → SignedPayload A → String) (limits : VerifyLimits) (now : ℕ)
    (secret : String) (guard : GuardOf G) (task : TaskEnvelope A) (g : G) where
  pub accepted→ :
      (verify_task mac limits now secret (some guard) task g).0 ≡ ok tt
      → IsAuthentic mac limits now secret task
        × ((guard task.nonce task.expires_at.instant g).0 ≡ ok tt)
  unfolding verify_task
  accepted→ h = elim (envelope_cases (check_envelope mac limits now secret task)) [
    | inl p ↦ (
      check_envelope-IsAuthentic mac limits now secret task p,
      guard_ok (guard task.nonce task.expires_at.instant g) (rw (p, verify_task) at h),
    )
    | inr (e, p) ↦ absurd (err-ne-ok (rw (p, verify_task) at h))
  ]

  -- an accepted envelope leaves the guard's state as the guard's call leaves it
  pub accepted_state :
      (verify_task mac limits now secret (some guard) task g).0 ≡ ok tt
      → (verify_task mac limits now secret (some guard) task g).1
        ≡ (guard task.nonce task.expires_at.instant g).1
  unfolding verify_task
  accepted_state h = elim (envelope_cases (check_envelope mac limits now secret task)) [
    | inl p ↦ rw (p, verify_task) (raise_replay-state (guard task.nonce task.expires_at.instant g))
    | inr (e, p) ↦ absurd (err-ne-ok (rw (p, verify_task) at h))
  ]

  ←accepted :
      IsAuthentic mac limits now secret task
        × ((guard task.nonce task.expires_at.instant g).0 ≡ ok tt)
      → (verify_task mac limits now secret (some guard) task g).0 ≡ ok tt
  unfolding verify_task
  ←accepted h =
      rw (check_envelope-ok mac limits now secret task h.0, verify_task)
        (ok_guard (guard task.nonce task.expires_at.instant g) h.1)

  -- `verify_task` accepts exactly the envelopes that are short-lived, unexpired, not issued too far
  -- in the future and signed over all of their other fields, the nonce and the
  -- offsets of the two times among them, and whose nonce the guard accepts.
  pub verify_task_accepts_iff :
      ((verify_task mac limits now secret (some guard) task g).0 ≡ ok tt) ↔ (
        IsAuthentic mac limits now secret task
        × ((guard task.nonce task.expires_at.instant g).0 ≡ ok tt))
  verify_task_accepts_iff = (accepted→, ←accepted)

  -- An envelope whose signature is not the one of its other fields is refused, and the replay guard
  -- keeps its state: a forgery uses up no nonce.
  pub forged_is_refused :
      task.signature ≢ mac secret (canonical_payload task)
      → ((verify_task mac limits now secret (some guard) task g).0 ≢ ok tt)
        × ((verify_task mac limits now secret (some guard) task g).1 ≡ g)
  unfolding verify_task canonical_payload
  forged_is_refused forged = elim (envelope_cases (check_envelope mac limits now secret task)) [
    | inl p ↦ absurd (forged (check_envelope-IsAuthentic mac limits now secret task p).signed)
    | inr (e, p) ↦ rw (p, verify_task) (err-ne-ok, refl)
  ]
