-- ===== src/Verify/Once.antt =====
-- A signature is accepted once: `verify_task` with the replay guard in memory.
use systeme_local.Prelude.{ℕ, ◌<◌, ◌≡◌, sym, ◌∙◌, ◌≢◌, String, List, some, ok, All}
use mathlib.Core.Path.{subst}
use systeme_local.Models.{TaskEnvelope}
use systeme_local.Replay.{check_and_mark, ReplayGuard}
use systeme_local.Replay.Once.{Request, after, marked_again}
use systeme_local.Verify.{SignedPayload, canonical_payload, VerifyLimits, verify_task}
use systeme_local.Verify.Accept.{IsAuthentic, accepted→, accepted_state}

module _ {A : Type 0} (mac : String → SignedPayload A → String) (limits : VerifyLimits)
    (secret : String) (t u : TaskEnvelope A) where
  -- Two authentic envelopes with one signature are one envelope.
  same_signature_same_task :
      (now now' : ℕ)
      → (mac secret (canonical_payload t) ≡ mac secret (canonical_payload u)
          → canonical_payload t ≡ canonical_payload u)
      → t.signature ≡ u.signature
      → IsAuthentic mac limits now secret t
      → IsAuthentic mac limits now' secret u
      → t ≡ u
  unfolding canonical_payload
  same_signature_same_task now now' inj same ht hu =
      let q = inj (sym ht.signed ∙ same ∙ hu.signed) in cc

  -- Where the keyed digest does not collide on the contents of two envelopes that carry the same
  -- signature: once the first was accepted, by `verify_task` with the guard in memory, the other is
  -- refused at any time, whatever calls the guard has had in between before the first one's expiry
  -- time.
  pub signature_used_once :
      (now now' : ℕ) (g : ReplayGuard) (rs : List Request)
      → (mac secret (canonical_payload t) ≡ mac secret (canonical_payload u)
          → canonical_payload t ≡ canonical_payload u)
      → t.signature ≡ u.signature
      → (verify_task mac limits now secret (some (check_and_mark now)) t g).0 ≡ ok tt
      → All (λ r. r.now < t.expires_at.instant) rs
      → (verify_task mac limits now' secret
          (some (check_and_mark now'))
          u
          (after (verify_task mac limits now secret (some (check_and_mark now)) t g).1 rs)).0
        ≢ ok tt
  signature_used_once now now' g rs inj same ht before hu =
      let (authentic, marked) = accepted→ mac limits now secret (check_and_mark now) t g ht in
      let kept = accepted_state mac limits now secret (check_and_mark now) t g ht in
      let (authentic', marked') = accepted→ mac limits now' secret (check_and_mark now') u _ hu in
      let q = same_signature_same_task now now' inj same authentic authentic' in
      let repeated : (check_and_mark now' t.nonce t.expires_at.instant
            (after (check_and_mark now t.nonce t.expires_at.instant g).1 rs)).0
          ≡ ok tt =
        subst (λ g'. (check_and_mark now' t.nonce t.expires_at.instant (after g' rs)).0 ≡ ok tt)
          kept
          (subst
            (λ (x : TaskEnvelope A).
              (check_and_mark now' x.nonce x.expires_at.instant
                (after (verify_task mac limits now secret (some (check_and_mark now)) t g).1 rs)).0
              ≡ ok tt)
            (sym q) marked') in
      let alive =
        subst (λ (x : TaskEnvelope A). now' < x.expires_at.instant) (sym q) authentic'.alive in
      marked_again now t.nonce t.expires_at.instant g rs now' marked before alive repeated
