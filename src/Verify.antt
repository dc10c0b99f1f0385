-- ===== src/Verify.antt =====
-- src/systeme_local_gateway/auth.py, `canonical_payload`, `compute_task_signature`, `verify_task`.
pub mod Accept
pub mod Once
mod Examples
use systeme_local.Prelude.{
  ℕ, zero, suc, ◌+◌, ◌-◌, ◌*◌, ◌≤◌, ◌<◌, String, ◌≡◌, refl, sym, ap, ◌∙◌, ◌≢◌, ◌↔◌, ◌⊎◌, inl, inr,
  Bool, true, false, not, ◌&&◌, ◌||◌, Option, none, some, List, [], ◌∷◌, ◌++◌, map, arith, str_eq,
  eq_iff, eq_refl, ltb, leb, ◌==◌, if◌then◌else◌, leb→le, Bool-cases, Option-cases, is_some, Result,
  ok, err, ◌>>=◌, ◌>>◌, raise_if, Method, commit_or_rollback, length, any, find, keep,
  length-append, length-keep, All, All-append, any-append, All-keep, any-keep, keep-keep,
  find-all_false, find-true, All-find, Distinct, str_eq_comm, Distinct-keep, Distinct-append,
}
use systeme_local.Models.{AgentIdentity, DateTime, TaskEnvelope}
use systeme_local.Replay.{ReplayError}

-- The object that is signed: all of the envelope but its signature, the two datetimes as they are
-- written, with their offsets. The key `approval_id` is left
-- out where it is null.
pub record SignedPayload (A : Type 0) : Type 0 where
  pub task_id : String
  pub issued_at : DateTime
  pub expires_at : DateTime
  pub agent : AgentIdentity
  pub capability : String
  pub arguments : A
  pub approval_id : Option String
  pub nonce : String

unfoldable pub canonical_payload : {A : Type 0} → TaskEnvelope A → SignedPayload A
canonical_payload task = record {
  task_id = task.task_id;
  issued_at = task.issued_at;
  expires_at = task.expires_at;
  agent = task.agent;
  capability = task.capability;
  arguments = task.arguments;
  approval_id = task.approval_id;
  nonce = task.nonce;
}

-- The messages of `ValueError`; `replay` passes on what the replay guard raises.
pub data VerifyError : Type 0 where
  lifetime_exceeds_maximum expired issued_in_the_future invalid_signature : VerifyError
  replay : ReplayError → VerifyError

pub record VerifyLimits : Type 0 where
  pub max_clock_skew : ℕ
  pub max_task_lifetime : ℕ

-- 60 and 300 seconds
abbrev pub default_limits : VerifyLimits
default_limits = record { max_clock_skew = 60_000_000; max_task_lifetime = 300_000_000 }

-- A replay guard over its state `G`: its `check_and_mark`, with its own clock.
abbrev pub GuardOf : Type 0 → Type 0
GuardOf G = String → ℕ → Method G ReplayError (Unit {0})

abbrev pub raise_replay :
    {G : Type 0} → Result ReplayError (Unit {0}) × G → Result VerifyError (Unit {0}) × G
raise_replay (ok u, g) = (ok u, g)
raise_replay (err e, g) = (err (replay e), g)

check_guard : {A G : Type 0} → Option (GuardOf G) → TaskEnvelope A → Method G VerifyError (Unit {0})
check_guard none task g = (ok tt, g)
check_guard (some guard) task g = raise_replay (guard task.nonce task.expires_at.instant g)

-- `mac key payload` is the URL-safe text of the HMAC-SHA256 of the payload's JSON: neither HMAC
-- nor the encoder is part of the program.
module _ {A : Type 0} (mac : String → SignedPayload A → String) where
  pub compute_task_signature : TaskEnvelope A → String → String
  compute_task_signature task secret = mac secret (canonical_payload task)

  -- the tests that come before the replay guard, in their order
  pub check_envelope : VerifyLimits → ℕ → String → TaskEnvelope A → Result VerifyError (Unit {0})
  check_envelope limits now secret task = do
    raise_if (ltb limits.max_task_lifetime (task.expires_at.instant - task.issued_at.instant))
        lifetime_exceeds_maximum
    raise_if (leb task.expires_at.instant now) expired
    raise_if (ltb limits.max_clock_skew (task.issued_at.instant - now)) issued_in_the_future
    raise_if (not (str_eq (compute_task_signature task secret) task.signature)) invalid_signature

-- The guard is asked only about an envelope that has passed the other tests.
pub verify_task :
    {A G : Type 0} (mac : String → SignedPayload A → String) (limits : VerifyLimits) (now : ℕ)
    (secret : String)
    → Option (GuardOf G)
    → TaskEnvelope A
    → Method G VerifyError (Unit {0})
unfolding check_guard
verify_task mac limits now secret guard task g = elim (check_envelope mac limits now secret task) [
  | err e ↦ (err e, g)
  | ok _ ↦ check_guard guard task g
]
