-- ===== src/Verify/Examples.antt =====
-- `verify_task` at a concrete envelope.
use systeme_local.Prelude.{String, ◌≡◌, refl, ◌≢◌, ◌↔◌, none, some, [], ◌∷◌, arith, eq_iff, ok}
use mathlib.Core.Bool.{false≢true}
use systeme_local.Models.{TaskEnvelope}
use systeme_local.Replay.{ReplayGuard, check_and_mark, purge}
use systeme_local.Verify.{
  SignedPayload, canonical_payload, default_limits, check_envelope, compute_task_signature,
  verify_task,
}
use systeme_local.Verify.Accept.{IsAuthentic, verify_task_accepts_iff, forged_is_refused}
use systeme_local.Replay.Once.{after}
use systeme_local.Verify.Once.{signature_used_once}

abbrev toy_mac : String → SignedPayload (Unit {0}) → String
toy_mac key payload = payload.capability

abbrev guard : ReplayGuard
guard = record { seen = []; max_entries = 5 }

abbrev task : TaskEnvelope (Unit {0})
task = record {
  task_id = "task-0001";
  issued_at = record { instant = 100; utc_offset = 86_400 };
  expires_at = record { instant = 200; utc_offset = 86_400 };
  agent = record { provider = "p"; model = none; session_id = "s" };
  capability = "workspace.list";
  arguments = tt;
  approval_id = none;
  nonce = "nonce-0000000001";
  signature = "workspace.list";
}

abbrev forged : TaskEnvelope (Unit {0})
forged = record task { capability = "workspace.write_text" }

task_accepted :
    (verify_task toy_mac default_limits 150 "k" (some (check_and_mark 150)) task guard).0 ≡ ok tt
unfolding verify_task check_envelope compute_task_signature check_and_mark purge canonical_payload
task_accepted = refl

verify_task_accepts_iff_example :
    ((verify_task toy_mac default_limits 150 "k" (some (check_and_mark 150)) task guard).0 ≡ ok tt)
    ↔ (IsAuthentic toy_mac default_limits 150 "k" task
        × ((check_and_mark 150 "nonce-0000000001" 200 guard).0 ≡ ok tt))
verify_task_accepts_iff_example =
    verify_task_accepts_iff toy_mac default_limits 150 "k" (check_and_mark 150) task guard

forged_is_refused_example :
    ((verify_task toy_mac default_limits 150 "k" (some (check_and_mark 150)) forged guard).0
      ≢ ok tt)
    × ((verify_task toy_mac default_limits 150 "k" (some (check_and_mark 150)) forged guard).1
        ≡ guard)
unfolding canonical_payload
forged_is_refused_example =
    forged_is_refused toy_mac default_limits 150 "k" (check_and_mark 150) forged guard
      (λ p. false≢true ((eq_iff "workspace.list" "workspace.write_text").1 p))

-- The signature comes again, after a call with another nonce.
signature_used_once_example :
    (verify_task toy_mac default_limits 160 "k" (some (check_and_mark 160)) task (
      after
        (verify_task toy_mac default_limits 150 "k" (some (check_and_mark 150)) task guard).1
        (record { now = 155; nonce = "nonce-0000000002"; expires_at = 300 } ∷ []))).0
    ≢ ok tt
signature_used_once_example =
    signature_used_once toy_mac default_limits "k" task task 150 160 guard
      (record { now = 155; nonce = "nonce-0000000002"; expires_at = 300 } ∷ []) (λ _. refl) refl
      task_accepted (omega arith, tt)
