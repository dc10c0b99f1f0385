-- ===== src/Replay/Examples.antt =====
-- The replay guards at concrete inputs.
use systeme_local.Prelude.{◌≡◌, refl, true, some, [], ◌∷◌, arith, err}
use systeme_local.Replay.{ReplayGuard, check_and_mark, Database, sqlite_check_and_mark, purge}
use systeme_local.Replay.{replayed_task_nonce, capacity_exhausted}
use systeme_local.Replay.Clock.{datetime_to_microseconds}
use systeme_local.Replay.Clock.Examples.{ten}
use systeme_local.Replay.Bounds.{IsBounded, check-IsBounded}
use systeme_local.Replay.Once.{accepted, no_replay}
use systeme_local.Replay.Refinement.{Agrees, sqlite-refines-memory}

abbrev two_seen : ReplayGuard
two_seen = record { seen = ("a", 10) ∷ ("b", 20) ∷ []; max_entries = 2 }

replayed : (check_and_mark 9 "b" 30 two_seen).0 ≡ err replayed_task_nonce
unfolding check_and_mark purge
replayed = refl

no_room : (check_and_mark 9 "c" 30 two_seen).0 ≡ err capacity_exhausted
unfolding check_and_mark purge
no_room = refl

check-IsBounded_example : IsBounded (check_and_mark 10 "c" 30 two_seen).1
check-IsBounded_example =
    check-IsBounded 10 "c" 30 two_seen
      (record { within = omega arith; one_each = (refl, (refl, tt)) })

no_replay_example :
    accepted "c" (check_and_mark 10 "c" 30 two_seen).1 (
      record { now = 29; nonce = "c"; expires_at = 90 }
      ∷ record { now = 11; nonce = "d"; expires_at = 90 }
      ∷ [])
    ≡ 0
unfolding check_and_mark purge
no_replay_example = no_replay 10 "c" 30 two_seen _ refl (omega arith)

abbrev same_seen : Database
same_seen = record {
  quick_check_ok = true;
  columns_ok = true;
  schema_version = some "1";
  seen_nonces = record { nonce_hmac = "b"; expires_at_us = 20; created_at_us = 3 } ∷ [];
}

sqlite-refines-memory_example :
    ((sqlite_check_and_mark (λ n. n) 2 10 "c" 30 same_seen).0
      ≡ (check_and_mark (datetime_to_microseconds 10) "c" (datetime_to_microseconds 30) two_seen).0)
    × Agrees
        (λ n. n)
        (datetime_to_microseconds 10)
        (check_and_mark (datetime_to_microseconds 10) "c" (datetime_to_microseconds 30) two_seen).1
        (sqlite_check_and_mark (λ n. n) 2 10 "c" 30 same_seen).1
sqlite-refines-memory_example =
    sqlite-refines-memory (λ n. n) 10 two_seen same_seen (record { live = rw ten refl }) "c" 30
      (datetime_to_microseconds 10) ((λ p. p), ((λ p. p), tt)) (omega arith)
