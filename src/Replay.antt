-- ===== src/Replay.antt =====
-- src/systeme_local_gateway/auth.py, the two replay guards: `ReplayGuard` (in memory) and
-- `SQLiteReplayGuard`. Times are microseconds since 1970, and the clock's reading is an argument. The
-- guard in memory compares timestamps, which as floats are in the order of their microseconds until
-- the year 2242; the other converts every time with `_datetime_to_microseconds` (Replay/Clock).
mod Clock
pub mod Bounds
pub mod Once
pub mod Refinement
mod Examples
use Prim.Native.String.{len}
use systeme_local.Replay.Clock.{datetime_to_microseconds}
use systeme_local.Prelude.{
  ℕ, zero, suc, ◌≤◌, String, ◌≡◌, Bool, true, false, not, Option, none, some, List, [], ◌∷◌, ◌++◌,
  ltb, leb, str_eq, if◌then◌else◌, Result, ok, err, ◌>>=◌, ◌>>◌, raise_if, Method,
  commit_or_rollback, length, any, keep,
}

-- `ValueError` and `ReplayGuardUnavailableError`, by their messages
pub data ReplayError : Type 0 where
  key_too_short max_entries_not_positive busy_timeout_not_positive : ReplayError
  task_expired replayed_task_nonce : ReplayError
  capacity_exhausted integrity_check_failed unsupported_schema : ReplayError
  unexpected_schema exceeds_capacity : ReplayError

-- `_seen` is a dictionary from nonces to expiry times.
pub record ReplayGuard : Type 0 where
  pub seen : List (String × ℕ)
  pub max_entries : ℕ

pub new_guard : ℕ → Result ReplayError ReplayGuard
new_guard max_entries =
    if ltb max_entries 1
    then err max_entries_not_positive
    else ok (record { seen = []; max_entries = max_entries })

abbrev pub unexpired : ℕ → String × ℕ → Bool
unexpired now entry = not (leb entry.1 now)

-- the keys that have expired are deleted, and stay deleted where a later test raises
unfoldable pub purge : ℕ → ReplayGuard → ReplayGuard
purge now g = record g { seen = keep (unexpired now) g.seen }

abbrev pub has_nonce : String → String × ℕ → Bool
has_nonce nonce entry = str_eq entry.0 nonce

unfoldable pub check_and_mark : ℕ → String → ℕ → Method ReplayGuard ReplayError (Unit {0})
check_and_mark now nonce expires_at g =
    if leb expires_at now
    then (err task_expired, g)
    else let purged = purge now g in
      if any (has_nonce nonce) purged.seen
      then (err replayed_task_nonce, purged)
      else if leb purged.max_entries (length purged.seen)
      then (err capacity_exhausted, purged)
      else (ok tt, record purged { seen = purged.seen ++ (nonce, expires_at) ∷ [] })

-- A row of the table `seen_nonces`.
pub record NonceRow : Type 0 where
  pub nonce_hmac : String
  pub expires_at_us : ℕ
  pub created_at_us : ℕ

-- The database file. `quick_check_ok` is what `PRAGMA quick_check` finds, `columns_ok` whether
-- `seen_nonces` has the three expected columns.
pub record Database : Type 0 where
  pub quick_check_ok : Bool
  pub columns_ok : Bool
  pub schema_version : Option String
  pub seen_nonces : List NonceRow

abbrev row_unexpired : ℕ → NonceRow → Bool
row_unexpired now row = not (leb row.expires_at_us now)

abbrev row_has_nonce : String → NonceRow → Bool
row_has_nonce digest row = str_eq row.nonce_hmac digest

abbrev is_version : Option String → Bool
is_version none = false
is_version (some v) = str_eq v "1"

-- `nonce_hmac` is the keyed digest of a nonce: HMAC-SHA256 is not part of the program.
module _ (nonce_hmac : String → String) (max_entries : ℕ) where
  delete_expired_nonces : ℕ → Database → Database
  delete_expired_nonces now_us db = record db {
    seen_nonces = keep (row_unexpired now_us) db.seen_nonces;
  }

  mark_transaction : ℕ → String → ℕ → Database → Result ReplayError (Unit {0} × Database)
  unfolding delete_expired_nonces
  mark_transaction now_us nonce expires_at_us db =
      let purged = delete_expired_nonces now_us db in
      do
        raise_if (any (row_has_nonce (nonce_hmac nonce)) purged.seen_nonces) replayed_task_nonce
        raise_if (leb max_entries (length purged.seen_nonces)) capacity_exhausted
        ok (
          tt,
          record purged {
            seen_nonces =
                purged.seen_nonces
                ++ record {
                  nonce_hmac = nonce_hmac nonce;
                  expires_at_us = expires_at_us;
                  created_at_us = now_us;
                }
                  ∷ [];
          },
        )

  -- once the two times are converted
  mark_unexpired : ℕ → String → ℕ → Method Database ReplayError (Unit {0})
  unfolding mark_transaction
  mark_unexpired now_us nonce expires_at_us db =
      if leb expires_at_us now_us
      then (err task_expired, db)
      else commit_or_rollback db (mark_transaction now_us nonce expires_at_us db)

  pub sqlite_check_and_mark : ℕ → String → ℕ → Method Database ReplayError (Unit {0})
  unfolding mark_unexpired
  sqlite_check_and_mark now nonce expires_at db =
      mark_unexpired (datetime_to_microseconds now) nonce (datetime_to_microseconds expires_at) db

  pub sqlite_verify : Database → Result ReplayError (Unit {0})
  sqlite_verify db = do
    raise_if (not db.quick_check_ok) integrity_check_failed
    raise_if (not (is_version db.schema_version)) unsupported_schema
    raise_if (not db.columns_ok) unexpected_schema
    raise_if (ltb max_entries (length db.seen_nonces)) exceeds_capacity

  -- the schema version is written once, and another version is refused
  initialize_transaction : ℕ → Database → Result ReplayError (Unit {0} × Database)
  unfolding delete_expired_nonces
  initialize_transaction now_us db = elim db.schema_version [
    | none ↦ ok (tt, delete_expired_nonces now_us (record db { schema_version = some "1" }))
    | some v ↦
        if str_eq v "1" then ok (tt, delete_expired_nonces now_us db) else err unsupported_schema
  ]

  pub sqlite_initialize : ℕ → Method Database ReplayError (Unit {0})
  unfolding initialize_transaction sqlite_verify
  sqlite_initialize now db =
      let (r, db') =
        commit_or_rollback db (initialize_transaction (datetime_to_microseconds now) db) in
      (r >> sqlite_verify db', db')

-- `SQLiteReplayGuard.__init__`, over the database that the path names
pub sqlite_open :
    (nonce_hmac : String → String) (key : String) (max_entries busy_timeout now : ℕ)
    → Method Database ReplayError (Unit {0})
unfolding sqlite_initialize
sqlite_open nonce_hmac key max_entries busy_timeout now db =
    if ltb (len key) 32
    then (err key_too_short, db)
    else if ltb max_entries 1
    then (err max_entries_not_positive, db)
    else if leb busy_timeout 0
    then (err busy_timeout_not_positive, db)
    else sqlite_initialize nonce_hmac max_entries now db
