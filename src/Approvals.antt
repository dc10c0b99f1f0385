-- ===== src/Approvals.antt =====
-- src/systeme_local_gateway/approvals.py: the store of local approvals. Times are the whole
-- microseconds that `_datetime_to_microseconds` gives. `create` adds the lifetime to the converted
-- time, where the source converts the sum: the same but for the rounding of floats (Replay/Clock).
-- The clock's reading and the random part of an identifier are arguments.
pub mod Row
pub mod Sound
pub mod Used
pub mod Exact
pub mod SingleUse
pub mod Calls
mod Examples
use Prim.Native.String.{len, slice, ◌++◌ as str_append}
use systeme_local.Prelude.{
  ℕ, zero, suc, ◌+◌, ◌-◌, ◌*◌, ◌≤◌, ◌<◌, String, ◌≡◌, refl, sym, ap, ◌∙◌, ◌≢◌, ◌↔◌, ◌⊎◌, inl, inr,
  Bool, true, false, not, ◌&&◌, ◌||◌, Option, none, some, List, [], ◌∷◌, ◌++◌, map, arith, str_eq,
  eq_iff, eq_refl, ltb, leb, ◌==◌, if◌then◌else◌, leb→le, Bool-cases, Option-cases, is_some, Result,
  ok, err, ◌>>=◌, ◌>>◌, raise_if, Method, commit_or_rollback, length, any, find, keep,
  length-append, length-keep, All, All-append, any-append, All-keep, any-keep, keep-keep,
  find-all_false, find-true, All-find, Distinct, str_eq_comm, Distinct-keep, Distinct-append,
}
use systeme_local.Models.{TaskEnvelope}
use systeme_local.Approvals.Row.{
  ApprovalState, pending, approved, denied, consumed, state_eq, ApprovalFields, StoredApproval,
  ApprovalRecord, ApprovalPayload, approval_request_payload, record_from_stored, ApprovalError,
  approval_not_found, approval_pending, approval_denied, approval_consumed, approval_expired,
  approval_mismatch, approval_state_error, invalid_timestamps, invalid_row_hmac, capacity_exhausted,
  exceeds_capacity, quick_check_failed, unsupported_schema, unexpected_schema, database_error,
  key_too_short, max_entries_not_positive, ttl_too_short, busy_timeout_not_positive,
}

-- The store's settings. `request_digest` and `row_digest` are the keyed digests of the canonical
-- JSON of a request and of a row: HMAC-SHA256 and the encoder are not part of the program.
pub record ApprovalStore (A : Type 0) : Type 0 where
  pub request_digest : ApprovalPayload A → String
  pub row_digest : ApprovalFields → String
  pub max_entries : ℕ
  pub ttl_seconds : ℕ

-- The database file, as in `Replay`.
pub record ApprovalDatabase : Type 0 where
  pub quick_check_ok : Bool
  pub columns_ok : Bool
  pub schema_version : Option String
  pub approvals : List StoredApproval

abbrev pub has_id : String → StoredApproval → Bool
has_id approval_id row = str_eq row.approval_id approval_id

abbrev pub unexpired : ℕ → StoredApproval → Bool
unexpired now row = not (leb row.expires_at_us now)

pub delete_expired : ℕ → ApprovalDatabase → ApprovalDatabase
delete_expired now db = record db { approvals = keep (unexpired now) db.approvals }

abbrev is_version : Option String → Bool
is_version none = false
is_version (some v) = str_eq v "1"

-- `UPDATE … WHERE approval_id = ?`: the rows with that identifier, all replaced
pub replace_rows : StoredApproval → List StoredApproval → List StoredApproval
replace_rows stored [] = []
replace_rows stored (row ∷ rows) =
    (if has_id stored.approval_id row then stored else row) ∷ replace_rows stored rows

pub update : StoredApproval → ApprovalDatabase → ApprovalDatabase
update stored db = record db { approvals = replace_rows stored db.approvals }

abbrev or_else : Option ℕ → Option ℕ → Option ℕ
or_else none old = old
or_else (some t) old = some t

abbrev is_open : ApprovalState → Bool
is_open pending = true
is_open approved = true
is_open _ = false

-- `ORDER BY created_at_us DESC LIMIT 1`
newest : List StoredApproval → Option StoredApproval
newest [] = none
newest (row ∷ rows) = elim (newest rows) [
  | none ↦ some row
  | some best ↦ some (if ltb row.created_at_us best.created_at_us then best else row)
]

-- `ORDER BY created_at_us`
insert_by_age : StoredApproval → List StoredApproval → List StoredApproval
insert_by_age row [] = row ∷ []
insert_by_age row (other ∷ rows) =
    let rest = insert_by_age row rows in
    if leb row.created_at_us other.created_at_us then row ∷ other ∷ rows else other ∷ rest

oldest_first : List StoredApproval → List StoredApproval
oldest_first [] = []
oldest_first (row ∷ rows) = insert_by_age row (oldest_first rows)

module _ {A : Type 0} (c : ApprovalStore A) where
  pub request_hmac : TaskEnvelope A → String
  request_hmac task = c.request_digest (approval_request_payload task)

  seal_row : ApprovalFields → StoredApproval
  seal_row fields = record { fields = fields; row_hmac = c.row_digest fields }

  pub verify_stored : StoredApproval → Result ApprovalError (Unit {0})
  verify_stored stored = do
    raise_if (leb stored.expires_at_us stored.created_at_us) invalid_timestamps
    raise_if (not (str_eq (c.row_digest stored.fields) stored.row_hmac)) invalid_row_hmac

  pub verify_rows : List StoredApproval → Result ApprovalError (Unit {0})
  verify_rows [] = ok tt
  verify_rows (row ∷ rows) = let rest = verify_rows rows in do verify_stored row; rest

  check_found : Option StoredApproval → Result ApprovalError StoredApproval
  check_found none = err approval_not_found
  check_found (some stored) = do verify_stored stored; ok stored

  pub load : String → ApprovalDatabase → Result ApprovalError StoredApproval
  load approval_id db = check_found (find (has_id approval_id) db.approvals)

  pub replace_state : StoredApproval → ApprovalState → Option ℕ → Option ℕ → StoredApproval
  replace_state stored state decided_at_us consumed_at_us = seal_row (record (stored.fields) {
    state = state;
    decided_at_us = or_else decided_at_us stored.decided_at_us;
    consumed_at_us = or_else consumed_at_us stored.consumed_at_us;
  })

  new_stored : TaskEnvelope A → String → ℕ → ℕ → StoredApproval
  new_stored task token created_at_us expires_at_us = seal_row (record {
    approval_id = str_append "apr_" token;
    request_hmac = request_hmac task;
    task_id = task.task_id;
    capability = task.capability;
    provider = task.agent.provider;
    model = task.agent.model;
    state = pending;
    created_at_us = created_at_us;
    expires_at_us = expires_at_us;
    decided_at_us = none;
    consumed_at_us = none;
  })

  abbrev reusable : String → ℕ → StoredApproval → Bool
  reusable digest now row =
      str_eq row.request_hmac digest && is_open row.state && not (leb row.expires_at_us now)

  -- a primary key that is taken is an `IntegrityError` of the database
  insert :
      StoredApproval → ApprovalDatabase → Result ApprovalError (ApprovalRecord × ApprovalDatabase)
  insert stored db = do
    raise_if (any (has_id stored.approval_id) db.approvals) database_error
    ok (record_from_stored stored, record db { approvals = db.approvals ++ stored ∷ [] })

  create_transaction :
      ℕ
      → String
      → TaskEnvelope A
      → ApprovalDatabase
      → Result ApprovalError (ApprovalRecord × ApprovalDatabase)
  create_transaction now token task db =
      let live = delete_expired now db in
      elim (newest (keep (reusable (request_hmac task) now) live.approvals)) [
        | some stored ↦ do verify_stored stored; ok (record_from_stored stored, live)
        | none ↦ do
          raise_if (leb c.max_entries (length live.approvals)) capacity_exhausted
          insert (new_stored task token now (now + c.ttl_seconds * 1_000_000)) live
      ]

  pub create : ℕ → String → TaskEnvelope A → Method ApprovalDatabase ApprovalError ApprovalRecord
  create now token task db = commit_or_rollback db (create_transaction now token task db)

  -- `_decide` and `consume` test the row in this order.
  check_alive : ℕ → StoredApproval → Result ApprovalError (Unit {0})
  check_alive now stored = raise_if (leb stored.expires_at_us now) approval_expired

  check_request : TaskEnvelope A → StoredApproval → Result ApprovalError (Unit {0})
  check_request task stored =
      raise_if (not (str_eq stored.request_hmac (request_hmac task))) approval_mismatch

  check_request? : Option (TaskEnvelope A) → StoredApproval → Result ApprovalError (Unit {0})
  check_request? none stored = ok tt
  check_request? (some task) stored = check_request task stored

  pub inspect : ℕ → String → TaskEnvelope A → ApprovalDatabase → Result ApprovalError ApprovalRecord
  inspect now approval_id task db = do
    stored ← load approval_id db
    check_alive now stored
    check_request task stored
    ok (record_from_stored stored)

  pub consume_state : ApprovalState → Result ApprovalError (Unit {0})
  consume_state pending = err approval_pending
  consume_state denied = err approval_denied
  consume_state consumed = err approval_consumed
  consume_state approved = ok tt

  consume_transaction :
      ℕ
      → String
      → TaskEnvelope A
      → ApprovalDatabase
      → Result ApprovalError (ApprovalRecord × ApprovalDatabase)
  consume_transaction now approval_id task db = do
    stored ← load approval_id db
    check_alive now stored
    check_request task stored
    consume_state stored.state
    let updated = replace_state stored consumed none (some now)
    ok (record_from_stored updated, update updated db)

  pub consume : ℕ → String → TaskEnvelope A → Method ApprovalDatabase ApprovalError ApprovalRecord
  consume now approval_id task db =
      commit_or_rollback db (consume_transaction now approval_id task db)

  -- the same decision again is no change
  pub settle :
      ℕ
      → ApprovalState
      → StoredApproval
      → ApprovalDatabase
      → Result ApprovalError (ApprovalRecord × ApprovalDatabase)
  settle now decision stored db =
      let updated = replace_state stored decision (some now) none in
      if state_eq stored.state decision
      then ok (record_from_stored stored, db)
      else if not (state_eq stored.state pending)
      then err (approval_state_error stored.state)
      else ok (record_from_stored updated, update updated db)

  decide_transaction :
      ℕ
      → String
      → ApprovalState
      → Option (TaskEnvelope A)
      → ApprovalDatabase
      → Result ApprovalError (ApprovalRecord × ApprovalDatabase)
  decide_transaction now approval_id decision task db = do
    stored ← load approval_id db
    check_alive now stored
    check_request? task stored
    settle now decision stored db

  decide :
      ℕ
      → String
      → ApprovalState
      → Option (TaskEnvelope A)
      → Method ApprovalDatabase ApprovalError ApprovalRecord
  decide now approval_id decision task db =
      commit_or_rollback db (decide_transaction now approval_id decision task db)

  pub approve : ℕ → String → TaskEnvelope A → Method ApprovalDatabase ApprovalError ApprovalRecord
  approve now approval_id task = decide now approval_id approved (some task)

  pub deny : ℕ → String → Method ApprovalDatabase ApprovalError ApprovalRecord
  deny now approval_id = decide now approval_id denied none

  list_transaction :
      ℕ → ApprovalDatabase → Result ApprovalError (List ApprovalRecord × ApprovalDatabase)
  list_transaction now db =
      let live = delete_expired now db in
      let rows = oldest_first (keep (λ row. state_eq row.state pending) live.approvals) in
      do verify_rows rows; ok (map record_from_stored rows, live)

  pub list_pending : ℕ → Method ApprovalDatabase ApprovalError (List ApprovalRecord)
  list_pending now db = commit_or_rollback db (list_transaction now db)

  -- `verify`, less the test of the path's file type
  pub verify : ApprovalDatabase → Result ApprovalError (Unit {0})
  verify db = do
    raise_if (not db.quick_check_ok) quick_check_failed
    raise_if (not (is_version db.schema_version)) unsupported_schema
    raise_if (not db.columns_ok) unexpected_schema
    raise_if (ltb c.max_entries (length db.approvals)) exceeds_capacity
    verify_rows db.approvals

  initialize_transaction : ℕ → ApprovalDatabase → Result ApprovalError (Unit {0} × ApprovalDatabase)
  initialize_transaction now db = elim db.schema_version [
    | none ↦ ok (tt, delete_expired now (record db { schema_version = some "1" }))
    | some v ↦ if str_eq v "1" then ok (tt, delete_expired now db) else err unsupported_schema
  ]

  initialize : ℕ → Method ApprovalDatabase ApprovalError (Unit {0})
  initialize now db =
      let (r, db') = commit_or_rollback db (initialize_transaction now db) in (r >> verify db', db')

  -- `ApprovalStore.__init__`, over the database that the path names
  pub open_store : String → ℕ → ℕ → Method ApprovalDatabase ApprovalError (Unit {0})
  open_store key busy_timeout now db =
      if ltb (len key) 32
      then (err key_too_short, db)
      else if ltb c.max_entries 1
      then (err max_entries_not_positive, db)
      else if ltb c.ttl_seconds 30
      then (err ttl_too_short, db)
      else if leb busy_timeout 0
      then (err busy_timeout_not_positive, db)
      else initialize now db
