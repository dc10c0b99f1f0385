-- ===== src/Store.antt =====
-- src/systeme_local_gateway/providers/store.py: the database of conversations, turns, runs and their
-- lifecycle events. The constraints that its tables declare follow from the tests that come before
-- each insertion, and are not repeated.
pub mod Equal
pub mod Rows
pub mod Replay
pub mod Sound
pub mod Cases
pub mod Keyed
pub mod Calls
mod Examples
use systeme_local.Prelude.{
  ℕ, zero, suc, ◌+◌, ◌-◌, ◌*◌, ◌≤◌, ◌<◌, String, ◌≡◌, refl, sym, ap, ◌∙◌, ◌≢◌, ◌↔◌, ◌⊎◌, inl, inr,
  Bool, true, false, not, ◌&&◌, ◌||◌, Option, none, some, List, [], ◌∷◌, ◌++◌, map, arith, str_eq,
  eq_iff, eq_refl, ltb, leb, ◌==◌, if◌then◌else◌, leb→le, Bool-cases, Option-cases, is_some, Result,
  ok, err, ◌>>=◌, ◌>>◌, raise_if, Method, commit_or_rollback, Post, Post-ok, Post-err, Post-bind,
  Post-then, raise_if-ok, Post-commit, committed, length, any, find, keep, length-append,
  length-keep, All, All-append, any-append, All-keep, any-keep, keep-keep, find-all_false,
  find-true, All-find, Distinct, str_eq_comm, Distinct-keep, Distinct-append, has_key, dict_get,
  dict_set, dict_pop, has_key-dict_set, has_key-dict_pop, All-dict_set, All-dict_pop, bind-ok,
  bind-step, find-append, find-append_none, any-find-none,
}
use systeme_local.Lifecycle.Events.{ProviderRun, LifecycleEvent}
use systeme_local.Lifecycle.{
  LifecycleError, event_conflict, event_sequence_gap, invalid_transition, ProviderRunState,
  AppliedEventReceipt, initial_run_state, apply_lifecycle_event, apply_payload, sign_off,
  receipt_of, at_sequence,
}
use systeme_local.Turns.{CommittedTurn, ConversationHandle, ConversationState, active, closed}
use systeme_local.Store.Equal.{
  option_eq, conversation_eq, turn_eq, run_eq, event_eq, conversation_eq_refl, turn_eq_refl,
  run_eq_refl, event_eq_refl,
}
use systeme_local.Store.Rows.{
  StoreError, store_error, corrupt, unsupported_schema, key_error, lifecycle_error, StoreCalls,
  ConversationRow, TurnRow, RunRow, EventRow, or_raise, validate_payload, conversation_from_row,
  turn_from_row, run_from_row, event_from_row, conversation_row, turn_row, run_row, event_row,
}

pub data AppendResult : Type 0 where
  appended duplicate : AppendResult

pub record StoreDatabase (J : Type 0) : Type 0 where
  pub quick_check_ok : Bool
  pub columns_ok : Bool
  pub foreign_keys_ok : Bool
  pub schema_version : Option String
  pub conversations : List (ConversationRow J)
  pub turns : List (TurnRow J)
  pub runs : List (RunRow J)
  pub events : List (EventRow J)

module _ {J : Type 0} where
  abbrev pub is_conversation : String → ConversationRow J → Bool
  is_conversation id row = str_eq row.conversation_id id

  abbrev pub is_turn : String → TurnRow J → Bool
  is_turn id row = str_eq row.turn_id id

  abbrev pub is_run : String → RunRow J → Bool
  is_run id row = str_eq row.run_id id

  abbrev pub of_run : String → EventRow J → Bool
  of_run id row = str_eq row.run_id id

  abbrev pub at_place : String → ℕ → EventRow J → Bool
  at_place id n row = str_eq row.run_id id && row.sequence == n

  -- `provider = ? AND surface = ? AND provider_conversation_id = ?`; NULL is equal to nothing
  abbrev same_mapping : String → String → String → ConversationRow J → Bool
  same_mapping provider surface id row =
      str_eq row.provider provider
      && str_eq row.surface surface
      && option_eq row.provider_conversation_id (some id)

  abbrev mapping_taken : ConversationHandle → Option String → List (ConversationRow J) → Bool
  mapping_taken c none rows = false
  mapping_taken c (some id) rows = any (same_mapping c.provider c.surface id) rows

  abbrev pub same_binding : ProviderRun → RunRow J → Bool
  same_binding r row = str_eq row.turn_id r.turn_id || str_eq row.idempotency_key r.idempotency_key

  abbrev same_provider_run : String → String → String → RunRow J → Bool
  same_provider_run provider surface id row =
      str_eq row.provider provider
      && str_eq row.surface surface
      && option_eq row.provider_run_id (some id)

  abbrev provider_run_taken : ProviderRun → Option String → List (RunRow J) → Bool
  provider_run_taken r none rows = false
  provider_run_taken r (some id) rows = any (same_provider_run r.provider r.surface id) rows

  abbrev same_provider_event : String → String → EventRow J → Bool
  same_provider_event run_id id row =
      str_eq row.run_id run_id && option_eq row.provider_event_id (some id)

  abbrev provider_event_taken : LifecycleEvent → Option String → List (EventRow J) → Bool
  provider_event_taken e none rows = false
  provider_event_taken e (some id) rows = any (same_provider_event e.run_id id) rows

  abbrev pub has_event_id : String → EventRow J → Bool
  has_event_id id row = str_eq row.event_id id

  abbrev pub has_key_of : CommittedTurn → TurnRow J → Bool
  has_key_of t row = str_eq row.idempotency_key t.idempotency_key

  -- `ORDER BY sequence`
  pub insert_by_sequence : EventRow J → List (EventRow J) → List (EventRow J)
  insert_by_sequence row [] = row ∷ []
  insert_by_sequence row (other ∷ rows) =
      let rest = insert_by_sequence row rows in
      if leb row.sequence other.sequence then row ∷ other ∷ rows else other ∷ rest

  pub by_sequence : List (EventRow J) → List (EventRow J)
  by_sequence [] = []
  by_sequence (row ∷ rows) = insert_by_sequence row (by_sequence rows)

  abbrev pub events_of : String → StoreDatabase J → List (EventRow J)
  events_of run_id db = by_sequence (keep (of_run run_id) db.events)

abbrev pub is_active : ConversationState → Bool
is_active active = true
is_active closed = false

-- `COMMIT` of a duplicate or an insertion
abbrev Outcome : Type 0 → Type 0
Outcome J = Result StoreError (AppendResult × StoreDatabase J)

-- a row that is there already is the same model, or a conflict
abbrev pub same_or_conflict : {J : Type 0} → Bool → StoreDatabase J → Outcome J
same_or_conflict true db = ok (duplicate, db)
same_or_conflict false db = err (lifecycle_error event_conflict)

abbrev pub corrupt_transition :
    Result LifecycleError ProviderRunState → Result StoreError ProviderRunState
corrupt_transition (ok s) = ok s
corrupt_transition (err e) = err corrupt

abbrev pub passed_on : Result LifecycleError ProviderRunState → Result StoreError ProviderRunState
passed_on (ok s) = ok s
passed_on (err e) = err (lifecycle_error e)

module _ {J : Type 0} (calls : StoreCalls J) where
  pub known_conversation :
      ConversationHandle → Option (ConversationRow J) → StoreDatabase J → Outcome J
  known_conversation c (some row) db = do
    stored ← conversation_from_row calls row
    same_or_conflict
        (conversation_eq stored c
          && str_eq row.fingerprint (calls.fingerprint (calls.dump_conversation c)))
        db
  known_conversation c none db = do
    raise_if (mapping_taken c c.provider_conversation_id db.conversations)
        (lifecycle_error event_conflict)
    ok (appended, record db { conversations = db.conversations ++ conversation_row calls c ∷ [] })

  pub register_conversation : ConversationHandle → Method (StoreDatabase J) StoreError AppendResult
  unfolding known_conversation
  register_conversation c db =
      commit_or_rollback db
        (known_conversation c (find (is_conversation c.conversation_id) db.conversations) db)

  pub stored_conversation :
      String → StoreError → StoreDatabase J → Result StoreError ConversationHandle
  stored_conversation id missing db = do
    row ← or_raise missing (find (is_conversation id) db.conversations)
    conversation_from_row calls row

  pub stored_turn : String → StoreError → StoreDatabase J → Result StoreError CommittedTurn
  stored_turn id missing db = do
    row ← or_raise missing (find (is_turn id) db.turns)
    turn_from_row calls row

  pub stored_run : String → StoreError → StoreDatabase J → Result StoreError ProviderRun
  stored_run id missing db = do
    row ← or_raise missing (find (is_run id) db.runs)
    run_from_row calls row

  known_turn : CommittedTurn → Option (TurnRow J) → StoreDatabase J → Outcome J
  known_turn t (some row) db = do
    stored ← turn_from_row calls row
    same_or_conflict
        (turn_eq stored t && str_eq row.fingerprint (calls.fingerprint (calls.dump_turn t))) db
  known_turn t none db = do
    raise_if (any (has_key_of t) db.turns) (lifecycle_error event_conflict)
    ok (appended, record db { turns = db.turns ++ turn_row calls t ∷ [] })

  pub turn_transaction : CommittedTurn → StoreDatabase J → Outcome J
  turn_transaction t db = do
    c ← stored_conversation t.conversation_id store_error db
    raise_if (not (str_eq t.principal.agent_id c.created_by_agent)) store_error
    raise_if (not (is_active c.state)) store_error
    raise_if (ltb t.committed_at c.created_at) store_error
    known_turn t (find (is_turn t.turn_id) db.turns) db

  pub register_turn : CommittedTurn → Method (StoreDatabase J) StoreError AppendResult
  register_turn t db = commit_or_rollback db (turn_transaction t db)

  known_run : ProviderRun → Option (RunRow J) → StoreDatabase J → Outcome J
  known_run r (some row) db = do
    stored ← run_from_row calls row
    same_or_conflict
        (run_eq stored r && str_eq row.fingerprint (calls.fingerprint (calls.dump_run r))) db
  known_run r none db = do
    raise_if (any (same_binding r) db.runs) (lifecycle_error event_conflict)
    raise_if (provider_run_taken r r.provider_run_id db.runs) (lifecycle_error event_conflict)
    ok (appended, record db { runs = db.runs ++ run_row calls r ∷ [] })

  check_run : ProviderRun → ConversationHandle → CommittedTurn → Result StoreError (Unit {0})
  check_run r c t = do
    raise_if
        (not (
          str_eq r.conversation_id t.conversation_id
          && str_eq r.trace_id t.trace_id
          && str_eq r.idempotency_key t.idempotency_key))
        store_error
    raise_if (not (str_eq r.provider c.provider && str_eq r.surface c.surface)) store_error
    raise_if (not (is_active c.state)) store_error
    raise_if (ltb r.started_at t.committed_at) store_error

  pub run_transaction : ProviderRun → StoreDatabase J → Outcome J
  run_transaction r db = do
    c ← stored_conversation r.conversation_id store_error db
    t ← stored_turn r.turn_id store_error db
    check_run r c t
    known_run r (find (is_run r.run_id) db.runs) db

  pub register_run : ProviderRun → Method (StoreDatabase J) StoreError AppendResult
  register_run r db = commit_or_rollback db (run_transaction r db)

  pub replay_rows : List (EventRow J) → ProviderRunState → Result StoreError ProviderRunState
  replay_rows [] s = ok s
  replay_rows (row ∷ rows) s = do
    event ← event_from_row calls row
    next ← corrupt_transition (apply_lifecycle_event calls.event_fingerprint s event)
    replay_rows rows next

  new_event : LifecycleEvent → ProviderRun → StoreDatabase J → Outcome J
  new_event e run db = do
    raise_if (any (has_event_id e.event_id) db.events) (lifecycle_error event_conflict)
    raise_if (provider_event_taken e e.provider_event_id db.events) (lifecycle_error event_conflict)
    state ← replay_rows (events_of e.run_id db) (initial_run_state run)
    next ← passed_on (apply_lifecycle_event calls.event_fingerprint state e)
    ok (appended, record db { events = db.events ++ event_row calls e ∷ [] })

  known_event : LifecycleEvent → ProviderRun → Option (EventRow J) → StoreDatabase J → Outcome J
  known_event e run (some row) db = do
    stored ← event_from_row calls row
    same_or_conflict (event_eq stored e && str_eq row.fingerprint (calls.event_fingerprint e)) db
  known_event e run none db = new_event e run db

  pub event_transaction : LifecycleEvent → StoreDatabase J → Outcome J
  event_transaction e db = do
    run ← stored_run e.run_id store_error db
    known_event e run (find (at_place e.run_id e.sequence) db.events) db

  pub append_event : LifecycleEvent → Method (StoreDatabase J) StoreError AppendResult
  append_event e db = commit_or_rollback db (event_transaction e db)

  pub load_conversation : String → StoreDatabase J → Result StoreError ConversationHandle
  load_conversation id db = stored_conversation id key_error db

  pub load_turn : String → StoreDatabase J → Result StoreError CommittedTurn
  load_turn id db = stored_turn id key_error db

  pub load_run : String → StoreDatabase J → Result StoreError ProviderRun
  load_run id db = stored_run id key_error db

  pub events_from_rows : List (EventRow J) → Result StoreError (List LifecycleEvent)
  events_from_rows [] = ok []
  events_from_rows (row ∷ rows) = do
    event ← event_from_row calls row
    rest ← events_from_rows rows
    ok (event ∷ rest)

  pub load_events : String → StoreDatabase J → Result StoreError (List LifecycleEvent)
  load_events run_id db = events_from_rows (events_of run_id db)

  pub apply_events : List LifecycleEvent → ProviderRunState → Result StoreError ProviderRunState
  apply_events [] s = ok s
  apply_events (e ∷ rest) s = do
    next ← corrupt_transition (apply_lifecycle_event calls.event_fingerprint s e)
    apply_events rest next

  pub replay : String → StoreDatabase J → Result StoreError ProviderRunState
  replay run_id db = do
    run ← load_run run_id db
    events ← load_events run_id db
    apply_events events (initial_run_state run)

  abbrev is_version : Option String → Bool
  is_version none = true
  is_version (some v) = str_eq v "1"

  initialize_transaction : StoreDatabase J → Result StoreError (Unit {0} × StoreDatabase J)
  initialize_transaction db = do
    raise_if (not (is_version db.schema_version)) unsupported_schema
    raise_if (not db.columns_ok) corrupt
    raise_if (not db.foreign_keys_ok) corrupt
    ok (tt, record db { schema_version = some "1" })

  pub initialize : Method (StoreDatabase J) StoreError (Unit {0})
  initialize db =
      if not db.quick_check_ok
      then (err corrupt, db)
      else commit_or_rollback db (initialize_transaction db)
