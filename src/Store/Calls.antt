-- ===== src/Store/Calls.antt =====
-- Any calls of the store, one after the other, from the database that has no rows.
use systeme_local.Prelude.{
  String, ◌≡◌, refl, sym, ◌∙◌, true, some, List, [], ◌∷◌, ◌++◌, arith, eq_refl, ◌==◌, ok,
  Post-commit, committed, any, find, find-append_none, find-any,
}
use systeme_local.Lifecycle.Events.{ProviderRun, LifecycleEvent}
use systeme_local.Lifecycle.{ProviderRunState, initial_run_state, apply_lifecycle_event}
use systeme_local.Turns.{CommittedTurn, ConversationHandle}
use systeme_local.Store.Equal.{event_eq_refl}
use systeme_local.Store.Rows.{StoreCalls, RunRow, run_from_row, event_row}
use mathlib.Core.Path.{subst}
use systeme_local.Store.{
  AppendResult, appended, duplicate, StoreDatabase, is_conversation, is_run, at_place, events_of,
  register_conversation, stored_run, register_turn, register_run, replay_rows, known_event,
  event_transaction, append_event, load_run, load_events, replay,
}
use systeme_local.Lifecycle.Invariant.{Reaches, here}
use systeme_local.Store.Rows.ReadBack.{IsFaithful, event_from_row-row}
use systeme_local.Store.Replay.{replay_rows-Reaches, replay_rows-events}
use systeme_local.Store.Cases.{
  known_conversation-Post, turn_transaction-Post, run_transaction-Post, event_transaction-Post,
  IsNewEvent, event_run,
}
use systeme_local.Store.Keyed.{
  IsKeyed, register_conversation-IsKeyed, register_turn-IsKeyed, register_run-IsKeyed,
  append_event-IsKeyed,
}
use systeme_local.Store.Sound.{IsSound, new_run-IsSound, new_event-IsSound, appended_replay}

pub data StoreCall : Type 0 where
  conversation : ConversationHandle → StoreCall
  turn : CommittedTurn → StoreCall
  run : ProviderRun → StoreCall
  event : LifecycleEvent → StoreCall

abbrev pub empty_database : {J : Type 0} → StoreDatabase J
empty_database = record {
  quick_check_ok = true;
  columns_ok = true;
  foreign_keys_ok = true;
  schema_version = some "1";
  conversations = [];
  turns = [];
  runs = [];
  events = [];
}

module _ {J : Type 0} (calls : StoreCalls J) where
  -- the database that a call leaves, whether it returns or raises
  abbrev pub after_call : StoreCall → StoreDatabase J → StoreDatabase J
  after_call (conversation c) db = (register_conversation calls c db).1
  after_call (turn t) db = (register_turn calls t db).1
  after_call (run r) db = (register_run calls r db).1
  after_call (event e) db = (append_event calls e db).1

  abbrev pub after_calls : List StoreCall → StoreDatabase J → StoreDatabase J
  after_calls [] db = db
  after_calls (c ∷ cs) db = after_calls cs (after_call c db)

  after_call-IsKeyed :
      (c : StoreCall) (db : StoreDatabase J) → IsKeyed db → IsKeyed (after_call c db)
  after_call-IsKeyed (conversation c) db h = register_conversation-IsKeyed calls db h c
  after_call-IsKeyed (turn t) db h = register_turn-IsKeyed calls db h t
  after_call-IsKeyed (run r) db h = register_run-IsKeyed calls db h r
  after_call-IsKeyed (event e) db h = append_event-IsKeyed calls db h e

  after_calls-IsKeyed :
      (cs : List StoreCall) (db : StoreDatabase J) → IsKeyed db → IsKeyed (after_calls cs db)
  after_calls-IsKeyed [] db h = h
  after_calls-IsKeyed (c ∷ cs) db h =
      after_calls-IsKeyed cs (after_call c db) (after_call-IsKeyed c db h)

  -- After any calls from the database without rows, whatever they return, no two rows share a
  -- conversation_id of conversations, a turn_id or an idempotency_key of turns, a run_id, a turn_id
  -- or an idempotency_key of runs, or an event_id of events.
  pub calls-IsKeyed : (cs : List StoreCall) → IsKeyed (after_calls cs empty_database)
  calls-IsKeyed cs =
      after_calls-IsKeyed cs empty_database
        (record { conversations = tt; turns = (tt, tt); runs = (tt, tt, tt); events = tt })

  module _ (f : IsFaithful calls) where
    after_call-IsSound :
        (c : StoreCall) (db : StoreDatabase J) → IsSound calls db → IsSound calls (after_call c db)
    unfolding register_conversation register_turn register_run append_event
    after_call-IsSound (conversation c) db h = Post-commit (IsSound calls) db _ h (
        known_conversation-Post calls (λ p. IsSound calls p.1) db h c
          (find (is_conversation c.conversation_id) db.conversations)
          (λ gone. record { replayable = h.replayable; owned = h.owned }))
    after_call-IsSound (turn t) db h = Post-commit (IsSound calls) db _ h (
        turn_transaction-Post calls (λ p. IsSound calls p.1) db h t
          (λ gone free. record { replayable = h.replayable; owned = h.owned }))
    after_call-IsSound (run r) db h = Post-commit (IsSound calls) db _ h (
        run_transaction-Post calls (λ p. IsSound calls p.1) db h r
          (λ gone free. new_run-IsSound calls f r db h))
    after_call-IsSound (event e) db h = Post-commit (IsSound calls) db _ h (
        event_transaction-Post calls (λ p. IsSound calls p.1) db h e
          (λ new.
            new_event-IsSound calls f e new.run db h new.stored new.gone new.state new.next
              new.before new.applied))

    after_calls-IsSound :
        (cs : List StoreCall) (db : StoreDatabase J)
        → IsSound calls db
        → IsSound calls (after_calls cs db)
    after_calls-IsSound [] db h = h
    after_calls-IsSound (c ∷ cs) db h =
        after_calls-IsSound cs (after_call c db) (after_call-IsSound c db h)

    pub calls-IsSound : (cs : List StoreCall) → IsSound calls (after_calls cs empty_database)
    calls-IsSound cs =
        after_calls-IsSound cs empty_database (record { replayable = λ id row q. cc; owned = tt })

    Appending : LifecycleEvent → StoreDatabase J → AppendResult × StoreDatabase J → Type 0
    Appending e db p =
        p.0 ≡ appended
        → IsNewEvent calls db e × (p.1 ≡ record db { events = db.events ++ event_row calls e ∷ [] })

    appended-IsNewEvent :
        (e : LifecycleEvent) (db : StoreDatabase J)
        → (append_event calls e db).0 ≡ ok appended
        → IsNewEvent calls db e
          × ((append_event calls e db).1
              ≡ record db { events = db.events ++ event_row calls e ∷ [] })
    unfolding append_event Appending
    appended-IsNewEvent e db done =
        (event_transaction-Post calls (Appending e db) db (λ q. cc) e (λ new q. (new, refl))).at
          (appended, (append_event calls e db).1) (committed db (event_transaction calls e db) done)
          refl

    pub rows-replay :
        (id : String) (db : StoreDatabase J) (row : RunRow J) (r : ProviderRun)
        (s : ProviderRunState)
        → find (is_run id) db.runs ≡ some row
        → run_from_row calls row ≡ ok r
        → replay_rows calls (events_of id db) (initial_run_state r) ≡ ok s
        → replay calls id db ≡ ok s
    unfolding replay load_run stored_run load_events
    rows-replay id db row r s there read h =
        rw (there, read) (replay_rows-events calls (events_of id db) (initial_run_state r) s h)

    -- After any calls from the database without rows, whatever they return, each run that has a row
    -- is replayed to a state, and that state is one that the run reaches from its start by accepted
    -- events. It is relied on that a dumped model loads as itself, and that the fingerprint of an
    -- event is that of its JSON.
    pub registered_replays :
        (cs : List StoreCall) (id : String)
        → any (is_run id) (after_calls cs empty_database).runs ≡ true
        → (r : ProviderRun) × (s : ProviderRunState) × (load_run calls id
              (after_calls cs empty_database)
            ≡ ok r)
          × (replay calls id (after_calls cs empty_database) ≡ ok s)
          × Reaches calls.event_fingerprint (initial_run_state r) s
    unfolding load_run stored_run
    registered_replays cs id there =
        let db = after_calls cs empty_database in
        let (row, found) = find-any (is_run id) db.runs there in
        let k = (calls-IsSound cs).replayable id row found in
        (
          k.run,
          k.state,
          rw (found, k.read) refl,
          rows-replay id db row k.run k.state found k.read k.replays,
          replay_rows-Reaches calls (events_of id db) (initial_run_state k.run) k.state here
              k.replays,
        )

    -- In such a database, an event that is appended takes the state that its run is replayed to one
    -- step further: the event is accepted there, and the run is replayed to the state that follows.
    pub appended_steps :
        (cs : List StoreCall) (e : LifecycleEvent)
        → (append_event calls e (after_calls cs empty_database)).0 ≡ ok appended
        → (s : ProviderRunState) × (t : ProviderRunState) × (replay calls e.run_id
              (after_calls cs empty_database)
            ≡ ok s)
          × (apply_lifecycle_event calls.event_fingerprint s e ≡ ok t)
          × (replay calls e.run_id (append_event calls e (after_calls cs empty_database)).1 ≡ ok t)
    unfolding append_event
    appended_steps cs e done =
        let db = after_calls cs empty_database in
        let (new, q) = appended-IsNewEvent e db done in
        let (row, there, read) = event_run calls e db new.run new.stored in
        (
          new.state,
          new.next,
          rows-replay e.run_id db row new.run new.state there read new.before,
          new.applied,
          subst (λ d. replay calls e.run_id d ≡ ok new.next) (sym q)
              (rows-replay e.run_id (record db { events = db.events ++ event_row calls e ∷ [] }) row
                new.run new.next there read
                (appended_replay calls f e new.run db new.state new.next new.gone new.before
                  new.applied)),
        )

    -- An event that was appended can be sent again: the call returns `duplicate`, and the database
    -- stays as it is.
    pub append_event_again :
        (db : StoreDatabase J) (e : LifecycleEvent)
        → (append_event calls e db).0 ≡ ok appended
        → append_event calls e (append_event calls e db).1
          ≡ (ok duplicate, (append_event calls e db).1)
    unfolding append_event event_transaction known_event stored_run event_row
    append_event_again db e done =
        let (new, q) = appended-IsNewEvent e db done in
        let (row, there, read) = event_run calls e db new.run new.stored in
        let number : (e.sequence == e.sequence) ≡ true = ground arith in
        let place : find (at_place e.run_id e.sequence) (event_row calls e ∷ [])
            ≡ some (event_row calls e) =
          rw (eq_refl e.run_id, number) refl in
        let found =
          find-append_none (at_place e.run_id e.sequence) db.events (event_row calls e ∷ [])
            new.gone
          ∙ place in
        subst (λ d. append_event calls e d ≡ (ok duplicate, d)) (sym q)
          (rw (there, read, found, event_from_row-row calls f e, event_eq_refl e)
            (rw (eq_refl (calls.event_fingerprint e)) refl))
