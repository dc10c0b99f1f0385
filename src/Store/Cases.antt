-- ===== src/Store/Cases.antt =====
-- The two ways in which a registration returns: the row is there already, or it is added.
use systeme_local.Prelude.{
  ◌≡◌, refl, Bool, true, false, not, Option, none, some, [], ◌∷◌, ◌++◌, str_eq, ltb, Result, ok,
  ◌>>=◌, raise_if, Post, Post-ok, Post-err, Post-bind, Post-then, raise_if-ok, any, find,
}
use systeme_local.Lifecycle.Events.{ProviderRun, LifecycleEvent}
use systeme_local.Lifecycle.{
  event_conflict, ProviderRunState, initial_run_state, apply_lifecycle_event,
}
use systeme_local.Turns.{CommittedTurn, ConversationHandle}
use systeme_local.Store.Rows.{
  StoreError, store_error, lifecycle_error, StoreCalls, ConversationRow, TurnRow, RunRow, EventRow,
  or_raise, conversation_from_row, turn_from_row, run_from_row, event_from_row, conversation_row,
  turn_row, run_row, event_row,
}
use systeme_local.Store.{
  AppendResult, appended, duplicate, StoreDatabase, is_turn, is_run, at_place, events_of,
  same_or_conflict, passed_on, known_conversation, stored_conversation, stored_turn, stored_run,
  known_turn, turn_transaction, known_run, check_run, run_transaction, replay_rows, new_event,
  known_event, event_transaction, has_event_id, same_binding, has_key_of, is_active,
}
use systeme_local.Store.Replay.{passed_on-ok}

or_raise-ok {ℓ κ} :
    {A : Type ℓ} {B : Type κ} (e : StoreError) (o : Option A) (f : A → Result StoreError B) {b : B}
    → (or_raise e o >>= f) ≡ ok b
    → (a : A) × (o ≡ some a) × (f a ≡ ok b)
or_raise-ok e none f h = cc
or_raise-ok e (some a) f h = (a, refl, h)

module _ {J : Type 0} (calls : StoreCalls J) where
  pub event_run :
      (e : LifecycleEvent) (db : StoreDatabase J) (run : ProviderRun)
      → stored_run calls e.run_id store_error db ≡ ok run
      → (row : RunRow J) × (find (is_run e.run_id) db.runs ≡ some row)
        × (run_from_row calls row ≡ ok run)
  unfolding stored_run
  event_run e db run h =
      or_raise-ok store_error (find (is_run e.run_id) db.runs) (run_from_row calls) h

  -- what is known where an event is added
  pub record IsNewEvent (db : StoreDatabase J) (e : LifecycleEvent) : Type 0 where
    pub run : ProviderRun
    pub state : ProviderRunState
    pub next : ProviderRunState
    pub stored : stored_run calls e.run_id store_error db ≡ ok run
    pub gone : find (at_place e.run_id e.sequence) db.events ≡ none
    pub fresh : any (has_event_id e.event_id) db.events ≡ false
    pub before : replay_rows calls (events_of e.run_id db) (initial_run_state run) ≡ ok state
    pub applied : apply_lifecycle_event calls.event_fingerprint state e ≡ ok next

  abbrev Pair : Type 0
  Pair = AppendResult × StoreDatabase J

  module _ {κ} (P : Pair → Type κ) (db : StoreDatabase J) (same : P (duplicate, db)) where
    same_or_conflict-Post : (b : Bool) → Post P (same_or_conflict b db)
    same_or_conflict-Post true = Post-ok same
    same_or_conflict-Post false = Post-err (lifecycle_error event_conflict)

    pub known_conversation-Post :
        (c : ConversationHandle) (o : Option (ConversationRow J))
        → (o ≡ none
            → P (
              appended,
              record db { conversations = db.conversations ++ conversation_row calls c ∷ [] },
            ))
        → Post P (known_conversation calls c o db)
    unfolding known_conversation
    known_conversation-Post c none new = Post-then (raise_if _ _) _ (λ free. Post-ok (new refl))
    known_conversation-Post c (some row) new =
        Post-bind (conversation_from_row calls row) _ (λ stored read. same_or_conflict-Post _)

    known_turn-Post :
        (t : CommittedTurn) (o : Option (TurnRow J))
        → (o ≡ none
            → any (has_key_of t) db.turns ≡ false
            → P (appended, record db { turns = db.turns ++ turn_row calls t ∷ [] }))
        → Post P (known_turn calls t o db)
    unfolding known_turn
    known_turn-Post t none new =
        Post-then (raise_if _ _) _ (λ free. Post-ok (new refl (raise_if-ok _ _ free)))
    known_turn-Post t (some row) new =
        Post-bind (turn_from_row calls row) _ (λ stored read. same_or_conflict-Post _)

    pub turn_transaction-Post :
        (t : CommittedTurn)
        → (find (is_turn t.turn_id) db.turns ≡ none
            → any (has_key_of t) db.turns ≡ false
            → P (appended, record db { turns = db.turns ++ turn_row calls t ∷ [] }))
        → Post P (turn_transaction calls t db)
    unfolding turn_transaction
    turn_transaction-Post t new =
        Post-bind (stored_conversation calls t.conversation_id store_error db) _ (λ c found.
          Post-then (raise_if (not (str_eq t.principal.agent_id c.created_by_agent)) store_error) _
            (λ a. Post-then (raise_if (not (is_active c.state)) store_error) _ (λ b.
              Post-then (raise_if (ltb t.committed_at c.created_at) store_error) _
                (λ d. known_turn-Post t (find (is_turn t.turn_id) db.turns) new))))

    known_run-Post :
        (r : ProviderRun) (o : Option (RunRow J))
        → (o ≡ none
            → any (same_binding r) db.runs ≡ false
            → P (appended, record db { runs = db.runs ++ run_row calls r ∷ [] }))
        → Post P (known_run calls r o db)
    unfolding known_run
    known_run-Post r none new =
        Post-then (raise_if _ _) _
          (λ free. Post-then (raise_if _ _) _ (λ mapped. Post-ok (new refl (raise_if-ok _ _ free))))
    known_run-Post r (some row) new =
        Post-bind (run_from_row calls row) _ (λ stored read. same_or_conflict-Post _)

    pub run_transaction-Post :
        (r : ProviderRun)
        → (find (is_run r.run_id) db.runs ≡ none
            → any (same_binding r) db.runs ≡ false
            → P (appended, record db { runs = db.runs ++ run_row calls r ∷ [] }))
        → Post P (run_transaction calls r db)
    unfolding run_transaction
    run_transaction-Post r new =
        Post-bind (stored_conversation calls r.conversation_id store_error db) _ (λ c found.
          Post-bind (stored_turn calls r.turn_id store_error db) _ (λ t found'.
            Post-then (check_run calls r c t) _
              (λ checked. known_run-Post r (find (is_run r.run_id) db.runs) new)))

    new_event-Post :
        (e : LifecycleEvent) (run : ProviderRun)
        → stored_run calls e.run_id store_error db ≡ ok run
        → find (at_place e.run_id e.sequence) db.events ≡ none
        → (IsNewEvent db e
            → P (appended, record db { events = db.events ++ event_row calls e ∷ [] }))
        → Post P (new_event calls e run db)
    unfolding new_event
    new_event-Post e run stored gone new = Post-then (raise_if _ _) _ (λ a.
        Post-then (raise_if _ _) _ (λ b.
          Post-bind (replay_rows calls (events_of e.run_id db) (initial_run_state run)) _
            (λ s before.
              Post-bind (passed_on (apply_lifecycle_event calls.event_fingerprint s e)) _ (λ t done.
                Post-ok (
                  new (record {
                    run = run;
                    state = s;
                    next = t;
                    stored = stored;
                    gone = gone;
                    fresh = raise_if-ok _ _ a;
                    before = before;
                    applied =
                        passed_on-ok calls (apply_lifecycle_event calls.event_fingerprint s e) t
                          done;
                  }))))))

    known_event-Post :
        (e : LifecycleEvent) (run : ProviderRun) (o : Option (EventRow J))
        → stored_run calls e.run_id store_error db ≡ ok run
        → find (at_place e.run_id e.sequence) db.events ≡ o
        → (IsNewEvent db e
            → P (appended, record db { events = db.events ++ event_row calls e ∷ [] }))
        → Post P (known_event calls e run o db)
    unfolding known_event
    known_event-Post e run none stored gone new = new_event-Post e run stored gone new
    known_event-Post e run (some row) stored there new =
        Post-bind (event_from_row calls row) _ (λ old read. same_or_conflict-Post _)

    pub event_transaction-Post :
        (e : LifecycleEvent)
        → (IsNewEvent db e
            → P (appended, record db { events = db.events ++ event_row calls e ∷ [] }))
        → Post P (event_transaction calls e db)
    unfolding event_transaction
    event_transaction-Post e new =
        Post-bind (stored_run calls e.run_id store_error db) _ (λ run stored.
          known_event-Post e run (find (at_place e.run_id e.sequence) db.events) stored refl new)
