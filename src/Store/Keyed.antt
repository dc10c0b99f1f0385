-- ===== src/Store/Keyed.antt =====
-- The keys of the tables that identify conversations, turns, runs and events.
use systeme_local.Prelude.{
  str_eq, Post-commit, find, Distinct, Distinct-append, any-find-none, any-or_left, any-or_right,
}
use systeme_local.Lifecycle.Events.{ProviderRun, LifecycleEvent}
use systeme_local.Turns.{CommittedTurn, ConversationHandle}
use systeme_local.Store.Rows.{
  StoreCalls, ConversationRow, TurnRow, RunRow, EventRow, conversation_row, turn_row, run_row,
  event_row,
}
use systeme_local.Store.{
  StoreDatabase, is_conversation, is_turn, is_run, register_conversation, register_turn,
  register_run, append_event,
}
use systeme_local.Store.Cases.{
  known_conversation-Post, turn_transaction-Post, run_transaction-Post, event_transaction-Post,
}

pub record IsKeyed {J : Type 0} (db : StoreDatabase J) : Type 0 where
  pub conversations : Distinct (λ (row : ConversationRow J). row.conversation_id) db.conversations
  pub turns :
      Distinct (λ (row : TurnRow J). row.turn_id) db.turns
      × Distinct (λ (row : TurnRow J). row.idempotency_key) db.turns
  pub runs :
      Distinct (λ (row : RunRow J). row.run_id) db.runs
      × Distinct (λ (row : RunRow J). row.turn_id) db.runs
      × Distinct (λ (row : RunRow J). row.idempotency_key) db.runs
  pub events : Distinct (λ (row : EventRow J). row.event_id) db.events

module _ {J : Type 0} (calls : StoreCalls J) (db : StoreDatabase J) (h : IsKeyed db) where
  pub register_conversation-IsKeyed :
      (c : ConversationHandle) → IsKeyed (register_conversation calls c db).1
  unfolding register_conversation conversation_row
  register_conversation-IsKeyed c = Post-commit IsKeyed db _ h (
      known_conversation-Post calls (λ p. IsKeyed p.1) db h c
        (find (is_conversation c.conversation_id) db.conversations)
        (λ none_. record {
          turns = h.turns;
          runs = h.runs;
          events = h.events;
          conversations =
              Distinct-append (λ (row : ConversationRow J). row.conversation_id)
                (conversation_row calls c) db.conversations h.conversations
                (any-find-none (is_conversation c.conversation_id) db.conversations none_);
        }))

  pub register_turn-IsKeyed : (t : CommittedTurn) → IsKeyed (register_turn calls t db).1
  unfolding register_turn turn_row
  register_turn-IsKeyed t = Post-commit IsKeyed db _ h (
      turn_transaction-Post calls (λ p. IsKeyed p.1) db h t
        (λ none_ free. record {
          conversations = h.conversations;
          runs = h.runs;
          events = h.events;
          turns = (
            Distinct-append (λ (row : TurnRow J). row.turn_id) (turn_row calls t) db.turns h.turns.0
                (any-find-none (is_turn t.turn_id) db.turns none_),
            Distinct-append (λ (row : TurnRow J). row.idempotency_key) (turn_row calls t) db.turns
                h.turns.1 free,
          );
        }))

  pub register_run-IsKeyed : (r : ProviderRun) → IsKeyed (register_run calls r db).1
  unfolding register_run run_row
  register_run-IsKeyed r = Post-commit IsKeyed db _ h (
      run_transaction-Post calls (λ p. IsKeyed p.1) db h r
        (λ none_ free. record {
          conversations = h.conversations;
          turns = h.turns;
          events = h.events;
          runs = (
            Distinct-append (λ (row : RunRow J). row.run_id) (run_row calls r) db.runs h.runs.0
                (any-find-none (is_run r.run_id) db.runs none_),
            Distinct-append (λ (row : RunRow J). row.turn_id) (run_row calls r) db.runs h.runs.1
                (any-or_left _ _ db.runs free),
            Distinct-append (λ (row : RunRow J). row.idempotency_key) (run_row calls r) db.runs
                h.runs.2
                (any-or_right (λ (row : RunRow J). str_eq row.turn_id r.turn_id) _ db.runs free),
          );
        }))

  pub append_event-IsKeyed : (e : LifecycleEvent) → IsKeyed (append_event calls e db).1
  unfolding append_event event_row
  append_event-IsKeyed e = Post-commit IsKeyed db _ h (
      event_transaction-Post calls (λ p. IsKeyed p.1) db h e
        (λ new. record {
          conversations = h.conversations;
          turns = h.turns;
          runs = h.runs;
          events =
              Distinct-append (λ (row : EventRow J). row.event_id) (event_row calls e) db.events
                h.events new.fresh;
        }))
