-- ===== src/Store/Examples.antt =====
-- A conversation, a turn and a run in the store, with two events of the run.
use systeme_local.Prelude.{
  ℕ, String, ◌≡◌, refl, true, Option, none, some, List, [], ◌∷◌, ok, err, any,
}
use systeme_local.Lifecycle.Events.{ProviderRun, LifecycleEvent}
use systeme_local.Lifecycle.{
  ProviderRunState, initial_run_state, apply_lifecycle_event, apply_payload, sign_off,
}
use systeme_local.Turns.{CommittedTurn, ConversationHandle, active}
use systeme_local.Store.Equal.{event_eq}
use systeme_local.Store.Rows.{
  store_error, StoreCalls, validate_payload, conversation_from_row, turn_from_row, run_from_row,
  event_from_row, conversation_row, turn_row, run_row, event_row,
}
use systeme_local.Store.{
  appended, duplicate, is_run, insert_by_sequence, by_sequence, known_conversation,
  register_conversation, stored_conversation, stored_turn, stored_run, known_turn, turn_transaction,
  register_turn, known_run, check_run, run_transaction, register_run, replay_rows, new_event,
  known_event, event_transaction, append_event, load_run, replay, initialize_transaction,
  initialize,
}
use systeme_local.Lifecycle.Invariant.{Reaches}
use systeme_local.Lifecycle.Events.{response_started, response_terminal, completed, Payload}
use systeme_local.Store.Rows.ReadBack.{IsFaithful}
use systeme_local.Store.Keyed.{IsKeyed}
use systeme_local.Store.Equal.{payload_eq}
use systeme_local.Lifecycle.{apply_new, check_new, replay_event, require_active_response}
use systeme_local.Store.Calls.{
  StoreCall, conversation, turn, run, event, after_calls, empty_database, calls-IsKeyed,
  registered_replays, appended_steps, append_event_again,
}

-- the models stand for their own JSON, and their identifiers for the digests
data Json : Type 0 where
  conversation_json : ConversationHandle → Json
  turn_json : CommittedTurn → Json
  run_json : ProviderRun → Json
  event_json : LifecycleEvent → Json

abbrev print : Json → String
print (conversation_json c) = c.conversation_id
print (turn_json t) = t.turn_id
print (run_json r) = r.run_id
print (event_json e) = e.event_id

abbrev read_conversation : Json → Option ConversationHandle
read_conversation (conversation_json c) = some c
read_conversation (turn_json t) = none
read_conversation (run_json r) = none
read_conversation (event_json e) = none

abbrev read_turn : Json → Option CommittedTurn
read_turn (conversation_json c) = none
read_turn (turn_json t) = some t
read_turn (run_json r) = none
read_turn (event_json e) = none

abbrev read_run : Json → Option ProviderRun
read_run (conversation_json c) = none
read_run (turn_json t) = none
read_run (run_json r) = some r
read_run (event_json e) = none

abbrev read_event : Json → Option LifecycleEvent
read_event (conversation_json c) = none
read_event (turn_json t) = none
read_event (run_json r) = none
read_event (event_json e) = some e

abbrev calls : StoreCalls Json
calls = record {
  fingerprint = print;
  dump_conversation = conversation_json;
  load_conversation = read_conversation;
  dump_turn = turn_json;
  load_turn = read_turn;
  dump_run = run_json;
  load_run = read_run;
  dump_event = event_json;
  load_event = read_event;
  event_fingerprint = λ e. e.event_id;
}

calls-IsFaithful : IsFaithful calls
calls-IsFaithful = record {
  conversations = λ c. refl;
  turns = λ t. refl;
  runs = λ r. refl;
  events = λ e. refl;
  event_prints = λ e. refl;
}

abbrev chat : ConversationHandle
chat = record {
  conversation_id = "c";
  provider = "p";
  surface = "s";
  created_by_agent = "a";
  created_at = 1;
  updated_at = 1;
  state = active;
  provider_conversation_id = none;
}

abbrev question : CommittedTurn
question = record {
  conversation_id = "c";
  turn_id = "t";
  trace_id = "x";
  idempotency_key = "k";
  principal = record { agent_id = "a"; instance_id = "i"; key_id = "key"; verification_id = "v" };
  committed_at = 3;
  content_sha256 = "digest";
  utf8_bytes = 5;
  part_count = 1;
}

abbrev answer : ProviderRun
answer = record {
  run_id = "r";
  conversation_id = "c";
  turn_id = "t";
  trace_id = "x";
  idempotency_key = "k";
  provider = "p";
  surface = "s";
  started_at = 5;
  provider_run_id = none;
}

abbrev event_of : ℕ → String → Payload → LifecycleEvent
event_of n id p = record {
  event_id = id;
  run_id = "r";
  sequence = n;
  observed_at = 10;
  provider_event_id = none;
  payload = p;
}

abbrev started : LifecycleEvent
started = event_of 1 "e1" (response_started "resp")

abbrev ended : LifecycleEvent
ended = event_of 2 "e2" (response_terminal completed none)

abbrev script : List StoreCall
script = conversation chat ∷ turn question ∷ run answer ∷ event started ∷ event started ∷ []

ended-appended :
    (append_event calls ended (after_calls calls script empty_database)).0 ≡ ok appended
unfolding register_conversation register_turn register_run append_event known_conversation
    turn_transaction run_transaction event_transaction known_turn known_run known_event new_event
    check_run stored_conversation stored_turn stored_run replay_rows by_sequence insert_by_sequence
    conversation_row turn_row run_row event_row conversation_from_row turn_from_row run_from_row
    event_from_row validate_payload apply_lifecycle_event apply_new check_new apply_payload sign_off
    replay_event require_active_response event_eq payload_eq
ended-appended = refl

-- a run without its turn is refused, and nothing is stored
turn_missing :
    register_run calls answer (after_calls calls (conversation chat ∷ []) empty_database)
    ≡ (err store_error, after_calls calls (conversation chat ∷ []) empty_database)
unfolding register_conversation register_turn register_run append_event known_conversation
    turn_transaction run_transaction event_transaction known_turn known_run known_event new_event
    check_run stored_conversation stored_turn stored_run replay_rows by_sequence insert_by_sequence
    conversation_row turn_row run_row event_row conversation_from_row turn_from_row run_from_row
    event_from_row validate_payload apply_lifecycle_event apply_new check_new apply_payload sign_off
    replay_event require_active_response event_eq payload_eq
turn_missing = refl

initialized_again : initialize calls empty_database ≡ (ok tt, empty_database)
unfolding initialize initialize_transaction
initialized_again = refl

answer_registered : any (is_run "r") (after_calls calls script empty_database).runs ≡ true
unfolding register_conversation register_turn register_run append_event known_conversation
    turn_transaction run_transaction event_transaction known_turn known_run known_event new_event
    check_run stored_conversation stored_turn stored_run replay_rows by_sequence insert_by_sequence
    conversation_row turn_row run_row event_row conversation_from_row turn_from_row run_from_row
    event_from_row validate_payload apply_lifecycle_event apply_new check_new apply_payload sign_off
    replay_event require_active_response event_eq payload_eq
answer_registered = refl

calls-IsKeyed_example : IsKeyed (after_calls calls script empty_database)
calls-IsKeyed_example = calls-IsKeyed calls script

registered_replays_example :
    (r : ProviderRun) × (s : ProviderRunState) × (load_run calls "r"
        (after_calls calls script empty_database)
      ≡ ok r)
    × (replay calls "r" (after_calls calls script empty_database) ≡ ok s)
    × Reaches calls.event_fingerprint (initial_run_state r) s
registered_replays_example = registered_replays calls calls-IsFaithful script "r" answer_registered

appended_steps_example :
    (s : ProviderRunState) × (t : ProviderRunState) × (replay calls "r"
        (after_calls calls script empty_database)
      ≡ ok s)
    × (apply_lifecycle_event calls.event_fingerprint s ended ≡ ok t)
    × (replay calls "r" (append_event calls ended (after_calls calls script empty_database)).1
        ≡ ok t)
appended_steps_example = appended_steps calls calls-IsFaithful script ended ended-appended

append_event_again_example :
    append_event calls ended (append_event calls ended (after_calls calls script empty_database)).1
    ≡ (ok duplicate, (append_event calls ended (after_calls calls script empty_database)).1)
append_event_again_example =
    append_event_again calls calls-IsFaithful (after_calls calls script empty_database) ended
      ended-appended
