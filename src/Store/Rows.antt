-- ===== src/Store/Rows.antt =====
-- The rows of src/systeme_local_gateway/providers/store.py, and how a model is read back from one.
pub mod ReadBack
use systeme_local.Prelude.{
  ℕ, zero, suc, ◌+◌, ◌-◌, ◌*◌, ◌≤◌, ◌<◌, String, ◌≡◌, refl, sym, ap, ◌∙◌, ◌≢◌, ◌↔◌, ◌⊎◌, inl, inr,
  Bool, true, false, not, ◌&&◌, ◌||◌, Option, none, some, List, [], ◌∷◌, ◌++◌, map, arith, str_eq,
  eq_iff, eq_refl, ltb, leb, ◌==◌, if◌then◌else◌, leb→le, Bool-cases, Option-cases, is_some, Result,
  ok, err, ◌>>=◌, ◌>>◌, raise_if, Method, commit_or_rollback, Post, Post-ok, Post-err, Post-bind,
  Post-then, raise_if-ok, Post-commit, committed, length, any, find, keep, length-append,
  length-keep, All, All-append, any-append, All-keep, any-keep, keep-keep, find-all_false,
  find-true, All-find, Distinct, str_eq_comm, Distinct-keep, Distinct-append, has_key, dict_get,
  dict_set, dict_pop, has_key-dict_set, has_key-dict_pop, All-dict_set, All-dict_pop, bind-ok,
  bind-step, find-append, find-append_none, any-find-none,
}
use systeme_local.Lifecycle.Events.{ProviderRun, LifecycleEvent}
use systeme_local.Lifecycle.{
  LifecycleError, event_conflict, event_sequence_gap, invalid_transition, ProviderRunState,
  AppliedEventReceipt, initial_run_state, apply_lifecycle_event, apply_payload, sign_off,
  receipt_of, at_sequence,
}
use systeme_local.Turns.{CommittedTurn, ConversationHandle, ConversationState, active, closed}
use systeme_local.Store.Equal.{option_eq}

-- `EventStoreError` and its subclasses, `KeyError`, and the exceptions of the state machine.
pub data StoreError : Type 0 where
  store_error corrupt unsupported_schema key_error : StoreError
  lifecycle_error : LifecycleError → StoreError

-- What the module calls: pydantic's encoder and validators, and SHA-256. `J` is the type of the JSON
-- texts; a validator that raises gives `none`.
pub record StoreCalls (J : Type 0) : Type 0 where
  pub fingerprint : J → String
  pub dump_conversation : ConversationHandle → J
  pub load_conversation : J → Option ConversationHandle
  pub dump_turn : CommittedTurn → J
  pub load_turn : J → Option CommittedTurn
  pub dump_run : ProviderRun → J
  pub load_run : J → Option ProviderRun
  pub dump_event : LifecycleEvent → J
  pub load_event : J → Option LifecycleEvent
  pub event_fingerprint : LifecycleEvent → String

pub record ConversationRow (J : Type 0) : Type 0 where
  pub conversation_id : String
  pub provider : String
  pub surface : String
  pub provider_conversation_id : Option String
  pub fingerprint : String
  pub payload_json : J

pub record TurnRow (J : Type 0) : Type 0 where
  pub turn_id : String
  pub conversation_id : String
  pub idempotency_key : String
  pub fingerprint : String
  pub payload_json : J

pub record RunRow (J : Type 0) : Type 0 where
  pub run_id : String
  pub conversation_id : String
  pub turn_id : String
  pub idempotency_key : String
  pub provider : String
  pub surface : String
  pub provider_run_id : Option String
  pub fingerprint : String
  pub payload_json : J

pub record EventRow (J : Type 0) : Type 0 where
  pub run_id : String
  pub sequence : ℕ
  pub event_id : String
  pub provider_event_id : Option String
  pub fingerprint : String
  pub payload_json : J

abbrev pub or_raise {ℓ} : {A : Type ℓ} → StoreError → Option A → Result StoreError A
or_raise e none = err e
or_raise e (some a) = ok a

module _ {J : Type 0} (calls : StoreCalls J) where
  unfoldable pub validate_payload :
      {M : Type 0} → (J → Option M) → (M → J) → J → String → Result StoreError M
  validate_payload load dump payload fingerprint = do
    raise_if (not (str_eq (calls.fingerprint payload) fingerprint)) corrupt
    model ← or_raise corrupt (load payload)
    raise_if (not (str_eq (calls.fingerprint (dump model)) fingerprint)) corrupt
    ok model

  unfoldable pub conversation_from_row : ConversationRow J → Result StoreError ConversationHandle
  conversation_from_row row = do
    model ←
        validate_payload calls.load_conversation calls.dump_conversation row.payload_json
          row.fingerprint
    raise_if
        (not (
          str_eq model.conversation_id row.conversation_id
          && str_eq model.provider row.provider
          && str_eq model.surface row.surface
          && option_eq model.provider_conversation_id row.provider_conversation_id))
        corrupt
    ok model

  unfoldable pub turn_from_row : TurnRow J → Result StoreError CommittedTurn
  turn_from_row row = do
    model ← validate_payload calls.load_turn calls.dump_turn row.payload_json row.fingerprint
    raise_if
        (not (
          str_eq model.turn_id row.turn_id
          && str_eq model.conversation_id row.conversation_id
          && str_eq model.idempotency_key row.idempotency_key))
        corrupt
    ok model

  unfoldable pub run_from_row : RunRow J → Result StoreError ProviderRun
  run_from_row row = do
    model ← validate_payload calls.load_run calls.dump_run row.payload_json row.fingerprint
    raise_if
        (not (
          str_eq model.run_id row.run_id
          && str_eq model.conversation_id row.conversation_id
          && str_eq model.turn_id row.turn_id
          && str_eq model.idempotency_key row.idempotency_key
          && str_eq model.provider row.provider
          && str_eq model.surface row.surface
          && option_eq model.provider_run_id row.provider_run_id))
        corrupt
    ok model

  unfoldable pub event_from_row : EventRow J → Result StoreError LifecycleEvent
  event_from_row row = do
    raise_if (not (str_eq (calls.fingerprint row.payload_json) row.fingerprint)) corrupt
    event ← or_raise corrupt (calls.load_event row.payload_json)
    raise_if
        (not (
          str_eq event.run_id row.run_id
          && event.sequence == row.sequence
          && str_eq event.event_id row.event_id
          && option_eq event.provider_event_id row.provider_event_id
          && str_eq (calls.event_fingerprint event) row.fingerprint))
        corrupt
    ok event

  unfoldable pub conversation_row : ConversationHandle → ConversationRow J
  conversation_row c =
      let payload = calls.dump_conversation c in
      record {
        conversation_id = c.conversation_id;
        provider = c.provider;
        surface = c.surface;
        provider_conversation_id = c.provider_conversation_id;
        fingerprint = calls.fingerprint payload;
        payload_json = payload;
      }

  unfoldable pub turn_row : CommittedTurn → TurnRow J
  turn_row t =
      let payload = calls.dump_turn t in
      record {
        turn_id = t.turn_id;
        conversation_id = t.conversation_id;
        idempotency_key = t.idempotency_key;
        fingerprint = calls.fingerprint payload;
        payload_json = payload;
      }

  unfoldable pub run_row : ProviderRun → RunRow J
  run_row r =
      let payload = calls.dump_run r in
      record {
        run_id = r.run_id;
        conversation_id = r.conversation_id;
        turn_id = r.turn_id;
        idempotency_key = r.idempotency_key;
        provider = r.provider;
        surface = r.surface;
        provider_run_id = r.provider_run_id;
        fingerprint = calls.fingerprint payload;
        payload_json = payload;
      }

  unfoldable pub event_row : LifecycleEvent → EventRow J
  event_row e = record {
    run_id = e.run_id;
    sequence = e.sequence;
    event_id = e.event_id;
    provider_event_id = e.provider_event_id;
    fingerprint = calls.event_fingerprint e;
    payload_json = calls.dump_event e;
  }
