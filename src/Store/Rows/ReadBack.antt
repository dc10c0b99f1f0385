-- ===== src/Store/Rows/ReadBack.antt =====
-- Rows that are read back: what was written is read, and what is read has the columns of its row.
use systeme_local.Prelude.{
  ℕ, String, ◌≡◌, refl, true, Option, none, some, arith, eq_iff, eq_refl, ◌==◌, ok,
}
use systeme_local.Lifecycle.Events.{ProviderRun, LifecycleEvent}
use systeme_local.Turns.{CommittedTurn, ConversationHandle}
use systeme_local.Store.Equal.{option_eq}
use systeme_local.Store.Rows.{
  StoreCalls, RunRow, EventRow, validate_payload, conversation_from_row, turn_from_row,
  run_from_row, event_from_row, conversation_row, turn_row, run_row, event_row,
}

-- What is relied on: a model's JSON is read back as the model, and the fingerprint of an event is
-- that of its JSON.
pub record IsFaithful {J : Type 0} (calls : StoreCalls J) : Type 0 where
  pub conversations :
      (c : ConversationHandle) → calls.load_conversation (calls.dump_conversation c) ≡ some c
  pub turns : (t : CommittedTurn) → calls.load_turn (calls.dump_turn t) ≡ some t
  pub runs : (r : ProviderRun) → calls.load_run (calls.dump_run r) ≡ some r
  pub events : (e : LifecycleEvent) → calls.load_event (calls.dump_event e) ≡ some e
  pub event_prints :
      (e : LifecycleEvent) → calls.fingerprint (calls.dump_event e) ≡ calls.event_fingerprint e

option_eq_refl : (o : Option String) → option_eq o o ≡ true
option_eq_refl none = refl
option_eq_refl (some s) = eq_refl s

module _ {J : Type 0} (calls : StoreCalls J) where
  pub event_from_row-sequence :
      (row : EventRow J) (e : LifecycleEvent)
      → event_from_row calls row ≡ ok e
      → e.sequence ≡ row.sequence
  unfolding event_from_row
  event_from_row-sequence row e h = ground arith

  pub run_from_row-run_id :
      (row : RunRow J) (r : ProviderRun) → run_from_row calls row ≡ ok r → r.run_id ≡ row.run_id
  unfolding run_from_row validate_payload
  run_from_row-run_id row r h = ground (arith, eq_iff r.run_id row.run_id)

  pub conversation_from_row-row :
      IsFaithful calls
      → (c : ConversationHandle) → conversation_from_row calls (conversation_row calls c) ≡ ok c
  unfolding conversation_from_row conversation_row validate_payload
  conversation_from_row-row h c =
      rw
        (
          eq_refl (calls.fingerprint (calls.dump_conversation c)),
          h.conversations c,
          eq_refl (calls.fingerprint (calls.dump_conversation c)),
          eq_refl c.conversation_id,
          eq_refl c.provider,
          eq_refl c.surface,
          option_eq_refl c.provider_conversation_id,
        )
        refl

  pub turn_from_row-row :
      IsFaithful calls → (t : CommittedTurn) → turn_from_row calls (turn_row calls t) ≡ ok t
  unfolding turn_from_row turn_row validate_payload
  turn_from_row-row h t =
      rw
        (
          eq_refl (calls.fingerprint (calls.dump_turn t)),
          h.turns t,
          eq_refl (calls.fingerprint (calls.dump_turn t)),
          eq_refl t.turn_id,
          eq_refl t.conversation_id,
          eq_refl t.idempotency_key,
        )
        refl

  pub run_from_row-row :
      IsFaithful calls → (r : ProviderRun) → run_from_row calls (run_row calls r) ≡ ok r
  unfolding run_from_row run_row validate_payload
  run_from_row-row h r =
      rw
        (
          eq_refl (calls.fingerprint (calls.dump_run r)),
          h.runs r,
          eq_refl (calls.fingerprint (calls.dump_run r)),
          eq_refl r.run_id,
          eq_refl r.conversation_id,
          eq_refl r.turn_id,
          eq_refl r.idempotency_key,
          eq_refl r.provider,
          eq_refl r.surface,
          option_eq_refl r.provider_run_id,
        )
        refl

  same_number : (n : ℕ) → (n == n) ≡ true
  same_number n = ground arith

  pub event_from_row-row :
      IsFaithful calls → (e : LifecycleEvent) → event_from_row calls (event_row calls e) ≡ ok e
  unfolding event_from_row event_row
  event_from_row-row h e =
      rw
        (
          h.event_prints e,
          eq_refl (calls.event_fingerprint e),
          h.events e,
          eq_refl e.run_id,
          same_number e.sequence,
          eq_refl e.event_id,
          option_eq_refl e.provider_event_id,
          eq_refl (calls.event_fingerprint e),
        )
        refl
