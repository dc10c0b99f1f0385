-- ===== src/Turns.antt =====
-- Conversations and committed turns of src/systeme_local_gateway/providers/models.py. Times are
-- whole microseconds; the patterns of identifiers are not checked here.
mod Bounds
mod Examples
use systeme_local.Prelude.{
  ℕ, zero, suc, ◌+◌, ◌-◌, ◌*◌, ◌≤◌, ◌<◌, String, ◌≡◌, refl, sym, ap, ◌∙◌, ◌≢◌, ◌↔◌, ◌⊎◌, inl, inr,
  Bool, true, false, not, ◌&&◌, ◌||◌, Option, none, some, List, [], ◌∷◌, ◌++◌, map, arith, str_eq,
  eq_iff, eq_refl, ltb, leb, ◌==◌, if◌then◌else◌, leb→le, Bool-cases, Option-cases, is_some, Result,
  ok, err, ◌>>=◌, ◌>>◌, raise_if, Method, commit_or_rollback, Post, Post-ok, Post-err, Post-bind,
  Post-then, raise_if-ok, Post-commit, committed, length, any, find, keep, length-append,
  length-keep, All, All-append, any-append, All-keep, any-keep, keep-keep, find-all_false,
  find-true, All-find, Distinct, str_eq_comm, Distinct-keep, Distinct-append, has_key, dict_get,
  dict_set, dict_pop, has_key-dict_set, has_key-dict_pop, All-dict_set, All-dict_pop,
}

pub record AgentPrincipalRef : Type 0 where
  pub agent_id : String
  pub instance_id : String
  pub key_id : String
  pub verification_id : String

pub record CommittedTurn : Type 0 where
  pub conversation_id : String
  pub turn_id : String
  pub trace_id : String
  pub idempotency_key : String
  pub principal : AgentPrincipalRef
  pub committed_at : ℕ
  pub content_sha256 : String
  pub utf8_bytes : ℕ
  pub part_count : ℕ

pub data ConversationState : Type 0 where
  active closed : ConversationState

pub record ConversationHandle : Type 0 where
  pub conversation_id : String
  pub provider : String
  pub surface : String
  pub created_by_agent : String
  pub created_at : ℕ
  pub updated_at : ℕ
  pub state : ConversationState
  pub provider_conversation_id : Option String

-- `validate_window`
pub valid_conversation : ConversationHandle → Bool
valid_conversation c = leb c.created_at c.updated_at

pub valid_turn : CommittedTurn → Bool
valid_turn t =
    leb 1 t.utf8_bytes && leb t.utf8_bytes 16_777_216 && leb 1 t.part_count && leb t.part_count 128

pub data TurnError : Type 0 where
  no_parts too_many_parts too_many_bytes no_bytes : TurnError

-- The bytes of a part in UTF-8, and SHA-256 after the domain and each part with its length, are not
-- part of the program: `B` is the type of bytes.
pub record TurnCalls (B : Type 0) : Type 0 where
  pub encode : String → B
  pub size : B → ℕ
  pub digest : List (ℕ × B) → String

module _ {B : Type 0} (calls : TurnCalls B) where
  -- the loop over the parts: the sum of the sizes, and what was given to the digest
  pub add_parts : List String → ℕ → List (ℕ × B) → Result TurnError (ℕ × List (ℕ × B))
  add_parts [] total hashed = ok (total, hashed)
  add_parts (part ∷ rest) total hashed =
      let encoded = calls.encode part in
      let total' = total + calls.size encoded in
      let later = add_parts rest total' (hashed ++ (calls.size encoded, encoded) ∷ []) in
      if ltb 16_777_216 total' then err too_many_bytes else later

  pub check_parts : List String → Result TurnError (ℕ × List (ℕ × B))
  check_parts parts = do
    raise_if (length parts == 0) no_parts
    raise_if (ltb 128 (length parts)) too_many_parts
    sums ← add_parts parts 0 []
    raise_if (sums.0 == 0) no_bytes
    ok sums

  pub commit_text_turn :
      String
      → String
      → String
      → String
      → AgentPrincipalRef
      → ℕ
      → List String
      → Result TurnError CommittedTurn
  commit_text_turn conversation_id turn_id trace_id key principal committed_at parts = do
    sums ← check_parts parts
    ok (record {
      conversation_id = conversation_id;
      turn_id = turn_id;
      trace_id = trace_id;
      idempotency_key = key;
      principal = principal;
      committed_at = committed_at;
      content_sha256 = calls.digest sums.1;
      utf8_bytes = sums.0;
      part_count = length parts;
    })
