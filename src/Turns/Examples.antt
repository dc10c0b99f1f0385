-- ===== src/Turns/Examples.antt =====
-- A turn of two parts.
use Prim.Native.String.{len}
use systeme_local.Prelude.{String, ◌≡◌, refl, true, [], ◌∷◌, ok, err}
use systeme_local.Turns.{
  AgentPrincipalRef, CommittedTurn, valid_turn, TurnCalls, add_parts, check_parts, commit_text_turn,
  no_bytes,
}
use systeme_local.Turns.Bounds.{hashed_parts, total_size, commit-valid}

abbrev calls : TurnCalls String
calls = record { encode = λ s. s; size = len; digest = λ l. "digest" }

abbrev principal : AgentPrincipalRef
principal = record { agent_id = "a"; instance_id = "i"; key_id = "k"; verification_id = "v" }

abbrev turn : CommittedTurn
turn = record {
  conversation_id = "c";
  turn_id = "t";
  trace_id = "x";
  idempotency_key = "k";
  principal = principal;
  committed_at = 5;
  content_sha256 = "digest";
  utf8_bytes = 5;
  part_count = 2;
}

committed_once : commit_text_turn calls "c" "t" "x" "k" principal 5 ("ab" ∷ "cde" ∷ []) ≡ ok turn
unfolding commit_text_turn check_parts add_parts
committed_once = refl

empty_parts : commit_text_turn calls "c" "t" "x" "k" principal 5 ("" ∷ "" ∷ []) ≡ err no_bytes
unfolding commit_text_turn check_parts add_parts
empty_parts = refl

commit-valid_example :
    (valid_turn turn ≡ true)
    × (turn.utf8_bytes ≡ total_size calls ("ab" ∷ "cde" ∷ []))
    × (turn.part_count ≡ 2)
    × (turn.content_sha256 ≡ calls.digest (hashed_parts calls ("ab" ∷ "cde" ∷ [])))
commit-valid_example =
    commit-valid calls "c" "t" "x" "k" principal 5 ("ab" ∷ "cde" ∷ []) turn committed_once
