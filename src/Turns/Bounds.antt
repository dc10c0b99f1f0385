-- ===== src/Turns/Bounds.antt =====
-- What a turn that is committed counts and hashes.
use systeme_local.Prelude.{
  ℕ, ◌+◌, ◌≤◌, String, ◌≡◌, refl, sym, ap, ◌∙◌, inl, inr, true, List, [], ◌∷◌, ◌++◌, arith, ltb,
  ◌==◌, Bool-cases, ok, raise_if, Post, Post-ok, Post-err, Post-bind, Post-then, raise_if-ok,
  length,
}
use mathlib.Core.List.{append-nil, append_assoc}
use systeme_local.Turns.{
  AgentPrincipalRef, CommittedTurn, valid_turn, too_many_bytes, no_parts, too_many_parts, no_bytes,
  TurnCalls, add_parts, check_parts, commit_text_turn,
}

module _ {B : Type 0} (calls : TurnCalls B) where
  -- the parts with their sizes, in their order, and the sum of the sizes
  pub hashed_parts : List String → List (ℕ × B)
  hashed_parts [] = []
  hashed_parts (part ∷ rest) =
      (calls.size (calls.encode part), calls.encode part) ∷ hashed_parts rest

  pub total_size : List String → ℕ
  total_size [] = 0
  total_size (part ∷ rest) = calls.size (calls.encode part) + total_size rest

  add_parts-ok :
      (parts : List String) (total : ℕ) (hashed : List (ℕ × B))
      → total ≤ 16_777_216
      → Post
          (λ (s : ℕ × List (ℕ × B)).
            (s.0 ≡ total + total_size parts)
            × (s.0 ≤ 16_777_216)
            × (s.1 ≡ hashed ++ hashed_parts parts))
          (add_parts calls parts total hashed)
  unfolding add_parts total_size hashed_parts
  add_parts-ok [] total hashed le = Post-ok (omega arith, le, sym (append-nil hashed))
  add_parts-ok (part ∷ rest) total hashed le =
      let n = calls.size (calls.encode part) in
      elim (Bool-cases (ltb 16_777_216 (total + n))) [
        | inl e ↦ rw e (Post-err too_many_bytes)
        | inr e ↦ rw e (record {
          at = λ s q.
              let (a, b, c) =
                (add_parts-ok rest (total + n) (hashed ++ (n, calls.encode part) ∷ [])
                    (ground arith)).at
                  s q in
              (
                omega arith,
                b,
                c ∙ append_assoc hashed ((n, calls.encode part) ∷ []) (hashed_parts rest),
              );
        })
      ]

  check_parts-ok :
      (parts : List String)
      → Post
          (λ (s : ℕ × List (ℕ × B)).
            (s.0 ≡ total_size parts)
            × (s.1 ≡ hashed_parts parts)
            × (1 ≤ s.0)
            × (s.0 ≤ 16_777_216)
            × (1 ≤ length parts)
            × (length parts ≤ 128))
          (check_parts calls parts)
  unfolding check_parts
  check_parts-ok parts = Post-then (raise_if (length parts == 0) no_parts) _ (λ e1.
      Post-then (raise_if (ltb 128 (length parts)) too_many_parts) _ (λ e2.
        Post-bind (add_parts calls parts 0 []) _ (λ s e3.
          Post-then (raise_if (s.0 == 0) no_bytes) _ (λ e4.
            let (a, b, c) = (add_parts-ok parts 0 [] (omega arith)).at s e3 in
            let t1 = raise_if-ok _ _ e1 in
            let t2 = raise_if-ok _ _ e2 in
            let t4 = raise_if-ok _ _ e4 in
            Post-ok (omega arith, c, ground arith, b, ground arith, ground arith)))))

  -- A turn that is committed satisfies its model: between one and 128 parts, and between one byte and
  -- 16 MiB. Its byte count is the sum over all parts, and its digest is over all parts with their
  -- sizes, in their order.
  pub commit-valid :
      (conversation_id turn_id trace_id key : String) (principal : AgentPrincipalRef)
      (committed_at : ℕ) (parts : List String) (turn : CommittedTurn)
      → commit_text_turn calls conversation_id turn_id trace_id key principal committed_at parts
        ≡ ok turn
      → (valid_turn turn ≡ true)
        × (turn.utf8_bytes ≡ total_size parts)
        × (turn.part_count ≡ length parts)
        × (turn.content_sha256 ≡ calls.digest (hashed_parts parts))
  unfolding commit_text_turn valid_turn
  commit-valid conversation_id turn_id trace_id key principal committed_at parts turn h =
      (Post-bind
          {P = λ (t : CommittedTurn).
            (valid_turn t ≡ true)
            × (t.utf8_bytes ≡ total_size parts)
            × (t.part_count ≡ length parts)
            × (t.content_sha256 ≡ calls.digest (hashed_parts parts))}
          (check_parts calls parts) _
          (λ s e.
            let (a, b, c, d, f, g) = (check_parts-ok parts).at s e in
            Post-ok (ground arith, a, refl, ap calls.digest b))).at
        turn h
