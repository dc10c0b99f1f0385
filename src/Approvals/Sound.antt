-- ===== src/Approvals/Sound.antt =====
-- What holds of the store's rows after every operation.
pub mod Rows
use systeme_local.Prelude.{
  ℕ, suc, ◌+◌, ◌*◌, ◌≤◌, ◌<◌, String, ◌≡◌, refl, sym, ap, ◌∙◌, ◌≢◌, ◌⊎◌, inl, inr, false, Option,
  none, some, List, [], ◌∷◌, arith, eq_iff, leb, Bool-cases, Option-cases, Result, ok, err, ◌>>◌,
  raise_if, Post, Post-ok, Post-err, Post-bind, Post-then, raise_if-ok, Post-commit, length, any,
  find, keep, length-append, length-keep, All, All-append, All-keep, All-find, Distinct,
  Distinct-keep, Distinct-append,
}
use mathlib.Core.Path.{subst}
use systeme_local.Models.{TaskEnvelope}
use systeme_local.Approvals.Row.{
  ApprovalState, pending, approved, denied, consumed, state_eq, StoredApproval, ApprovalRecord,
  ApprovalError, database_error, capacity_exhausted,
}
use systeme_local.Approvals.Calls.{
  Call, create_call, approve_call, deny_call, consume_call, list_call, after, run,
}
use systeme_local.Approvals.{
  ApprovalStore, ApprovalDatabase, has_id, unexpired, delete_expired, replace_rows, update, or_else,
  request_hmac, seal_row, verify_stored, load, check_found, replace_state, seal_row, new_stored,
  insert, create_transaction, create, check_alive, check_request, check_request?, consume_state,
  consume_transaction, consume, settle, decide_transaction, decide, approve, deny, list_transaction,
  list_pending, reusable, newest, oldest_first, verify_rows,
}
use systeme_local.Approvals.Sound.Rows.{
  IsGenuine, IsSound, delete_expired-IsSound, update-IsSound, load-IsGenuine,
  replace_state-IsGenuine, consume_state-ok, consume_Stamps, decide_Stamps,
}

module _ {A : Type 0} (c : ApprovalStore A) where
  consume-IsSound :
      (now : ℕ) (id : String) (task : TaskEnvelope A) (db : ApprovalDatabase)
      → IsSound c db
      → IsSound c (consume c now id task db).1
  unfolding consume consume_transaction
  consume-IsSound now id task db h =
      Post-commit (IsSound c) db (consume_transaction c now id task db) h (
        Post-bind _ _ (λ stored loaded. Post-then (check_alive c now stored) _ (λ alive.
          Post-then (check_request c task stored) _ (λ same.
            Post-then (consume_state c stored.state) _ (λ open_.
              let g = load-IsGenuine c id db h loaded in
              Post-ok (
                (update-IsSound c) _ db
                  (replace_state-IsGenuine c stored consumed none (some now) g (
                    (consume_Stamps c) stored.state stored.decided_at_us stored.consumed_at_us now
                      (consume_state-ok c stored.state open_) g.stamps))
                  h))))))

  settle-IsSound :
      (now : ℕ) (decision : ApprovalState) (stored : StoredApproval) (db : ApprovalDatabase)
      → (decision ≡ approved) ⊎ (decision ≡ denied)
      → IsGenuine c stored
      → IsSound c db
      → Post
          (λ (p : ApprovalRecord × ApprovalDatabase). (IsSound c) p.1)
          (settle c now decision stored db)
  unfolding settle
  settle-IsSound now decision stored db w g h = elim (Bool-cases (state_eq stored.state decision)) [
    | inl same ↦ rw same (Post-ok h)
    | inr other ↦ elim (Bool-cases (state_eq stored.state pending)) [
      | inl p ↦
          rw (other, p)
            (Post-ok (
              (update-IsSound c) _ db
                (replace_state-IsGenuine c stored decision (some now) none g (
                  (decide_Stamps c) stored.state decision stored.decided_at_us stored.consumed_at_us
                    now (ground arith) w g.stamps))
                h))
      | inr q ↦ rw (other, q) (Post-err _)
    ]
  ]

  decide-IsSound :
      (now : ℕ) (id : String) (decision : ApprovalState) (task : Option (TaskEnvelope A))
      (db : ApprovalDatabase)
      → (decision ≡ approved) ⊎ (decision ≡ denied)
      → IsSound c db
      → IsSound c (decide c now id decision task db).1
  unfolding decide decide_transaction
  decide-IsSound now id decision task db w h =
      Post-commit (IsSound c) db (decide_transaction c now id decision task db) h (
        Post-bind _ _ (λ stored loaded. Post-then (check_alive c now stored) _ (λ alive.
          Post-then (check_request? c task stored) _
            (λ same. settle-IsSound now decision stored db w (load-IsGenuine c id db h loaded) h))))

  list_pending-IsSound :
      (now : ℕ) (db : ApprovalDatabase) → IsSound c db → IsSound c (list_pending c now db).1
  unfolding list_pending list_transaction
  list_pending-IsSound now db h = Post-commit (IsSound c) db (list_transaction c now db) h (
      Post-then
        (verify_rows c (
          oldest_first
            (keep (λ row. state_eq row.state pending) (delete_expired now db).approvals)))
        _ (λ _. Post-ok (delete_expired-IsSound c now db h)))

  new_stored-IsGenuine :
      (task : TaskEnvelope A) (token : String) (now later : ℕ)
      → now < later
      → IsGenuine c (new_stored c task token now later)
  unfolding new_stored seal_row
  new_stored-IsGenuine task token now later h = record { lasting = h; sealed = refl; stamps = tt }

  insert-IsSound :
      (stored : StoredApproval) (db : ApprovalDatabase)
      → IsGenuine c stored
      → IsSound c db
      → leb c.max_entries (length db.approvals) ≡ false
      → Post (λ (p : ApprovalRecord × ApprovalDatabase). (IsSound c) p.1) (insert c stored db)
  unfolding insert
  insert-IsSound stored db g h room =
      Post-then (raise_if (any (has_id stored.approval_id) db.approvals) database_error) _ (λ new.
        Post-ok (record {
          fits = ground (arith, length-append db.approvals (stored ∷ []));
          one_each =
              Distinct-append (λ (row : StoredApproval). row.approval_id) stored db.approvals
                h.one_each (raise_if-ok _ _ new);
          genuine = All-append (IsGenuine c) db.approvals (stored ∷ []) h.genuine (g, tt);
        }))

  create-IsSound :
      (now : ℕ) (token : String) (task : TaskEnvelope A) (db : ApprovalDatabase)
      → 0 < c.ttl_seconds
      → IsSound c db
      → IsSound c (create c now token task db).1
  unfolding create create_transaction
  create-IsSound now token task db ttl h =
      Post-commit (IsSound c) db (create_transaction c now token task db) h (
        let k = delete_expired-IsSound c now db h in
        elim (Option-cases (
          newest (keep (reusable c (request_hmac c task) now) (delete_expired now db).approvals))) [
            | inl e ↦
                rw (e, create_transaction)
                  (Post-then
                    (raise_if (leb c.max_entries (length (delete_expired now db).approvals))
                      capacity_exhausted)
                    _
                    (λ room.
                      insert-IsSound _ _
                        (new_stored-IsGenuine task token now (now + c.ttl_seconds * 1_000_000)
                          (omega arith))
                        k (raise_if-ok _ _ room)))
            | inr (stored, e) ↦
                rw (e, create_transaction) (Post-then (verify_stored c stored) _ (λ _. Post-ok k))
          ])

  after-IsSound :
      (call : Call A) (db : ApprovalDatabase)
      → 0 < c.ttl_seconds
      → IsSound c db
      → IsSound c (after c call db)
  unfolding approve deny
  after-IsSound (create_call now token task) db ttl h = create-IsSound now token task db ttl h
  after-IsSound (approve_call now id task) db ttl h =
      decide-IsSound now id approved (some task) db (inl refl) h
  after-IsSound (deny_call now id) db ttl h = decide-IsSound now id denied none db (inr refl) h
  after-IsSound (consume_call now id task) db ttl h = consume-IsSound now id task db h
  after-IsSound (list_call now) db ttl h = list_pending-IsSound now db h

  -- After any calls of `create`, `approve`, `deny`, `consume` and `list_pending`, failing ones
  -- included, in a store whose lifetime of an approval is not zero, the table is still sound: at
  -- most `max_entries` rows, no identifier twice, and in every row the digest of its columns, an
  -- expiry after its creation, and the times of decision and of use that its state calls for.
  pub run-IsSound :
      (calls : List (Call A)) (db : ApprovalDatabase)
      → 0 < c.ttl_seconds
      → IsSound c db
      → IsSound c (run c calls db)
  unfolding run
  run-IsSound [] db ttl h = h
  run-IsSound (call ∷ calls) db ttl h =
      run-IsSound calls (after c call db) ttl (after-IsSound call db ttl h)
