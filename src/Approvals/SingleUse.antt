-- ===== src/Approvals/SingleUse.antt =====
-- An approval is used once at most.
use Prim.Native.String.{◌++◌ as str_append}
use mathlib.Core.Path.{subst}
use systeme_local.Prelude.{
  ℕ, ◌+◌, ◌*◌, String, ◌≡◌, refl, ◌⊎◌, inl, inr, Bool, true, false, not, ◌&&◌, Option, none, some,
  List, [], ◌∷◌, arith, str_eq, eq_iff, leb, Bool-cases, Option-cases, Result, ok, err, raise_if,
  Post, Post-ok, Post-err, Post-bind, Post-then, Post-commit, length, any, find, keep, any-append,
  any-keep, find-true,
}
use systeme_local.Models.{TaskEnvelope}
use systeme_local.Approvals.Row.{
  ApprovalState, pending, approved, denied, consumed, state_eq, StoredApproval, ApprovalRecord,
  ApprovalError, capacity_exhausted, database_error,
}
use systeme_local.Approvals.Calls.{
  Call, create_call, approve_call, deny_call, consume_call, list_call, after, uses, succeeded,
  count_uses,
}
use systeme_local.Approvals.{
  ApprovalStore, ApprovalDatabase, has_id, unexpired, delete_expired, replace_rows, update,
  request_hmac, verify_stored, load, replace_state, seal_row, new_stored, insert,
  create_transaction, create, check_alive, check_request, check_request?, consume_state,
  consume_transaction, consume, settle, decide_transaction, decide, approve, deny, list_transaction,
  list_pending, newest, reusable, oldest_first, verify_rows,
}
use systeme_local.Approvals.Sound.Rows.{load-ok}
use systeme_local.Approvals.Used.{IsOpen, used, used_of-consume}

-- A row with the identifier that is not consumed.
abbrev unspent : String → StoredApproval → Bool
unspent id row = has_id id row && not (state_eq row.state consumed)

-- All that the table holds under the identifier is consumed.
abbrev pub Spent : String → ApprovalDatabase → Type 0
Spent id db = any (unspent id) db.approvals ≡ false

-- the calls of `create` that give out the identifier
abbrev pub gives : {A : Type 0} → String → Call A → Bool
gives id (create_call now token task) = str_eq (str_append "apr_" token) id
gives id _ = false

any-unspent-replace :
    (u : StoredApproval) (id : String) (rows : List StoredApproval)
    → unspent id u ≡ false
    → any (unspent id) rows ≡ false
    → any (unspent id) (replace_rows u rows) ≡ false
unfolding replace_rows
any-unspent-replace u id [] spent h = refl
any-unspent-replace u id (row ∷ rows) spent h = ground (arith, any-unspent-replace u id rows)

-- where every row with the identifier is replaced by a consumed one
any-unspent-replaced :
    (u : StoredApproval) (rows : List StoredApproval)
    → u.state ≡ consumed
    → any (unspent u.approval_id) (replace_rows u rows) ≡ false
unfolding replace_rows
any-unspent-replaced u [] spent = refl
any-unspent-replaced u (row ∷ rows) spent = ground (arith, any-unspent-replaced u rows spent)

found-consumed :
    (id : String) (rows : List StoredApproval) {stored : StoredApproval}
    → any (unspent id) rows ≡ false
    → find (has_id id) rows ≡ some stored
    → state_eq stored.state consumed ≡ true
found-consumed id [] h e = cc
found-consumed id (row ∷ rows) {stored} h e =
    ground (arith, found-consumed id rows {stored = stored})

module _ {A : Type 0} (c : ApprovalStore A) (id : String) where
  delete_expired-Spent :
      (now : ℕ) (db : ApprovalDatabase) → Spent id db → Spent id (delete_expired now db)
  unfolding delete_expired
  delete_expired-Spent now db h = any-keep (unspent id) (unexpired now) db.approvals h

  update-Spent :
      (u : StoredApproval) (db : ApprovalDatabase)
      → unspent id u ≡ false
      → Spent id db
      → Spent id (update u db)
  unfolding update
  update-Spent u db spent h = any-unspent-replace u id db.approvals spent h

  -- a change of state keeps the identifier
  changed-unspent :
      (stored : StoredApproval) (state : ApprovalState) (d u : Option ℕ)
      → str_eq stored.approval_id id ≡ false
      → unspent id (replace_state c stored state d u) ≡ false
  unfolding replace_state seal_row
  changed-unspent stored state d u other = rw other

  -- what `load` finds under a spent identifier is consumed
  load-consumed :
      (other : String) (db : ApprovalDatabase) (stored : StoredApproval)
      → Spent id db
      → load c other db ≡ ok stored
      → (str_eq stored.approval_id id ≡ false) ⊎ (stored.state ≡ consumed)
  load-consumed other db stored h loaded = elim (Bool-cases (str_eq stored.approval_id id)) [
    | inl e ↦
        let f = (load-ok c other db loaded).0 in
        let p = find-true (has_id other) db.approvals f in
        let q : other ≡ id =
          ground (arith, eq_iff stored.approval_id other, eq_iff stored.approval_id id) in
        inr (ground (arith, found-consumed id db.approvals {stored = stored} h (rw q at f)))
    | inr e ↦ inl e
  ]

  settle-Spent :
      (now : ℕ) (decision : ApprovalState) (stored : StoredApproval) (db : ApprovalDatabase)
      → Spent id db
      → (str_eq stored.approval_id id ≡ false) ⊎ (stored.state ≡ consumed)
      → Post
          (λ (p : ApprovalRecord × ApprovalDatabase). Spent id p.1)
          (settle c now decision stored db)
  unfolding settle
  settle-Spent now decision stored db h w = elim (Bool-cases (state_eq stored.state decision)) [
    | inl same ↦ rw same (Post-ok h)
    | inr other ↦ elim (Bool-cases (state_eq stored.state pending)) [
      | inl p ↦
          rw (other, p)
            (Post-ok (
              update-Spent _ db (changed-unspent stored decision (some now) none (ground arith)) h))
      | inr q ↦ rw (other, q) (Post-err _)
    ]
  ]

  decide-Spent :
      (now : ℕ) (other : String) (decision : ApprovalState) (task : Option (TaskEnvelope A))
      (db : ApprovalDatabase)
      → Spent id db
      → Spent id (decide c now other decision task db).1
  unfolding decide decide_transaction
  decide-Spent now other decision task db h =
      Post-commit (Spent id) db (decide_transaction c now other decision task db) h (
        Post-bind (load c other db) _ (λ stored loaded.
          Post-then (check_alive c now stored) _ (λ alive.
            Post-then (check_request? c task stored) _ (λ same.
              settle-Spent now decision stored db h (load-consumed other db stored h loaded)))))

  list_pending-Spent :
      (now : ℕ) (db : ApprovalDatabase) → Spent id db → Spent id (list_pending c now db).1
  unfolding list_pending list_transaction
  list_pending-Spent now db h = Post-commit (Spent id) db (list_transaction c now db) h (
      Post-then
        (verify_rows c (
          oldest_first
            (keep (λ row. state_eq row.state pending) (delete_expired now db).approvals)))
        _ (λ _. Post-ok (delete_expired-Spent now db h)))

  insert-Spent :
      (stored : StoredApproval) (db : ApprovalDatabase)
      → str_eq stored.approval_id id ≡ false
      → Spent id db
      → Post (λ (p : ApprovalRecord × ApprovalDatabase). Spent id p.1) (insert c stored db)
  unfolding insert
  insert-Spent stored db other h =
      Post-then (raise_if (any (has_id stored.approval_id) db.approvals) database_error) _
        (λ new. Post-ok (ground (arith, any-append (unspent id) db.approvals (stored ∷ []))))

  new_stored-other :
      (task : TaskEnvelope A) (token : String) (now later : ℕ)
      → str_eq (str_append "apr_" token) id ≡ false
      → str_eq (new_stored c task token now later).approval_id id ≡ false
  unfolding new_stored seal_row
  new_stored-other task token now later h = h

  create-Spent :
      (now : ℕ) (token : String) (task : TaskEnvelope A) (db : ApprovalDatabase)
      → str_eq (str_append "apr_" token) id ≡ false
      → Spent id db
      → Spent id (create c now token task db).1
  unfolding create create_transaction
  create-Spent now token task db other h =
      Post-commit (Spent id) db (create_transaction c now token task db) h (
        let k = delete_expired-Spent now db h in
        elim (Option-cases (
          newest (keep (reusable c (request_hmac c task) now) (delete_expired now db).approvals))) [
            | inl e ↦
                rw (e, create_transaction)
                  (Post-then
                    (raise_if (leb c.max_entries (length (delete_expired now db).approvals))
                      capacity_exhausted)
                    _
                    (λ room.
                      insert-Spent _ _
                        (new_stored-other task token now (now + c.ttl_seconds * 1_000_000) other)
                        k))
            | inr (stored, e) ↦
                rw (e, create_transaction) (Post-then (verify_stored c stored) _ (λ _. Post-ok k))
          ])

  consumed-Spent :
      (stored : StoredApproval) (d u : Option ℕ)
      → unspent id (replace_state c stored consumed d u) ≡ false
  unfolding replace_state seal_row
  consumed-Spent stored d u = ground arith

  consume-Spent :
      (now : ℕ) (other : String) (task : TaskEnvelope A) (db : ApprovalDatabase)
      → Spent id db
      → Spent id (consume c now other task db).1
  unfolding consume consume_transaction
  consume-Spent now other task db h =
      Post-commit (Spent id) db (consume_transaction c now other task db) h (
        Post-bind (load c other db) _ (λ stored loaded.
          Post-then (check_alive c now stored) _ (λ alive.
            Post-then (check_request c task stored) _ (λ same.
              Post-then (consume_state c stored.state) _ (λ open_. Post-ok (
                update-Spent (replace_state c stored consumed none (some now)) db
                  (consumed-Spent stored none (some now)) h))))))

  after-Spent :
      (call : Call A) (db : ApprovalDatabase)
      → gives id call ≡ false
      → Spent id db
      → Spent id (after c call db)
  unfolding approve deny
  after-Spent (create_call now token task) db other h = create-Spent now token task db other h
  after-Spent (approve_call now other task) db _ h =
      decide-Spent now other approved (some task) db h
  after-Spent (deny_call now other) db _ h = decide-Spent now other denied none db h
  after-Spent (consume_call now other task) db _ h = consume-Spent now other task db h
  after-Spent (list_call now) db _ h = list_pending-Spent now db h

  -- nothing usable is found under a spent identifier
  Spent-not-IsOpen :
      (now : ℕ) (task : TaskEnvelope A) (db : ApprovalDatabase) (stored : StoredApproval)
      → Spent id db
      → ¬ IsOpen c now id task db stored
  Spent-not-IsOpen now task db stored h u =
      let p = found-consumed id db.approvals {stored = stored} h u.found in
      ground (arith, u.is_approved)

  Spent-consume :
      (now : ℕ) (task : TaskEnvelope A) (db : ApprovalDatabase)
      → Spent id db
      → succeeded (consume c now id task db).0 ≡ false
  Spent-consume now task db h = go (consume c now id task db).0 refl
    where
      go :
          (r : Result ApprovalError ApprovalRecord)
          → (consume c now id task db).0 ≡ r
          → succeeded (consume c now id task db).0 ≡ false
      go (ok r) e =
          let (stored, u, _, _) = used_of-consume c now id task db e in
          absurd (Spent-not-IsOpen now task db stored h u)
      go (err x) e = rw e

  Spent-uses : (call : Call A) (db : ApprovalDatabase) → Spent id db → uses c id call db ≡ false
  Spent-uses (consume_call now other task) db h = elim (Bool-cases (str_eq other id)) [
    | inl e ↦
        let q : other ≡ id = (eq_iff other id).0 e in
        rw (q, Spent-consume now task db h) (ground arith)
    | inr e ↦ rw e
  ]
  Spent-uses (create_call now token task) db h = refl
  Spent-uses (approve_call now other task) db h = refl
  Spent-uses (deny_call now other) db h = refl
  Spent-uses (list_call now) db h = refl

  count_uses-Spent :
      (calls : List (Call A)) (db : ApprovalDatabase)
      → any (gives id) calls ≡ false
      → Spent id db
      → count_uses c id calls db ≡ 0
  unfolding count_uses
  count_uses-Spent [] db fresh h = refl
  count_uses-Spent (call ∷ calls) db fresh h = rw (Spent-uses call db h) (
      count_uses-Spent calls (after c call db) (ground arith)
        (after-Spent call db (ground arith) h))

  used-Spent :
      (now : ℕ) (task : TaskEnvelope A) (db : ApprovalDatabase) (stored : StoredApproval)
      → str_eq stored.approval_id id ≡ true
      → Spent id (update (used c now id task db stored) db)
  unfolding update replace_state seal_row
  used-Spent now task db stored e =
      let q = (eq_iff stored.approval_id id).0 e in
      subst
        (λ i.
          any (unspent i)
            (replace_rows (replace_state c stored consumed none (some now)) db.approvals)
          ≡ false)
        q (any-unspent-replaced (replace_state c stored consumed none (some now)) db.approvals refl)

  -- Once `consume` has accepted an approval, it accepts that identifier in none of the calls that
  -- follow, whatever they are and whatever their times, as long as `create` does not give the same
  -- identifier out again.
  pub used_once :
      (now : ℕ) (task : TaskEnvelope A) (db : ApprovalDatabase) (calls : List (Call A))
      {r : ApprovalRecord}
      → (consume c now id task db).0 ≡ ok r
      → any (gives id) calls ≡ false
      → count_uses c id calls (consume c now id task db).1 ≡ 0
  used_once now task db calls h fresh =
      let (stored, u, _, e) = used_of-consume c now id task db h in
      count_uses-Spent calls (consume c now id task db).1 fresh
        (rw e (used-Spent now task db stored (find-true (has_id id) db.approvals u.found)))
