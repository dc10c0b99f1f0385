-- ===== src/Approvals/Used.antt =====
-- What the transaction of `consume` has tested, and what it returns and stores.
use systeme_local.Prelude.{
  ℕ, ◌<◌, String, ◌≡◌, refl, ap, none, some, arith, eq_iff, ok, Post, Post-ok, Post-bind, Post-then,
  committed, find,
}
use systeme_local.Models.{TaskEnvelope}
use systeme_local.Approvals.Row.{
  approved, consumed, StoredApproval, ApprovalRecord, record_from_stored,
}
use systeme_local.Approvals.{
  ApprovalStore, ApprovalDatabase, has_id, update, request_hmac, verify_stored, load, check_found,
  replace_state, check_alive, check_request, consume_state, consume_transaction, consume,
}
use systeme_local.Approvals.Sound.Rows.{load-ok, consume_state-ok}

module _ {A : Type 0} (c : ApprovalStore A) (now : ℕ) (id : String) (task : TaskEnvelope A)
    (db : ApprovalDatabase) where
  -- the tests, as the code makes them
  pub record IsOpen (stored : StoredApproval) : Type 0 where
    pub found : find (has_id id) db.approvals ≡ some stored
    pub verified : verify_stored c stored ≡ ok tt
    pub alive : now < stored.expires_at_us
    pub same_request : stored.request_hmac ≡ request_hmac c task
    pub is_approved : stored.state ≡ approved

  -- The row once it is used.
  abbrev pub used : StoredApproval → StoredApproval
  used stored = replace_state c stored consumed none (some now)

  abbrev Used : ApprovalRecord × ApprovalDatabase → Type 0
  Used p =
      (stored : StoredApproval) × IsOpen stored
      × (p ≡ (record_from_stored (used stored), update (used stored) db))

  check_alive-ok :
      (stored : StoredApproval) → check_alive c now stored ≡ ok tt → now < stored.expires_at_us
  unfolding check_alive
  check_alive-ok stored h = ground arith

  check_request-ok :
      (stored : StoredApproval)
      → check_request c task stored ≡ ok tt
      → stored.request_hmac ≡ request_hmac c task
  unfolding check_request
  check_request-ok stored h = ground (arith, eq_iff stored.request_hmac (request_hmac c task))

  consume_transaction-Used : Post Used (consume_transaction c now id task db)
  unfolding consume_transaction
  consume_transaction-Used = Post-bind _ _ (λ stored loaded.
      Post-then (check_alive c now stored) _ (λ alive.
        Post-then (check_request c task stored) _ (λ same.
          Post-then (consume_state c stored.state) _ (λ open_. Post-ok (
            stored,
            record {
              found = (load-ok c id db loaded).0;
              verified = (load-ok c id db loaded).1;
              alive = check_alive-ok stored alive;
              same_request = check_request-ok stored same;
              is_approved = consume_state-ok c stored.state open_;
            },
            refl,
          )))))

  -- the two directions
  pub used_of-consume :
      {r : ApprovalRecord}
      → (consume c now id task db).0 ≡ ok r
      → (stored : StoredApproval) × IsOpen stored
        × (r ≡ record_from_stored (used stored))
        × ((consume c now id task db).1 ≡ update (used stored) db)
  unfolding consume
  used_of-consume {r} h =
      let (stored, u, e) =
        consume_transaction-Used.at (r, (consume c now id task db).1)
          (committed db (consume_transaction c now id task db) h) in
      (stored, u, ap (λ p. p.0) e, ap (λ p. p.1) e)

  pub consume-IsOpen :
      (stored : StoredApproval)
      → IsOpen stored
      → consume c now id task db ≡ (ok (record_from_stored (used stored)), update (used stored) db)
  unfolding consume consume_transaction load check_found check_alive check_request consume_state
  consume-IsOpen stored u = ground (
    arith,
    u.found,
    u.verified,
    u.alive,
    u.same_request,
    u.is_approved,
    eq_iff stored.request_hmac (request_hmac c task),
  )
