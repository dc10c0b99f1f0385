-- ===== src/Approvals/Exact.antt =====
-- When an approval can be used, and what its use changes, said on the columns of its row.
use Prim.Native.String.{slice}
use systeme_local.Prelude.{
  ℕ, ◌<◌, String, ◌≡◌, refl, sym, ap, ◌∙◌, ◌≢◌, inl, inr, some, List, [], ◌∷◌, map, arith, str_eq,
  eq_iff, eq_refl, Bool-cases, ok, find, find-true, keep,
}
use systeme_local.Models.{TaskEnvelope}
use systeme_local.Approvals.Row.{
  approved, consumed, ApprovalFields, StoredApproval, ApprovalRecord, record_from_stored,
  approval_request_payload,
}
use systeme_local.Approvals.{
  ApprovalStore, ApprovalDatabase, has_id, replace_rows, update, request_hmac, verify_stored,
  replace_state, seal_row, consume,
}
use systeme_local.Approvals.Used.{IsOpen, used, used_of-consume, consume-IsOpen}

-- The row of an identifier has become another one, and nothing else of the database has changed:
-- no row of another identifier, not the order of the rows, and no setting.
pub record IsReplaced (id : String) (u : StoredApproval) (db db' : ApprovalDatabase) : Type 0 where
  pub found : find (λ row. str_eq row.approval_id id) db'.approvals ≡ some u
  pub others :
      (other : String)
      → other ≢ id
      → keep (λ row. str_eq row.approval_id other) db'.approvals
        ≡ keep (λ row. str_eq row.approval_id other) db.approvals
  pub same_order :
      map (λ (row : StoredApproval). row.approval_id) db'.approvals
      ≡ map (λ (row : StoredApproval). row.approval_id) db.approvals
  pub same_settings : db' ≡ record db { approvals = db'.approvals }

module _ (u : StoredApproval) where
  find-replace_rows :
      (rows : List StoredApproval) {stored : StoredApproval}
      → find (has_id u.approval_id) rows ≡ some stored
      → find (has_id u.approval_id) (replace_rows u rows) ≡ some u
  unfolding replace_rows
  find-replace_rows [] h = cc
  find-replace_rows (row ∷ rows) h = elim (Bool-cases (has_id u.approval_id row)) [
    | inl e ↦ rw (e, eq_refl u.approval_id) refl
    | inr e ↦ rw (e, e) (find-replace_rows rows (rw e at h))
  ]

  keep-replace_rows :
      (other : String) (rows : List StoredApproval)
      → other ≢ u.approval_id
      → keep (has_id other) (replace_rows u rows) ≡ keep (has_id other) rows
  unfolding replace_rows
  keep-replace_rows other [] h = refl
  keep-replace_rows other (row ∷ rows) h = ground (
    arith,
    keep-replace_rows other rows h,
    eq_iff row.approval_id u.approval_id,
    eq_iff row.approval_id other,
    eq_iff u.approval_id other,
  )

  map-replace_rows :
      (rows : List StoredApproval)
      → map (λ (row : StoredApproval). row.approval_id) (replace_rows u rows)
        ≡ map (λ (row : StoredApproval). row.approval_id) rows
  unfolding replace_rows
  map-replace_rows [] = refl
  map-replace_rows (row ∷ rows) = elim (Bool-cases (has_id u.approval_id row)) [
    | inl e ↦
        let q = (eq_iff row.approval_id u.approval_id).0 e in
        rw (e, map-replace_rows rows)
          (ap (λ i. i ∷ map (λ (x : StoredApproval). x.approval_id) rows) (sym q))
    | inr e ↦ rw (e, map-replace_rows rows) refl
  ]

  update-IsReplaced :
      (db : ApprovalDatabase) {stored : StoredApproval}
      → find (has_id u.approval_id) db.approvals ≡ some stored
      → IsReplaced u.approval_id u db (update u db)
  unfolding update
  update-IsReplaced db h = record {
    found = find-replace_rows db.approvals h;
    others = λ other h. keep-replace_rows other db.approvals h;
    same_order = map-replace_rows db.approvals;
    same_settings = refl;
  }

module _ {A : Type 0} (c : ApprovalStore A) (now : ℕ) (id : String) (task : TaskEnvelope A)
    (db : ApprovalDatabase) where
  -- The identifier names a row with a valid digest that was approved for exactly this task, agent,
  -- capability and arguments, is still alive, and has not been used.
  pub record IsUsable (stored : StoredApproval) : Type 0 where
    pub found : find (λ row. str_eq row.approval_id id) db.approvals ≡ some stored
    pub lasting : stored.created_at_us < stored.expires_at_us
    pub sealed : stored.row_hmac ≡ c.row_digest stored.fields
    pub alive : now < stored.expires_at_us
    pub same_request :
        stored.request_hmac
        ≡ c.request_digest (record {
          task_id = task.task_id;
          agent = task.agent;
          capability = task.capability;
          arguments = task.arguments;
        })
    pub is_approved : stored.state ≡ approved

  -- the columns of the row once it is used, and the row with its new digest
  abbrev consumed_fields : StoredApproval → ApprovalFields
  consumed_fields stored = record {
    approval_id = id;
    request_hmac = stored.request_hmac;
    task_id = stored.task_id;
    capability = stored.capability;
    provider = stored.provider;
    model = stored.model;
    state = consumed;
    created_at_us = stored.created_at_us;
    expires_at_us = stored.expires_at_us;
    decided_at_us = stored.decided_at_us;
    consumed_at_us = some now;
  }

  abbrev pub consumed_row : StoredApproval → StoredApproval
  consumed_row stored = record {
    fields = consumed_fields stored;
    row_hmac = c.row_digest (consumed_fields stored);
  }

  -- what the caller is given
  abbrev pub consumed_record : StoredApproval → ApprovalRecord
  consumed_record stored = record {
    approval_id = id;
    request_fingerprint = slice stored.request_hmac 0 16;
    task_id = stored.task_id;
    capability = stored.capability;
    provider = stored.provider;
    model = stored.model;
    state = consumed;
    created_at = stored.created_at_us;
    expires_at = stored.expires_at_us;
    decided_at = stored.decided_at_us;
    consumed_at = some now;
  }

  own_id :
      (stored : StoredApproval)
      → find (has_id id) db.approvals ≡ some stored
      → stored.approval_id ≡ id
  own_id stored h =
      (eq_iff stored.approval_id id).0 (find-true (has_id id) db.approvals {x = stored} h)

  IsOpen-IsUsable : (stored : StoredApproval) → IsOpen c now id task db stored → IsUsable stored
  unfolding verify_stored request_hmac approval_request_payload
  IsOpen-IsUsable stored h =
      let v = h.verified in
      record {
        found = h.found;
        lasting = ground arith;
        sealed = ground (arith, eq_iff (c.row_digest stored.fields) stored.row_hmac);
        alive = h.alive;
        same_request = h.same_request;
        is_approved = h.is_approved;
      }

  IsUsable-IsOpen : (stored : StoredApproval) → IsUsable stored → IsOpen c now id task db stored
  unfolding verify_stored request_hmac approval_request_payload
  IsUsable-IsOpen stored h =
      let lasting = h.lasting in
      let sealed = h.sealed in
      record {
        found = h.found;
        verified = ground (arith, eq_iff (c.row_digest stored.fields) stored.row_hmac);
        alive = h.alive;
        same_request = h.same_request;
        is_approved = h.is_approved;
      }

  used_row :
      (stored : StoredApproval)
      → stored.approval_id ≡ id
      → used c now id task db stored ≡ consumed_row stored
  unfolding replace_state seal_row
  used_row stored h = rw h refl

  used_record :
      (stored : StoredApproval)
      → stored.approval_id ≡ id
      → record_from_stored (used c now id task db stored) ≡ consumed_record stored
  unfolding record_from_stored
  used_record stored h = rw (used_row stored h) refl

  used-IsReplaced :
      (stored : StoredApproval)
      → find (has_id id) db.approvals ≡ some stored
      → IsReplaced id (consumed_row stored) db (update (used c now id task db stored) db)
  used-IsReplaced stored h =
      rw (used_row stored (own_id stored h)) (update-IsReplaced (consumed_row stored) db h)

  -- Where `consume` returns a record, the identifier named a row with a valid digest that was
  -- approved for exactly the submitted request and had not expired. The record has that row's
  -- columns, the state consumed and this time of use; and in the database that row has become the
  -- one with these columns and its new digest, and no other row, nor the order, has changed.
  pub consume_sound :
      {r : ApprovalRecord}
      → (consume c now id task db).0 ≡ ok r
      → (stored : StoredApproval) × IsUsable stored
        × (r ≡ consumed_record stored)
        × IsReplaced id (consumed_row stored) db (consume c now id task db).1
  consume_sound {r} h =
      let (stored, open_, same, stays) = used_of-consume c now id task db h in
      (
        stored,
        IsOpen-IsUsable stored open_,
        same ∙ used_record stored (own_id stored open_.found),
        rw stays (used-IsReplaced stored open_.found),
      )

  -- An identifier that names a row with a valid digest and times, approved for exactly the submitted
  -- request and not expired, is always accepted: `consume` returns the row's columns with the state
  -- consumed and this time of use, and stores them, and nothing else in the database changes.
  pub consume_complete :
      (stored : StoredApproval)
      → IsUsable stored
      → ((consume c now id task db).0 ≡ ok (consumed_record stored))
        × IsReplaced id (consumed_row stored) db (consume c now id task db).1
  consume_complete stored u =
      let done = consume-IsOpen c now id task db stored (IsUsable-IsOpen stored u) in
      (
        ap (λ p. p.0) done ∙ ap ok (used_record stored (own_id stored u.found)),
        rw done (used-IsReplaced stored u.found),
      )
