-- ===== src/Approvals/Sound/Rows.antt =====
-- What holds of the store's rows, and that replacing a row keeps it.
use systeme_local.Prelude.{
  ℕ, suc, ◌≤◌, ◌<◌, String, ◌≡◌, refl, sym, ap, ◌∙◌, ◌≢◌, ◌⊎◌, inl, inr, Option, none, some, List,
  [], ◌∷◌, arith, eq_iff, Bool-cases, Result, ok, err, ◌>>◌, length, any, find, length-keep, All,
  All-keep, All-find, Distinct, Distinct-keep,
}
use mathlib.Core.Path.{subst}
use systeme_local.Approvals.Row.{
  ApprovalState, pending, approved, denied, consumed, StoredApproval, ApprovalError,
}
use systeme_local.Approvals.{
  ApprovalStore, ApprovalDatabase, has_id, unexpired, delete_expired, replace_rows, update, or_else,
  seal_row, verify_stored, load, check_found, replace_state, seal_row, consume_state,
}

-- Which of the times of decision and of use are recorded in each state.
abbrev pub Stamps : ApprovalState → Option ℕ → Option ℕ → Type 0
Stamps pending none none = Unit
Stamps approved (some _) none = Unit
Stamps denied (some _) none = Unit
Stamps consumed (some _) (some _) = Unit
Stamps _ _ _ = ⊥

err-ne-ok {ℓ} :
    {B : Type ℓ} {e : ApprovalError} {b : B} → ◌≢◌ {A = Result ApprovalError B} (err e) (ok b)
err-ne-ok h = cc

module _ {A : Type 0} (c : ApprovalStore A) where
  pub record IsGenuine (row : StoredApproval) : Type 0 where
    pub lasting : row.created_at_us < row.expires_at_us
    pub sealed : row.row_hmac ≡ c.row_digest row.fields
    pub stamps : Stamps row.state row.decided_at_us row.consumed_at_us

  pub record IsSound (db : ApprovalDatabase) : Type 0 where
    pub fits : length db.approvals ≤ c.max_entries
    pub one_each : Distinct (λ (row : StoredApproval). row.approval_id) db.approvals
    pub genuine : All IsGenuine db.approvals

  pub delete_expired-IsSound :
      (now : ℕ) (db : ApprovalDatabase) → IsSound db → IsSound (delete_expired now db)
  unfolding delete_expired
  delete_expired-IsSound now db h = record {
    fits = omega (arith, length-keep (unexpired now) db.approvals, h.fits);
    one_each =
        Distinct-keep (λ (row : StoredApproval). row.approval_id) (unexpired now) db.approvals
          h.one_each;
    genuine = All-keep IsGenuine (unexpired now) db.approvals h.genuine;
  }

  length-replace_rows :
      (u : StoredApproval) (rows : List StoredApproval) → length (replace_rows u rows) ≡ length rows
  unfolding replace_rows
  length-replace_rows u [] = refl
  length-replace_rows u (row ∷ rows) = ap suc (length-replace_rows u rows)

  any-replace_rows :
      (u : StoredApproval) (id : String) (rows : List StoredApproval)
      → any (has_id id) (replace_rows u rows) ≡ any (has_id id) rows
  unfolding replace_rows
  any-replace_rows u id [] = refl
  any-replace_rows u id (row ∷ rows) = ground (
    arith,
    any-replace_rows u id rows,
    eq_iff row.approval_id u.approval_id,
    eq_iff row.approval_id id,
    eq_iff u.approval_id id,
  )

  Distinct-replace_rows :
      (u : StoredApproval) (rows : List StoredApproval)
      → Distinct (λ (row : StoredApproval). row.approval_id) rows
      → Distinct (λ (row : StoredApproval). row.approval_id) (replace_rows u rows)
  unfolding replace_rows
  Distinct-replace_rows u [] h = h
  Distinct-replace_rows u (row ∷ rows) h = elim (Bool-cases (has_id u.approval_id row)) [
    | inl e ↦ rw e (
      any-replace_rows u u.approval_id rows
          ∙ ap (λ id. any (has_id id) rows) (sym ((eq_iff row.approval_id u.approval_id).0 e))
          ∙ h.0,
      Distinct-replace_rows u rows h.1,
    )
    | inr e ↦ rw e (any-replace_rows u row.approval_id rows ∙ h.0, Distinct-replace_rows u rows h.1)
  ]

  All-replace_rows :
      (P : StoredApproval → Type 0) (u : StoredApproval) (rows : List StoredApproval)
      → P u
      → All P rows
      → All P (replace_rows u rows)
  unfolding replace_rows
  All-replace_rows P u [] pu h = h
  All-replace_rows P u (row ∷ rows) pu h = elim (Bool-cases (has_id u.approval_id row)) [
    | inl e ↦ rw e (pu, All-replace_rows P u rows pu h.1)
    | inr e ↦ rw e (h.0, All-replace_rows P u rows pu h.1)
  ]

  pub update-IsSound :
      (u : StoredApproval) (db : ApprovalDatabase)
      → IsGenuine u
      → IsSound db
      → IsSound (update u db)
  unfolding update
  update-IsSound u db g h = record {
    fits = omega (arith, length-replace_rows u db.approvals, h.fits);
    one_each = Distinct-replace_rows u db.approvals h.one_each;
    genuine = All-replace_rows IsGenuine u db.approvals g h.genuine;
  }

  check_found-ok :
      (o : Option StoredApproval) {stored : StoredApproval}
      → check_found c o ≡ ok stored
      → (o ≡ some stored) × (verify_stored c stored ≡ ok tt)
  unfolding check_found
  check_found-ok none h = absurd (err-ne-ok h)
  check_found-ok (some row) {stored} h = go (verify_stored c row) refl h
    where
      go :
          (r : Result ApprovalError (Unit {0}))
          → verify_stored c row ≡ r
          → (r >> ok row) ≡ ok stored
          → (some row ≡ some stored) × (verify_stored c stored ≡ ok tt)
      go (ok tt) e p =
          let q : row ≡ stored = cc in (ap some q, subst (λ x. verify_stored c x ≡ ok tt) q e)
      go (err x) e p = absurd (err-ne-ok p)

  -- The row that `load` returns is one of the table, and has the identifier.
  pub load-ok :
      (id : String) (db : ApprovalDatabase) {stored : StoredApproval}
      → load c id db ≡ ok stored
      → (find (has_id id) db.approvals ≡ some stored) × (verify_stored c stored ≡ ok tt)
  unfolding load
  load-ok id db h = check_found-ok (find (has_id id) db.approvals) h

  pub load-IsGenuine :
      (id : String) (db : ApprovalDatabase) {stored : StoredApproval}
      → IsSound db
      → load c id db ≡ ok stored
      → IsGenuine stored
  load-IsGenuine id db h e =
      All-find IsGenuine (has_id id) db.approvals h.genuine (load-ok id db e).0

  pub replace_state-IsGenuine :
      (stored : StoredApproval) (state : ApprovalState) (decided_at consumed_at : Option ℕ)
      → IsGenuine stored
      → Stamps state
          (or_else decided_at stored.decided_at_us)
          (or_else consumed_at stored.consumed_at_us)
      → IsGenuine (replace_state c stored state decided_at consumed_at)
  unfolding replace_state seal_row
  replace_state-IsGenuine stored state d u h s = record {
    lasting = h.lasting;
    sealed = refl;
    stamps = s;
  }

  pub consume_state-ok : (s : ApprovalState) → consume_state c s ≡ ok tt → s ≡ approved
  unfolding consume_state
  consume_state-ok pending h = cc
  consume_state-ok approved h = refl
  consume_state-ok denied h = cc
  consume_state-ok consumed h = cc

  pub consume_Stamps :
      (s : ApprovalState) (d u : Option ℕ) (now : ℕ)
      → s ≡ approved
      → Stamps s d u
      → Stamps consumed d (some now)
  consume_Stamps approved (some d) none now e h = tt
  consume_Stamps approved none u now e h = elim h [ ]
  consume_Stamps approved (some d) (some u) now e h = elim h [ ]
  consume_Stamps pending d u now e h = cc
  consume_Stamps denied d u now e h = cc
  consume_Stamps consumed d u now e h = cc

  -- a decision on a pending row
  pub decide_Stamps :
      (s decision : ApprovalState) (d u : Option ℕ) (now : ℕ)
      → s ≡ pending
      → (decision ≡ approved) ⊎ (decision ≡ denied)
      → Stamps s d u
      → Stamps decision (some now) u
  decide_Stamps pending approved none none now e w h = tt
  decide_Stamps pending denied none none now e w h = tt
  decide_Stamps pending pending d u now e w h = ground arith
  decide_Stamps pending consumed d u now e w h = ground arith
  decide_Stamps pending decision (some d) u now e w h = elim h [ ]
  decide_Stamps pending decision none (some u) now e w h = elim h [ ]
  decide_Stamps approved decision d u now e w h = cc
  decide_Stamps denied decision d u now e w h = cc
  decide_Stamps consumed decision d u now e w h = cc
