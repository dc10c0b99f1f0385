-- ===== src/Accounts/Calls.antt =====
-- Registrations and replacements of accounts, one after the other.
use systeme_local.Prelude.{
  ℕ, ◌≡◌, refl, sym, ◌∙◌, inl, inr, Bool, true, false, not, Option, none, some, List, [], ◌∷◌, ◌++◌,
  arith, eq_refl, ◌==◌, Bool-cases, raise_if, Post, Post-ok, Post-err, Post-bind, Post-then,
  Post-if, Post-commit, length, find, keep, find-append_none,
}
use mathlib.Core.Path.{subst}
use systeme_local.Accounts.Equal.{ProviderAccountProfile, profile_eq}
use systeme_local.Accounts.{
  ContextWriteResult, conflict, key_error, ContextCalls, AccountRow, AccountDatabase, or_raise,
  is_account, at_revision, mapping_taken, update_account, insert_version, validate_replacement,
  account_from_row, account_row, again, register_found, register_account, replace_changed,
  replace_transaction, replace_account,
}
use systeme_local.Accounts.Revisions.{
  or_raise-ok, account_from_row-revision, find-update_account, validate_replacement-ok,
}
use systeme_local.Accounts.History.{
  IsVersioned, next-IsVersioned, insert_version-ok, find-update_other, find-added,
}

pub data AccountCall : Type 0 where
  register : ProviderAccountProfile → AccountCall
  replace : ProviderAccountProfile → ℕ → AccountCall

module _ {J : Type 0} (calls : ContextCalls J) where
  abbrev Kept : ContextWriteResult × AccountDatabase J → Type 0
  Kept out = IsVersioned out.1

  again-Kept : (b : Bool) (db : AccountDatabase J) → IsVersioned db → Post Kept (again calls b db)
  again-Kept true db h = Post-ok h
  again-Kept false db h = Post-err conflict

  register-Kept :
      (p : ProviderAccountProfile) (o : Option (AccountRow J)) (db : AccountDatabase J)
      → IsVersioned db
      → p.revision ≡ 1
      → find (is_account p.account_id) db.accounts ≡ o
      → Post Kept (register_found calls p o db)
  unfolding register_found account_row
  register-Kept p (some row) db h first q =
      Post-bind (account_from_row calls row) _
        (λ stored read. again-Kept (profile_eq stored p) db h)
  register-Kept p none db h first q =
      let new = account_row calls p in
      Post-then (raise_if (mapping_taken p p.provider_account_id db.accounts) conflict) _ (λ a.
        Post-bind (insert_version new db) _ (λ versions inserted.
          let (free, made) = insert_version-ok new db versions inserted in
          let empty = h.unversioned p.account_id q in
          let own : find (is_account p.account_id) (db.accounts ++ new ∷ []) ≡ some new =
            find-append_none (is_account p.account_id) db.accounts (new ∷ []) q
            ∙ rw (eq_refl p.account_id) refl in
          Post-ok (
            subst
              (λ l.
                IsVersioned (record { accounts = db.accounts ++ new ∷ []; account_versions = l }))
              made
              (next-IsVersioned new (db.accounts ++ new ∷ []) db h own (find-added new db.accounts)
                (rw empty tt) (rw empty (first ∙ omega arith)) free))))

  replace-Kept :
      (p : ProviderAccountProfile) (expected : ℕ) (db : AccountDatabase J)
      → IsVersioned db
      → Post Kept (replace_transaction calls p expected db)
  unfolding replace_transaction replace_changed account_row
  replace-Kept p expected db h =
      let new = account_row calls p in
      Post-bind (or_raise key_error (find (is_account p.account_id) db.accounts)) _ (λ row found.
        Post-bind (account_from_row calls row) _ (λ current read.
          Post-if (profile_eq current p) _ _ (λ e. Post-ok h)
            (λ e. Post-then (validate_replacement current p expected) _ (λ v.
              Post-then (raise_if (mapping_taken p p.provider_account_id db.accounts) conflict) _
                (λ a. Post-bind (insert_version new db) _ (λ versions inserted.
                  Post-then
                    (raise_if
                      (not (length (keep (at_revision p.account_id expected) db.accounts) == 1))
                      conflict)
                    _
                    (λ one.
                      let (level, next) = validate_replacement-ok calls current p expected v in
                      let there =
                        or_raise-ok (find (is_account p.account_id) db.accounts) row found in
                      let old = h.history p.account_id row there in
                      let at = sym (account_from_row-revision calls row current read) ∙ level in
                      let (free, made) = insert_version-ok new db versions inserted in
                      Post-ok (
                        subst
                          (λ l. IsVersioned (record {
                            accounts = update_account new expected db.accounts;
                            account_versions = l;
                          }))
                          made
                          (next-IsVersioned new (update_account new expected db.accounts) db h
                            (find-update_account calls new expected db.accounts row there at)
                            (find-update_other new expected db.accounts) old.numbered
                            (omega (arith, next, at, old.counted)) free)))))))))

  abbrev pub after_call : AccountCall → AccountDatabase J → AccountDatabase J
  after_call (register p) db = (register_account calls p db).1
  after_call (replace p expected) db = (replace_account calls p expected db).1

  abbrev pub after_calls : List AccountCall → AccountDatabase J → AccountDatabase J
  after_calls [] db = db
  after_calls (c ∷ cs) db = after_calls cs (after_call c db)

  register_account-IsVersioned :
      (p : ProviderAccountProfile) (db : AccountDatabase J)
      → IsVersioned db
      → IsVersioned (register_account calls p db).1
  unfolding register_account
  register_account-IsVersioned p db h = elim (Bool-cases (p.revision == 1)) [
    | inl e ↦ rw e (
        Post-commit IsVersioned db _ h
          (register-Kept p (find (is_account p.account_id) db.accounts) db h (ground arith) refl))
    | inr e ↦ rw e h
  ]

  after_call-IsVersioned :
      (c : AccountCall) (db : AccountDatabase J) → IsVersioned db → IsVersioned (after_call c db)
  unfolding replace_account
  after_call-IsVersioned (register p) db h = register_account-IsVersioned p db h
  after_call-IsVersioned (replace p expected) db h =
      Post-commit IsVersioned db _ h (replace-Kept p expected db h)

  after_calls-IsVersioned :
      (cs : List AccountCall) (db : AccountDatabase J)
      → IsVersioned db
      → IsVersioned (after_calls cs db)
  after_calls-IsVersioned [] db h = h
  after_calls-IsVersioned (c ∷ cs) db h =
      after_calls-IsVersioned cs (after_call c db) (after_call-IsVersioned c db h)

  -- After any registrations and replacements from the empty tables, whatever they return, the stored
  -- versions of each account are numbered from one without a gap, they are as many as the revision of
  -- its current row, the version of that revision is the current row, and an account without a
  -- current row has no versions.
  pub calls-IsVersioned :
      (cs : List AccountCall)
      → IsVersioned (after_calls cs (record { accounts = []; account_versions = [] }))
  calls-IsVersioned cs =
      after_calls-IsVersioned cs (record { accounts = []; account_versions = [] })
        (record { history = λ id row q. cc; unversioned = λ id q. refl })
