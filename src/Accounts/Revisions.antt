-- ===== src/Accounts/Revisions.antt =====
-- Revisions: a replacement that is accepted makes every other one for the same revision stale.
use systeme_local.Prelude.{
  ℕ, ◌+◌, String, ◌≡◌, refl, sym, ap, ◌∙◌, inl, inr, true, false, not, Option, none, some, List, [],
  ◌∷◌, arith, str_eq, eq_refl, ◌==◌, Bool-cases, ok, err, raise_if, Post, Post-ok, Post-bind,
  Post-then, Post-if, committed, length, find, keep, then-ok,
}
use mathlib.Core.Path.{subst}
use systeme_local.Store.Equal.{option_eq}
use systeme_local.Accounts.Equal.{ProviderAccountProfile, profile_eq}
use systeme_local.Accounts.{
  ContextWriteResult, written, conflict, key_error, ContextCalls, AccountRow, AccountDatabase,
  or_raise, is_account, at_revision, mapping_taken, update_account, insert_version,
  validate_replacement, validated_payload, account_from_row, account_row, replace_changed,
  replace_transaction, replace_account,
}

-- What is relied on: a profile that is dumped is loaded as itself.
unfoldable pub IsFaithful : {J : Type 0} → ContextCalls J → Type 0
IsFaithful calls = (p : ProviderAccountProfile) → calls.load_account (calls.dump_account p) ≡ some p

option_refl : (o : Option String) → option_eq o o ≡ true
option_refl none = refl
option_refl (some s) = eq_refl s

number_refl : (n : ℕ) → (n == n) ≡ true
number_refl n = ground arith

pub or_raise-ok : {A : Type 0} (o : Option A) (a : A) → or_raise key_error o ≡ ok a → o ≡ some a
or_raise-ok none a h = cc
or_raise-ok (some b) a h = ap (λ x. some x) (then-ok (ok tt) h)

module _ {J : Type 0} (calls : ContextCalls J) where
  account_from_row-row :
      IsFaithful calls
      → (p : ProviderAccountProfile) → account_from_row calls (account_row calls p) ≡ ok p
  unfolding IsFaithful account_from_row account_row validated_payload
  account_from_row-row f p =
      let print = eq_refl (calls.fingerprint (calls.dump_account p)) in
      rw
        (
          print,
          f p,
          print,
          eq_refl p.account_id,
          number_refl p.revision,
          eq_refl p.provider,
          eq_refl p.surface,
          option_refl p.provider_account_id,
        )
        refl

  pub account_from_row-revision :
      (row : AccountRow J) (p : ProviderAccountProfile)
      → account_from_row calls row ≡ ok p
      → p.revision ≡ row.revision
  unfolding account_from_row validated_payload
  account_from_row-revision row p h = ground arith

  -- the row of an account after it was updated
  pub find-update_account :
      (new : AccountRow J) (expected : ℕ) (rows : List (AccountRow J)) (row : AccountRow J)
      → find (is_account new.account_id) rows ≡ some row
      → row.revision ≡ expected
      → find (is_account new.account_id) (update_account new expected rows) ≡ some new
  unfolding update_account
  find-update_account new expected [] row found at = cc
  find-update_account new expected (x ∷ rows) row found at =
      elim (Bool-cases (str_eq x.account_id new.account_id)) [
        | inl e ↦
            let here_ : some x ≡ some row = rw e at found in
            let same : x ≡ row = cc in
            let level : (x.revision == expected) ≡ true =
              ground (arith, ap (λ (r : AccountRow J). r.revision) same, at) in
            rw (e, level, eq_refl new.account_id) refl
        | inr e ↦ rw (e, e) (find-update_account new expected rows row (rw e at found) at)
      ]

  -- what is known where a replacement was written
  record IsReplaced (p : ProviderAccountProfile) (expected : ℕ) (db : AccountDatabase J)
      (out : ContextWriteResult × AccountDatabase J) : Type 0 where
    next : p.revision ≡ expected + 1
    current : find (is_account p.account_id) out.1.accounts ≡ some (account_row calls p)

  Replaced :
      ProviderAccountProfile
      → ℕ
      → AccountDatabase J
      → ContextWriteResult × AccountDatabase J
      → Type 0
  Replaced p expected db out = out.0 ≡ written → IsReplaced p expected db out

  pub validate_replacement-ok :
      (current p : ProviderAccountProfile) (expected : ℕ)
      → validate_replacement current p expected ≡ ok tt
      → (current.revision ≡ expected) × (p.revision ≡ expected + 1)
  unfolding validate_replacement
  validate_replacement-ok current p expected h = ground arith

  replace-Replaced :
      (p : ProviderAccountProfile) (expected : ℕ) (db : AccountDatabase J)
      → Post (Replaced p expected db) (replace_transaction calls p expected db)
  unfolding replace_transaction replace_changed Replaced account_row
  replace-Replaced p expected db =
      let seek = or_raise key_error (find (is_account p.account_id) db.accounts) in
      Post-bind seek _ (λ row found. Post-bind (account_from_row calls row) _ (λ current read.
        Post-if (profile_eq current p) _ _ (λ e. Post-ok (λ q. cc))
          (λ e. Post-then (validate_replacement current p expected) _ (λ v.
            Post-then (raise_if (mapping_taken p p.provider_account_id db.accounts) conflict) _
              (λ free. Post-bind (insert_version (account_row calls p) db) _ (λ versions inserted.
                Post-then
                  (raise_if
                    (not (length (keep (at_revision p.account_id expected) db.accounts) == 1))
                    conflict)
                  _
                  (λ one.
                    let (level, next) = validate_replacement-ok current p expected v in
                    let there : find (is_account p.account_id) db.accounts ≡ some row =
                      or_raise-ok (find (is_account p.account_id) db.accounts) row found in
                    Post-ok (λ q. record {
                      next = next;
                      current =
                          find-update_account (account_row calls p) expected db.accounts row there
                            (sym (account_from_row-revision row current read) ∙ level);
                    }))))))))

  stale :
      IsFaithful calls
      → (p q : ProviderAccountProfile) (expected : ℕ) (db : AccountDatabase J)
      → find (is_account q.account_id) db.accounts ≡ some (account_row calls p)
      → profile_eq p q ≡ false
      → (p.revision == expected) ≡ false
      → replace_account calls q expected db ≡ (err conflict, db)
  unfolding replace_account replace_transaction replace_changed validate_replacement
  stale f p q expected db there differs old =
      rw (there, account_from_row-row f p, differs, old) refl

  -- Two writers that read the same revision of an account cannot both replace it: where the
  -- replacement of one was written, that of the other, if it is for the same account and has another
  -- profile, raises the conflict error and leaves the database as it is. It is relied on that a
  -- dumped profile loads as itself.
  pub one_replacement_wins :
      IsFaithful calls
      → (p q : ProviderAccountProfile) (expected : ℕ) (db : AccountDatabase J)
      → (replace_account calls p expected db).0 ≡ ok written
      → q.account_id ≡ p.account_id
      → profile_eq p q ≡ false
      → replace_account calls q expected (replace_account calls p expected db).1
        ≡ (err conflict, (replace_account calls p expected db).1)
  unfolding replace_account Replaced
  one_replacement_wins f p q expected db done same differs =
      let made = committed db (replace_transaction calls p expected db) done in
      let facts =
        (replace-Replaced p expected db).at (written, (replace_account calls p expected db).1) made
          refl in
      let next = facts.next in
      let there : find (is_account q.account_id) (replace_account calls p expected db).1.accounts
          ≡ some (account_row calls p) =
        subst
          (λ id.
            find (is_account id) (replace_account calls p expected db).1.accounts
            ≡ some (account_row calls p))
          (sym same) facts.current in
      stale f p q expected (replace_account calls p expected db).1 there differs (ground arith)
