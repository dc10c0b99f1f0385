-- ===== src/Accounts/History.antt =====
-- The history of an account: its versions are numbered without a gap, and the last is the current row.
use systeme_local.Prelude.{
  ℕ, ◌+◌, String, ◌≡◌, refl, sym, ap, ◌∙◌, inl, inr, true, false, none, some, List, [], ◌∷◌, ◌++◌,
  arith, str_eq, eq_iff, eq_refl, ◌==◌, Bool-cases, ok, raise_if, raise_if-ok, length, any, find,
  keep, length-append, find-all_false, then-ok, then-split, find-append, find-append_none,
  keep-append,
}
use mathlib.Core.Path.{subst}
use mathlib.Core.List.{append-nil}
use systeme_local.Accounts.{
  integrity_error, AccountRow, AccountDatabase, is_account, at_revision, update_account,
  insert_version,
}

module _ {J : Type 0} where
  -- revisions that count up from a number
  abbrev pub Numbered : ℕ → List (AccountRow J) → Type 0
  Numbered n [] = Unit
  Numbered n (row ∷ rows) = (row.revision ≡ n) × Numbered (n + 1) rows

  Numbered-last :
      (n : ℕ) (rows : List (AccountRow J)) (row : AccountRow J)
      → Numbered n rows
      → row.revision ≡ n + length rows
      → Numbered n (rows ++ row ∷ [])
  Numbered-last n [] row h q = (q ∙ omega arith, tt)
  Numbered-last n (r ∷ rows) row h q = (h.0, Numbered-last (n + 1) rows row h.1 (q ∙ omega arith))

  pub record IsHistory (id : String) (row : AccountRow J) (versions : List (AccountRow J))
      : Type 0 where
    pub numbered : Numbered 1 (keep (is_account id) versions)
    pub counted : length (keep (is_account id) versions) ≡ row.revision
    pub current : find (at_revision id row.revision) versions ≡ some row

  pub record IsVersioned (db : AccountDatabase J) : Type 0 where
    pub history :
        (id : String) (row : AccountRow J)
        → find (is_account id) db.accounts ≡ some row
        → IsHistory id row db.account_versions
    pub unversioned :
        (id : String)
        → find (is_account id) db.accounts ≡ none
        → keep (is_account id) db.account_versions ≡ []

  -- a version of another account
  IsHistory-other :
      (id : String) (row new : AccountRow J) (versions : List (AccountRow J))
      → str_eq new.account_id id ≡ false
      → IsHistory id row versions
      → IsHistory id row (versions ++ new ∷ [])
  IsHistory-other id row new versions other h =
      let kept : keep (is_account id) (versions ++ new ∷ []) ≡ keep (is_account id) versions =
        keep-append (is_account id) versions (new ∷ []) ∙ rw other (append-nil _) in
      record {
        numbered = subst (Numbered 1) (sym kept) h.numbered;
        counted = ap length kept ∙ h.counted;
        current = find-append (at_revision id row.revision) versions (new ∷ []) h.current;
      }

  -- the next version of the account itself
  IsHistory-next :
      (new : AccountRow J) (versions : List (AccountRow J))
      → Numbered 1 (keep (is_account new.account_id) versions)
      → new.revision ≡ 1 + length (keep (is_account new.account_id) versions)
      → any (at_revision new.account_id new.revision) versions ≡ false
      → IsHistory new.account_id new (versions ++ new ∷ [])
  IsHistory-next new versions h next free =
      let own = eq_refl new.account_id in
      let level : (new.revision == new.revision) ≡ true = ground arith in
      let kept : keep (is_account new.account_id) (versions ++ new ∷ [])
          ≡ keep (is_account new.account_id) versions ++ new ∷ [] =
        keep-append (is_account new.account_id) versions (new ∷ []) ∙ rw own refl in
      record {
        numbered =
            subst (Numbered 1) (sym kept)
              (Numbered-last 1 (keep (is_account new.account_id) versions) new h next);
        counted =
            ap length kept
            ∙ omega
                (arith, length-append (keep (is_account new.account_id) versions) (new ∷ []), next);
        current =
            find-append_none (at_revision new.account_id new.revision) versions (new ∷ [])
              (find-all_false (at_revision new.account_id new.revision) versions free)
            ∙ rw (own, level) refl;
      }

  pub find-update_other :
      (new : AccountRow J) (expected : ℕ) (rows : List (AccountRow J)) (id : String)
      → str_eq new.account_id id ≡ false
      → find (is_account id) (update_account new expected rows) ≡ find (is_account id) rows
  unfolding update_account
  find-update_other new expected [] id other = refl
  find-update_other new expected (x ∷ rows) id other = ground (
    arith,
    find-update_other new expected rows id other,
    eq_iff x.account_id new.account_id,
    other,
  )

  pub insert_version-ok :
      (row : AccountRow J) (db : AccountDatabase J) (versions : List (AccountRow J))
      → insert_version row db ≡ ok versions
      → (any (at_revision row.account_id row.revision) db.account_versions ≡ false)
        × (db.account_versions ++ row ∷ [] ≡ versions)
  unfolding insert_version
  insert_version-ok row db versions h =
      let taken = any (at_revision row.account_id row.revision) db.account_versions in
      let (a, b) =
        then-split (raise_if taken integrity_error) (ok (db.account_versions ++ row ∷ [])) h in
      (raise_if-ok taken integrity_error a, then-ok (ok tt) b)

  -- a version is added, and the current row of its account is set to it
  pub next-IsVersioned :
      (new : AccountRow J) (accounts : List (AccountRow J)) (db : AccountDatabase J)
      → IsVersioned db
      → find (is_account new.account_id) accounts ≡ some new
      → ((id : String)
          → str_eq new.account_id id ≡ false
          → find (is_account id) accounts ≡ find (is_account id) db.accounts)
      → Numbered 1 (keep (is_account new.account_id) db.account_versions)
      → new.revision ≡ 1 + length (keep (is_account new.account_id) db.account_versions)
      → any (at_revision new.account_id new.revision) db.account_versions ≡ false
      → IsVersioned
          (record { accounts = accounts; account_versions = db.account_versions ++ new ∷ [] })
  next-IsVersioned new accounts db h own others numbered next free = record {
    history = λ id row found. elim (Bool-cases (str_eq new.account_id id)) [
      | inl e ↦
          let same_id : new.account_id ≡ id = ground (arith, eq_iff new.account_id id) in
          let own' : find (is_account id) accounts ≡ some new =
            subst (λ (x : String). find (is_account x) accounts ≡ some new) same_id own in
          let same : new ≡ row = cc in
          subst (λ (x : String). IsHistory x row (db.account_versions ++ new ∷ [])) same_id
            (subst (λ r. IsHistory new.account_id r (db.account_versions ++ new ∷ [])) same
              (IsHistory-next new db.account_versions numbered next free))
      | inr e ↦
          IsHistory-other id row new db.account_versions e
            (h.history id row (sym (others id e) ∙ found))
    ];
    unversioned = λ id none_. elim (Bool-cases (str_eq new.account_id id)) [
      | inl e ↦
          let same_id : new.account_id ≡ id = ground (arith, eq_iff new.account_id id) in
          let own' : find (is_account id) accounts ≡ some new =
            subst (λ (x : String). find (is_account x) accounts ≡ some new) same_id own in
          absurd (cc)
      | inr e ↦
          keep-append (is_account id) db.account_versions (new ∷ [])
          ∙ rw e (append-nil _)
          ∙ h.unversioned id (sym (others id e) ∙ none_)
    ];
  }

  pub find-added :
      (new : AccountRow J) (rows : List (AccountRow J)) (id : String)
      → str_eq new.account_id id ≡ false
      → find (is_account id) (rows ++ new ∷ []) ≡ find (is_account id) rows
  find-added new [] id other = rw other refl
  find-added new (x ∷ rows) id other = ground (arith, find-added new rows id other)
