-- ===== src/Accounts.antt =====
-- The accounts of src/systeme_local_gateway/providers/context_store.py: each account has a current
-- row, and a row for each of its revisions. Models are those of providers/context_models.py; the
-- patterns of identifiers and the constant `version` are left out.
pub mod Equal
pub mod Revisions
pub mod History
pub mod Calls
mod Examples
use systeme_local.Prelude.{
  ℕ, zero, suc, ◌+◌, ◌-◌, ◌*◌, ◌≤◌, ◌<◌, String, ◌≡◌, refl, sym, ap, ◌∙◌, ◌≢◌, ◌↔◌, ◌⊎◌, inl, inr,
  Bool, true, false, not, ◌&&◌, ◌||◌, Option, none, some, List, [], ◌∷◌, ◌++◌, map, arith, str_eq,
  eq_iff, eq_refl, ltb, leb, ◌==◌, if◌then◌else◌, leb→le, Bool-cases, Option-cases, is_some, Result,
  ok, err, ◌>>=◌, ◌>>◌, raise_if, Method, commit_or_rollback, Post, Post-ok, Post-err, Post-bind,
  Post-then, Post-if, raise_if-ok, Post-commit, committed, length, any, find, keep, length-append,
  length-keep, All, All-append, any-append, All-keep, any-keep, keep-keep, find-all_false,
  find-true, All-find, Distinct, str_eq_comm, Distinct-keep, Distinct-append, has_key, dict_get,
  dict_set, dict_pop, has_key-dict_set, has_key-dict_pop, All-dict_set, All-dict_pop, bind-ok,
  bind-step, then-ok, then-split, find-append, find-append_none, find_last, find-any, any-find-none,
  any-find, keep-append, any-keep_and, any-or_left, any-or_right,
}
use systeme_local.Attachments.{CapabilityEvidence, CapabilityClaim}
use systeme_local.Experience.{AvailabilityState}
use systeme_local.Store.Equal.{option_eq}
use systeme_local.Accounts.Equal.{
  PlanKind, ProviderContextCapabilities, ProviderAccountProfile, profile_eq,
}

pub data ContextWriteResult : Type 0 where
  written duplicate : ContextWriteResult

-- `ContextStoreError` with its subclasses, `KeyError`, and the `IntegrityError` of SQLite where a
-- primary key is repeated
pub data ContextError : Type 0 where
  conflict corrupt key_error integrity_error : ContextError

-- The JSON of a profile in both directions, and SHA-256 of it, are not part of the program.
pub record ContextCalls (J : Type 0) : Type 0 where
  pub fingerprint : J → String
  pub dump_account : ProviderAccountProfile → J
  pub load_account : J → Option ProviderAccountProfile

pub record AccountRow (J : Type 0) : Type 0 where
  pub account_id : String
  pub revision : ℕ
  pub provider : String
  pub surface : String
  pub provider_account_id : Option String
  pub fingerprint : String
  pub payload_json : J

-- the tables `accounts` and `account_versions`
pub record AccountDatabase (J : Type 0) : Type 0 where
  pub accounts : List (AccountRow J)
  pub account_versions : List (AccountRow J)

abbrev pub or_raise {ℓ} : {A : Type ℓ} → ContextError → Option A → Result ContextError A
or_raise e none = err e
or_raise e (some a) = ok a

module _ {J : Type 0} where
  abbrev pub is_account : String → AccountRow J → Bool
  is_account id row = str_eq row.account_id id

  abbrev pub at_revision : String → ℕ → AccountRow J → Bool
  at_revision id n row = str_eq row.account_id id && row.revision == n

  -- another account with the same provider, surface and account of the provider
  abbrev same_mapping : ProviderAccountProfile → String → AccountRow J → Bool
  same_mapping p id row =
      str_eq row.provider p.provider
      && str_eq row.surface p.surface
      && option_eq row.provider_account_id (some id)
      && not (str_eq row.account_id p.account_id)

  abbrev pub mapping_taken : ProviderAccountProfile → Option String → List (AccountRow J) → Bool
  mapping_taken p none rows = false
  mapping_taken p (some id) rows = any (same_mapping p id) rows

  -- `UPDATE accounts SET … WHERE account_id = ? AND revision = ?`
  pub update_account : AccountRow J → ℕ → List (AccountRow J) → List (AccountRow J)
  update_account new expected [] = []
  update_account new expected (row ∷ rows) =
      let rest = update_account new expected rows in
      if at_revision new.account_id expected row then new ∷ rest else row ∷ rest

  -- `_insert_account_history`: the primary key is the account with its revision
  pub insert_version : AccountRow J → AccountDatabase J → Result ContextError (List (AccountRow J))
  insert_version row db = do
    raise_if (any (at_revision row.account_id row.revision) db.account_versions) integrity_error
    ok (db.account_versions ++ row ∷ [])

-- `_validate_replacement` for an account
pub validate_replacement :
    ProviderAccountProfile → ProviderAccountProfile → ℕ → Result ContextError (Unit {0})
validate_replacement current p expected = do
  raise_if (not (current.revision == expected)) conflict
  raise_if (not (p.revision == expected + 1)) conflict
  raise_if (not (current.created_at == p.created_at)) conflict
  raise_if (not (str_eq current.provider p.provider && str_eq current.surface p.surface)) conflict
  raise_if (ltb p.updated_at current.updated_at) conflict
  raise_if
      (is_some current.provider_account_id
        && not (option_eq current.provider_account_id p.provider_account_id))
      conflict

module _ {J : Type 0} (calls : ContextCalls J) where
  abbrev Outcome : Type 0
  Outcome = Result ContextError (ContextWriteResult × AccountDatabase J)

  pub validated_payload : AccountRow J → Result ContextError ProviderAccountProfile
  validated_payload row = do
    raise_if (not (str_eq (calls.fingerprint row.payload_json) row.fingerprint)) corrupt
    model ← or_raise corrupt (calls.load_account row.payload_json)
    raise_if (not (str_eq (calls.fingerprint (calls.dump_account model)) row.fingerprint)) corrupt
    ok model

  pub account_from_row : AccountRow J → Result ContextError ProviderAccountProfile
  account_from_row row = do
    model ← validated_payload row
    raise_if
        (not (
          str_eq model.account_id row.account_id
          && model.revision == row.revision
          && str_eq model.provider row.provider
          && str_eq model.surface row.surface
          && option_eq model.provider_account_id row.provider_account_id))
        corrupt
    ok model

  pub account_row : ProviderAccountProfile → AccountRow J
  account_row p = record {
    account_id = p.account_id;
    revision = p.revision;
    provider = p.provider;
    surface = p.surface;
    provider_account_id = p.provider_account_id;
    fingerprint = calls.fingerprint (calls.dump_account p);
    payload_json = calls.dump_account p;
  }

  -- a registered profile that comes again is accepted, another one with its identifier is not
  abbrev pub again : Bool → AccountDatabase J → Outcome
  again true db = ok (duplicate, db)
  again false db = err conflict

  pub register_found : ProviderAccountProfile → Option (AccountRow J) → AccountDatabase J → Outcome
  register_found p (some row) db = do stored ← account_from_row row; again (profile_eq stored p) db
  register_found p none db = do
    raise_if (mapping_taken p p.provider_account_id db.accounts) conflict
    versions ← insert_version (account_row p) db
    ok (
      written,
      record { accounts = db.accounts ++ account_row p ∷ []; account_versions = versions },
    )

  pub register_account :
      ProviderAccountProfile → Method (AccountDatabase J) ContextError ContextWriteResult
  register_account p db =
      if not (p.revision == 1)
      then (err conflict, db)
      else commit_or_rollback db (register_found p (find (is_account p.account_id) db.accounts) db)

  -- a profile that differs from the current one
  pub replace_changed :
      ProviderAccountProfile → ProviderAccountProfile → ℕ → AccountDatabase J → Outcome
  replace_changed current p expected db = do
    validate_replacement current p expected
    raise_if (mapping_taken p p.provider_account_id db.accounts) conflict
    versions ← insert_version (account_row p) db
    raise_if (not (length (keep (at_revision p.account_id expected) db.accounts) == 1)) conflict
    ok (
      written,
      record {
        accounts = update_account (account_row p) expected db.accounts;
        account_versions = versions;
      },
    )

  pub replace_transaction : ProviderAccountProfile → ℕ → AccountDatabase J → Outcome
  replace_transaction p expected db = do
    row ← or_raise key_error (find (is_account p.account_id) db.accounts)
    current ← account_from_row row
    let changed = replace_changed current p expected db in
        if profile_eq current p then ok (duplicate, db) else changed

  pub replace_account :
      ProviderAccountProfile → ℕ → Method (AccountDatabase J) ContextError ContextWriteResult
  replace_account p expected db = commit_or_rollback db (replace_transaction p expected db)

  pub load_account : String → AccountDatabase J → Result ContextError ProviderAccountProfile
  load_account id db = do
    row ← or_raise key_error (find (is_account id) db.accounts)
    account_from_row row
