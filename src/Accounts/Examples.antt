-- ===== src/Accounts/Examples.antt =====
-- Two writers of one account, and the theorems at them.
use systeme_local.Prelude.{ℕ, String, ◌≡◌, refl, false, Option, none, some, List, [], ◌∷◌, ok, err}
use systeme_local.Attachments.{supported, unknown, documented, no_evidence, CapabilityClaim}
use systeme_local.Experience.{available}
use systeme_local.Accounts.Equal.{paid, ProviderAccountProfile, profile_eq, capabilities_eq}
use systeme_local.Accounts.{
  written, conflict, ContextCalls, AccountRow, AccountDatabase, update_account, insert_version,
  validate_replacement, validated_payload, account_from_row, account_row, replace_changed,
  replace_transaction, replace_account,
}
use systeme_local.Accounts.Revisions.{IsFaithful, one_replacement_wins}
use systeme_local.Accounts.History.{IsVersioned}
use systeme_local.Accounts.Calls.{AccountCall, register, replace, after_calls, calls-IsVersioned}

-- a profile stands for its own JSON, and its code for the digest
abbrev code_of : Option String → String
code_of none = ""
code_of (some s) = s

abbrev calls : ContextCalls ProviderAccountProfile
calls = record {
  fingerprint = λ p. code_of p.plan_code;
  dump_account = λ p. p;
  load_account = λ p. some p;
}

calls-IsFaithful : IsFaithful calls
unfolding IsFaithful
calls-IsFaithful p = refl

abbrev unknown_claim : CapabilityClaim
unknown_claim = record { state = unknown; evidence = no_evidence }

abbrev profile : ℕ → String → ℕ → ProviderAccountProfile
profile revision code updated_at = record {
  account_id = "acc";
  provider = "p";
  surface = "s";
  provider_account_id = some "ext";
  plan_kind = paid;
  plan_code = some code;
  availability = available;
  profile_evidence = documented;
  work_capability = record { state = supported; evidence = documented };
  context_capabilities = record {
    can_create_projects = unknown_claim;
    can_enumerate_projects = unknown_claim;
    exposes_project_id = unknown_claim;
    can_create_conversations = unknown_claim;
    can_enumerate_conversations = unknown_claim;
    exposes_conversation_id = unknown_claim;
  };
  revision = revision;
  created_at = 1;
  updated_at = updated_at;
}

abbrev script : List AccountCall
script = register (profile 1 "plus" 1) ∷ replace (profile 2 "pro" 2) 1 ∷ []

abbrev row_of : ProviderAccountProfile → AccountRow ProviderAccountProfile
row_of p = record {
  account_id = p.account_id;
  revision = p.revision;
  provider = p.provider;
  surface = p.surface;
  provider_account_id = p.provider_account_id;
  fingerprint = code_of p.plan_code;
  payload_json = p;
}

abbrev registered : AccountDatabase ProviderAccountProfile
registered = record {
  accounts = row_of (profile 1 "plus" 1) ∷ [];
  account_versions = row_of (profile 1 "plus" 1) ∷ [];
}

first_written : (replace_account calls (profile 2 "pro" 2) 1 registered).0 ≡ ok written
unfolding replace_account replace_transaction replace_changed validate_replacement insert_version
    update_account account_from_row validated_payload profile_eq capabilities_eq account_row
first_written = refl

differ : profile_eq (profile 2 "pro" 2) (profile 2 "team" 3) ≡ false
unfolding profile_eq capabilities_eq
differ = refl

one_replacement_wins_example :
    replace_account calls
      (profile 2 "team" 3)
      1
      (replace_account calls (profile 2 "pro" 2) 1 registered).1
    ≡ (err conflict, (replace_account calls (profile 2 "pro" 2) 1 registered).1)
one_replacement_wins_example =
    one_replacement_wins calls calls-IsFaithful (profile 2 "pro" 2) (profile 2 "team" 3) 1
      registered first_written refl differ

calls-IsVersioned_example :
    IsVersioned (after_calls calls script (record { accounts = []; account_versions = [] }))
calls-IsVersioned_example = calls-IsVersioned calls script
