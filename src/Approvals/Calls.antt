-- ===== src/Approvals/Calls.antt =====
-- The calls that change the approval store, one after the other, with the clock's readings and the
-- random tokens that the environment supplies.
use systeme_local.Prelude.{
  ℕ, suc, String, Bool, true, false, ◌&&◌, List, [], ◌∷◌, str_eq, if◌then◌else◌, Result, ok, err,
}
use systeme_local.Models.{TaskEnvelope}
use systeme_local.Approvals.Row.{ApprovalError}
use systeme_local.Approvals.{
  ApprovalStore, ApprovalDatabase, create, approve, deny, consume, list_pending,
}

pub data Call (A : Type 0) : Type 0 where
  create_call : ℕ → String → TaskEnvelope A → Call A
  approve_call : ℕ → String → TaskEnvelope A → Call A
  deny_call : ℕ → String → Call A
  consume_call : ℕ → String → TaskEnvelope A → Call A
  list_call : ℕ → Call A

abbrev pub succeeded {ℓ} : {B : Type ℓ} → Result ApprovalError B → Bool
succeeded (ok _) = true
succeeded (err _) = false

module _ {A : Type 0} (c : ApprovalStore A) where
  -- the state that a call leaves
  abbrev pub after : Call A → ApprovalDatabase → ApprovalDatabase
  after (create_call now token task) db = (create c now token task db).1
  after (approve_call now id task) db = (approve c now id task db).1
  after (deny_call now id) db = (deny c now id db).1
  after (consume_call now id task) db = (consume c now id task db).1
  after (list_call now) db = (list_pending c now db).1

  -- whether the call is a use of the approval that succeeds
  abbrev pub uses : String → Call A → ApprovalDatabase → Bool
  uses id (consume_call now other task) db =
      str_eq other id && succeeded (consume c now other task db).0
  uses id _ db = false

  unfoldable pub run : List (Call A) → ApprovalDatabase → ApprovalDatabase
  run [] db = db
  run (call ∷ calls) db = run calls (after call db)

  -- how often an approval is used
  unfoldable pub count_uses : String → List (Call A) → ApprovalDatabase → ℕ
  count_uses id [] db = 0
  count_uses id (call ∷ calls) db =
      let rest = count_uses id calls (after call db) in if uses id call db then suc rest else rest
