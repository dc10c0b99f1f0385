-- ===== src/Lib.antt =====
-- A verification library for the gateway of Système Local: the program that lets remote agents run
-- declared capabilities on a local machine. The paths below are from the repository's root.
--
-- A task comes as a signed envelope. `TaskProcessor.process` verifies it (its times, its signature,
-- and its nonce with a replay guard), asks the policy for a decision, has an approval created or
-- used where the decision wants one, runs the capability, and appends what it did to the audit log,
-- which can be held against an external anchor. Beside it, a state machine follows the run of a
-- provider by its lifecycle events, a store keeps conversations, turns, runs and events so that a run
-- can be replayed, attachments of a turn are inspected, committed and planned into batches, a policy
-- chooses between two experiences of a provider, and a router chooses a remote intelligence for a
-- task.
--
-- Replay: the guards of src/systeme_local_gateway/auth.py. `check_and_mark` is the guard in memory,
--   `sqlite_check_and_mark`, `sqlite_verify` and `sqlite_open` the one in a database, whose table
--   is a list of rows, and Replay/Clock the conversion of times that it makes through floats.
-- Models, Verify: src/systeme_local_gateway/models.py, and `canonical_payload`,
--   `compute_task_signature` and `verify_task` of auth.py.
-- Approvals: `ApprovalStore` of src/systeme_local_gateway/approvals.py, one function for each
--   method (`create`, `approve`, `deny`, `consume`, `inspect`, `list_pending`, `verify`), each a
--   transaction on the table. Approvals/Row has the rows and errors, Approvals/Calls sequences of
--   calls.
-- Policy: `PolicyEngine` of src/systeme_local_gateway/policy.py.
-- Processor: `TaskProcessor` of src/systeme_local_gateway/task_processor.py. Its services are a
--   record of functions on an unknown world (Processor/Protocols), as its protocols are.
-- Lifecycle: src/systeme_local_gateway/providers/state_machine.py, with the events of
--   src/systeme_local_gateway/providers/models.py in Lifecycle/Events. `Reaches` is reachability by
--   accepted events.
-- Turns: conversations, committed turns and `commit_text_turn` of
--   src/systeme_local_gateway/providers/models.py.
-- Store: `LifecycleEventStore` of src/systeme_local_gateway/providers/store.py, one function for each
--   method (`register_conversation`, `register_turn`, `register_run`, `append_event`, `replay` and
--   the loads), each a transaction on the tables. Store/Rows has the rows and how models are read
--   back from them, Store/Calls sequences of calls; it uses the state machine of Lifecycle.
-- Attachments: src/systeme_local_gateway/providers/attachment_models.py (with Attachments/Valid for
--   the validators and Attachments/Digests for what the digests are taken of) and
--   attachment_policy.py: Attachments/Policy has its checks, Attachments/Plan
--   `plan_attachment_batches`, Attachments/Verify `verify_attachment_batch_plan`.
-- Inspect: src/systeme_local_gateway/providers/attachment_commit.py. Inspect/Png and Inspect/Jpeg are
--   the two parsers of bytes, Inspect/Content the inspection of any content, Inspect/Commit the
--   commitments and their verification.
-- Accounts: `register_account`, `replace_account` and `load_account` of
--   src/systeme_local_gateway/providers/context_store.py, each a transaction on the two tables of
--   accounts and their versions.
-- Anchor, Audit: src/systeme_local_gateway/audit_anchor.py and audit.py. A file is the list of its
--   lines; `verify_anchored` and `audit_append` pass both files on.
-- Experience: `select_chatgpt_experience` of src/systeme_local_gateway/providers/context_policy.py.
-- Router: `BrainRouter` of src/systeme_local_gateway/brains/router.py, with its models of
--   src/systeme_local_gateway/brains/models.py.
-- Prelude: results, lists, dictionaries and Boolean tests that all of these share.
--
-- Exceptions are values of a sum type for each component, and a method returns its result with the
-- state that it leaves, also where it raises; a database transaction that raises is rolled back.
-- Times are natural numbers of microseconds since 1970 (a datetime of an envelope has its offset
-- from UTC too), and the clock, `uuid4` and random tokens are arguments. The rounding of times to
-- floats is modelled in the guard of the database only.
-- The loops are structural recursion on their lists, except those of the two parsers of bytes: these
-- run on fuel, the length of the content, and would raise an error of their own without it; each
-- turn moves on by a byte at least, so the fuel is enough. The conversion of times looks for a power
-- of 2 with a fuel of 80 doublings, more than a time of any datetime needs.
--
-- Parameters are what the program calls and does not contain: HMAC-SHA256 and SHA-256, the JSON
-- encoder and parser, the parsers of UUIDs, timestamps and hexadecimal digits, checksums, UTF-8 and
-- Unicode, and the regular expressions of PDF. Where a theorem needs that a digest does not collide
-- or that a line or a row reads back as it was written, that is a hypothesis.
--
-- Not modelled: process locks, file modes and symbolic links, connections of SQLite, the patterns of
-- identifiers, the redaction of audit events, the front ends, the sandbox, the command lines, the
-- evidence and attestation modules, the quotas and bindings of the context store, the receipts of
-- attachment batches, and the Rust crates.
pub mod Prelude
pub mod Replay
pub mod Models
pub mod Verify
pub mod Approvals
pub mod Policy
pub mod Processor
pub mod Lifecycle
pub mod Anchor
pub mod Audit
pub mod Experience
pub mod Router
pub mod Turns
pub mod Store
pub mod Attachments
pub mod Inspect
pub mod Accounts
