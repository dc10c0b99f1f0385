-- ===== src/Models.antt =====
-- src/systeme_local_gateway/models.py: the signed envelope of a task and its result.
-- `version` has one value and is left out; `A` is the type of the
-- arguments' and outputs' JSON objects.
use Prim.Native.String.{count}
use systeme_local.Prelude.{ℕ, String, Bool, true, ◌&&◌, Option, none, some, ltb, leb}

pub record AgentIdentity : Type 0 where
  pub provider : String
  pub model : Option String
  pub session_id : String

-- An aware `datetime`: its instant in microseconds since 1970, and the offset from UTC that it is
-- written with, in seconds counted from 24 hours before UTC. Two datetimes are compared and
-- subtracted by their instants.
pub record DateTime : Type 0 where
  pub instant : ℕ
  pub utc_offset : ℕ

pub record TaskEnvelope (A : Type 0) : Type 0 where
  pub task_id : String
  pub issued_at : DateTime
  pub expires_at : DateTime
  pub agent : AgentIdentity
  pub capability : String
  pub arguments : A
  pub approval_id : Option String
  pub nonce : String
  pub signature : String

pub data Status : Type 0 where
  completed denied approval_required failed : Status

pub record TaskResult (O : Type 0) : Type 0 where
  pub task_id : String
  pub status : Status
  pub output : O
  pub error : Option String
  pub audit_id : String

abbrev pub within : ℕ → ℕ → ℕ → Bool
within lo hi n = leb lo n && leb n hi

abbrev within_if_some : ℕ → ℕ → Option String → Bool
within_if_some lo hi none = true
within_if_some lo hi (some s) = within lo hi (count s)

-- The bounds of the fields and `validate_time_window`; the two patterns are not checked here.
pub is_valid_envelope : {A : Type 0} → TaskEnvelope A → Bool
is_valid_envelope task =
    within 8 128 (count task.task_id)
    && within 1 64 (count task.agent.provider)
    && within_if_some 0 128 task.agent.model
    && within 1 128 (count task.agent.session_id)
    && within_if_some 16 128 task.approval_id
    && within 16 128 (count task.nonce)
    && within 43 128 (count task.signature)
    && ltb task.issued_at.instant task.expires_at.instant
