-- ===== src/Attachments.antt =====
-- The models of src/systeme_local_gateway/providers/attachment_models.py, and the quota snapshot of
-- providers/context_models.py. Times are whole microseconds in UTC; the patterns of identifiers and
-- digests, which pydantic checks, and the constant `version` are left out.
pub mod Digests
pub mod Valid
pub mod Policy
pub mod Plan
pub mod Verify
mod Examples
use systeme_local.Prelude.{
  ℕ, zero, suc, ◌+◌, ◌-◌, ◌*◌, ◌≤◌, ◌<◌, String, ◌≡◌, refl, sym, ap, ◌∙◌, ◌≢◌, ◌↔◌, ◌⊎◌, inl, inr,
  Bool, true, false, not, ◌&&◌, ◌||◌, Option, none, some, List, [], ◌∷◌, ◌++◌, map, arith, str_eq,
  eq_iff, eq_refl, ltb, leb, ◌==◌, if◌then◌else◌, leb→le, Bool-cases, Option-cases, is_some, Result,
  ok, err, ◌>>=◌, ◌>>◌, raise_if, Method, commit_or_rollback, Post, Post-ok, Post-err, Post-bind,
  Post-then, raise_if-ok, Post-commit, committed, length, any, find, keep, length-append,
  length-keep, All, All-append, any-append, All-keep, any-keep, keep-keep, find-all_false,
  find-true, All-find, Distinct, str_eq_comm, Distinct-keep, Distinct-append, has_key, dict_get,
  dict_set, dict_pop, has_key-dict_set, has_key-dict_pop, All-dict_set, All-dict_pop, bind-ok,
  bind-step, find-append, find-append_none, find_last, find-any, any-find-none, any-find,
  keep-append, any-keep_and, any-or_left, any-or_right,
}
use systeme_local.Turns.{AgentPrincipalRef}

pub data AttachmentMediaType : Type 0 where
  png jpeg pdf text json : AttachmentMediaType

pub data AttachmentMediaFamily : Type 0 where
  image document : AttachmentMediaFamily

abbrev pub media_family : AttachmentMediaType → AttachmentMediaFamily
media_family png = image
media_family jpeg = image
media_family pdf = document
media_family text = document
media_family json = document

pub data AttachmentRole : Type 0 where
  screenshot input_document reference data_ other : AttachmentRole

pub data AttachmentSource : Type 0 where
  operator_selected agent_generated tool_output simulated_source : AttachmentSource

pub data AttachmentQuotaRequirement : Type 0 where
  no_quota fresh_upload_quota : AttachmentQuotaRequirement

pub data CapabilitySupport : Type 0 where
  supported unsupported unknown : CapabilitySupport

pub data CapabilityEvidence : Type 0 where
  documented observed simulated no_evidence : CapabilityEvidence

pub record CapabilityClaim : Type 0 where
  pub state : CapabilitySupport
  pub evidence : CapabilityEvidence

pub record AttachmentInspection : Type 0 where
  pub media_type : AttachmentMediaType
  pub content_sha256 : String
  pub byte_size : ℕ
  pub image_width : Option ℕ
  pub image_height : Option ℕ
  pub inspected_at : ℕ

pub record CommittedAttachment : Type 0 where
  pub attachment_id : String
  pub conversation_id : String
  pub turn_id : String
  pub trace_id : String
  pub ordinal : ℕ
  pub display_name : String
  pub role : AttachmentRole
  pub source : AttachmentSource
  pub inspection : AttachmentInspection
  pub committed_at : ℕ
  pub metadata_sha256 : String

pub record AttachmentManifest : Type 0 where
  pub manifest_id : String
  pub conversation_id : String
  pub turn_id : String
  pub trace_id : String
  pub principal : AgentPrincipalRef
  pub turn_content_sha256 : String
  pub attachment_count : ℕ
  pub total_bytes : ℕ
  pub attachments : List CommittedAttachment
  pub committed_at : ℕ
  pub manifest_sha256 : String

pub record AttachmentCapabilityProfile : Type 0 where
  pub profile_id : String
  pub revision : ℕ
  pub provider : String
  pub surface : String
  pub support : CapabilityClaim
  pub supported_media_types : List AttachmentMediaType
  pub max_file_bytes : ℕ
  pub max_batch_bytes : ℕ
  pub max_manifest_bytes : ℕ
  pub max_files_per_batch : ℕ
  pub max_files_per_manifest : ℕ
  pub max_batches_per_manifest : ℕ
  pub max_image_width : ℕ
  pub max_image_height : ℕ
  pub max_image_pixels : ℕ
  pub allows_mixed_media : Bool
  pub quota_requirement : AttachmentQuotaRequirement
  pub observed_at : ℕ
  pub profile_sha256 : String

pub record AttachmentBatch : Type 0 where
  pub batch_id : String
  pub batch_index : ℕ
  pub attachment_ids : List String
  pub total_bytes : ℕ
  pub media_families : List AttachmentMediaFamily

pub record AttachmentBatchPlan : Type 0 where
  pub plan_id : String
  pub account_id : String
  pub manifest_id : String
  pub manifest_sha256 : String
  pub provider : String
  pub surface : String
  pub capability_profile_id : String
  pub capability_profile_revision : ℕ
  pub capability_profile_sha256 : String
  pub upload_quota_snapshot_id : Option String
  pub upload_quota_observed_at : Option ℕ
  pub upload_quota_sha256 : Option String
  pub ordered_attachment_ids : List String
  pub attachment_count : ℕ
  pub total_bytes : ℕ
  pub batches : List AttachmentBatch
  pub planned_at : ℕ
  pub plan_sha256 : String

pub data QuotaDimension : Type 0 where
  chat_messages work_agentic file_upload_rate file_storage project_file_slots : QuotaDimension

pub data QuotaState : Type 0 where
  available near_limit exhausted reset_pending unavailable unknown_quota : QuotaState

-- `QuotaUnit` by its value; `unknown` is the one that the models test for
pub record ProviderQuotaSnapshot : Type 0 where
  pub snapshot_id : String
  pub account_id : String
  pub dimension : QuotaDimension
  pub state : QuotaState
  pub evidence : CapabilityEvidence
  pub observed_at : ℕ
  pub reset_at : Option ℕ
  pub remaining_value : Option ℕ
  pub limit_value : Option ℕ
  pub unit : String

-- Equality of the enums, as Python's `is` and `==` have it.
abbrev pub type_eq : AttachmentMediaType → AttachmentMediaType → Bool
type_eq png png = true
type_eq jpeg jpeg = true
type_eq pdf pdf = true
type_eq text text = true
type_eq json json = true
type_eq _ _ = false

abbrev pub family_eq : AttachmentMediaFamily → AttachmentMediaFamily → Bool
family_eq image image = true
family_eq document document = true
family_eq _ _ = false

abbrev pub is_image : AttachmentMediaType → Bool
is_image t = family_eq (media_family t) image

abbrev pub is_supported : CapabilitySupport → Bool
is_supported supported = true
is_supported _ = false

abbrev pub wants_quota : AttachmentQuotaRequirement → Bool
wants_quota no_quota = false
wants_quota fresh_upload_quota = true

-- `sum` of the sizes, and the identifiers of attachments in order
abbrev pub sum_bytes : List CommittedAttachment → ℕ
sum_bytes [] = 0
sum_bytes (a ∷ rest) = a.inspection.byte_size + sum_bytes rest

abbrev pub attachment_ids_of : List CommittedAttachment → List String
attachment_ids_of [] = []
attachment_ids_of (a ∷ rest) = a.attachment_id ∷ attachment_ids_of rest
