-- ===== src/Attachments/Policy.antt =====
-- The errors and the checks that src/systeme_local_gateway/providers/attachment_policy.py makes of a
-- profile, an attachment and a quota.
pub mod Fits
use systeme_local.Prelude.{
  ℕ, zero, suc, ◌+◌, ◌-◌, ◌*◌, ◌≤◌, ◌<◌, String, ◌≡◌, refl, sym, ap, ◌∙◌, ◌≢◌, ◌↔◌, ◌⊎◌, inl, inr,
  Bool, true, false, not, ◌&&◌, ◌||◌, Option, none, some, List, [], ◌∷◌, ◌++◌, map, arith, str_eq,
  eq_iff, eq_refl, ltb, leb, ◌==◌, if◌then◌else◌, leb→le, Bool-cases, Option-cases, is_some, Result,
  ok, err, ◌>>=◌, ◌>>◌, raise_if, Method, commit_or_rollback, Post, Post-ok, Post-err, Post-bind,
  Post-then, raise_if-ok, Post-commit, committed, length, any, find, keep, length-append,
  length-keep, All, All-append, any-append, All-keep, any-keep, keep-keep, find-all_false,
  find-true, All-find, Distinct, str_eq_comm, Distinct-keep, Distinct-append, has_key, dict_get,
  dict_set, dict_pop, has_key-dict_set, has_key-dict_pop, All-dict_set, All-dict_pop, bind-ok,
  bind-step, then-ok, then-split, find-append, find-append_none, find_last, find-any, any-find-none,
  any-find, keep-append, any-keep_and, any-or_left, any-or_right,
}
use systeme_local.Attachments.{
  AttachmentMediaType, png, jpeg, pdf, text, json, AttachmentMediaFamily, image, document,
  media_family, AttachmentRole, screenshot, input_document, reference, data_, other,
  AttachmentSource, operator_selected, agent_generated, tool_output, simulated_source,
  AttachmentQuotaRequirement, no_quota, fresh_upload_quota, CapabilitySupport, supported,
  unsupported, unknown, CapabilityEvidence, documented, observed, simulated, no_evidence,
  CapabilityClaim, AttachmentInspection, CommittedAttachment, AttachmentManifest,
  AttachmentCapabilityProfile, AttachmentBatch, AttachmentBatchPlan, QuotaDimension, chat_messages,
  work_agentic, file_upload_rate, file_storage, project_file_slots, QuotaState, available,
  near_limit, exhausted, reset_pending, unavailable, unknown_quota, ProviderQuotaSnapshot, type_eq,
  family_eq, is_image, is_supported, wants_quota, sum_bytes, attachment_ids_of,
}

pub data AttachmentPlanningReason : Type 0 where
  support_unknown support_unsupported profile_from_future : AttachmentPlanningReason
  manifest_integrity_invalid profile_integrity_invalid : AttachmentPlanningReason
  plan_integrity_invalid quota_integrity_invalid : AttachmentPlanningReason
  plan_before_manifest plan_account_mismatch media_unsupported : AttachmentPlanningReason
  file_too_large manifest_too_large too_many_files : AttachmentPlanningReason
  image_width_exceeded image_height_exceeded image_pixels_exceeded : AttachmentPlanningReason
  quota_missing quota_account_mismatch quota_dimension_mismatch : AttachmentPlanningReason
  quota_from_future quota_stale quota_unknown quota_exhausted : AttachmentPlanningReason
  quota_unavailable quota_reset_pending too_many_batches : AttachmentPlanningReason
  plan_binding_mismatch plan_content_mismatch : AttachmentPlanningReason

-- `AttachmentPlanningError` with its reason and attachment, the `ValueError` of a maximal age that
-- is not positive, pydantic's `ValidationError` of a model that is built, and a failed `assert`
pub data PlanningError : Type 0 where
  planning_error : AttachmentPlanningReason → Option String → PlanningError
  value_error validation_error assertion_error : PlanningError

-- `_validate_model_integrity`: the model is accepted when it is validated again
abbrev pub validate_model_integrity :
    Bool → AttachmentPlanningReason → Result PlanningError (Unit {0})
validate_model_integrity valid reason = raise_if (not valid) (planning_error reason none)

abbrev is_unknown_support : CapabilitySupport → Bool
is_unknown_support unknown = true
is_unknown_support _ = false

abbrev is_unsupported : CapabilitySupport → Bool
is_unsupported unsupported = true
is_unsupported _ = false

unfoldable pub validate_profile_support :
    AttachmentCapabilityProfile → ℕ → Result PlanningError (Unit {0})
validate_profile_support p evaluated_at = do
  raise_if (is_unknown_support p.support.state) (planning_error support_unknown none)
  raise_if (is_unsupported p.support.state) (planning_error support_unsupported none)
  raise_if (ltb evaluated_at p.observed_at) (planning_error profile_from_future none)

-- the limits on an image; the dimensions of one that is committed are there
abbrev validate_image :
    AttachmentCapabilityProfile → String → Option ℕ → Option ℕ → Result PlanningError (Unit {0})
validate_image p id (some width) (some height) = do
  raise_if (ltb p.max_image_width width) (planning_error image_width_exceeded (some id))
  raise_if (ltb p.max_image_height height) (planning_error image_height_exceeded (some id))
  raise_if (ltb p.max_image_pixels (width * height))
      (planning_error image_pixels_exceeded (some id))
validate_image p id none _ = err assertion_error
validate_image p id (some width) none = err assertion_error

abbrev validate_family :
    AttachmentMediaFamily
    → AttachmentCapabilityProfile
    → CommittedAttachment
    → Result PlanningError (Unit {0})
validate_family image p a =
    validate_image p a.attachment_id a.inspection.image_width a.inspection.image_height
validate_family document p a = ok tt

unfoldable pub validate_attachment_against_profile :
    AttachmentCapabilityProfile → CommittedAttachment → Result PlanningError AttachmentMediaFamily
validate_attachment_against_profile p a = do
  raise_if (not (any (type_eq a.inspection.media_type) p.supported_media_types))
      (planning_error media_unsupported (some a.attachment_id))
  raise_if (ltb p.max_file_bytes a.inspection.byte_size)
      (planning_error file_too_large (some a.attachment_id))
  raise_if (ltb p.max_batch_bytes a.inspection.byte_size)
      (planning_error file_too_large (some a.attachment_id))
  validate_family (media_family a.inspection.media_type) p a
  ok (media_family a.inspection.media_type)

-- `state_to_reason`
abbrev state_to_reason : QuotaState → Option AttachmentPlanningReason
state_to_reason available = none
state_to_reason near_limit = none
state_to_reason exhausted = some quota_exhausted
state_to_reason reset_pending = some quota_reset_pending
state_to_reason unavailable = some quota_unavailable
state_to_reason unknown_quota = some quota_unknown

abbrev usable_state : Option AttachmentPlanningReason → Result PlanningError (Unit {0})
usable_state none = ok tt
usable_state (some reason) = err (planning_error reason none)

abbrev is_upload_rate : QuotaDimension → Bool
is_upload_rate file_upload_rate = true
is_upload_rate _ = false

unfoldable pub validate_snapshot :
    String → ℕ → ProviderQuotaSnapshot → ℕ → Result PlanningError (Unit {0})
validate_snapshot account_id planned_at q max_age = do
  raise_if (not (str_eq q.account_id account_id)) (planning_error quota_account_mismatch none)
  raise_if (not (is_upload_rate q.dimension)) (planning_error quota_dimension_mismatch none)
  raise_if (ltb planned_at q.observed_at) (planning_error quota_from_future none)
  raise_if (ltb max_age (planned_at - q.observed_at)) (planning_error quota_stale none)
  usable_state (state_to_reason q.state)

abbrev required_quota :
    String → ℕ → Option ProviderQuotaSnapshot → ℕ → Result PlanningError (Unit {0})
required_quota account_id planned_at none max_age = err (planning_error quota_missing none)
required_quota account_id planned_at (some q) max_age =
    validate_snapshot account_id planned_at q max_age

unfoldable pub validate_quota :
    String
    → AttachmentCapabilityProfile
    → ℕ
    → Option ProviderQuotaSnapshot
    → ℕ
    → Result PlanningError (Unit {0})
validate_quota account_id p planned_at upload_quota max_age =
    let checked = required_quota account_id planned_at upload_quota max_age in
    if wants_quota p.quota_requirement then checked else ok tt
