-- ===== src/Attachments/Verify.antt =====
-- `verify_attachment_batch_plan` of src/systeme_local_gateway/providers/attachment_policy.py.
pub mod ById
pub mod Batches
pub mod RoundTrip
use systeme_local.Prelude.{
  ℕ, zero, suc, ◌+◌, ◌-◌, ◌*◌, ◌≤◌, ◌<◌, String, ◌≡◌, refl, sym, ap, ◌∙◌, ◌≢◌, ◌↔◌, ◌⊎◌, inl, inr,
  Bool, true, false, not, ◌&&◌, ◌||◌, Option, none, some, List, [], ◌∷◌, ◌++◌, map, arith, str_eq,
  eq_iff, eq_refl, ltb, leb, ◌==◌, if◌then◌else◌, leb→le, Bool-cases, Option-cases, is_some, Result,
  ok, err, ◌>>=◌, ◌>>◌, raise_if, Method, commit_or_rollback, Post, Post-ok, Post-err, Post-bind,
  Post-then, raise_if-ok, Post-commit, committed, length, any, find, keep, length-append,
  length-keep, All, All-append, any-append, All-keep, any-keep, keep-keep, find-all_false,
  find-true, All-find, Distinct, str_eq_comm, Distinct-keep, Distinct-append, has_key, dict_get,
  dict_set, dict_pop, has_key-dict_set, has_key-dict_pop, All-dict_set, All-dict_pop, bind-ok,
  bind-step, then-ok, then-split, find-append, find-append_none, find_last, find-any, any-find-none,
  any-find, keep-append, any-keep_and, any-or_left, any-or_right,
}
use systeme_local.Attachments.{
  AttachmentMediaType, png, jpeg, pdf, text, json, AttachmentMediaFamily, image, document,
  media_family, AttachmentRole, screenshot, input_document, reference, data_, other,
  AttachmentSource, operator_selected, agent_generated, tool_output, simulated_source,
  AttachmentQuotaRequirement, no_quota, fresh_upload_quota, CapabilitySupport, supported,
  unsupported, unknown, CapabilityEvidence, documented, observed, simulated, no_evidence,
  CapabilityClaim, AttachmentInspection, CommittedAttachment, AttachmentManifest,
  AttachmentCapabilityProfile, AttachmentBatch, AttachmentBatchPlan, QuotaDimension, chat_messages,
  work_agentic, file_upload_rate, file_storage, project_file_slots, QuotaState, available,
  near_limit, exhausted, reset_pending, unavailable, unknown_quota, ProviderQuotaSnapshot, type_eq,
  family_eq, is_image, is_supported, wants_quota, sum_bytes, attachment_ids_of,
}
use systeme_local.Attachments.Digests.{
  DigestCalls, attachment_quota_snapshot_sha256, attachment_plan_sha256,
}
use systeme_local.Attachments.Valid.{
  valid_batch, valid_manifest, valid_profile, valid_plan, valid_snapshot, all_valid, numbered_from,
  flattened, sum_batches, all_batches,
}
use systeme_local.Attachments.Valid.Names.{NameCalls}
use systeme_local.Attachments.Valid.Equal.{
  texts_eq, families_eq, unique, unique_families, texts_eq_refl, families_eq_refl,
}
use systeme_local.Attachments.Policy.{
  AttachmentPlanningReason, plan_integrity_invalid, manifest_integrity_invalid,
  profile_integrity_invalid, quota_integrity_invalid, plan_before_manifest, plan_account_mismatch,
  too_many_files, manifest_too_large, quota_missing, too_many_batches, plan_binding_mismatch,
  plan_content_mismatch, PlanningError, planning_error, value_error, validation_error,
  assertion_error, validate_model_integrity, validate_profile_support,
  validate_attachment_against_profile, validate_quota,
}
use systeme_local.Attachments.Plan.{add_family, batch_id_of}

-- what a plan is verified against
pub record VerifyRequest : Type 0 where
  pub account_id : String
  pub manifest : AttachmentManifest
  pub profile : AttachmentCapabilityProfile
  pub upload_quota : Option ProviderQuotaSnapshot
  pub quota_max_age : ℕ

abbrev is_text : String → Option String → Bool
is_text s none = false
is_text s (some t) = str_eq t s

abbrev is_number : ℕ → Option ℕ → Bool
is_number n none = false
is_number n (some m) = m == n

abbrev content_mismatch : PlanningError
content_mismatch = planning_error plan_content_mismatch none

-- `{item.attachment_id: item for item in manifest.attachments}`
pub by_id :
    List CommittedAttachment
    → List (String × CommittedAttachment)
    → List (String × CommittedAttachment)
by_id [] d = d
by_id (a ∷ rest) d = by_id rest (dict_set a.attachment_id a d)

abbrev pub keys : List (String × CommittedAttachment) → List String
keys [] = []
keys ((k, a) ∷ d) = k ∷ keys d

pub known_attachment :
    String → Option CommittedAttachment → Result PlanningError CommittedAttachment
known_attachment id none = err (planning_error plan_content_mismatch (some id))
known_attachment id (some a) = ok a

-- the loop over the identifiers of a batch: the bytes and the families that it must have
pub add_expected :
    AttachmentCapabilityProfile
    → List (String × CommittedAttachment)
    → List String
    → ℕ
    → List AttachmentMediaFamily
    → Result PlanningError (ℕ × List AttachmentMediaFamily)
add_expected p d [] bytes families = ok (bytes, families)
add_expected p d (id ∷ ids) bytes families = do
  a ← known_attachment id (dict_get id d)
  family ← validate_attachment_against_profile p a
  add_expected p d ids (bytes + a.inspection.byte_size) (add_family family families)

module _ (digests : DigestCalls) where
  pub verify_batch :
      String
      → String
      → AttachmentCapabilityProfile
      → List (String × CommittedAttachment)
      → AttachmentBatch
      → Result PlanningError (Unit {0})
  verify_batch plan_id manifest_sha256 p d b = do
    expected ← add_expected p d b.attachment_ids 0 []
    raise_if
        (not (
          str_eq b.batch_id
            (batch_id_of digests plan_id manifest_sha256 b.batch_index b.attachment_ids)))
        content_mismatch
    raise_if (not (b.total_bytes == expected.0)) content_mismatch
    raise_if (not (families_eq b.media_families expected.1)) content_mismatch
    raise_if (ltb p.max_files_per_batch (length b.attachment_ids)) content_mismatch
    raise_if (ltb p.max_batch_bytes b.total_bytes) content_mismatch
    raise_if (not p.allows_mixed_media && ltb 1 (length b.media_families)) content_mismatch

  pub verify_batches :
      String
      → String
      → AttachmentCapabilityProfile
      → List (String × CommittedAttachment)
      → List AttachmentBatch
      → Result PlanningError (Unit {0})
  verify_batches plan_id manifest_sha256 p d [] = ok tt
  verify_batches plan_id manifest_sha256 p d (b ∷ rest) = do
    verify_batch plan_id manifest_sha256 p d b
    verify_batches plan_id manifest_sha256 p d rest

  abbrev pub same_bindings : AttachmentBatchPlan → VerifyRequest → Bool
  same_bindings p r =
      str_eq p.manifest_id r.manifest.manifest_id
      && str_eq p.manifest_sha256 r.manifest.manifest_sha256
      && str_eq p.provider r.profile.provider
      && str_eq p.surface r.profile.surface
      && str_eq p.capability_profile_id r.profile.profile_id
      && p.capability_profile_revision == r.profile.revision
      && str_eq p.capability_profile_sha256 r.profile.profile_sha256

  verify_required_quota :
      AttachmentBatchPlan
      → VerifyRequest
      → Option ProviderQuotaSnapshot
      → Result PlanningError (Unit {0})
  verify_required_quota p r none = err (planning_error quota_missing none)
  verify_required_quota p r (some q) = do
    validate_model_integrity (valid_snapshot q) quota_integrity_invalid
    raise_if
        (not (
          is_text q.snapshot_id p.upload_quota_snapshot_id
          && is_number q.observed_at p.upload_quota_observed_at
          && is_text (attachment_quota_snapshot_sha256 digests q) p.upload_quota_sha256))
        (planning_error plan_binding_mismatch none)
    validate_quota p.account_id r.profile p.planned_at (some q) r.quota_max_age

  pub verify_quota : AttachmentBatchPlan → VerifyRequest → Result PlanningError (Unit {0})
  verify_quota p r =
      let required = verify_required_quota p r r.upload_quota in
      if wants_quota r.profile.quota_requirement
      then required
      else raise_if
          (is_some p.upload_quota_snapshot_id
            || is_some p.upload_quota_observed_at
            || is_some p.upload_quota_sha256)
          (planning_error plan_binding_mismatch none)

  pub verify_models :
      NameCalls → AttachmentBatchPlan → VerifyRequest → Result PlanningError (Unit {0})
  verify_models names p r = do
    raise_if (r.quota_max_age == 0) value_error
    validate_model_integrity (valid_plan digests p) plan_integrity_invalid
    validate_model_integrity (valid_manifest digests names r.manifest) manifest_integrity_invalid
    validate_model_integrity (valid_profile digests r.profile) profile_integrity_invalid
    validate_profile_support r.profile p.planned_at

  pub verify_totals : AttachmentBatchPlan → VerifyRequest → Result PlanningError (Unit {0})
  verify_totals p r = do
    raise_if (ltb p.planned_at r.manifest.committed_at) (planning_error plan_before_manifest none)
    raise_if (not (str_eq p.account_id r.account_id)) (planning_error plan_account_mismatch none)
    raise_if (not (same_bindings p r)) (planning_error plan_binding_mismatch none)
    raise_if
        (not (
          p.attachment_count == r.manifest.attachment_count
          && p.total_bytes == r.manifest.total_bytes))
        content_mismatch
    raise_if (ltb r.profile.max_files_per_manifest r.manifest.attachment_count) content_mismatch
    raise_if (ltb r.profile.max_manifest_bytes r.manifest.total_bytes) content_mismatch
    raise_if (ltb r.profile.max_batches_per_manifest (length p.batches)) content_mismatch

  pub verify_attachment_batch_plan :
      NameCalls → AttachmentBatchPlan → VerifyRequest → Result PlanningError (Unit {0})
  verify_attachment_batch_plan names p r =
      let d = by_id r.manifest.attachments [] in
      verify_models names p r
      >> (verify_totals p r
          >> (verify_quota p r
              >> (raise_if (not (texts_eq (keys d) p.ordered_attachment_ids)) content_mismatch
                  >> verify_batches p.plan_id r.manifest.manifest_sha256 r.profile d p.batches)))
