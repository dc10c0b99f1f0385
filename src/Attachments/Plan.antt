-- ===== src/Attachments/Plan.antt =====
-- `plan_attachment_batches` of src/systeme_local_gateway/providers/attachment_policy.py.
pub mod Groups
pub mod Loop
pub mod Limits
use systeme_local.Prelude.{
  ℕ, zero, suc, ◌+◌, ◌-◌, ◌*◌, ◌≤◌, ◌<◌, String, ◌≡◌, refl, sym, ap, ◌∙◌, ◌≢◌, ◌↔◌, ◌⊎◌, inl, inr,
  Bool, true, false, not, ◌&&◌, ◌||◌, Option, none, some, List, [], ◌∷◌, ◌++◌, map, arith, str_eq,
  eq_iff, eq_refl, ltb, leb, ◌==◌, if◌then◌else◌, leb→le, Bool-cases, Option-cases, is_some, Result,
  ok, err, ◌>>=◌, ◌>>◌, raise_if, Method, commit_or_rollback, Post, Post-ok, Post-err, Post-bind,
  Post-then, Post-if, raise_if-ok, Post-commit, committed, length, any, find, keep, length-append,
  length-keep, All, All-append, any-append, All-keep, any-keep, keep-keep, find-all_false,
  find-true, All-find, Distinct, str_eq_comm, Distinct-keep, Distinct-append, has_key, dict_get,
  dict_set, dict_pop, has_key-dict_set, has_key-dict_pop, All-dict_set, All-dict_pop, bind-ok,
  bind-step, then-ok, then-split, find-append, find-append_none, find_last, find-any, any-find-none,
  any-find, keep-append, any-keep_and, any-or_left, any-or_right,
}
use systeme_local.Attachments.{
  AttachmentMediaType, png, jpeg, pdf, text, json, AttachmentMediaFamily, image, document,
  media_family, AttachmentRole, screenshot, input_document, reference, data_, other,
  AttachmentSource, operator_selected, agent_generated, tool_output, simulated_source,
  AttachmentQuotaRequirement, no_quota, fresh_upload_quota, CapabilitySupport, supported,
  unsupported, unknown, CapabilityEvidence, documented, observed, simulated, no_evidence,
  CapabilityClaim, AttachmentInspection, CommittedAttachment, AttachmentManifest,
  AttachmentCapabilityProfile, AttachmentBatch, AttachmentBatchPlan, QuotaDimension, chat_messages,
  work_agentic, file_upload_rate, file_storage, project_file_slots, QuotaState, available,
  near_limit, exhausted, reset_pending, unavailable, unknown_quota, ProviderQuotaSnapshot, type_eq,
  family_eq, is_image, is_supported, wants_quota, sum_bytes, attachment_ids_of,
}
use systeme_local.Attachments.Digests.{
  DigestCalls, attachment_quota_snapshot_sha256, attachment_plan_sha256,
}
use systeme_local.Attachments.Valid.{
  valid_batch, valid_manifest, valid_profile, valid_plan, valid_snapshot, all_valid, numbered_from,
  flattened, sum_batches, all_batches,
}
use systeme_local.Attachments.Valid.Names.{NameCalls}
use systeme_local.Attachments.Valid.Equal.{
  texts_eq, families_eq, unique, unique_families, texts_eq_refl, families_eq_refl,
}
use systeme_local.Attachments.Policy.{
  AttachmentPlanningReason, plan_integrity_invalid, manifest_integrity_invalid,
  profile_integrity_invalid, quota_integrity_invalid, plan_before_manifest, plan_account_mismatch,
  too_many_files, manifest_too_large, quota_missing, too_many_batches, plan_binding_mismatch,
  plan_content_mismatch, PlanningError, planning_error, value_error, validation_error,
  assertion_error, validate_model_integrity, validate_profile_support,
  validate_attachment_against_profile, validate_quota,
}
use mathlib.Core.Option.{map as option_map}

-- the variables of the loop: `batches`, `current_ids`, `current_bytes` and `current_families`
pub record BatchState : Type 0 where
  pub batches : List AttachmentBatch
  pub current_ids : List String
  pub current_bytes : ℕ
  pub current_families : List AttachmentMediaFamily

abbrev pub no_batches : BatchState
no_batches = record { batches = []; current_ids = []; current_bytes = 0; current_families = [] }

abbrev pub is_empty : {A : Type 0} → List A → Bool
is_empty [] = true
is_empty (x ∷ xs) = false

-- `if family not in families: families.append(family)`
abbrev pub add_family :
    AttachmentMediaFamily → List AttachmentMediaFamily → List AttachmentMediaFamily
add_family f families = if any (family_eq f) families then families else families ++ f ∷ []

-- the parameters of a plan
pub record PlanRequest : Type 0 where
  pub plan_id : String
  pub account_id : String
  pub manifest : AttachmentManifest
  pub profile : AttachmentCapabilityProfile
  pub planned_at : ℕ
  pub upload_quota : Option ProviderQuotaSnapshot
  pub quota_max_age : ℕ

module _ (digests : DigestCalls) where
  unfoldable pub batch_id_of : String → String → ℕ → List String → String
  batch_id_of plan_id manifest_sha256 index ids =
      digests.stable "attbatch_" (plan_id ∷ manifest_sha256 ∷ digests.decimal index ∷ ids)

  unfoldable pub new_batch : String → String → BatchState → AttachmentBatch
  new_batch plan_id manifest_sha256 s = record {
    batch_id = batch_id_of plan_id manifest_sha256 (length s.batches) s.current_ids;
    batch_index = length s.batches;
    attachment_ids = s.current_ids;
    total_bytes = s.current_bytes;
    media_families = s.current_families;
  }

  unfoldable pub flush : String → String → BatchState → Result PlanningError BatchState
  unfolding new_batch
  flush plan_id manifest_sha256 s =
      let batch = new_batch plan_id manifest_sha256 s in
      if is_empty s.current_ids
      then ok s
      else (raise_if (not (valid_batch batch)) validation_error
          >> ok (record {
            batches = s.batches ++ batch ∷ [];
            current_ids = [];
            current_bytes = 0;
            current_families = [];
          }))

  unfoldable pub must_flush :
      AttachmentCapabilityProfile → ℕ → AttachmentMediaFamily → BatchState → Bool
  must_flush p size family s =
      ltb p.max_files_per_batch (length s.current_ids + 1)
      || ltb p.max_batch_bytes (s.current_bytes + size)
      || (not p.allows_mixed_media
          && not (is_empty s.current_families)
          && not (any (family_eq family) s.current_families))

  unfoldable pub add_current : CommittedAttachment → AttachmentMediaFamily → BatchState → BatchState
  add_current a family s = record s {
    current_ids = s.current_ids ++ a.attachment_id ∷ [];
    current_bytes = s.current_bytes + a.inspection.byte_size;
    current_families = add_family family s.current_families;
  }

  unfoldable pub add_attachment :
      String
      → String
      → AttachmentCapabilityProfile
      → CommittedAttachment
      → BatchState
      → Result PlanningError BatchState
  add_attachment plan_id manifest_sha256 p a s = do
    family ← validate_attachment_against_profile p a
    ready ←
        (if must_flush p a.inspection.byte_size family s
          then flush plan_id manifest_sha256 s
          else ok s)
    ok (add_current a family ready)

  unfoldable pub add_attachments :
      String
      → String
      → AttachmentCapabilityProfile
      → List CommittedAttachment
      → BatchState
      → Result PlanningError BatchState
  add_attachments plan_id manifest_sha256 p [] s = flush plan_id manifest_sha256 s
  add_attachments plan_id manifest_sha256 p (a ∷ rest) s = do
    next ← add_attachment plan_id manifest_sha256 p a s
    add_attachments plan_id manifest_sha256 p rest next

  -- the quota counts only where the profile requires it
  unfoldable pub effective_quota : PlanRequest → Option ProviderQuotaSnapshot
  effective_quota r = if wants_quota r.profile.quota_requirement then r.upload_quota else none

  abbrev pub quota_integrity : Option ProviderQuotaSnapshot → Result PlanningError (Unit {0})
  quota_integrity none = ok tt
  quota_integrity (some q) = validate_model_integrity (valid_snapshot q) quota_integrity_invalid

module _ (digests : DigestCalls) (names : NameCalls) where
  -- the checks before the loop
  unfoldable pub check_request : PlanRequest → Result PlanningError (Unit {0})
  check_request r = do
    raise_if (r.quota_max_age == 0) value_error
    validate_model_integrity (valid_manifest digests names r.manifest) manifest_integrity_invalid
    validate_model_integrity (valid_profile digests r.profile) profile_integrity_invalid
    validate_profile_support r.profile r.planned_at
    raise_if (ltb r.planned_at r.manifest.committed_at) (planning_error plan_before_manifest none)
    raise_if (ltb r.profile.max_files_per_manifest r.manifest.attachment_count)
        (planning_error too_many_files none)
    raise_if (ltb r.profile.max_manifest_bytes r.manifest.total_bytes)
        (planning_error manifest_too_large none)
    quota_integrity digests (effective_quota digests r)
    validate_quota r.account_id r.profile r.planned_at (effective_quota digests r) r.quota_max_age

  unfoldable pub unsigned_plan : PlanRequest → List AttachmentBatch → AttachmentBatchPlan
  unsigned_plan r batches =
      let quota = effective_quota digests r in
      record {
        plan_id = r.plan_id;
        account_id = r.account_id;
        manifest_id = r.manifest.manifest_id;
        manifest_sha256 = r.manifest.manifest_sha256;
        provider = r.profile.provider;
        surface = r.profile.surface;
        capability_profile_id = r.profile.profile_id;
        capability_profile_revision = r.profile.revision;
        capability_profile_sha256 = r.profile.profile_sha256;
        upload_quota_snapshot_id = option_map (λ (q : ProviderQuotaSnapshot). q.snapshot_id) quota;
        upload_quota_observed_at = option_map (λ (q : ProviderQuotaSnapshot). q.observed_at) quota;
        upload_quota_sha256 = option_map (attachment_quota_snapshot_sha256 digests) quota;
        ordered_attachment_ids = attachment_ids_of r.manifest.attachments;
        attachment_count = r.manifest.attachment_count;
        total_bytes = r.manifest.total_bytes;
        batches = batches;
        planned_at = r.planned_at;
        plan_sha256 = "";
      }

  unfoldable pub signed_plan : PlanRequest → List AttachmentBatch → AttachmentBatchPlan
  unfolding unsigned_plan
  signed_plan r batches =
      let plan = unsigned_plan r batches in
      record plan { plan_sha256 = attachment_plan_sha256 digests plan }

  unfoldable pub plan_attachment_batches : PlanRequest → Result PlanningError AttachmentBatchPlan
  plan_attachment_batches r = do
    check_request r
    s ←
        add_attachments digests r.plan_id r.manifest.manifest_sha256 r.profile
          r.manifest.attachments no_batches
    raise_if (ltb r.profile.max_batches_per_manifest (length s.batches))
        (planning_error too_many_batches none)
    raise_if (not (valid_plan digests (signed_plan r s.batches))) validation_error
    ok (signed_plan r s.batches)
