-- ===== src/Attachments/Valid.antt =====
-- The validators of src/systeme_local_gateway/providers/attachment_models.py: what pydantic accepts
-- as a model.
pub mod Names
pub mod Equal
pub mod Facts
use systeme_local.Prelude.{
  ℕ, zero, suc, ◌+◌, ◌-◌, ◌*◌, ◌≤◌, ◌<◌, String, ◌≡◌, refl, sym, ap, ◌∙◌, ◌≢◌, ◌↔◌, ◌⊎◌, inl, inr,
  Bool, true, false, not, ◌&&◌, ◌||◌, Option, none, some, List, [], ◌∷◌, ◌++◌, map, arith, str_eq,
  eq_iff, eq_refl, ltb, leb, ◌==◌, if◌then◌else◌, leb→le, Bool-cases, Option-cases, is_some, Result,
  ok, err, ◌>>=◌, ◌>>◌, raise_if, Method, commit_or_rollback, Post, Post-ok, Post-err, Post-bind,
  Post-then, raise_if-ok, Post-commit, committed, length, any, find, keep, length-append,
  length-keep, All, All-append, any-append, All-keep, any-keep, keep-keep, find-all_false,
  find-true, All-find, Distinct, str_eq_comm, Distinct-keep, Distinct-append, has_key, dict_get,
  dict_set, dict_pop, has_key-dict_set, has_key-dict_pop, All-dict_set, All-dict_pop, bind-ok,
  bind-step, then-ok, then-split, find-append, find-append_none, find_last, find-any, any-find-none,
  any-find, keep-append, any-keep_and, any-or_left, any-or_right,
}
use systeme_local.Attachments.{
  AttachmentMediaType, png, jpeg, pdf, text, json, AttachmentMediaFamily, image, document,
  media_family, AttachmentRole, screenshot, input_document, reference, data_, other,
  AttachmentSource, operator_selected, agent_generated, tool_output, simulated_source,
  AttachmentQuotaRequirement, no_quota, fresh_upload_quota, CapabilitySupport, supported,
  unsupported, unknown, CapabilityEvidence, documented, observed, simulated, no_evidence,
  CapabilityClaim, AttachmentInspection, CommittedAttachment, AttachmentManifest,
  AttachmentCapabilityProfile, AttachmentBatch, AttachmentBatchPlan, QuotaDimension, chat_messages,
  work_agentic, file_upload_rate, file_storage, project_file_slots, QuotaState, available,
  near_limit, exhausted, reset_pending, unavailable, unknown_quota, ProviderQuotaSnapshot, type_eq,
  family_eq, is_image, is_supported, wants_quota, sum_bytes, attachment_ids_of,
}
use systeme_local.Attachments.Digests.{
  DigestCalls, attachment_metadata_sha256, attachment_manifest_sha256,
  attachment_capability_profile_sha256, attachment_plan_sha256,
}
use systeme_local.Attachments.Valid.Names.{NameCalls, valid_display_name}
use systeme_local.Attachments.Valid.Equal.{texts_eq, unique, unique_families, unique_types}

abbrev pub max_inspection_bytes : ℕ
max_inspection_bytes = 67_108_864

abbrev pub max_total_bytes : ℕ
max_total_bytes = 4_294_967_296

abbrev pub max_attachments : ℕ
max_attachments = 64

abbrev within : ℕ → ℕ → ℕ → Bool
within low high n = leb low n && leb n high

abbrev dimension_within : Option ℕ → Bool
dimension_within none = true
dimension_within (some n) = within 1 1_000_000 n

unfoldable pub valid_inspection : AttachmentInspection → Bool
valid_inspection i =
    within 1 max_inspection_bytes i.byte_size
    && dimension_within i.image_width
    && dimension_within i.image_height
    && (if is_image i.media_type
        then is_some i.image_width && is_some i.image_height
        else not (is_some i.image_width || is_some i.image_height))

abbrev pub all_valid : (CommittedAttachment → Bool) → List CommittedAttachment → Bool
all_valid p [] = true
all_valid p (a ∷ rest) = p a && all_valid p rest

-- `[item.ordinal …] == list(range(len(…)))`
abbrev pub ordered_from : ℕ → List CommittedAttachment → Bool
ordered_from n [] = true
ordered_from n (a ∷ rest) = a.ordinal == n && ordered_from (n + 1) rest

abbrev pub contents_of : List CommittedAttachment → List String
contents_of [] = []
contents_of (a ∷ rest) = a.inspection.content_sha256 ∷ contents_of rest

abbrev bound_to : AttachmentManifest → CommittedAttachment → Bool
bound_to m a =
    str_eq a.conversation_id m.conversation_id
    && str_eq a.turn_id m.turn_id
    && str_eq a.trace_id m.trace_id
    && leb a.committed_at m.committed_at

module _ (digests : DigestCalls) (names : NameCalls) where
  unfoldable pub valid_attachment : CommittedAttachment → Bool
  valid_attachment a =
      ltb a.ordinal max_attachments
      && valid_display_name names a.display_name
      && valid_inspection a.inspection
      && leb a.inspection.inspected_at a.committed_at
      && str_eq a.metadata_sha256 (attachment_metadata_sha256 digests a)

  unfoldable pub valid_manifest : AttachmentManifest → Bool
  valid_manifest m =
      within 1 max_attachments m.attachment_count
      && within 1 max_total_bytes m.total_bytes
      && within 1 max_attachments (length m.attachments)
      && all_valid valid_attachment m.attachments
      && m.attachment_count == length m.attachments
      && m.total_bytes == sum_bytes m.attachments
      && ordered_from 0 m.attachments
      && unique (attachment_ids_of m.attachments)
      && unique (contents_of m.attachments)
      && all_valid (bound_to m) m.attachments
      && str_eq m.manifest_sha256 (attachment_manifest_sha256 digests m)

abbrev pub has_evidence : CapabilityEvidence → Bool
has_evidence no_evidence = false
has_evidence _ = true

abbrev pub is_unknown : CapabilitySupport → Bool
is_unknown unknown = true
is_unknown _ = false

abbrev pub valid_claim : CapabilityClaim → Bool
valid_claim c =
    if is_unknown c.state then not (has_evidence c.evidence) else has_evidence c.evidence

abbrev positive : ℕ → Bool
positive n = ltb 0 n

abbrev image_limits : AttachmentCapabilityProfile → Bool
image_limits p =
    if any is_image p.supported_media_types
    then positive p.max_image_width && positive p.max_image_height && positive p.max_image_pixels
    else p.max_image_width == 0 && p.max_image_height == 0 && p.max_image_pixels == 0

abbrev supported_limits : AttachmentCapabilityProfile → Bool
supported_limits p =
    positive p.max_file_bytes
    && positive p.max_batch_bytes
    && positive p.max_manifest_bytes
    && positive p.max_files_per_batch
    && positive p.max_files_per_manifest
    && positive p.max_batches_per_manifest
    && not (length p.supported_media_types == 0)
    && leb p.max_file_bytes p.max_batch_bytes
    && leb p.max_batch_bytes p.max_manifest_bytes
    && leb p.max_files_per_batch p.max_files_per_manifest
    && image_limits p

abbrev no_limits : AttachmentCapabilityProfile → Bool
no_limits p =
    length p.supported_media_types == 0
    && p.max_file_bytes == 0
    && p.max_batch_bytes == 0
    && p.max_manifest_bytes == 0
    && p.max_files_per_batch == 0
    && p.max_files_per_manifest == 0
    && p.max_batches_per_manifest == 0
    && p.max_image_width == 0
    && p.max_image_height == 0
    && p.max_image_pixels == 0
    && not p.allows_mixed_media
    && not (wants_quota p.quota_requirement)

abbrev profile_bounds : AttachmentCapabilityProfile → Bool
profile_bounds p =
    leb 1 p.revision
    && leb (length p.supported_media_types) 16
    && leb p.max_file_bytes max_inspection_bytes
    && leb p.max_batch_bytes max_total_bytes
    && leb p.max_manifest_bytes max_total_bytes
    && leb p.max_files_per_batch max_attachments
    && leb p.max_files_per_manifest max_attachments
    && leb p.max_batches_per_manifest max_attachments
    && leb p.max_image_width 1_000_000
    && leb p.max_image_height 1_000_000
    && leb p.max_image_pixels 1_000_000_000_000

unfoldable pub valid_profile : DigestCalls → AttachmentCapabilityProfile → Bool
valid_profile digests p =
    profile_bounds p
    && valid_claim p.support
    && unique_types p.supported_media_types
    && (if is_supported p.support.state then supported_limits p else no_limits p)
    && str_eq p.profile_sha256 (attachment_capability_profile_sha256 digests p)

unfoldable pub valid_batch : AttachmentBatch → Bool
valid_batch b =
    ltb b.batch_index max_attachments
    && within 1 max_attachments (length b.attachment_ids)
    && leb 1 b.total_bytes
    && within 1 2 (length b.media_families)
    && unique b.attachment_ids
    && unique_families b.media_families

-- `[batch.batch_index …] == list(range(len(…)))`, the identifiers of all batches, and their sizes
abbrev pub numbered_from : ℕ → List AttachmentBatch → Bool
numbered_from n [] = true
numbered_from n (b ∷ rest) = b.batch_index == n && numbered_from (n + 1) rest

abbrev pub flattened : List AttachmentBatch → List String
flattened [] = []
flattened (b ∷ rest) = b.attachment_ids ++ flattened rest

abbrev pub sum_batches : List AttachmentBatch → ℕ
sum_batches [] = 0
sum_batches (b ∷ rest) = b.total_bytes + sum_batches rest

abbrev pub all_batches : (AttachmentBatch → Bool) → List AttachmentBatch → Bool
all_batches p [] = true
all_batches p (b ∷ rest) = p b && all_batches p rest

abbrev same_presence : Bool → Bool → Bool → Bool
same_presence a b c = (a && b && c) || not (a || b || c)

unfoldable pub valid_plan : DigestCalls → AttachmentBatchPlan → Bool
valid_plan digests p =
    leb 1 p.capability_profile_revision
    && within 1 max_attachments (length p.ordered_attachment_ids)
    && within 1 max_attachments p.attachment_count
    && leb 1 p.total_bytes
    && within 1 max_attachments (length p.batches)
    && all_batches valid_batch p.batches
    && same_presence (is_some p.upload_quota_snapshot_id) (is_some p.upload_quota_observed_at)
        (is_some p.upload_quota_sha256)
    && p.attachment_count == length p.ordered_attachment_ids
    && unique p.ordered_attachment_ids
    && numbered_from 0 p.batches
    && texts_eq (flattened p.batches) p.ordered_attachment_ids
    && p.total_bytes == sum_batches p.batches
    && str_eq p.plan_sha256 (attachment_plan_sha256 digests p)

abbrev is_unknown_quota : QuotaState → Bool
is_unknown_quota unknown_quota = true
is_unknown_quota _ = false

abbrev is_exhausted : QuotaState → Bool
is_exhausted exhausted = true
is_exhausted _ = false

abbrev pub is_usable : QuotaState → Bool
is_usable available = true
is_usable near_limit = true
is_usable _ = false

abbrev or_later : ℕ → Option ℕ → Bool
or_later t none = true
or_later t (some reset) = leb t reset

abbrev remaining_within : Option ℕ → Option ℕ → Bool
remaining_within (some left) (some limit) = leb left limit
remaining_within _ _ = true

abbrev is_zero : Option ℕ → Bool
is_zero none = false
is_zero (some n) = n == 0

abbrev limit_positive : Option ℕ → Bool
limit_positive none = true
limit_positive (some n) = leb 1 n

unfoldable pub valid_snapshot : ProviderQuotaSnapshot → Bool
valid_snapshot q =
    limit_positive q.limit_value
    && (if is_unknown_quota q.state then not (has_evidence q.evidence) else has_evidence q.evidence)
    && or_later q.observed_at q.reset_at
    && (if is_some q.remaining_value || is_some q.limit_value
        then not (str_eq q.unit "unknown")
        else str_eq q.unit "unknown")
    && remaining_within q.remaining_value q.limit_value
    && not (is_exhausted q.state && is_some q.remaining_value && not (is_zero q.remaining_value))
    && not (is_usable q.state && is_zero q.remaining_value)
