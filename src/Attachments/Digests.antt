-- ===== src/Attachments/Digests.antt =====
-- What the digests of src/systeme_local_gateway/providers/attachment_models.py are taken of.
use systeme_local.Prelude.{
  ℕ, String, Bool, true, false, Option, none, some, List, [], ◌∷◌, ◌++◌, map, is_some, length,
}
use systeme_local.Attachments.{
  AttachmentMediaType, png, jpeg, pdf, text, json, AttachmentMediaFamily, image, document,
  AttachmentRole, screenshot, input_document, reference, data_, other, AttachmentSource,
  operator_selected, agent_generated, tool_output, simulated_source, AttachmentQuotaRequirement,
  no_quota, fresh_upload_quota, CapabilitySupport, supported, unsupported, unknown,
  CapabilityEvidence, documented, observed, simulated, no_evidence, CommittedAttachment,
  AttachmentManifest, AttachmentCapabilityProfile, AttachmentBatch, AttachmentBatchPlan,
  QuotaDimension, chat_messages, work_agentic, file_upload_rate, file_storage, project_file_slots,
  QuotaState, available, near_limit, exhausted, reset_pending, unavailable, unknown_quota,
  ProviderQuotaSnapshot,
}

-- `_frame_text` and `_frame_int`: a value is framed by its own length
pub data Frame : Type 0 where
  frame_text : String → Frame
  frame_int : ℕ → Frame

-- SHA-256 of the frames after the domain, a time in ISO 8601, the
-- decimal digits of a number, and the first digits of the SHA-256 of
-- the texts after a prefix, are not part of the program.
pub record DigestCalls : Type 0 where
  pub sha256 : String → List Frame → String
  pub isoformat : ℕ → String
  pub decimal : ℕ → String
  pub stable : String → List String → String

abbrev texts : List String → List Frame
texts = map frame_text

abbrev ints : List ℕ → List Frame
ints = map frame_int

abbrev pub role_value : AttachmentRole → String
role_value screenshot = "screenshot"
role_value input_document = "input_document"
role_value reference = "reference"
role_value data_ = "data"
role_value other = "other"

abbrev pub source_value : AttachmentSource → String
source_value operator_selected = "operator_selected"
source_value agent_generated = "agent_generated"
source_value tool_output = "tool_output"
source_value simulated_source = "simulated"

abbrev pub media_type_value : AttachmentMediaType → String
media_type_value png = "image/png"
media_type_value jpeg = "image/jpeg"
media_type_value pdf = "application/pdf"
media_type_value text = "text/plain"
media_type_value json = "application/json"

abbrev pub family_value : AttachmentMediaFamily → String
family_value image = "image"
family_value document = "document"

abbrev pub support_value : CapabilitySupport → String
support_value supported = "supported"
support_value unsupported = "unsupported"
support_value unknown = "unknown"

abbrev pub evidence_value : CapabilityEvidence → String
evidence_value documented = "documented"
evidence_value observed = "observed"
evidence_value simulated = "simulated"
evidence_value no_evidence = "none"

abbrev pub requirement_value : AttachmentQuotaRequirement → String
requirement_value no_quota = "none"
requirement_value fresh_upload_quota = "fresh_upload_quota"

abbrev pub dimension_value : QuotaDimension → String
dimension_value chat_messages = "chat_messages"
dimension_value work_agentic = "work_agentic"
dimension_value file_upload_rate = "file_upload_rate"
dimension_value file_storage = "file_storage"
dimension_value project_file_slots = "project_file_slots"

abbrev pub quota_value : QuotaState → String
quota_value available = "available"
quota_value near_limit = "near_limit"
quota_value exhausted = "exhausted"
quota_value reset_pending = "reset_pending"
quota_value unavailable = "unavailable"
quota_value unknown_quota = "unknown"

-- `value or 0`, `value or ""`, `1 if … else 0`
abbrev pub or_zero : Option ℕ → ℕ
or_zero none = 0
or_zero (some n) = n

abbrev pub or_empty : Option String → String
or_empty none = ""
or_empty (some s) = s

abbrev pub as_int : Bool → ℕ
as_int true = 1
as_int false = 0

module _ (calls : DigestCalls) where
  abbrev iso_or_empty : Option ℕ → String
  iso_or_empty none = ""
  iso_or_empty (some t) = calls.isoformat t

  -- the fields of the attachment except its digest
  unfoldable pub attachment_metadata_sha256 : CommittedAttachment → String
  attachment_metadata_sha256 a =
      let i = a.inspection in
      calls.sha256 "systeme-local:committed-attachment:v1" (
        texts (
          a.attachment_id
          ∷ a.conversation_id
          ∷ a.turn_id
          ∷ a.trace_id
          ∷ a.display_name
          ∷ role_value a.role
          ∷ source_value a.source
          ∷ media_type_value i.media_type
          ∷ i.content_sha256
          ∷ calls.isoformat i.inspected_at
          ∷ calls.isoformat a.committed_at
          ∷ [])
        ++ ints (a.ordinal ∷ i.byte_size ∷ or_zero i.image_width ∷ or_zero i.image_height ∷ []))

  abbrev metadata_frames : List CommittedAttachment → List Frame
  metadata_frames [] = []
  metadata_frames (a ∷ rest) = frame_text a.metadata_sha256 ∷ metadata_frames rest

  unfoldable pub attachment_manifest_sha256 : AttachmentManifest → String
  attachment_manifest_sha256 m = calls.sha256 "systeme-local:attachment-manifest:v1" (
      texts (
        m.manifest_id
        ∷ m.conversation_id
        ∷ m.turn_id
        ∷ m.trace_id
        ∷ m.principal.agent_id
        ∷ m.principal.instance_id
        ∷ m.principal.key_id
        ∷ m.principal.verification_id
        ∷ m.turn_content_sha256
        ∷ calls.isoformat m.committed_at
        ∷ [])
      ++ frame_int (length m.attachments) ∷ metadata_frames m.attachments)

  unfoldable pub attachment_capability_profile_sha256 : AttachmentCapabilityProfile → String
  attachment_capability_profile_sha256 p =
      calls.sha256 "systeme-local:attachment-capability-profile:v1" (
        texts (
          p.profile_id
          ∷ p.provider
          ∷ p.surface
          ∷ support_value p.support.state
          ∷ evidence_value p.support.evidence
          ∷ requirement_value p.quota_requirement
          ∷ calls.isoformat p.observed_at
          ∷ [])
        ++ ints (p.revision ∷ length p.supported_media_types ∷ [])
        ++ texts (map media_type_value p.supported_media_types)
        ++ ints (
            p.max_file_bytes
            ∷ p.max_batch_bytes
            ∷ p.max_manifest_bytes
            ∷ p.max_files_per_batch
            ∷ p.max_files_per_manifest
            ∷ p.max_batches_per_manifest
            ∷ p.max_image_width
            ∷ p.max_image_height
            ∷ p.max_image_pixels
            ∷ as_int p.allows_mixed_media
            ∷ []))

  unfoldable pub attachment_quota_snapshot_sha256 : ProviderQuotaSnapshot → String
  attachment_quota_snapshot_sha256 q = calls.sha256 "systeme-local:attachment-quota-snapshot:v1" (
      texts (
        "1"
        ∷ q.snapshot_id
        ∷ q.account_id
        ∷ dimension_value q.dimension
        ∷ quota_value q.state
        ∷ evidence_value q.evidence
        ∷ q.unit
        ∷ calls.isoformat q.observed_at
        ∷ iso_or_empty q.reset_at
        ∷ [])
      ++ ints (
          as_int (is_some q.reset_at)
          ∷ as_int (is_some q.remaining_value)
          ∷ or_zero q.remaining_value
          ∷ as_int (is_some q.limit_value)
          ∷ or_zero q.limit_value
          ∷ []))

  abbrev batch_frames : List AttachmentBatch → List Frame
  batch_frames [] = []
  batch_frames (b ∷ rest) =
      frame_text b.batch_id
      ∷ frame_int b.batch_index
      ∷ frame_int b.total_bytes
      ∷ (texts b.attachment_ids ++ texts (map family_value b.media_families) ++ batch_frames rest)

  -- the fields of the plan except its counts and its digest
  unfoldable pub attachment_plan_sha256 : AttachmentBatchPlan → String
  attachment_plan_sha256 p = calls.sha256 "systeme-local:attachment-batch-plan:v1" (
      texts (
        p.plan_id
        ∷ p.account_id
        ∷ p.manifest_id
        ∷ p.manifest_sha256
        ∷ p.provider
        ∷ p.surface
        ∷ p.capability_profile_id
        ∷ p.capability_profile_sha256
        ∷ or_empty p.upload_quota_snapshot_id
        ∷ iso_or_empty p.upload_quota_observed_at
        ∷ or_empty p.upload_quota_sha256
        ∷ calls.isoformat p.planned_at
        ∷ [])
      ++ ints (p.capability_profile_revision ∷ length p.ordered_attachment_ids ∷ [])
      ++ texts p.ordered_attachment_ids
      ++ frame_int (length p.batches) ∷ batch_frames p.batches)
