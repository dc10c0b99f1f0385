-- ===== src/Inspect/Commit.antt =====
-- The commitment of attachments and manifests, and their verification: the other functions of
-- src/systeme_local_gateway/providers/attachment_commit.py.
pub mod RoundTrip
pub mod Manifest
use systeme_local.Prelude.{
  ℕ, zero, suc, ◌+◌, ◌-◌, ◌*◌, ◌≤◌, ◌<◌, String, ◌≡◌, refl, sym, ap, ◌∙◌, ◌≢◌, ◌↔◌, ◌⊎◌, inl, inr,
  Bool, true, false, not, ◌&&◌, ◌||◌, Option, none, some, List, [], ◌∷◌, ◌++◌, map, arith, str_eq,
  eq_iff, eq_refl, ltb, leb, ◌==◌, if◌then◌else◌, leb→le, Bool-cases, Option-cases, is_some, Result,
  ok, err, ◌>>=◌, ◌>>◌, raise_if, Method, commit_or_rollback, Post, Post-ok, Post-err, Post-bind,
  Post-then, Post-if, raise_if-ok, Post-commit, committed, length, any, find, keep, length-append,
  length-keep, All, All-append, any-append, All-keep, any-keep, keep-keep, find-all_false,
  find-true, All-find, Distinct, str_eq_comm, Distinct-keep, Distinct-append, has_key, dict_get,
  dict_set, dict_pop, has_key-dict_set, has_key-dict_pop, All-dict_set, All-dict_pop, bind-ok,
  bind-step, then-ok, then-split, find-append, find-append_none, find_last, find-any, any-find-none,
  any-find, keep-append, any-keep_and, any-or_left, any-or_right,
}
use systeme_local.Attachments.{
  AttachmentMediaType, png, jpeg, pdf, text, json, AttachmentMediaFamily, image, document,
  media_family, AttachmentRole, screenshot, input_document, reference, data_, other,
  AttachmentSource, operator_selected, agent_generated, tool_output, simulated_source,
  AttachmentQuotaRequirement, no_quota, fresh_upload_quota, CapabilitySupport, supported,
  unsupported, unknown, CapabilityEvidence, documented, observed, simulated, no_evidence,
  CapabilityClaim, AttachmentInspection, CommittedAttachment, AttachmentManifest,
  AttachmentCapabilityProfile, AttachmentBatch, AttachmentBatchPlan, QuotaDimension, chat_messages,
  work_agentic, file_upload_rate, file_storage, project_file_slots, QuotaState, available,
  near_limit, exhausted, reset_pending, unavailable, unknown_quota, ProviderQuotaSnapshot, type_eq,
  family_eq, is_image, is_supported, wants_quota, sum_bytes, attachment_ids_of,
}
use systeme_local.Turns.{AgentPrincipalRef, CommittedTurn}
use systeme_local.Attachments.Digests.{
  DigestCalls, attachment_metadata_sha256, attachment_manifest_sha256,
}
use systeme_local.Attachments.Valid.{valid_attachment, valid_manifest}
use systeme_local.Attachments.Valid.Names.{NameCalls, valid_display_name}
use systeme_local.Inspect.Bytes.{InspectError}
use systeme_local.Inspect.Content.{ContentCalls, inspect_attachment_bytes}

pub data AttachmentVerificationReason : Type 0 where
  content_digest_changed byte_size_changed media_type_changed : AttachmentVerificationReason
  image_dimensions_changed turn_binding_changed manifest_binding_changed :
      AttachmentVerificationReason
  attachment_integrity_changed manifest_integrity_changed : AttachmentVerificationReason
  verification_before_commit : AttachmentVerificationReason

-- `AttachmentVerificationError`, a failed inspection, a `ValueError`, and pydantic's
-- `ValidationError` of a model that is built
pub data CommitError : Type 0 where
  verification_error : AttachmentVerificationReason → CommitError
  inspection_failed : InspectError → CommitError
  value_error validation_error : CommitError

abbrev pub inspection_passed : {A : Type 0} → Result InspectError A → Result CommitError A
inspection_passed (ok a) = ok a
inspection_passed (err e) = err (inspection_failed e)

-- `!=` of optional numbers, and of principals
abbrev pub number_eq : Option ℕ → Option ℕ → Bool
number_eq none none = true
number_eq (some m) (some n) = m == n
number_eq _ _ = false

abbrev pub principal_eq : AgentPrincipalRef → AgentPrincipalRef → Bool
principal_eq p q =
    str_eq p.agent_id q.agent_id
    && str_eq p.instance_id q.instance_id
    && str_eq p.key_id q.key_id
    && str_eq p.verification_id q.verification_id

-- what may not have changed
pub compare_inspections :
    AttachmentInspection → AttachmentInspection → Result CommitError (Unit {0})
compare_inspections i old = do
  raise_if (not (type_eq i.media_type old.media_type)) (verification_error media_type_changed)
  raise_if (not (i.byte_size == old.byte_size)) (verification_error byte_size_changed)
  raise_if (not (str_eq i.content_sha256 old.content_sha256))
      (verification_error content_digest_changed)
  raise_if
      (not (number_eq i.image_width old.image_width && number_eq i.image_height old.image_height))
      (verification_error image_dimensions_changed)

-- the parameters of a commitment
pub record CommitRequest : Type 0 where
  pub turn : CommittedTurn
  pub attachment_id : String
  pub ordinal : ℕ
  pub display_name : String
  pub role : AttachmentRole
  pub source : AttachmentSource
  pub media_type : AttachmentMediaType
  pub content : List ℕ
  pub inspected_at : ℕ
  pub committed_at : ℕ

module _ (calls : ContentCalls) (digests : DigestCalls) (names : NameCalls) where
  -- the attachment with its digest
  unfoldable pub signed_attachment : CommitRequest → AttachmentInspection → CommittedAttachment
  signed_attachment r i =
      let a : CommittedAttachment = record {
        attachment_id = r.attachment_id;
        conversation_id = r.turn.conversation_id;
        turn_id = r.turn.turn_id;
        trace_id = r.turn.trace_id;
        ordinal = r.ordinal;
        display_name = r.display_name;
        role = r.role;
        source = r.source;
        inspection = i;
        committed_at = r.committed_at;
        metadata_sha256 = "";
      } in
      record a { metadata_sha256 = attachment_metadata_sha256 digests a }

  unfoldable pub commit_attachment : CommitRequest → Result CommitError CommittedAttachment
  commit_attachment r = do
    raise_if (not (valid_display_name names r.display_name)) value_error
    raise_if (ltb r.inspected_at r.turn.committed_at) value_error
    raise_if (ltb r.committed_at r.inspected_at) value_error
    i ← inspection_passed (inspect_attachment_bytes calls r.content r.media_type r.inspected_at)
    raise_if (not (valid_attachment digests names (signed_attachment r i))) validation_error
    ok (signed_attachment r i)

  pub verify_attachment_bytes :
      CommittedAttachment → List ℕ → ℕ → Result CommitError AttachmentInspection
  verify_attachment_bytes a content verified_at = do
    raise_if (not (valid_attachment digests names a))
        (verification_error attachment_integrity_changed)
    raise_if (ltb verified_at a.committed_at) (verification_error verification_before_commit)
    i ←
        inspection_passed
          (inspect_attachment_bytes calls content a.inspection.media_type verified_at)
    compare_inspections i a.inspection
    ok i

  unfoldable pub check_attachment :
      CommittedTurn → ℕ → CommittedAttachment → Result CommitError (Unit {0})
  check_attachment turn committed_at a = do
    raise_if (not (valid_attachment digests names a))
        (verification_error attachment_integrity_changed)
    raise_if (ltb a.inspection.inspected_at turn.committed_at)
        (verification_error turn_binding_changed)
    raise_if
        (not (
          str_eq a.conversation_id turn.conversation_id
          && str_eq a.turn_id turn.turn_id
          && str_eq a.trace_id turn.trace_id))
        (verification_error turn_binding_changed)
    raise_if (ltb committed_at a.committed_at) value_error

  unfoldable pub check_attachments :
      CommittedTurn → ℕ → List CommittedAttachment → Result CommitError (Unit {0})
  check_attachments turn committed_at [] = ok tt
  check_attachments turn committed_at (a ∷ rest) = do
    check_attachment turn committed_at a
    check_attachments turn committed_at rest

  unfoldable pub signed_manifest :
      CommittedTurn → String → List CommittedAttachment → ℕ → AttachmentManifest
  signed_manifest turn manifest_id attachments committed_at =
      let m : AttachmentManifest = record {
        manifest_id = manifest_id;
        conversation_id = turn.conversation_id;
        turn_id = turn.turn_id;
        trace_id = turn.trace_id;
        principal = turn.principal;
        turn_content_sha256 = turn.content_sha256;
        attachment_count = length attachments;
        total_bytes = sum_bytes attachments;
        attachments = attachments;
        committed_at = committed_at;
        manifest_sha256 = "";
      } in
      record m { manifest_sha256 = attachment_manifest_sha256 digests m }

  unfoldable pub commit_attachment_manifest :
      CommittedTurn → String → List CommittedAttachment → ℕ → Result CommitError AttachmentManifest
  commit_attachment_manifest turn manifest_id attachments committed_at = do
    raise_if (length attachments == 0) value_error
    raise_if (ltb committed_at turn.committed_at) value_error
    check_attachments turn committed_at attachments
    raise_if
        (not (
          valid_manifest digests names (signed_manifest turn manifest_id attachments committed_at)))
        validation_error
    ok (signed_manifest turn manifest_id attachments committed_at)

  pub verify_attachment_manifest :
      AttachmentManifest → CommittedTurn → Result CommitError (Unit {0})
  verify_attachment_manifest m turn = do
    raise_if (not (valid_manifest digests names m)) (verification_error manifest_integrity_changed)
    raise_if (ltb m.committed_at turn.committed_at) (verification_error manifest_binding_changed)
    raise_if
        (any (λ (a : CommittedAttachment). ltb a.inspection.inspected_at turn.committed_at)
          m.attachments)
        (verification_error manifest_binding_changed)
    raise_if
        (not (
          str_eq m.conversation_id turn.conversation_id
          && str_eq m.turn_id turn.turn_id
          && str_eq m.trace_id turn.trace_id
          && principal_eq m.principal turn.principal
          && str_eq m.turn_content_sha256 turn.content_sha256))
        (verification_error manifest_binding_changed)
