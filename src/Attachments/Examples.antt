-- ===== src/Attachments/Examples.antt =====
-- Three attachments in two batches, and the theorems at them.
use systeme_local.Prelude.{
  ℕ, ◌≤◌, String, ◌≡◌, refl, Bool, false, Option, none, some, List, [], ◌∷◌, ok, length, All,
}
use systeme_local.Turns.{AgentPrincipalRef}
use systeme_local.Attachments.{
  AttachmentMediaType, png, pdf, text, AttachmentMediaFamily, image, document, reference,
  agent_generated, fresh_upload_quota, supported, documented, observed, CommittedAttachment,
  AttachmentManifest, AttachmentCapabilityProfile, AttachmentBatch, AttachmentBatchPlan,
  file_upload_rate, available, ProviderQuotaSnapshot, attachment_ids_of,
}
use systeme_local.Attachments.Digests.{
  DigestCalls, attachment_quota_snapshot_sha256, attachment_plan_sha256,
}
use systeme_local.Attachments.Valid.{
  valid_batch, valid_manifest, valid_profile, valid_plan, valid_snapshot, flattened, sum_batches,
}
use systeme_local.Attachments.Valid.Names.{NameCalls}
use systeme_local.Attachments.Policy.{
  validate_profile_support, validate_attachment_against_profile, validate_quota,
}
use systeme_local.Attachments.Digests.{
  attachment_metadata_sha256, attachment_manifest_sha256, attachment_capability_profile_sha256,
}
use systeme_local.Attachments.Valid.{valid_inspection, valid_attachment}
use systeme_local.Attachments.Valid.Names.{valid_display_name, before_dot, strip_right}
use systeme_local.Attachments.Policy.{validate_snapshot}
use systeme_local.Attachments.Plan.{
  PlanRequest, add_attachments, add_attachment, flush, new_batch, must_flush, add_current,
  batch_id_of, check_request, signed_plan, unsigned_plan, plan_attachment_batches, effective_quota,
}
use systeme_local.Attachments.Plan.Limits.{BatchWithin, planned_within, planned_in_order}
use systeme_local.Attachments.Verify.{verify_attachment_batch_plan}
use systeme_local.Attachments.Verify.RoundTrip.{verify_request, planned_verified}

abbrev digests : DigestCalls
digests = record {
  sha256 = λ domain frames. domain;
  isoformat = λ t. "time";
  decimal = λ n. "index";
  stable = λ prefix parts. prefix;
}

abbrev names : NameCalls
names = record {
  nfc = λ s. s;
  characters = λ s. s ∷ [];
  is_control = λ s. false;
  utf8_size = λ s. 5;
  casefold = λ l. "name";
}

abbrev principal : AgentPrincipalRef
principal = record { agent_id = "a"; instance_id = "i"; key_id = "k"; verification_id = "v" }

abbrev attachment : String → ℕ → AttachmentMediaType → ℕ → Option ℕ → CommittedAttachment
attachment id n type size side = record {
  attachment_id = id;
  conversation_id = "c";
  turn_id = "t";
  trace_id = "x";
  ordinal = n;
  display_name = id;
  role = reference;
  source = agent_generated;
  inspection = record {
    media_type = type;
    content_sha256 = id;
    byte_size = size;
    image_width = side;
    image_height = side;
    inspected_at = 3;
  };
  committed_at = 4;
  metadata_sha256 = "systeme-local:committed-attachment:v1";
}

abbrev files : List CommittedAttachment
files =
    attachment "a1" 0 text 10 none
    ∷ attachment "a2" 1 pdf 20 none
    ∷ attachment "a3" 2 png 30 (some 8)
    ∷ []

abbrev manifest : AttachmentManifest
manifest = record {
  manifest_id = "m";
  conversation_id = "c";
  turn_id = "t";
  trace_id = "x";
  principal = principal;
  turn_content_sha256 = "digest";
  attachment_count = 3;
  total_bytes = 60;
  attachments = files;
  committed_at = 5;
  manifest_sha256 = "systeme-local:attachment-manifest:v1";
}

abbrev profile : Bool → AttachmentCapabilityProfile
profile mixed = record {
  profile_id = "p";
  revision = 1;
  provider = "prov";
  surface = "api";
  support = record { state = supported; evidence = documented };
  supported_media_types = text ∷ pdf ∷ png ∷ [];
  max_file_bytes = 40;
  max_batch_bytes = 70;
  max_manifest_bytes = 100;
  max_files_per_batch = 3;
  max_files_per_manifest = 4;
  max_batches_per_manifest = 2;
  max_image_width = 10;
  max_image_height = 10;
  max_image_pixels = 100;
  allows_mixed_media = mixed;
  quota_requirement = fresh_upload_quota;
  observed_at = 2;
  profile_sha256 = "systeme-local:attachment-capability-profile:v1";
}

abbrev quota : ProviderQuotaSnapshot
quota = record {
  snapshot_id = "q";
  account_id = "acc";
  dimension = file_upload_rate;
  state = available;
  evidence = observed;
  observed_at = 4;
  reset_at = none;
  remaining_value = none;
  limit_value = none;
  unit = "unknown";
}

abbrev request : PlanRequest
request = record {
  plan_id = "plan";
  account_id = "acc";
  manifest = manifest;
  profile = profile false;
  planned_at = 6;
  upload_quota = some quota;
  quota_max_age = 5;
}

abbrev batch_of : ℕ → List String → ℕ → AttachmentMediaFamily → AttachmentBatch
batch_of n ids bytes family = record {
  batch_id = "attbatch_";
  batch_index = n;
  attachment_ids = ids;
  total_bytes = bytes;
  media_families = family ∷ [];
}

-- the image goes to a batch of its own, since media may not be mixed
abbrev plan : AttachmentBatchPlan
plan = record {
  plan_id = "plan";
  account_id = "acc";
  manifest_id = "m";
  manifest_sha256 = "systeme-local:attachment-manifest:v1";
  provider = "prov";
  surface = "api";
  capability_profile_id = "p";
  capability_profile_revision = 1;
  capability_profile_sha256 = "systeme-local:attachment-capability-profile:v1";
  upload_quota_snapshot_id = some "q";
  upload_quota_observed_at = some 4;
  upload_quota_sha256 = some "systeme-local:attachment-quota-snapshot:v1";
  ordered_attachment_ids = "a1" ∷ "a2" ∷ "a3" ∷ [];
  attachment_count = 3;
  total_bytes = 60;
  batches = batch_of 0 ("a1" ∷ "a2" ∷ []) 30 document ∷ batch_of 1 ("a3" ∷ []) 30 image ∷ [];
  planned_at = 6;
  plan_sha256 = "systeme-local:attachment-batch-plan:v1";
}

request_planned : plan_attachment_batches digests names request ≡ ok plan
unfolding plan_attachment_batches check_request valid_manifest valid_attachment valid_inspection
    valid_display_name before_dot strip_right valid_profile valid_plan valid_batch valid_snapshot
    validate_profile_support validate_quota validate_snapshot validate_attachment_against_profile
    effective_quota signed_plan unsigned_plan add_attachments add_attachment flush new_batch
    must_flush add_current batch_id_of attachment_metadata_sha256 attachment_manifest_sha256
    attachment_capability_profile_sha256 attachment_quota_snapshot_sha256 attachment_plan_sha256
request_planned = refl

planned_within_example : (length plan.batches ≤ 2) × All (BatchWithin (profile false)) plan.batches
planned_within_example = planned_within digests names request plan request_planned

planned_in_order_example :
    (flattened plan.batches ≡ attachment_ids_of files) × (sum_batches plan.batches ≡ 60)
planned_in_order_example = planned_in_order digests names request plan request_planned

planned_verified_example :
    verify_attachment_batch_plan digests names plan (verify_request request) ≡ ok tt
planned_verified_example = planned_verified digests names request plan request_planned
