-- ===== src/Attachments/Valid/Facts.antt =====
-- What a valid profile and a valid manifest satisfy.
use systeme_local.Prelude.{◌≤◌, ◌≡◌, true, arith, length}
use systeme_local.Attachments.{
  AttachmentManifest, AttachmentCapabilityProfile, is_supported, sum_bytes, attachment_ids_of,
}
use systeme_local.Attachments.Digests.{DigestCalls}
use systeme_local.Attachments.Valid.{valid_manifest, valid_profile}
use systeme_local.Attachments.Valid.Names.{NameCalls}
use systeme_local.Attachments.Valid.Equal.{unique}

pub valid_profile-positive :
    (digests : DigestCalls) (p : AttachmentCapabilityProfile)
    → valid_profile digests p ≡ true
    → is_supported p.support.state ≡ true
    → 1 ≤ p.max_files_per_batch
unfolding valid_profile
valid_profile-positive digests p h s = ground arith

pub valid_manifest-facts :
    (digests : DigestCalls) (names : NameCalls) (m : AttachmentManifest)
    → valid_manifest digests names m ≡ true
    → (unique (attachment_ids_of m.attachments) ≡ true)
      × (m.total_bytes ≡ sum_bytes m.attachments)
      × (m.attachment_count ≡ length m.attachments)
unfolding valid_manifest
valid_manifest-facts digests names m h = ground arith
