-- ===== src/Attachments/Policy/Fits.antt =====
-- What an attachment that a profile accepts satisfies.
use systeme_local.Prelude.{ℕ, ◌≤◌, String, ◌≡◌, refl, true, false, none, arith, ok, err}
use mathlib.Core.Path.{subst}
use systeme_local.Attachments.{
  AttachmentMediaFamily, media_family, CapabilitySupport, supported, unsupported, unknown,
  CommittedAttachment, AttachmentCapabilityProfile, is_supported, wants_quota,
}
use systeme_local.Attachments.Policy.{
  quota_missing, planning_error, validate_profile_support, validate_attachment_against_profile,
  validate_quota,
}
use systeme_local.Attachments.Policy.{is_unknown_support, is_unsupported}

abbrev pub Fits : AttachmentCapabilityProfile → CommittedAttachment → Type 0
Fits p a = validate_attachment_against_profile p a ≡ ok (media_family a.inspection.media_type)

pub validate_attachment-Fits :
    (p : AttachmentCapabilityProfile) (a : CommittedAttachment) (f : AttachmentMediaFamily)
    → validate_attachment_against_profile p a ≡ ok f
    → (f ≡ media_family a.inspection.media_type) × Fits p a
unfolding validate_attachment_against_profile
validate_attachment-Fits p a f h =
    let same : f ≡ media_family a.inspection.media_type = ground arith in
    (same, subst (λ g. validate_attachment_against_profile p a ≡ ok g) same h)

pub Fits-bytes :
    (p : AttachmentCapabilityProfile) (a : CommittedAttachment)
    → Fits p a
    → a.inspection.byte_size ≤ p.max_batch_bytes
unfolding validate_attachment_against_profile
Fits-bytes p a h = ground arith

supported_only :
    (s : CapabilitySupport)
    → is_unknown_support s ≡ false
    → is_unsupported s ≡ false
    → is_supported s ≡ true
supported_only supported a b = refl
supported_only unsupported a b = cc
supported_only unknown a b = cc

pub validate_profile_support-supported :
    (p : AttachmentCapabilityProfile) (t : ℕ)
    → validate_profile_support p t ≡ ok tt
    → is_supported p.support.state ≡ true
unfolding validate_profile_support
validate_profile_support-supported p t h =
    supported_only p.support.state (ground arith) (ground arith)

pub validate_quota-none :
    (account_id : String) (p : AttachmentCapabilityProfile) (t age : ℕ)
    → wants_quota p.quota_requirement ≡ true
    → validate_quota account_id p t none age ≡ err (planning_error quota_missing none)
unfolding validate_quota
validate_quota-none account_id p t age wants = rw wants refl
