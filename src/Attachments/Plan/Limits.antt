-- ===== src/Attachments/Plan/Limits.antt =====
-- What a plan that is returned guarantees.
use systeme_local.Prelude.{
  ℕ, ◌≤◌, String, ◌≡◌, refl, sym, ap, ◌∙◌, true, false, not, none, List, ◌++◌, arith, ltb, ◌==◌, ok,
  ◌>>=◌, ◌>>◌, raise_if, raise_if-ok, length, All, bind-ok, then-ok, then-split,
}
use mathlib.Core.Path.{subst}
use systeme_local.Attachments.{
  CommittedAttachment, AttachmentCapabilityProfile, AttachmentBatch, AttachmentBatchPlan,
  is_supported, sum_bytes, attachment_ids_of,
}
use systeme_local.Attachments.Digests.{DigestCalls}
use systeme_local.Attachments.Valid.{
  valid_manifest, valid_profile, valid_plan, flattened, sum_batches,
}
use systeme_local.Attachments.Valid.Names.{NameCalls}
use systeme_local.Attachments.Policy.{
  too_many_batches, planning_error, validation_error, validate_profile_support, validate_quota,
}
use systeme_local.Attachments.Valid.Facts.{valid_profile-positive, valid_manifest-facts}
use systeme_local.Attachments.Plan.{
  BatchState, no_batches, PlanRequest, add_attachments, check_request, signed_plan,
  plan_attachment_batches, quota_integrity, effective_quota,
}
use systeme_local.Attachments.Plan.Groups.{
  attachment_ids_of-append, sum_bytes-append, Grouped, nothing, batch,
}
use systeme_local.Attachments.Policy.Fits.{validate_profile_support-supported}
use systeme_local.Attachments.Plan.Loop.{add_attachments-Grouped}

module _ (digests : DigestCalls) (names : NameCalls) (r : PlanRequest) where
  pub record IsChecked : Type 0 where
    pub aged : (r.quota_max_age == 0) ≡ false
    pub manifest : valid_manifest digests names r.manifest ≡ true
    pub profile : valid_profile digests r.profile ≡ true
    pub support : validate_profile_support r.profile r.planned_at ≡ ok tt
    pub committed_ : ltb r.planned_at r.manifest.committed_at ≡ false
    pub files : ltb r.profile.max_files_per_manifest r.manifest.attachment_count ≡ false
    pub bytes : ltb r.profile.max_manifest_bytes r.manifest.total_bytes ≡ false
    pub quota : quota_integrity digests (effective_quota digests r) ≡ ok tt
    pub fresh :
        validate_quota r.account_id r.profile r.planned_at
          (effective_quota digests r)
          r.quota_max_age
        ≡ ok tt

  check_request-IsChecked : check_request digests names r ≡ ok tt → IsChecked
  unfolding check_request
  check_request-IsChecked h = ground arith

  pub record IsMade (p : AttachmentBatchPlan) : Type 0 where
    pub state : BatchState
    pub checked : IsChecked
    pub planned :
        add_attachments digests r.plan_id r.manifest.manifest_sha256 r.profile
          r.manifest.attachments no_batches
        ≡ ok state
    pub few : ltb r.profile.max_batches_per_manifest (length state.batches) ≡ false
    pub valid : valid_plan digests (signed_plan digests names r state.batches) ≡ true
    pub made : signed_plan digests names r state.batches ≡ p

  pub plan-IsMade :
      (p : AttachmentBatchPlan) → plan_attachment_batches digests names r ≡ ok p → IsMade p
  unfolding plan_attachment_batches
  plan-IsMade p h =
      let few_of = λ (s : BatchState).
        raise_if (ltb r.profile.max_batches_per_manifest (length s.batches))
          (planning_error too_many_batches none) in
      let valid_of = λ (s : BatchState).
        raise_if (not (valid_plan digests (signed_plan digests names r s.batches)))
          validation_error in
      let tail = λ (s : BatchState).
        few_of s >> (valid_of s >> ok (signed_plan digests names r s.batches)) in
      let (checked, h') =
        then-split (check_request digests names r)
          (add_attachments digests r.plan_id r.manifest.manifest_sha256 r.profile
              r.manifest.attachments no_batches
            >>= tail)
          h in
      let (s, planned, h'') =
        bind-ok
          (add_attachments digests r.plan_id r.manifest.manifest_sha256 r.profile
            r.manifest.attachments no_batches)
          tail h' in
      let (few, h3) =
        then-split (few_of s) (valid_of s >> ok (signed_plan digests names r s.batches)) h'' in
      let (valid, h4) = then-split (valid_of s) (ok (signed_plan digests names r s.batches)) h3 in
      let is_valid =
        raise_if-ok (not (valid_plan digests (signed_plan digests names r s.batches)))
          validation_error valid in
      record {
        state = s;
        checked = check_request-IsChecked checked;
        planned = planned;
        few =
            raise_if-ok (ltb r.profile.max_batches_per_manifest (length s.batches))
              (planning_error too_many_batches none) few;
        valid = ground arith;
        made = then-ok (ok tt) h4;
      }

  pub made-Grouped :
      (p : AttachmentBatchPlan)
      → IsMade p
      → Grouped digests r.plan_id r.manifest.manifest_sha256 r.profile 0 r.manifest.attachments
          p.batches
  unfolding signed_plan
  made-Grouped p m =
      let supported_ : is_supported r.profile.support.state ≡ true =
        validate_profile_support-supported r.profile r.planned_at m.checked.support in
      subst
        (λ (x : AttachmentBatchPlan).
          Grouped digests r.plan_id r.manifest.manifest_sha256 r.profile 0 r.manifest.attachments
            x.batches)
        m.made
        (add_attachments-Grouped digests r.plan_id r.manifest.manifest_sha256 r.profile
          r.manifest.attachments m.state
          (valid_profile-positive digests r.profile m.checked.profile supported_) m.planned)

-- a batch within the limits of a profile
abbrev pub BatchWithin : AttachmentCapabilityProfile → AttachmentBatch → Type 0
BatchWithin p b =
    (length b.attachment_ids ≤ p.max_files_per_batch)
    × (b.total_bytes ≤ p.max_batch_bytes)
    × (p.allows_mixed_media ≡ false → length b.media_families ≤ 1)

module _ (digests : DigestCalls) (plan_id sha : String) (p : AttachmentCapabilityProfile) where
  Grouped-within :
      {n : ℕ} {atts : List CommittedAttachment} {bs : List AttachmentBatch}
      → Grouped digests plan_id sha p n atts bs
      → All (BatchWithin p) bs
  Grouped-within nothing = tt
  Grouped-within (batch split one more) = ((one.few, one.small, one.alike), Grouped-within more)

  pub Grouped-in_order :
      {n : ℕ} {atts : List CommittedAttachment} {bs : List AttachmentBatch}
      → Grouped digests plan_id sha p n atts bs
      → (flattened bs ≡ attachment_ids_of atts) × (sum_batches bs ≡ sum_bytes atts)
  Grouped-in_order nothing = (refl, refl)
  Grouped-in_order (batch {group = group} {rest = rest} {b = b} {bs = bs} split one more) =
      let (ids, bytes) = Grouped-in_order more in
      (
        ap (λ l. l ++ flattened bs) one.ids
            ∙ ap (λ l. attachment_ids_of group ++ l) ids
            ∙ sym (attachment_ids_of-append group rest)
            ∙ ap attachment_ids_of (sym split),
        omega (arith, one.bytes, bytes, sum_bytes-append group rest, ap sum_bytes split),
      )

module _ (digests : DigestCalls) (names : NameCalls) (r : PlanRequest)
    (p : AttachmentBatchPlan) where
  -- A plan that is returned keeps the limits of the profile: it has at most the permitted number of
  -- batches, and each batch has at most the permitted number of files, at most the permitted bytes,
  -- and a single media family where the profile does not allow mixed media.
  pub planned_within :
      plan_attachment_batches digests names r ≡ ok p
      → (length p.batches ≤ r.profile.max_batches_per_manifest)
        × All (BatchWithin r.profile) p.batches
  unfolding signed_plan
  planned_within h =
      let m = plan-IsMade digests names r p h in
      let few = m.few in
      let count : length m.state.batches ≡ length p.batches =
        ap (λ (x : AttachmentBatchPlan). length x.batches) m.made in
      (
        ground arith,
        Grouped-within digests r.plan_id r.manifest.manifest_sha256 r.profile
            (made-Grouped digests names r p m),
      )

  -- A plan that is returned holds every attachment of the manifest exactly once and in the order of
  -- the manifest, and the bytes of its batches add up to the bytes of the manifest.
  pub planned_in_order :
      plan_attachment_batches digests names r ≡ ok p
      → (flattened p.batches ≡ attachment_ids_of r.manifest.attachments)
        × (sum_batches p.batches ≡ r.manifest.total_bytes)
  planned_in_order h =
      let m = plan-IsMade digests names r p h in
      let (ids, bytes) =
        Grouped-in_order digests r.plan_id r.manifest.manifest_sha256 r.profile
          (made-Grouped digests names r p m) in
      let (_, total, _) = valid_manifest-facts digests names r.manifest m.checked.manifest in
      (ids, bytes ∙ sym total)
