-- ===== src/Attachments/Verify/RoundTrip.antt =====
-- A plan that was made is verified.
use systeme_local.Prelude.{
  ℕ, ◌≡◌, refl, sym, ap, ◌∙◌, inl, inr, true, false, ◌||◌, Option, none, some, List, [], arith,
  eq_refl, ltb, ◌==◌, Bool-cases, is_some, ok, length,
}
use mathlib.Core.Path.{subst}
use systeme_local.Attachments.{
  AttachmentBatch, AttachmentBatchPlan, ProviderQuotaSnapshot, wants_quota, attachment_ids_of,
}
use systeme_local.Attachments.Digests.{DigestCalls, attachment_quota_snapshot_sha256}
use systeme_local.Attachments.Valid.{valid_plan}
use systeme_local.Attachments.Valid.Names.{NameCalls}
use systeme_local.Attachments.Valid.Equal.{texts_eq, texts_eq_refl}
use systeme_local.Attachments.Policy.{validate_quota}
use systeme_local.Attachments.Valid.Facts.{valid_manifest-facts}
use systeme_local.Attachments.Policy.Fits.{validate_quota-none}
use systeme_local.Attachments.Plan.{
  PlanRequest, signed_plan, unsigned_plan, plan_attachment_batches, quota_integrity,
  effective_quota,
}
use systeme_local.Attachments.Plan.Limits.{IsChecked, IsMade, plan-IsMade, made-Grouped}
use systeme_local.Attachments.Verify.{
  VerifyRequest, by_id, keys, verify_batches, verify_required_quota, verify_quota, verify_models,
  verify_totals, verify_attachment_batch_plan,
}
use systeme_local.Attachments.Verify.ById.{keys-pairs, by_id-unique}
use systeme_local.Attachments.Verify.Batches.{verify_batches-Grouped}

-- the same account, manifest, profile and quota
abbrev pub verify_request : PlanRequest → VerifyRequest
verify_request r = record {
  account_id = r.account_id;
  manifest = r.manifest;
  profile = r.profile;
  upload_quota = r.upload_quota;
  quota_max_age = r.quota_max_age;
}

module _ (digests : DigestCalls) (names : NameCalls) (r : PlanRequest)
    (batches : List AttachmentBatch) where
  abbrev plan : AttachmentBatchPlan
  plan = signed_plan digests names r batches

  signed_models :
      IsChecked digests names r
      → valid_plan digests plan ≡ true
      → verify_models digests names plan (verify_request r) ≡ ok tt
  unfolding verify_models signed_plan unsigned_plan
  signed_models c valid = rw (c.aged, valid, c.manifest, c.profile) c.support

  number_refl : (n : ℕ) → (n == n) ≡ true
  number_refl n = ground arith

  signed_totals :
      IsChecked digests names r
      → ltb r.profile.max_batches_per_manifest (length batches) ≡ false
      → verify_totals digests plan (verify_request r) ≡ ok tt
  unfolding verify_totals signed_plan unsigned_plan
  signed_totals c few =
      rw
        (
          c.committed_,
          eq_refl r.account_id,
          eq_refl r.manifest.manifest_id,
          eq_refl r.manifest.manifest_sha256,
          eq_refl r.profile.provider,
          eq_refl r.profile.surface,
          eq_refl r.profile.profile_id,
          number_refl r.profile.revision,
          eq_refl r.profile.profile_sha256,
          number_refl r.manifest.attachment_count,
          number_refl r.manifest.total_bytes,
          c.files,
          c.bytes,
          few,
        )
        refl

  signed_quota_of :
      (o : Option ProviderQuotaSnapshot)
      → effective_quota digests r ≡ o
      → quota_integrity digests o ≡ ok tt
      → validate_quota r.account_id r.profile r.planned_at o r.quota_max_age ≡ ok tt
      → wants_quota r.profile.quota_requirement ≡ true
      → verify_required_quota digests plan (verify_request r) o ≡ ok tt
  unfolding verify_required_quota signed_plan unsigned_plan
  signed_quota_of none e valid fresh wants =
      let missing = validate_quota-none r.account_id r.profile r.planned_at r.quota_max_age wants in
      cc
  signed_quota_of (some q) e valid fresh wants =
      rw
        (
          valid,
          e,
          eq_refl q.snapshot_id,
          number_refl q.observed_at,
          eq_refl (attachment_quota_snapshot_sha256 digests q),
        )
        fresh

  effective_wanted :
      wants_quota r.profile.quota_requirement ≡ true → effective_quota digests r ≡ r.upload_quota
  unfolding effective_quota
  effective_wanted e = rw e refl

  effective_unwanted :
      wants_quota r.profile.quota_requirement ≡ false → effective_quota digests r ≡ none
  unfolding effective_quota
  effective_unwanted e = rw e refl

  no_evidence_signed :
      effective_quota digests r ≡ none
      → (is_some plan.upload_quota_snapshot_id
          || is_some plan.upload_quota_observed_at
          || is_some plan.upload_quota_sha256)
        ≡ false
  unfolding signed_plan unsigned_plan
  no_evidence_signed e = rw e refl

  signed_quota : IsChecked digests names r → verify_quota digests plan (verify_request r) ≡ ok tt
  unfolding verify_quota
  signed_quota c = elim (Bool-cases (wants_quota r.profile.quota_requirement)) [
    | inl e ↦
        let own = effective_wanted e in
        rw e (
          signed_quota_of r.upload_quota own
            (subst (λ o. quota_integrity digests o ≡ ok tt) own c.quota)
            (subst
              (λ o. validate_quota r.account_id r.profile r.planned_at o r.quota_max_age ≡ ok tt)
              own c.fresh)
            e)
    | inr e ↦ rw (e, no_evidence_signed (effective_unwanted e)) refl
  ]

module _ (digests : DigestCalls) (names : NameCalls) (r : PlanRequest) where
  signed_order :
      IsChecked digests names r
      → (batches : List AttachmentBatch)
      → texts_eq
          (keys (by_id r.manifest.attachments []))
          (signed_plan digests names r batches).ordered_attachment_ids
        ≡ true
  unfolding signed_plan unsigned_plan
  signed_order c batches =
      let (once, _, _) = valid_manifest-facts digests names r.manifest c.manifest in
      rw (by_id-unique r.manifest.attachments once, keys-pairs r.manifest.attachments)
        (texts_eq_refl (attachment_ids_of r.manifest.attachments))

  signed_batches :
      (p : AttachmentBatchPlan)
      → IsMade digests names r p
      → verify_batches digests r.plan_id r.manifest.manifest_sha256 r.profile
          (by_id r.manifest.attachments [])
          p.batches
        ≡ ok tt
  signed_batches p m =
      let (once, _, _) = valid_manifest-facts digests names r.manifest m.checked.manifest in
      rw (by_id-unique r.manifest.attachments once) (
        verify_batches-Grouped digests r.plan_id r.manifest.manifest_sha256 r.profile [] once
          (made-Grouped digests names r p m))

  signed_plan_id :
      (batches : List AttachmentBatch) → (signed_plan digests names r batches).plan_id ≡ r.plan_id
  unfolding signed_plan unsigned_plan
  signed_plan_id batches = refl

  made-verified :
      (p : AttachmentBatchPlan)
      → IsMade digests names r p
      → verify_attachment_batch_plan digests names p (verify_request r) ≡ ok tt
  unfolding verify_attachment_batch_plan
  made-verified p m =
      let bs = m.state.batches in
      let named : p.plan_id ≡ r.plan_id =
        ap (λ (x : AttachmentBatchPlan). x.plan_id) (sym m.made) ∙ signed_plan_id bs in
      let models : verify_models digests names p (verify_request r) ≡ ok tt =
        subst (λ x. verify_models digests names x (verify_request r) ≡ ok tt) m.made
          (signed_models digests names r bs m.checked m.valid) in
      let totals : verify_totals digests p (verify_request r) ≡ ok tt =
        subst (λ x. verify_totals digests x (verify_request r) ≡ ok tt) m.made
          (signed_totals digests names r bs m.checked m.few) in
      let quota : verify_quota digests p (verify_request r) ≡ ok tt =
        subst (λ x. verify_quota digests x (verify_request r) ≡ ok tt) m.made
          (signed_quota digests names r bs m.checked) in
      let order : texts_eq (keys (by_id r.manifest.attachments [])) p.ordered_attachment_ids
          ≡ true =
        subst
          (λ (x : AttachmentBatchPlan).
            texts_eq (keys (by_id r.manifest.attachments [])) x.ordered_attachment_ids ≡ true)
          m.made (signed_order m.checked bs) in
      rw (models, totals, quota, order, named) (signed_batches p m)

  -- A plan that is returned for a request is verified against the same account, manifest, profile,
  -- quota and maximal age, without an error.
  pub planned_verified :
      (p : AttachmentBatchPlan)
      → plan_attachment_batches digests names r ≡ ok p
      → verify_attachment_batch_plan digests names p (verify_request r) ≡ ok tt
  planned_verified p h = made-verified p (plan-IsMade digests names r p h)
