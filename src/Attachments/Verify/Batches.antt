-- ===== src/Attachments/Verify/Batches.antt =====
-- Batches that hold the attachments of a manifest are verified.
use systeme_local.Prelude.{
  ℕ, ◌+◌, String, ◌≡◌, refl, sym, ap, ◌∙◌, true, false, not, ◌&&◌, List, [], ◌∷◌, ◌++◌, arith,
  str_eq, eq_refl, ltb, ◌==◌, ok, length, All,
}
use mathlib.Core.Path.{subst}
use mathlib.Core.List.{append_assoc}
use systeme_local.Attachments.{
  AttachmentMediaFamily, CommittedAttachment, AttachmentCapabilityProfile, AttachmentBatch,
  sum_bytes, attachment_ids_of,
}
use systeme_local.Attachments.Digests.{DigestCalls}
use systeme_local.Attachments.Valid.Equal.{families_eq, unique, families_eq_refl}
use systeme_local.Attachments.Policy.Fits.{Fits}
use systeme_local.Attachments.Plan.{add_family, batch_id_of}
use systeme_local.Attachments.Plan.Groups.{
  family_of, families_from, IsBatchOf, Grouped, nothing, batch,
}
use systeme_local.Attachments.Verify.{known_attachment, add_expected, verify_batch, verify_batches}
use systeme_local.Attachments.Verify.ById.{pairs, dict_get-pairs}

-- the loop over a batch finds each attachment of its group
add_expected-group :
    (p : AttachmentCapabilityProfile) (before group rest : List CommittedAttachment) (bytes : ℕ)
    (families : List AttachmentMediaFamily)
    → unique (attachment_ids_of (before ++ (group ++ rest))) ≡ true
    → All (Fits p) group
    → add_expected p (pairs (before ++ (group ++ rest))) (attachment_ids_of group) bytes families
      ≡ ok (bytes + sum_bytes group, families_from families group)
unfolding add_expected known_attachment
add_expected-group p before [] rest bytes families u fits =
    let q : bytes + 0 ≡ bytes = omega arith in rw q refl
add_expected-group p before (a ∷ group) rest bytes families u fits =
    let found = dict_get-pairs before a (group ++ rest) u in
    let moved = append_assoc before (a ∷ []) (group ++ rest) in
    let later =
      add_expected-group p (before ++ a ∷ []) group rest (bytes + a.inspection.byte_size)
        (add_family (family_of a) families)
        (subst (λ l. unique (attachment_ids_of l) ≡ true) (sym moved) u) fits.1 in
    let sums : bytes + a.inspection.byte_size + sum_bytes group
        ≡ bytes + (a.inspection.byte_size + sum_bytes group) =
      omega arith in
    let accepted = fits.0 in
    rw (found, accepted)
      (subst
          (λ l.
            add_expected p (pairs l) (attachment_ids_of group) (bytes + a.inspection.byte_size)
              (add_family (family_of a) families)
            ≡ ok (
              bytes + a.inspection.byte_size + sum_bytes group,
              families_from (add_family (family_of a) families) group,
            ))
          moved later
        ∙ ap (λ n. ok (n, families_from (add_family (family_of a) families) group)) sums)

module _ (digests : DigestCalls) (plan_id sha : String) (p : AttachmentCapabilityProfile) where
  number_refl : (n : ℕ) → (n == n) ≡ true
  number_refl n = ground arith

  verify_batch-group :
      (n : ℕ) (before group rest : List CommittedAttachment) (b : AttachmentBatch)
      → unique (attachment_ids_of (before ++ (group ++ rest))) ≡ true
      → IsBatchOf digests plan_id sha p n group b
      → verify_batch digests plan_id sha p (pairs (before ++ (group ++ rest))) b ≡ ok tt
  unfolding verify_batch
  verify_batch-group n before group rest b u h =
      let expected = add_expected-group p before group rest 0 [] u h.fitting in
      let start : 0 + sum_bytes group ≡ sum_bytes group = omega arith in
      let few : ltb p.max_files_per_batch (length b.attachment_ids) ≡ false =
        ground (arith, h.few) in
      let small : ltb p.max_batch_bytes b.total_bytes ≡ false = ground (arith, h.small) in
      let alike : (not p.allows_mixed_media && ltb 1 (length b.media_families)) ≡ false =
        ground (arith, h.alike) in
      let sizes : (b.total_bytes == (0 + sum_bytes group)) ≡ true = ground (arith, h.bytes) in
      let kinds : families_eq b.media_families (families_from [] group) ≡ true =
        rw h.families (families_eq_refl (families_from [] group)) in
      let named : str_eq b.batch_id (batch_id_of digests plan_id sha b.batch_index b.attachment_ids)
          ≡ true =
        rw (h.named, h.index) (eq_refl (batch_id_of digests plan_id sha n b.attachment_ids)) in
      let found : add_expected p (pairs (before ++ (group ++ rest))) b.attachment_ids 0 []
          ≡ ok (0 + sum_bytes group, families_from [] group) =
        rw h.ids expected in
      rw (found, named, sizes, kinds, few, small, alike) refl

  pub verify_batches-Grouped :
      {n : ℕ} {atts : List CommittedAttachment} {bs : List AttachmentBatch}
      (before : List CommittedAttachment)
      → unique (attachment_ids_of (before ++ atts)) ≡ true
      → Grouped digests plan_id sha p n atts bs
      → verify_batches digests plan_id sha p (pairs (before ++ atts)) bs ≡ ok tt
  unfolding verify_batches
  verify_batches-Grouped before u nothing = refl
  verify_batches-Grouped {n} {atts} before u
        (batch {group = group} {rest = rest} {b = b} {bs = bs} split one more) =
      let u' : unique (attachment_ids_of (before ++ (group ++ rest))) ≡ true = rw (sym split) u in
      let moved = append_assoc before group rest in
      let first = verify_batch-group n before group rest b u' one in
      let later =
        verify_batches-Grouped (before ++ group)
          (subst (λ l. unique (attachment_ids_of l) ≡ true) (sym moved) u') more in
      subst (λ l. verify_batches digests plan_id sha p (pairs (before ++ l)) (b ∷ bs) ≡ ok tt)
        (sym split)
        (rw first
          (subst (λ l. verify_batches digests plan_id sha p (pairs l) bs ≡ ok tt) moved later))
