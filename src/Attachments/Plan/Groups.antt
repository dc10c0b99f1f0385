-- ===== src/Attachments/Plan/Groups.antt =====
-- The batches that are planned, beside the attachments that each one holds.
use systeme_local.Prelude.{
  ℕ, ◌+◌, ◌≤◌, String, ◌≡◌, refl, sym, ap, ◌∙◌, false, List, [], ◌∷◌, ◌++◌, arith, length, All,
}
use mathlib.Core.Path.{subst}
use mathlib.Core.List.{append-nil, append_assoc}
use systeme_local.Attachments.{
  AttachmentMediaFamily, media_family, CommittedAttachment, AttachmentCapabilityProfile,
  AttachmentBatch, sum_bytes, attachment_ids_of,
}
use systeme_local.Attachments.Digests.{DigestCalls}
use systeme_local.Attachments.Policy.Fits.{Fits}
use systeme_local.Attachments.Plan.{add_family, batch_id_of}

abbrev pub family_of : CommittedAttachment → AttachmentMediaFamily
family_of a = media_family a.inspection.media_type

-- the families of attachments in the order in which they first occur, after those there are
abbrev pub families_from :
    List AttachmentMediaFamily → List CommittedAttachment → List AttachmentMediaFamily
families_from families [] = families
families_from families (a ∷ rest) = families_from (add_family (family_of a) families) rest

pub families_from-last :
    (fs : List AttachmentMediaFamily) (xs : List CommittedAttachment) (a : CommittedAttachment)
    → families_from fs (xs ++ a ∷ []) ≡ add_family (family_of a) (families_from fs xs)
families_from-last fs [] a = refl
families_from-last fs (x ∷ xs) a = families_from-last (add_family (family_of x) fs) xs a

pub attachment_ids_of-append :
    (xs ys : List CommittedAttachment)
    → attachment_ids_of (xs ++ ys) ≡ attachment_ids_of xs ++ attachment_ids_of ys
attachment_ids_of-append [] ys = refl
attachment_ids_of-append (x ∷ xs) ys =
    ap (λ l. x.attachment_id ∷ l) (attachment_ids_of-append xs ys)

pub sum_bytes-append :
    (xs ys : List CommittedAttachment) → sum_bytes (xs ++ ys) ≡ sum_bytes xs + sum_bytes ys
sum_bytes-append [] ys = omega arith
sum_bytes-append (x ∷ xs) ys = omega (arith, sum_bytes-append xs ys)

-- at most one family, where they may not be mixed
abbrev pub Alike : AttachmentCapabilityProfile → List AttachmentMediaFamily → Type 0
Alike p families = p.allows_mixed_media ≡ false → length families ≤ 1

module _ (digests : DigestCalls) (plan_id sha : String) (p : AttachmentCapabilityProfile) where
  -- the batch of number `n` holds `group`
  pub record IsBatchOf (n : ℕ) (group : List CommittedAttachment) (b : AttachmentBatch)
      : Type 0 where
    pub index : b.batch_index ≡ n
    pub named : b.batch_id ≡ batch_id_of digests plan_id sha n b.attachment_ids
    pub ids : b.attachment_ids ≡ attachment_ids_of group
    pub bytes : b.total_bytes ≡ sum_bytes group
    pub families : b.media_families ≡ families_from [] group
    pub few : length b.attachment_ids ≤ p.max_files_per_batch
    pub small : b.total_bytes ≤ p.max_batch_bytes
    pub alike : Alike p b.media_families
    pub fitting : All (Fits p) group

  -- batches numbered from `n` hold the attachments, in order
  pub data Grouped : ℕ → List CommittedAttachment → List AttachmentBatch → Type 0 where
    nothing : {n : ℕ} → Grouped n [] []
    batch :
        {n : ℕ} {atts group rest : List CommittedAttachment} {b : AttachmentBatch}
        {bs : List AttachmentBatch}
        → atts ≡ group ++ rest
        → IsBatchOf n group b
        → Grouped (n + 1) rest bs
        → Grouped n atts (b ∷ bs)

  pub Grouped-last :
      {n : ℕ} {atts : List CommittedAttachment} {bs : List AttachmentBatch}
      (group : List CommittedAttachment) (b : AttachmentBatch)
      → Grouped n atts bs
      → IsBatchOf (n + length bs) group b
      → Grouped n (atts ++ group) (bs ++ b ∷ [])
  Grouped-last {n} group b nothing h =
      let zero_more : n + 0 ≡ n = omega arith in
      batch (sym (append-nil group)) (subst (λ k. IsBatchOf k group b) zero_more h) nothing
  Grouped-last {n} {bs = b' ∷ bs} group b (batch {group = first} {rest = rest} split one more) h =
      let moved : n + length (b' ∷ bs) ≡ n + 1 + length bs = omega arith in
      batch (ap (λ l. l ++ group) split ∙ append_assoc first rest group) one
        (Grouped-last group b more (subst (λ k. IsBatchOf k group b) moved h))
