-- ===== src/Inspect/Commit/RoundTrip.antt =====
-- What was committed is verified, and what is verified has not changed.
use systeme_local.Prelude.{
  ℕ, ◌≤◌, ◌≡◌, refl, ap, ◌∙◌, true, false, not, Option, none, some, List, arith, eq_iff, eq_refl,
  ltb, ◌==◌, Result, ok, err, raise_if, Post, Post-ok, Post-bind, Post-then, raise_if-ok, length,
  then-ok,
}
use mathlib.Core.Path.{subst}
use systeme_local.Attachments.{
  AttachmentMediaType, png, jpeg, pdf, text, json, AttachmentInspection, CommittedAttachment,
  type_eq,
}
use systeme_local.Attachments.Digests.{DigestCalls}
use systeme_local.Attachments.Valid.{valid_attachment}
use systeme_local.Attachments.Valid.Names.{NameCalls, valid_display_name}
use systeme_local.Inspect.Bytes.{InspectError}
use systeme_local.Inspect.Content.{
  ContentCalls, inspect_attachment_bytes, IsInspected, inspect-IsInspected, inspected_again,
}
use systeme_local.Inspect.Commit.{
  verification_error, attachment_integrity_changed, verification_before_commit, value_error,
  validation_error, inspection_passed, number_eq, CommitRequest, signed_attachment,
  commit_attachment, compare_inspections, verify_attachment_bytes,
}

type_eq_refl : (t : AttachmentMediaType) → type_eq t t ≡ true
type_eq_refl png = refl
type_eq_refl jpeg = refl
type_eq_refl pdf = refl
type_eq_refl text = refl
type_eq_refl json = refl

number_eq_refl : (o : Option ℕ) → number_eq o o ≡ true
number_eq_refl none = refl
number_eq_refl (some n) = ground arith

same_number : (n : ℕ) → (n == n) ≡ true
same_number n = ground arith

inspection_passed-ok :
    {A : Type 0} (m : Result InspectError A) (a : A) → inspection_passed m ≡ ok a → m ≡ ok a
inspection_passed-ok (ok b) a h = ap (λ x. ok x) (then-ok (ok tt) h)
inspection_passed-ok (err e) a h = cc

compare_inspections-same :
    (i : AttachmentInspection) (t : ℕ)
    → compare_inspections (record i { inspected_at = t }) i ≡ ok tt
unfolding compare_inspections
compare_inspections-same i t =
    rw
      (
        type_eq_refl i.media_type,
        same_number i.byte_size,
        eq_refl i.content_sha256,
        number_eq_refl i.image_width,
        number_eq_refl i.image_height,
      )
      refl

module _ (calls : ContentCalls) (digests : DigestCalls) (names : NameCalls) where
  record IsCommitted (r : CommitRequest) (a : CommittedAttachment) : Type 0 where
    inspection_ : AttachmentInspection
    inspected :
        inspect_attachment_bytes calls r.content r.media_type r.inspected_at ≡ ok inspection_
    valid : valid_attachment digests names a ≡ true
    made : signed_attachment calls digests names r inspection_ ≡ a

  commit-IsCommitted :
      (r : CommitRequest) → Post (IsCommitted r) (commit_attachment calls digests names r)
  unfolding commit_attachment
  commit-IsCommitted r =
      Post-then (raise_if (not (valid_display_name names r.display_name)) value_error) _ (λ a.
        Post-then (raise_if (ltb r.inspected_at r.turn.committed_at) value_error) _ (λ b.
          Post-then (raise_if (ltb r.committed_at r.inspected_at) value_error) _ (λ c.
            Post-bind
              (inspection_passed
                (inspect_attachment_bytes calls r.content r.media_type r.inspected_at))
              _
              (λ i q.
                Post-then
                  (raise_if
                    (not
                      (valid_attachment digests names (signed_attachment calls digests names r i)))
                    validation_error)
                  _
                  (λ d.
                    let e = raise_if-ok _ validation_error d in
                    Post-ok (record {
                      inspection_ = i;
                      inspected = inspection_passed-ok _ i q;
                      valid = ground arith;
                      made = refl;
                    }))))))

  -- the inspection of what was committed, at another time
  pub reinspection : CommittedAttachment → ℕ → AttachmentInspection
  reinspection a t = record (a.inspection) { inspected_at = t }

  -- An attachment that is committed verifies against the same bytes at any time that is not before
  -- the commitment: the verification returns the committed inspection with the new time.
  pub committed_verifies :
      (r : CommitRequest) (a : CommittedAttachment) (verified_at : ℕ)
      → commit_attachment calls digests names r ≡ ok a
      → a.committed_at ≤ verified_at
      → verify_attachment_bytes calls digests names a r.content verified_at
        ≡ ok (reinspection a verified_at)
  unfolding verify_attachment_bytes signed_attachment reinspection
  committed_verifies r a t h later =
      let c = (commit-IsCommitted r).at a h in
      let parts =
        inspect-IsInspected calls r.content r.media_type r.inspected_at c.inspection_ c.inspected in
      let held : c.inspection_ ≡ a.inspection =
        ap (λ (x : CommittedAttachment). x.inspection) c.made in
      let typed : r.media_type ≡ a.inspection.media_type =
        ap (λ (x : AttachmentInspection). x.media_type) (parts.made ∙ held) in
      let again : inspect_attachment_bytes calls r.content a.inspection.media_type t
          ≡ ok (record (a.inspection) { inspected_at = t }) =
        subst
          (λ type.
            inspect_attachment_bytes calls r.content type t
            ≡ ok (record (a.inspection) { inspected_at = t }))
          typed
          (inspected_again calls r.content r.media_type r.inspected_at c.inspection_ t parts
            ∙ ap (λ (x : AttachmentInspection). ok (record x { inspected_at = t })) held) in
      let after : ltb t a.committed_at ≡ false = ground arith in
      rw (c.valid, after, again, compare_inspections-same a.inspection t) refl

  abbrev pub Unchanged : CommittedAttachment → List ℕ → AttachmentInspection → Type 0
  Unchanged a content i =
      (calls.sha256 content ≡ a.inspection.content_sha256)
      × (length content ≡ a.inspection.byte_size)
      × (number_eq i.image_width a.inspection.image_width ≡ true)
      × (number_eq i.image_height a.inspection.image_height ≡ true)

  compare-Unchanged :
      (a : CommittedAttachment) (content : List ℕ) (t : ℕ) (i : AttachmentInspection)
      → IsInspected calls content a.inspection.media_type t i
      → compare_inspections i a.inspection ≡ ok tt
      → Unchanged a content i
  unfolding compare_inspections
  compare-Unchanged a content t i p h =
      let digest : calls.sha256 content ≡ i.content_sha256 =
        ap (λ (x : AttachmentInspection). x.content_sha256) p.made in
      let size : length content ≡ i.byte_size =
        ap (λ (x : AttachmentInspection). x.byte_size) p.made in
      let same : i.content_sha256 ≡ a.inspection.content_sha256 =
        ground (arith, eq_iff i.content_sha256 a.inspection.content_sha256) in
      (digest ∙ same, size ∙ ground arith, ground arith, ground arith)

  verify-Unchanged :
      (a : CommittedAttachment) (content : List ℕ) (t : ℕ)
      → Post (Unchanged a content) (verify_attachment_bytes calls digests names a content t)
  unfolding verify_attachment_bytes
  verify-Unchanged a content t =
      Post-then
        (raise_if (not (valid_attachment digests names a))
          (verification_error attachment_integrity_changed))
        _
        (λ v.
          Post-then
            (raise_if (ltb t a.committed_at) (verification_error verification_before_commit)) _
            (λ w.
              Post-bind
                (inspection_passed
                  (inspect_attachment_bytes calls content a.inspection.media_type t))
                _
                (λ i q. Post-then (compare_inspections i a.inspection) _ (λ same. Post-ok (
                  compare-Unchanged a content t i
                    (inspect-IsInspected calls content a.inspection.media_type t i
                      (inspection_passed-ok _ i q))
                    same)))))

  -- Where the verification of bytes returns, the bytes have the digest and the size of the committed
  -- attachment, and the dimensions that are found in them are the committed ones.
  pub verified-Unchanged :
      (a : CommittedAttachment) (content : List ℕ) (verified_at : ℕ) (i : AttachmentInspection)
      → verify_attachment_bytes calls digests names a content verified_at ≡ ok i
      → Unchanged a content i
  verified-Unchanged a content t i h = (verify-Unchanged a content t).at i h
