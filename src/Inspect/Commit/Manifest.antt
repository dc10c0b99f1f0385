-- ===== src/Inspect/Commit/Manifest.antt =====
-- A manifest that was committed is verified.
use systeme_local.Prelude.{
  ℕ, String, ◌≡◌, refl, Bool, true, false, not, List, [], ◌∷◌, arith, eq_refl, ltb, ◌==◌, ok,
  raise_if, Post, Post-ok, Post-then, raise_if-ok, length, any, then-split,
}
use systeme_local.Attachments.{CommittedAttachment, AttachmentManifest}
use systeme_local.Turns.{AgentPrincipalRef, CommittedTurn}
use systeme_local.Attachments.Digests.{DigestCalls}
use systeme_local.Attachments.Valid.{valid_manifest}
use systeme_local.Attachments.Valid.Names.{NameCalls}
use systeme_local.Inspect.Content.{ContentCalls}
use systeme_local.Inspect.Commit.{
  value_error, validation_error, principal_eq, check_attachment, check_attachments, signed_manifest,
  commit_attachment_manifest, verify_attachment_manifest,
}

principal_eq_refl : (p : AgentPrincipalRef) → principal_eq p p ≡ true
principal_eq_refl p =
    rw (eq_refl p.agent_id, eq_refl p.instance_id, eq_refl p.key_id, eq_refl p.verification_id) refl

module _ (calls : ContentCalls) (digests : DigestCalls) (names : NameCalls) where
  abbrev predates : CommittedTurn → CommittedAttachment → Bool
  predates turn a = ltb a.inspection.inspected_at turn.committed_at

  check_attachment-after :
      (turn : CommittedTurn) (t : ℕ) (a : CommittedAttachment)
      → check_attachment calls digests names turn t a ≡ ok tt
      → predates turn a ≡ false
  unfolding check_attachment
  check_attachment-after turn t a h = ground arith

  check_attachments-after :
      (turn : CommittedTurn) (t : ℕ) (atts : List CommittedAttachment)
      → check_attachments calls digests names turn t atts ≡ ok tt
      → any (predates turn) atts ≡ false
  unfolding check_attachments
  check_attachments-after turn t [] h = refl
  check_attachments-after turn t (a ∷ rest) h =
      let (first, later) =
        then-split (check_attachment calls digests names turn t a)
          (check_attachments calls digests names turn t rest) h in
      rw (check_attachment-after turn t a first) (check_attachments-after turn t rest later)

  Verifies : CommittedTurn → AttachmentManifest → Type 0
  Verifies turn m = verify_attachment_manifest calls digests names m turn ≡ ok tt

  signed-Verifies :
      (turn : CommittedTurn) (id : String) (atts : List CommittedAttachment) (t : ℕ)
      → ltb t turn.committed_at ≡ false
      → any (predates turn) atts ≡ false
      → valid_manifest digests names (signed_manifest calls digests names turn id atts t) ≡ true
      → Verifies turn (signed_manifest calls digests names turn id atts t)
  unfolding Verifies verify_attachment_manifest signed_manifest
  signed-Verifies turn id atts t a b valid =
      rw
        (
          valid,
          a,
          b,
          eq_refl turn.conversation_id,
          eq_refl turn.turn_id,
          eq_refl turn.trace_id,
          principal_eq_refl turn.principal,
          eq_refl turn.content_sha256,
        )
        refl

  commit-Verifies :
      (turn : CommittedTurn) (id : String) (atts : List CommittedAttachment) (t : ℕ)
      → Post (Verifies turn) (commit_attachment_manifest calls digests names turn id atts t)
  unfolding commit_attachment_manifest
  commit-Verifies turn id atts t = Post-then (raise_if (length atts == 0) value_error) _ (λ a.
      Post-then (raise_if (ltb t turn.committed_at) value_error) _ (λ b.
        Post-then (check_attachments calls digests names turn t atts) _ (λ c.
          Post-then
            (raise_if
              (not
                (valid_manifest digests names (signed_manifest calls digests names turn id atts t)))
              validation_error)
            _
            (λ d.
              let e = raise_if-ok _ validation_error d in
              Post-ok (
                signed-Verifies turn id atts t (raise_if-ok _ value_error b)
                  (check_attachments-after turn t atts c) (ground arith))))))

  -- A manifest that is committed for a turn is verified against this turn, without an error.
  pub committed_manifest_verifies :
      (turn : CommittedTurn) (manifest_id : String) (attachments : List CommittedAttachment)
      (committed_at : ℕ) (m : AttachmentManifest)
      → commit_attachment_manifest calls digests names turn manifest_id attachments committed_at
        ≡ ok m
      → verify_attachment_manifest calls digests names m turn ≡ ok tt
  unfolding Verifies
  committed_manifest_verifies turn id atts t m h = (commit-Verifies turn id atts t).at m h
