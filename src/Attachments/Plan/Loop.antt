-- ===== src/Attachments/Plan/Loop.antt =====
-- The loop over the attachments of a manifest: after each step, what was taken is in closed batches
-- and in the open one.
use systeme_local.Prelude.{
  ◌+◌, ◌≤◌, String, ◌≡◌, refl, sym, ap, ◌∙◌, inl, inr, true, false, not, ◌&&◌, List, [], ◌∷◌, ◌++◌,
  arith, Bool-cases, ok, raise_if, length, any, length-append, All, All-append, bind-ok, then-ok,
}
use mathlib.Core.Path.{subst}
use mathlib.Core.List.{append-nil, append_assoc}
use systeme_local.Attachments.{
  AttachmentMediaFamily, CommittedAttachment, AttachmentCapabilityProfile, AttachmentBatch,
  family_eq, sum_bytes, attachment_ids_of,
}
use systeme_local.Attachments.Digests.{DigestCalls}
use systeme_local.Attachments.Valid.{valid_batch}
use systeme_local.Attachments.Policy.{validation_error, validate_attachment_against_profile}
use systeme_local.Attachments.Policy.Fits.{Fits, validate_attachment-Fits, Fits-bytes}
use systeme_local.Attachments.Plan.{
  BatchState, no_batches, is_empty, add_family, new_batch, flush, must_flush, add_current,
  add_attachment, add_attachments,
}
use systeme_local.Attachments.Plan.Groups.{
  family_of, families_from, families_from-last, attachment_ids_of-append, sum_bytes-append, Alike,
  IsBatchOf, Grouped, nothing, Grouped-last,
}

ids_empty : (xs : List CommittedAttachment) → is_empty (attachment_ids_of xs) ≡ true → xs ≡ []
ids_empty [] h = refl
ids_empty (x ∷ xs) h = cc

module _ (digests : DigestCalls) (plan_id sha : String) (p : AttachmentCapabilityProfile) where
  -- the open batch of the loop holds `cur`
  pub record IsOpen (cur : List CommittedAttachment) (s : BatchState) : Type 0 where
    pub ids : s.current_ids ≡ attachment_ids_of cur
    pub bytes : s.current_bytes ≡ sum_bytes cur
    pub families : s.current_families ≡ families_from [] cur
    pub few : length s.current_ids ≤ p.max_files_per_batch
    pub small : s.current_bytes ≤ p.max_batch_bytes
    pub alike : Alike p s.current_families
    pub fitting : All (Fits p) cur

  abbrev Batched : List CommittedAttachment → List AttachmentBatch → Type 0
  Batched = Grouped digests plan_id sha p 0

  abbrev pub IsFlushed : List CommittedAttachment → BatchState → Type 0
  IsFlushed done s = Batched done s.batches × IsOpen [] s

  -- a step of the loop, as far as the attachments `done`
  pub record IsPlanned (done : List CommittedAttachment) (s : BatchState) : Type 0 where
    pub closed : List CommittedAttachment
    pub cur : List CommittedAttachment
    pub split : done ≡ closed ++ cur
    pub grouped : Batched closed s.batches
    pub open_ : IsOpen cur s

  nothing-IsOpen :
      {s : BatchState}
      → s.current_ids ≡ []
      → s.current_bytes ≡ 0
      → s.current_families ≡ []
      → IsOpen [] s
  nothing-IsOpen {s} a b c = record {
    ids = a;
    bytes = b;
    families = c;
    few = rw a (omega arith);
    small = rw b (omega arith);
    alike = λ m. rw c (omega arith);
    fitting = tt;
  }

  flush-IsFlushed :
      (done : List CommittedAttachment) (s t : BatchState)
      → IsPlanned done s
      → flush digests plan_id sha s ≡ ok t
      → IsFlushed done t
  unfolding flush new_batch
  flush-IsFlushed done s t h q = elim (Bool-cases (is_empty s.current_ids)) [
    | inl e ↦
        let none_left : h.cur ≡ [] =
          ids_empty h.cur (subst (λ l. is_empty l ≡ true) h.open_.ids e) in
        let all_closed : h.closed ≡ done =
          sym (h.split ∙ ap (λ l. h.closed ++ l) none_left ∙ append-nil h.closed) in
        let same : s ≡ t = then-ok (ok tt) (rw e at q) in
        subst (IsFlushed done) same (
          subst (λ l. Batched l s.batches) all_closed h.grouped,
          subst (λ l. IsOpen l s) none_left h.open_,
        )
    | inr e ↦
        let b = new_batch digests plan_id sha s in
        let same = then-ok (raise_if (not (valid_batch b)) validation_error) (rw e at q) in
        let one : IsBatchOf digests plan_id sha p (length s.batches) h.cur b = record {
          index = refl;
          named = refl;
          ids = h.open_.ids;
          bytes = h.open_.bytes;
          families = h.open_.families;
          few = h.open_.few;
          small = h.open_.small;
          alike = h.open_.alike;
          fitting = h.open_.fitting;
        } in
        let from_zero : length s.batches ≡ 0 + length s.batches = omega arith in
        subst (IsFlushed done) same (
          subst (λ l. Batched l (s.batches ++ b ∷ [])) (sym h.split)
              (Grouped-last digests plan_id sha p h.cur b h.grouped
                (subst (λ k. IsBatchOf digests plan_id sha p k h.cur b) from_zero one)),
          nothing-IsOpen refl refl refl,
        )
  ]

  -- an attachment that fits is added to the open batch
  add_current-IsOpen :
      (cur : List CommittedAttachment) (s : BatchState) (a : CommittedAttachment)
      → IsOpen cur s
      → Fits p a
      → length s.current_ids + 1 ≤ p.max_files_per_batch
      → s.current_bytes + a.inspection.byte_size ≤ p.max_batch_bytes
      → Alike p (add_family (family_of a) s.current_families)
      → IsOpen (cur ++ a ∷ []) (add_current digests a (family_of a) s)
  unfolding add_current
  add_current-IsOpen cur s a h fits room space alike = record {
    ids = ap (λ l. l ++ a.attachment_id ∷ []) h.ids ∙ sym (attachment_ids_of-append cur (a ∷ []));
    bytes = omega (arith, h.bytes, sum_bytes-append cur (a ∷ []));
    families = ap (add_family (family_of a)) h.families ∙ sym (families_from-last [] cur a);
    few = omega (arith, length-append s.current_ids (a.attachment_id ∷ []));
    small = space;
    alike = alike;
    fitting = All-append (Fits p) cur (a ∷ []) h.fitting (fits, tt);
  }

  Alike-added :
      (f : AttachmentMediaFamily) (fs : List AttachmentMediaFamily)
      → Alike p fs
      → (not p.allows_mixed_media && not (is_empty fs) && not (any (family_eq f) fs)) ≡ false
      → Alike p (add_family f fs)
  Alike-added f [] h stays = λ m. omega arith
  Alike-added f (x ∷ xs) h stays = λ m. elim (Bool-cases (any (family_eq f) (x ∷ xs))) [
    | inl e ↦ rw e (h m)
    | inr e ↦ let k : true ≡ false = rw (m, e) at stays in absurd (cc)
  ]

  add_current-IsPlanned :
      (done : List CommittedAttachment) (s : BatchState) (a : CommittedAttachment)
      → IsPlanned done s
      → Fits p a
      → must_flush digests p a.inspection.byte_size (family_of a) s ≡ false
      → IsPlanned (done ++ a ∷ []) (add_current digests a (family_of a) s)
  unfolding must_flush add_current
  add_current-IsPlanned done s a h fits stays = record {
    closed = h.closed;
    cur = h.cur ++ a ∷ [];
    split = ap (λ l. l ++ a ∷ []) h.split ∙ append_assoc h.closed h.cur (a ∷ []);
    grouped = h.grouped;
    open_ =
        add_current-IsOpen h.cur s a h.open_ fits (ground arith) (ground arith)
          (Alike-added (family_of a) s.current_families h.open_.alike (ground arith));
  }

  add_flushed-IsPlanned :
      (done : List CommittedAttachment) (s : BatchState) (a : CommittedAttachment)
      → 1 ≤ p.max_files_per_batch
      → IsFlushed done s
      → Fits p a
      → IsPlanned (done ++ a ∷ []) (add_current digests a (family_of a) s)
  unfolding add_current
  add_flushed-IsPlanned done s a positive h fits =
      let small = Fits-bytes p a fits in
      record {
        closed = done;
        cur = a ∷ [];
        split = refl;
        grouped = h.0;
        open_ =
            add_current-IsOpen [] s a h.1 fits (rw h.1.ids (omega arith))
              (rw h.1.bytes (omega arith)) (λ m. rw h.1.families (omega arith));
      }

  add_attachment-IsPlanned :
      (done : List CommittedAttachment) (s t : BatchState) (a : CommittedAttachment)
      → 1 ≤ p.max_files_per_batch
      → IsPlanned done s
      → add_attachment digests plan_id sha p a s ≡ ok t
      → IsPlanned (done ++ a ∷ []) t
  unfolding add_attachment
  add_attachment-IsPlanned done s t a positive h q =
      let (f, valid, q') = bind-ok (validate_attachment_against_profile p a) _ q in
      let (same, fits) = validate_attachment-Fits p a f valid in
      elim (Bool-cases (must_flush digests p a.inspection.byte_size f s)) [
        | inl e ↦
            let (ready, flushed, last) =
              bind-ok (flush digests plan_id sha s) (λ r. ok (add_current digests a f r))
                (rw e at q') in
            let added =
              add_flushed-IsPlanned done ready a positive (flush-IsFlushed done s ready h flushed)
                fits in
            let all : add_current digests a (family_of a) ready ≡ t =
              ap (λ g. add_current digests a g ready) (sym same) ∙ then-ok (ok tt) last in
            subst (IsPlanned (done ++ a ∷ [])) all added
        | inr e ↦
            let last : ok (add_current digests a f s) ≡ ok t = rw e at q' in
            let stays : must_flush digests p a.inspection.byte_size (family_of a) s ≡ false =
              rw (sym same) e in
            let all : add_current digests a (family_of a) s ≡ t =
              ap (λ g. add_current digests a g s) (sym same) ∙ then-ok (ok tt) last in
            subst (IsPlanned (done ++ a ∷ [])) all (add_current-IsPlanned done s a h fits stays)
      ]

  add_attachments-IsFlushed :
      (done rest : List CommittedAttachment) (s t : BatchState)
      → 1 ≤ p.max_files_per_batch
      → IsPlanned done s
      → add_attachments digests plan_id sha p rest s ≡ ok t
      → IsFlushed (done ++ rest) t
  unfolding add_attachments
  add_attachments-IsFlushed done [] s t positive h q =
      subst (λ l. IsFlushed l t) (sym (append-nil done)) (flush-IsFlushed done s t h q)
  add_attachments-IsFlushed done (a ∷ rest) s t positive h q =
      let (next, first, q') =
        bind-ok (add_attachment digests plan_id sha p a s)
          (add_attachments digests plan_id sha p rest) q in
      subst (λ l. IsFlushed l t) (append_assoc done (a ∷ []) rest)
        (add_attachments-IsFlushed (done ++ a ∷ []) rest next t positive
          (add_attachment-IsPlanned done s next a positive h first) q')

  pub add_attachments-Grouped :
      (atts : List CommittedAttachment) (t : BatchState)
      → 1 ≤ p.max_files_per_batch
      → add_attachments digests plan_id sha p atts no_batches ≡ ok t
      → Grouped digests plan_id sha p 0 atts t.batches
  add_attachments-Grouped atts t positive q =
      (add_attachments-IsFlushed [] atts no_batches t positive
        (record {
          closed = [];
          cur = [];
          split = refl;
          grouped = nothing;
          open_ = nothing-IsOpen refl refl refl;
        })
        q).0
