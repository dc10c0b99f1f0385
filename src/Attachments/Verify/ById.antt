-- ===== src/Attachments/Verify/ById.antt =====
-- The dictionary of the attachments of a manifest by their identifiers.
use systeme_local.Prelude.{
  String, ◌≡◌, refl, sym, ap, ◌∙◌, inl, inr, true, false, ◌||◌, some, List, [], ◌∷◌, ◌++◌, arith,
  str_eq, eq_refl, Bool-cases, any, any-append, str_eq_comm, has_key, dict_get, dict_set,
}
use mathlib.Core.List.{append-nil, append_assoc}
use systeme_local.Attachments.{CommittedAttachment, attachment_ids_of}
use systeme_local.Attachments.Valid.Equal.{unique}
use systeme_local.Attachments.Plan.Groups.{attachment_ids_of-append}
use systeme_local.Attachments.Verify.{by_id, keys}

abbrev pub pairs : List CommittedAttachment → List (String × CommittedAttachment)
pairs [] = []
pairs (a ∷ rest) = (a.attachment_id, a) ∷ pairs rest

pub keys-pairs : (atts : List CommittedAttachment) → keys (pairs atts) ≡ attachment_ids_of atts
keys-pairs [] = refl
keys-pairs (a ∷ rest) = ap (λ l. a.attachment_id ∷ l) (keys-pairs rest)

dict_set-new :
    (k : String) (a : CommittedAttachment) (d : List (String × CommittedAttachment))
    → has_key k d ≡ false
    → dict_set k a d ≡ d ++ (k, a) ∷ []
unfolding dict_set
dict_set-new k a [] h = refl
dict_set-new k a ((j, b) ∷ d) h = elim (Bool-cases (str_eq j k)) [
  | inl e ↦ let q : true ≡ false = rw e at h in absurd (cc)
  | inr e ↦ rw e (ap (λ l. (j, b) ∷ l) (dict_set-new k a d (rw e at h)))
]

-- none of the keys is among the identifiers
abbrev Apart : List (String × CommittedAttachment) → List CommittedAttachment → Type 0
Apart d [] = Unit
Apart d (a ∷ rest) = (has_key a.attachment_id d ≡ false) × Apart d rest

has_key-last :
    (k j : String) (a : CommittedAttachment) (d : List (String × CommittedAttachment))
    → has_key j (d ++ (k, a) ∷ []) ≡ (has_key j d || str_eq k j)
has_key-last k j a [] = ground arith
has_key-last k j a ((i, b) ∷ d) = ground (arith, has_key-last k j a d)

Apart-last :
    (k : String) (a : CommittedAttachment) (d : List (String × CommittedAttachment))
    (atts : List CommittedAttachment)
    → Apart d atts
    → any (λ y. str_eq y k) (attachment_ids_of atts) ≡ false
    → Apart (d ++ (k, a) ∷ []) atts
Apart-last k a d [] h free = tt
Apart-last k a d (b ∷ rest) h free = (
  ground (arith, has_key-last k b.attachment_id a d, str_eq_comm k b.attachment_id, h.0),
  Apart-last k a d rest h.1 (ground arith),
)

-- where no identifier is repeated, the dictionary has the attachments in their order
by_id-pairs :
    (atts : List CommittedAttachment) (d : List (String × CommittedAttachment))
    → unique (attachment_ids_of atts) ≡ true
    → Apart d atts
    → by_id atts d ≡ d ++ pairs atts
unfolding by_id
by_id-pairs [] d u h = sym (append-nil d)
by_id-pairs (a ∷ rest) d u h =
    ap (by_id rest) (dict_set-new a.attachment_id a d h.0)
    ∙ by_id-pairs rest (d ++ (a.attachment_id, a) ∷ []) (ground arith)
        (Apart-last a.attachment_id a d rest h.1 (ground arith))
    ∙ append_assoc d ((a.attachment_id, a) ∷ []) (pairs rest)

pub by_id-unique :
    (atts : List CommittedAttachment)
    → unique (attachment_ids_of atts) ≡ true
    → by_id atts [] ≡ pairs atts
by_id-unique atts u = by_id-pairs atts [] u (apart atts)
  where
    apart : (atts : List CommittedAttachment) → Apart [] atts
    apart [] = tt
    apart (a ∷ rest) = (refl, apart rest)

dict_get-absent :
    (k : String) (atts : List CommittedAttachment) (a : CommittedAttachment)
    (rest : List CommittedAttachment)
    → any (λ y. str_eq y k) (attachment_ids_of atts) ≡ false
    → a.attachment_id ≡ k
    → dict_get k (pairs (atts ++ a ∷ rest)) ≡ some a
dict_get-absent k [] a rest free same = rw (same, eq_refl k) refl
dict_get-absent k (b ∷ atts) a rest free same = elim (Bool-cases (str_eq b.attachment_id k)) [
  | inl e ↦ let q : true ≡ false = rw e at free in absurd (cc)
  | inr e ↦ rw e (dict_get-absent k atts a rest (rw e at free) same)
]

-- what comes later in a list without repetition is not among what comes before
unique-middle :
    (before : List CommittedAttachment) (a : CommittedAttachment) (rest : List CommittedAttachment)
    → unique (attachment_ids_of (before ++ a ∷ rest)) ≡ true
    → any (λ y. str_eq y a.attachment_id) (attachment_ids_of before) ≡ false
unique-middle [] a rest u = refl
unique-middle (b ∷ before) a rest u =
    let later : any (λ y. str_eq y b.attachment_id)
          (attachment_ids_of before ++ a.attachment_id ∷ attachment_ids_of rest)
        ≡ false =
      rw (sym (attachment_ids_of-append before (a ∷ rest))) (ground arith) in
    ground (
      arith,
      unique-middle before a rest,
      str_eq_comm a.attachment_id b.attachment_id,
      any-append (λ y. str_eq y b.attachment_id) (attachment_ids_of before)
          (a.attachment_id ∷ attachment_ids_of rest),
    )

pub dict_get-pairs :
    (before : List CommittedAttachment) (a : CommittedAttachment) (rest : List CommittedAttachment)
    → unique (attachment_ids_of (before ++ a ∷ rest)) ≡ true
    → dict_get a.attachment_id (pairs (before ++ a ∷ rest)) ≡ some a
dict_get-pairs before a rest u =
    dict_get-absent a.attachment_id before a rest (unique-middle before a rest u) refl
