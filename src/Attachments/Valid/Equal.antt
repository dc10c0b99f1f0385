-- ===== src/Attachments/Valid/Equal.antt =====
-- Equality of tuples, and the test that no value is repeated.
use systeme_local.Prelude.{
  String, ◌≡◌, refl, Bool, true, false, not, ◌&&◌, List, [], ◌∷◌, arith, str_eq, eq_refl, any,
}
use systeme_local.Attachments.{
  AttachmentMediaType, AttachmentMediaFamily, image, document, type_eq, family_eq,
}

abbrev pub texts_eq : List String → List String → Bool
texts_eq [] [] = true
texts_eq (x ∷ xs) (y ∷ ys) = str_eq x y && texts_eq xs ys
texts_eq _ _ = false

abbrev pub families_eq : List AttachmentMediaFamily → List AttachmentMediaFamily → Bool
families_eq [] [] = true
families_eq (x ∷ xs) (y ∷ ys) = family_eq x y && families_eq xs ys
families_eq _ _ = false

-- `len(set(values)) == len(values)`
abbrev pub unique : List String → Bool
unique [] = true
unique (x ∷ xs) = not (any (λ y. str_eq y x) xs) && unique xs

abbrev pub unique_families : List AttachmentMediaFamily → Bool
unique_families [] = true
unique_families (x ∷ xs) = not (any (family_eq x) xs) && unique_families xs

abbrev pub unique_types : List AttachmentMediaType → Bool
unique_types [] = true
unique_types (x ∷ xs) = not (any (type_eq x) xs) && unique_types xs

pub texts_eq_refl : (l : List String) → texts_eq l l ≡ true
texts_eq_refl [] = refl
texts_eq_refl (x ∷ xs) = ground (arith, eq_refl x, texts_eq_refl xs)

family_eq_refl : (f : AttachmentMediaFamily) → family_eq f f ≡ true
family_eq_refl image = refl
family_eq_refl document = refl

pub families_eq_refl : (l : List AttachmentMediaFamily) → families_eq l l ≡ true
families_eq_refl [] = refl
families_eq_refl (x ∷ xs) = ground (arith, family_eq_refl x, families_eq_refl xs)
