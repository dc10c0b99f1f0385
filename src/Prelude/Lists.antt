-- ===== src/Prelude/Lists.antt =====
-- Lists measured by native numbers, and rows selected by Boolean tests.
use Prim.Native.Nat.{ℕ, suc, ◌+◌, ◌≤◌}
use mathlib.Core.Path.{◌≡◌, refl, ap, sym}
use mathlib.Core.Bool.{Bool, true, false, ◌||◌, ◌&&◌}
use mathlib.Core.List.{List, [], ◌∷◌, ◌++◌}
use mathlib.Core.Option.{Option, none, some}
use native.Mathlib.Omega.{arith}
use mathlib.Core.Path.{subst}
use mathlib.Core.Option.{none-ne-some}
use mathlib.Core.Logic.{inl, inr}
use Prim.Native.String.{String}
use text.Mathlib.Text.{◌==◌ as str_eq}
use text.Mathlib.TextEquality.{eq_iff}
use systeme_local.Prelude.Tests.{if◌then◌else◌, Bool-cases}

module _ {ℓ} {A : Type ℓ} where
  abbrev pub length : List A → ℕ
  length [] = 0
  length (x ∷ xs) = suc (length xs)

  abbrev pub any : (A → Bool) → List A → Bool
  any p [] = false
  any p (x ∷ xs) = p x || any p xs

  -- `SELECT … WHERE p` with `fetchone`
  abbrev pub find : (A → Bool) → List A → Option A
  find p [] = none
  find p (x ∷ xs) = if p x then some x else find p xs

  -- the rows that satisfy `p`, in order
  abbrev pub keep : (A → Bool) → List A → List A
  keep p [] = []
  keep p (x ∷ xs) = let rest = keep p xs in if p x then x ∷ rest else rest

  pub length-append : (xs ys : List A) → length (xs ++ ys) ≡ length xs + length ys
  length-append [] ys = omega arith
  length-append (x ∷ xs) ys = omega (arith, length-append xs ys)

  pub length-keep : (p : A → Bool) (xs : List A) → length (keep p xs) ≤ length xs
  length-keep p [] = omega arith
  length-keep p (x ∷ xs) = ground (arith, length-keep p xs)

  abbrev pub All {κ} : (A → Type κ) → List A → Type κ
  All P [] = Unit
  All P (x ∷ xs) = P x × All P xs

  pub All-append {κ} : (P : A → Type κ) (xs ys : List A) → All P xs → All P ys → All P (xs ++ ys)
  All-append P [] ys hx hy = hy
  All-append P (x ∷ xs) ys hx hy = (hx.0, All-append P xs ys hx.1 hy)

  pub any-append : (p : A → Bool) (xs ys : List A) → any p (xs ++ ys) ≡ (any p xs || any p ys)
  any-append p [] ys = refl
  any-append p (x ∷ xs) ys = ground (arith, any-append p xs ys)

  pub All-keep {κ} : (P : A → Type κ) (p : A → Bool) (xs : List A) → All P xs → All P (keep p xs)
  All-keep P p [] h = h
  All-keep P p (x ∷ xs) h = elim (Bool-cases (p x)) [
    | inl e ↦ rw e (h.0, All-keep P p xs h.1)
    | inr e ↦ rw e (All-keep P p xs h.1)
  ]

  -- what no row satisfies, no kept row satisfies
  pub any-keep : (q p : A → Bool) (xs : List A) → any q xs ≡ false → any q (keep p xs) ≡ false
  any-keep q p [] h = refl
  any-keep q p (x ∷ xs) h = ground (arith, any-keep q p xs)

  -- selecting twice is selecting once, where the second test is the stronger
  pub keep-keep :
      (p q : A → Bool)
      → ((x : A) → q x ≡ true → p x ≡ true)
      → (xs : List A) → keep q (keep p xs) ≡ keep q xs
  keep-keep p q h [] = refl
  keep-keep p q h (x ∷ xs) = ground (arith, h x, keep-keep p q h xs)

  pub find-all_false : (p : A → Bool) (xs : List A) → any p xs ≡ false → find p xs ≡ none
  find-all_false p [] h = refl
  find-all_false p (x ∷ xs) h = ground (arith, find-all_false p xs)

  pub find-true : (p : A → Bool) (xs : List A) {x : A} → find p xs ≡ some x → p x ≡ true
  find-true p [] h = cc
  find-true p (y ∷ xs) {x} h = elim (Bool-cases (p y)) [
    | inl e ↦ ground arith
    | inr e ↦ find-true p xs (rw e at h)
  ]

  pub All-find {κ} :
      (P : A → Type κ) (p : A → Bool) (xs : List A) {x : A} → All P xs → find p xs ≡ some x → P x
  All-find P p [] hs h = absurd (none-ne-some _ h)
  All-find P p (y ∷ xs) {x} hs h = elim (Bool-cases (p y)) [
    | inl e ↦ let q : y ≡ x = ground arith in subst P q hs.0
    | inr e ↦ All-find P p xs hs.1 (rw e at h)
  ]

-- No two rows have the same text for a key.
abbrev pub Distinct {ℓ} : {A : Type ℓ} → (A → String) → List A → Type 0
Distinct key [] = Unit
Distinct key (x ∷ xs) = (any (λ y. str_eq (key y) (key x)) xs ≡ false) × Distinct key xs

pub str_eq_comm : (s t : String) → str_eq s t ≡ str_eq t s
str_eq_comm s t = ground (arith, eq_iff s t, eq_iff t s)

module _ {ℓ} {A : Type ℓ} (key : A → String) where
  pub Distinct-keep : (p : A → Bool) (xs : List A) → Distinct key xs → Distinct key (keep p xs)
  Distinct-keep p [] h = h
  Distinct-keep p (x ∷ xs) h = elim (Bool-cases (p x)) [
    | inl e ↦ rw e (any-keep _ p xs h.0, Distinct-keep p xs h.1)
    | inr e ↦ rw e (Distinct-keep p xs h.1)
  ]

  -- a row with a new key may be added
  pub Distinct-append :
      (x : A) (xs : List A)
      → Distinct key xs
      → any (λ y. str_eq (key y) (key x)) xs ≡ false
      → Distinct key (xs ++ x ∷ [])
  Distinct-append x [] h new = (refl, tt)
  Distinct-append x (y ∷ xs) h new = (
    ground
        (arith, any-append (λ z. str_eq (key z) (key y)) xs (x ∷ []), str_eq_comm (key x) (key y)),
    Distinct-append x xs h.1 (ground arith),
  )

-- Looking a row up after another was appended.
module _ {ℓ} {A : Type ℓ} (p : A → Bool) where
  pub find-append : (xs ys : List A) {x : A} → find p xs ≡ some x → find p (xs ++ ys) ≡ some x
  find-append [] ys h = cc
  find-append (a ∷ xs) ys {x} h = elim (Bool-cases (p a)) [
    | inl e ↦ rw e (rw e at h)
    | inr e ↦ rw e (find-append xs ys (rw e at h))
  ]

  pub find-append_none : (xs ys : List A) → find p xs ≡ none → find p (xs ++ ys) ≡ find p ys
  find-append_none [] ys h = refl
  find-append_none (a ∷ xs) ys h = ground (arith, find-append_none xs ys)

  pub find_last :
      (xs : List A) (x : A) {y : A}
      → find p xs ≡ none
      → find p (xs ++ x ∷ []) ≡ some y
      → (p x ≡ true) × (x ≡ y)
  find_last [] x {y} gone h = ground arith
  find_last (a ∷ xs) x {y} gone h = elim (Bool-cases (p a)) [
    | inl e ↦ absurd (none-ne-some _ (sym (rw e at gone)))
    | inr e ↦ find_last xs x (rw e at gone) (rw e at h)
  ]

  pub any-find-none : (xs : List A) → find p xs ≡ none → any p xs ≡ false
  any-find-none [] h = refl
  any-find-none (a ∷ xs) h = ground (arith, any-find-none xs)

  pub any-find : (xs : List A) {x : A} → find p xs ≡ some x → any p xs ≡ true
  any-find [] h = cc
  any-find (a ∷ xs) {x} h = elim (Bool-cases (p a)) [
    | inl e ↦ rw e refl
    | inr e ↦ rw e (any-find xs (rw e at h))
  ]

  pub find-any : (xs : List A) → any p xs ≡ true → (x : A) × (find p xs ≡ some x)
  find-any [] h = cc
  find-any (a ∷ xs) h = elim (Bool-cases (p a)) [
    | inl e ↦ (a, rw e refl)
    | inr e ↦ let (x, q) = find-any xs (rw e at h) in (x, rw e q)
  ]

  pub keep-append : (xs ys : List A) → keep p (xs ++ ys) ≡ keep p xs ++ keep p ys
  keep-append [] ys = refl
  keep-append (a ∷ xs) ys = elim (Bool-cases (p a)) [
    | inl e ↦ rw (e, keep-append xs ys) refl
    | inr e ↦ rw (e, keep-append xs ys) refl
  ]

  -- two tests, one after the other and at once
  pub any-keep_and : (q : A → Bool) (xs : List A) → any q (keep p xs) ≡ any (λ x. p x && q x) xs
  any-keep_and q [] = refl
  any-keep_and q (a ∷ xs) = elim (Bool-cases (p a)) [
    | inl e ↦ rw e (ap (λ b. q a || b) (any-keep_and q xs))
    | inr e ↦ rw e (any-keep_and q xs)
  ]

  pub any-or_left :
      (q : A → Bool) (xs : List A) → any (λ x. p x || q x) xs ≡ false → any p xs ≡ false
  any-or_left q [] h = refl
  any-or_left q (a ∷ xs) h = ground (arith, any-or_left q xs)

  pub any-or_right :
      (q : A → Bool) (xs : List A) → any (λ x. p x || q x) xs ≡ false → any q xs ≡ false
  any-or_right q [] h = refl
  any-or_right q (a ∷ xs) h = ground (arith, any-or_right q xs)
