-- ===== src/Inspect/Settled.antt =====
-- Calls that either return or raise one known error.
use systeme_local.Prelude.{
  ℕ, ◌<◌, ◌≡◌, refl, Bool, true, false, List, if◌then◌else◌, Result, ok, err, ◌>>=◌, ◌>>◌, raise_if,
  length,
}
use systeme_local.Inspect.Bytes.{InspectError, byte_at, byte_at-ok}

pub Settled {ℓ} : {A : Type ℓ} → InspectError → Result InspectError A → Type 0
Settled bad (ok a) = Unit
Settled bad (err e) = e ≡ bad

module _ (bad : InspectError) where
  pub Settled-ok {ℓ} : {A : Type ℓ} (a : A) → Settled bad (ok a)
  unfolding Settled
  Settled-ok a = tt

  pub Settled-err {ℓ} : (A : Type ℓ) → Settled {A = A} bad (err bad)
  unfolding Settled
  Settled-err A = refl

  pub Settled-check {ℓ} :
      {A : Type ℓ} (b : Bool) (k : Result InspectError A)
      → (b ≡ false → Settled bad k)
      → Settled bad (raise_if b bad >> k)
  unfolding Settled
  Settled-check true k h = refl
  Settled-check false k h = h refl

  pub Settled-bind {ℓ κ} :
      {A : Type ℓ} {B : Type κ} (m : Result InspectError A) (f : A → Result InspectError B)
      → Settled bad m
      → ((a : A) → m ≡ ok a → Settled bad (f a))
      → Settled bad (m >>= f)
  unfolding Settled
  Settled-bind (ok a) f h k = k a refl
  Settled-bind (err e) f h k = h

  pub Settled-byte {κ} :
      {B : Type κ} (content : List ℕ) (i : ℕ) (f : ℕ → Result InspectError B)
      → i < length content
      → ((b : ℕ) → Settled bad (f b))
      → Settled bad (byte_at content i >>= f)
  Settled-byte content i f h k = let (b, q) = byte_at-ok content i h in rw q (k b)

  pub Settled-if {ℓ} :
      {A : Type ℓ} (b : Bool) (x y : Result InspectError A)
      → (b ≡ true → Settled bad x)
      → (b ≡ false → Settled bad y)
      → Settled bad (if b then x else y)
  Settled-if true x y h k = h refl
  Settled-if false x y h k = k refl
