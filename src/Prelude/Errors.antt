-- ===== src/Prelude/Errors.antt =====
-- Exceptions as values: a call returns `ok` or raises `err`; a method also returns the new state.
use mathlib.Core.Path.{◌≡◌, refl, ap, subst}
use mathlib.Core.Bool.{Bool, true, false}
use systeme_local.Prelude.Tests.{if◌then◌else◌}

pub data Result {ℓ κ} (E : Type ℓ) (A : Type κ) : Type (ℓ ⊔ κ) where
  ok : A → Result E A
  err : E → Result E A

infixl 5 ◌>>=◌ ◌>>◌
abbrev pub ◌>>=◌ {ℓ κ μ} :
    {E : Type ℓ} {A : Type κ} {B : Type μ} → Result E A → (A → Result E B) → Result E B
ok a >>= f = f a
err e >>= f = err e

abbrev pub ◌>>◌ {ℓ μ} : {E : Type ℓ} {B : Type μ} → Result E (Unit {0}) → Result E B → Result E B
ok _ >> k = k
err e >> k = err e

-- `if test: raise error`
abbrev pub raise_if {ℓ} : {E : Type ℓ} → Bool → E → Result E (Unit {0})
raise_if true e = err e
raise_if false e = ok tt

-- A method on a state: what it returns or raises, and the state that it leaves.
abbrev pub Method {ℓ κ μ} : Type ℓ → Type κ → Type μ → Type (ℓ ⊔ κ ⊔ μ)
Method S E A = S → Result E A × S

-- `BEGIN IMMEDIATE … COMMIT`, with `ROLLBACK` and the error passed on where the body raises.
abbrev pub commit_or_rollback {ℓ κ μ} :
    {S : Type ℓ} {E : Type κ} {A : Type μ} → S → Result E (A × S) → Result E A × S
commit_or_rollback s (ok (a, s')) = (ok a, s')
commit_or_rollback s (err e) = (err e, s)

-- `P` holds of the value, if there is one.
pub record Post {ℓ κ μ} {E : Type ℓ} {A : Type κ} (P : A → Type μ) (r : Result E A)
    : Type (ℓ ⊔ κ ⊔ μ) where
  pub at : (a : A) → r ≡ ok a → P a

module _ {ℓ κ μ} {E : Type ℓ} {A : Type κ} {P : A → Type μ} where
  pub Post-ok : {a : A} → P a → Post {E = E} P (ok a)
  Post-ok h = record { at = λ b e. let q : _ ≡ b = cc in subst P q h }

  pub Post-err : (e : E) → Post {A = A} P (err e)
  Post-err e = record { at = λ b p. cc }

  pub Post-bind {ν} :
      {B : Type ν} (m : Result E B) (f : B → Result E A)
      → ((b : B) → m ≡ ok b → Post P (f b))
      → Post P (m >>= f)
  Post-bind (ok b) f h = h b refl
  Post-bind (err e) f h = Post-err e

  pub Post-then :
      (m : Result E (Unit {0})) (k : Result E A) → (m ≡ ok tt → Post P k) → Post P (m >> k)
  Post-then (ok tt) k h = h refl
  Post-then (err e) k h = Post-err e

  pub Post-if :
      (b : Bool) (x y : Result E A)
      → (b ≡ true → Post P x)
      → (b ≡ false → Post P y)
      → Post P (if b then x else y)
  Post-if true x y h k = h refl
  Post-if false x y h k = k refl

module _ {ℓ κ μ} {E : Type ℓ} {A : Type κ} where
  -- a transaction that is rolled back leaves what held before
  pub Post-commit {ν} :
      {S : Type ν} (P : S → Type μ) (s : S) (r : Result E (A × S))
      → P s
      → Post (λ (p : A × S). P p.1) r
      → P (commit_or_rollback s r).1
  Post-commit P s (ok (a, s')) h k = k.at (a, s') refl
  Post-commit P s (err e) h k = h

-- A method that returns has committed.
pub committed {ℓ κ ν} :
    {E : Type ℓ} {A : Type κ} {S : Type ν} (s : S) (r : Result E (A × S)) {a : A}
    → (commit_or_rollback s r).0 ≡ ok a
    → r ≡ ok (a, (commit_or_rollback s r).1)
committed s (ok (b, s')) {a} h = let q : b ≡ a = cc in ap (λ x. ok (x, s')) q
committed s (err e) h = cc

pub raise_if-ok {ℓ} : {E : Type ℓ} (b : Bool) (e : E) → raise_if b e ≡ ok tt → b ≡ false
raise_if-ok true e h = cc
raise_if-ok false e h = refl

-- A chain that returns, taken apart, and a chain in which a step is split in two.
pub bind-ok {ℓ κ μ} :
    {E : Type ℓ} {A : Type κ} {B : Type μ} (m : Result E A) (f : A → Result E B) {b : B}
    → (m >>= f) ≡ ok b
    → (a : A) × (m ≡ ok a) × (f a ≡ ok b)
bind-ok (ok a) f h = (a, refl, h)
bind-ok (err e) f h = cc

pub bind-step {ℓ κ μ} :
    {E : Type ℓ} {A : Type κ} {B : Type μ} (m : Result E A) (f f' : A → Result E B)
    (g : B → Result E B)
    → ((a : A) → f a ≡ (f' a >>= g))
    → (m >>= f) ≡ ((m >>= f') >>= g)
bind-step (ok a) f f' g h = h a
bind-step (err e) f f' g h = refl

-- a test and then a value
pub then-ok {ℓ κ} :
    {E : Type ℓ} {A : Type κ} (m : Result E (Unit {0})) {a b : A} → (m >> ok a) ≡ ok b → a ≡ b
then-ok (ok tt) h = cc
then-ok (err e) h = cc

-- a call whose value is not used, and the rest
pub then-split {ℓ κ} :
    {E : Type ℓ} {A : Type κ} (m : Result E (Unit {0})) (k : Result E A) {a : A}
    → (m >> k) ≡ ok a
    → (m ≡ ok tt) × (k ≡ ok a)
then-split (ok tt) k h = (refl, h)
then-split (err e) k h = cc
