-- ===== src/Base/Results.antt =====
-- What a Go function that returns an error, or panics, comes to.
use mathlib.Core.Path.{◌≡◌, refl}
use mathlib.Core.Bool.{Bool, true, false}

pub data Result {ℓ} (E A : Type ℓ) : Type ℓ where
  ok : A → Result E A
  err : E → Result E A
  panic : Result E A

infixl 5 ◌>>=◌ ◌>>◌
abbrev pub ◌>>=◌ {ℓ} : {E A B : Type ℓ} → Result E A → (A → Result E B) → Result E B
ok a >>= f = f a
err e >>= f = err e
panic >>= f = panic

abbrev pub ◌>>◌ {ℓ} : {E B : Type ℓ} → Result E (Unit {ℓ}) → Result E B → Result E B
m >> k = m >>= λ _. k

-- `if !test { return err }`
abbrev pub guard {ℓ} : {E : Type ℓ} → Bool → E → Result E (Unit {ℓ})
guard true e = ok tt
guard false e = err e

-- The call comes back, with a value or with an error.
abbrev pub Settles {ℓ} : {E A : Type ℓ} → Result E A → Type 0
Settles (ok a) = Unit
Settles (err e) = Unit
Settles panic = ⊥

pub Settles-bind {ℓ} :
    {E A B : Type ℓ} (m : Result E A) (f : A → Result E B)
    → Settles m
    → ((a : A) → m ≡ ok a → Settles (f a))
    → Settles (m >>= f)
Settles-bind (ok a) f s h = h a refl
Settles-bind (err e) f s h = tt
Settles-bind panic f s h = s

pub Settles-guard {ℓ} :
    {E B : Type ℓ} (b : Bool) (e : E) (m : Result E B)
    → (b ≡ true → Settles m)
    → Settles (guard b e >> m)
Settles-guard true e m h = h refl
Settles-guard false e m h = tt
