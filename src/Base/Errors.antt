-- ===== src/Base/Errors.antt =====
-- Go's `(value, error)` results and error chains. `fmt.Errorf("...: %w", err)` is `wrap`, with one
-- context value for each format string; the errors that are no wrappers are the leaves.

use mathlib.Core.Bool.{Bool, true, false}

pub data Result {ℓ κ} (E : Type ℓ) (A : Type κ) : Type (ℓ ⊔ κ) where
  ok : A → Result E A
  err : E → Result E A

infixl 5 ◌>>=◌ ◌>>◌
abbrev pub ◌>>=◌ {ℓ κ μ} :
    {E : Type ℓ} {A : Type κ} {B : Type μ} → Result E A → (A → Result E B) → Result E B
ok a >>= f = f a
err e >>= f = err e

abbrev pub ◌>>◌ {ℓ κ} : {E : Type ℓ} {B : Type κ} → Result E (Unit {0}) → Result E B → Result E B
m >> k = m >>= λ _. k

pub data Error {ℓ κ} (C : Type ℓ) (S : Type κ) : Type (ℓ ⊔ κ) where
  leaf : S → Error C S
  wrap : C → Error C S → Error C S

abbrev pub is_ok {ℓ κ} : {E : Type ℓ} {A : Type κ} → Result E A → Bool
is_ok (ok a) = true
is_ok (err e) = false
