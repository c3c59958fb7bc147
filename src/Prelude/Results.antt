-- ===== src/Prelude/Results.antt =====
-- The result of a fallible function: Rust's `Result`, with the error as a value.
use mathlib.Core.Option.{Option, none, some}
use mathlib.Core.Bool.{Bool, true, false}
use mathlib.Core.Path.{◌≡◌, refl}
use mathlib.Core.Logic.{◌↔◌}

pub data Result {ℓ κ} (E : Type ℓ) (A : Type κ) : Type (ℓ ⊔ κ) where
  ok : A → Result E A
  err : E → Result E A

-- The `?` operator: `e` ends the function at the first error.
infixl 5 ◌>>=◌ ◌>>◌
abbrev pub ◌>>=◌ {ℓ κ ι} :
    {E : Type ℓ} {A : Type κ} {B : Type ι} → Result E A → (A → Result E B) → Result E B
ok a >>= f = f a
err e >>= f = err e

abbrev pub ◌>>◌ {ℓ κ} : {E : Type ℓ} {B : Type κ} → Result E (Unit {0}) → Result E B → Result E B
m >> k = m >>= λ _. k

abbrev pub is_ok {ℓ κ} : {E : Type ℓ} {A : Type κ} → Result E A → Bool
is_ok (ok a) = true
is_ok (err e) = false

-- `ok_or_else`.
abbrev pub ok_or {ℓ κ} : {E : Type ℓ} {A : Type κ} → E → Option A → Result E A
ok_or e none = err e
ok_or e (some a) = ok a

-- A chain of two checks succeeds exactly when both do.
pub both_ok {ℓ} :
    {E : Type ℓ} (r k : Result E (Unit {0})) → ((r >> k) ≡ ok tt) ↔ ((r ≡ ok tt) × (k ≡ ok tt))
both_ok (ok u) k = (λ h. (refl, h), λ h. h.1)
both_ok (err e) k = (λ h. cc h, λ h. cc (h.0))

-- A step that succeeds, in a chain that does.
pub bind_ok {ℓ κ ι} :
    {E : Type ℓ} {A : Type κ} {B : Type ι} (r : Result E A) (k : A → Result E B) (b : B)
    → (r >>= k) ≡ ok b
    → (a : A) × (r ≡ ok a) × (k a ≡ ok b)
bind_ok (ok a) k b h = (a, refl, h)
bind_ok (err e) k b h = cc h

pub some-ok_or {ℓ κ} :
    {E : Type ℓ} {A : Type κ} (e : E) (o : Option A) (a : A) → ok_or e o ≡ ok a → o ≡ some a
some-ok_or e (some x) a h = cc h
some-ok_or e none a h = cc h
