-- ===== src/Prelude/Result.antt =====
-- src/shared/result/result.ts. An exception of the source is the error of such a result too.
use mathlib.Core.Path.{◌≡◌, refl, ap}
use mathlib.Core.Bool.{Bool, true, false}

pub data Result {ℓ κ} (A : Type ℓ) (E : Type κ) : Type (ℓ ⊔ κ) where
  ok : A → Result A E
  err : E → Result A E

module _ {ℓ κ} {A : Type ℓ} {E : Type κ} where
  abbrev pub is_ok : Result A E → Bool
  is_ok (ok a) = true
  is_ok (err e) = false

  abbrev pub is_err : Result A E → Bool
  is_err (ok a) = false
  is_err (err e) = true

  abbrev pub unwrap_or : Result A E → A → A
  unwrap_or (ok a) d = a
  unwrap_or (err e) d = d

-- `map` and `mapErr`.
abbrev pub map_ok {ℓ κ μ} :
    {A : Type ℓ} {B : Type μ} {E : Type κ} → Result A E → (A → B) → Result B E
map_ok (ok a) f = ok (f a)
map_ok (err e) f = err e

abbrev pub map_err {ℓ κ μ} :
    {A : Type ℓ} {E : Type κ} {F : Type μ} → Result A E → (E → F) → Result A F
map_err (ok a) f = ok a
map_err (err e) f = err (f e)

infixl 5 ◌>>=◌ ◌>>◌
abbrev pub ◌>>=◌ {ℓ κ μ} :
    {A : Type ℓ} {B : Type μ} {E : Type κ} → Result A E → (A → Result B E) → Result B E
ok a >>= f = f a
err e >>= f = err e

pub bind_ok {ℓ κ μ} :
    {A : Type ℓ} {B : Type μ} {E : Type κ} (f : A → Result B E) {m : Result A E} {a : A}
    → m ≡ ok a
    → (m >>= f) ≡ f a
bind_ok f h = ap (λ r. r >>= f) h

-- What a chain that succeeds has gone through.
pub bind_inv {ℓ κ μ} :
    {A : Type ℓ} {B : Type μ} {E : Type κ} (m : Result A E) (f : A → Result B E) (b : B)
    → (m >>= f) ≡ ok b
    → (a : A) × (m ≡ ok a) × (f a ≡ ok b)
bind_inv (ok a) f b h = (a, refl, h)
bind_inv (err e) f b h = absurd cc

abbrev pub ◌>>◌ {κ μ} : {B : Type μ} {E : Type κ} → Result (Unit {0}) E → Result B E → Result B E
m >> k = m >>= λ _. k

-- `if (c) throw e`.
abbrev pub throw_if {κ} : {E : Type κ} → Bool → E → Result (Unit {0}) E
throw_if true e = err e
throw_if false e = ok tt
