-- ===== src/Common/Outcomes.antt =====
-- `Result<T, E>`, with the `?` operator as the bind of a `do` block.
use mathlib.Core.Path.{◌≡◌, refl}
use mathlib.Core.Logic.{◌⊎◌, inl, inr}
use mathlib.Core.Option.{Option, none, some}
use mathlib.Core.Bool.{Bool, true, false}
use kobako.Common.Tests.{if◌then◌else◌}

pub data Result {ℓ κ} (A : Type ℓ) (E : Type κ) : Type (ℓ ⊔ κ) where
  ok : A → Result A E
  err : E → Result A E

-- `ok_or`
abbrev pub ok_or {ℓ κ} : {A : Type ℓ} {E : Type κ} → Option A → E → Result A E
ok_or none e = err e
ok_or (some a) e = ok a

pub ok-injective {ℓ κ} :
    {A : Type ℓ} {E : Type κ} {a b : A} → ◌≡◌ {A = Result A E} (ok a) (ok b) → a ≡ b
ok-injective e = cc

-- The `?` operator: a `do` block over results. Modules that run another monad do not take it.
infixl 5 ◌>>=◌
abbrev pub ◌>>=◌ {ℓ κ μ} :
    {A : Type ℓ} {B : Type κ} {E : Type μ} → Result A E → (A → Result B E) → Result B E
ok a >>= f = f a
err e >>= f = err e

abbrev pub map_ok {ℓ κ μ} :
    {A : Type ℓ} {B : Type κ} {E : Type μ} → (A → B) → Result A E → Result B E
map_ok f (ok a) = ok (f a)
map_ok f (err e) = err e

module _ {ℓ κ μ} {A : Type ℓ} {B : Type κ} {E : Type μ} (g : A → Result B E) where
  -- Where a chain fails, its first step does or the rest does from the first step's value; where it
  -- succeeds, so does each step.
  pub err_inv :
      (first : Result A E) {e : E}
      → (first >>= g) ≡ err e
      → (first ≡ err e) ⊎ ((a : A) × (first ≡ ok a) × (g a ≡ err e))
  err_inv (err e) p = inl (cc)
  err_inv (ok a) p = inr (a, refl, p)

  pub ok_inv :
      (first : Result A E) {b : B} → (first >>= g) ≡ ok b → (a : A) × (first ≡ ok a) × (g a ≡ ok b)
  ok_inv (err e) p = cc
  ok_inv (ok a) p = (a, refl, p)

pub Result-cases {ℓ κ} :
    {A : Type ℓ} {E : Type κ} (r : Result A E) → ((a : A) × (r ≡ ok a)) ⊎ ((e : E) × (r ≡ err e))
Result-cases (ok a) = inl (a, refl)
Result-cases (err e) = inr (e, refl)

module _ {ℓ κ} {A : Type ℓ} {E : Type κ} where
  -- The tests that a success passed, those that refuse on `false` and those that refuse on `true`.
  pub required :
      (b : Bool) (e : E) {r : Result A E} {a : A}
      → (if b then r else err e) ≡ ok a
      → (b ≡ true) × (r ≡ ok a)
  required true e h = (refl, h)
  required false e h = cc

  pub refused :
      (b : Bool) (e : E) {r : Result A E} {a : A}
      → (if b then err e else r) ≡ ok a
      → (b ≡ false) × (r ≡ ok a)
  refused true e h = cc
  refused false e h = (refl, h)
