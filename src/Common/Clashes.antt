-- ===== src/Common/Clashes.antt =====
-- `Iterator::any`, and lists in which no entry clashes with a later one.
use mathlib.Core.Path.{◌≡◌, refl}
use mathlib.Core.Bool.{Bool, true, false, ◌||◌}
use mathlib.Core.List.{List, [], ◌∷◌, ◌++◌}
use kobako.Common.Lists.{All}

module _ {ℓ} {A : Type ℓ} where
  abbrev pub any : (A → Bool) → List A → Bool
  any f [] = false
  any f (x ∷ xs) = f x || any f xs

  abbrev pub Apart : (A → A → Bool) → List A → Type ℓ
  Apart clash [] = Unit {ℓ}
  Apart clash (x ∷ xs) = All (λ y. clash x y ≡ false) xs × Apart clash xs

pub or_false : (a b : Bool) → (a || b) ≡ false → (a ≡ false) × (b ≡ false)
or_false true b h = cc
or_false false b h = (refl, h)

module _ {ℓ κ} {A : Type ℓ} (P : A → Type κ) where
  pub All-append_one : (xs : List A) (y : A) → All P xs → P y → All P (xs ++ y ∷ [])
  All-append_one [] y hs h = (h, tt)
  All-append_one (x ∷ xs) y (hx, hs) h = (hx, All-append_one xs y hs h)

module _ {ℓ} {A : Type ℓ} (clash : A → A → Bool) where
  pub Apart-append_one :
      (xs : List A) (y : A)
      → Apart clash xs
      → any (λ x. clash x y) xs ≡ false
      → Apart clash (xs ++ y ∷ [])
  Apart-append_one [] y hs h = (tt, tt)
  Apart-append_one (x ∷ xs) y (hx, hs) h =
      let (here, later) = or_false (clash x y) (any (λ x. clash x y) xs) h in
      (All-append_one (λ y. clash x y ≡ false) xs y hx here, Apart-append_one xs y hs later)
