-- ===== src/Vfs/Actions.antt =====
-- An action of a call of the virtual filesystem: it takes the state and returns it beside its result,
-- an error included. A loop on fuel that runs out is `unfinished`.
pub mod Rules
pub mod Alike
pub mod Ends
use kobako.Common.{ℕ, ◌≡◌, refl, Bool, true, false, Option, none, some, Result, ok, err}
use kobako.Security.Files.{FilesystemError}

pub data Answer {ℓ κ} (A : Type ℓ) (C : Type κ) : Type (ℓ ⊔ κ) where
  answered : A → C → Answer A C
  refused : FilesystemError → C → Answer A C
  unfinished : Answer A C

abbrev pub Act {ℓ κ} : Type ℓ → Type κ → Type (ℓ ⊔ κ)
Act C A = C → Answer A C

module _ {κ} {C : Type κ} where
  abbrev pub pure {ℓ} : {A : Type ℓ} → A → Act C A
  pure a c = answered a c

  abbrev pub fail {ℓ} : {A : Type ℓ} → FilesystemError → Act C A
  fail e c = refused e c

  abbrev pub stuck {ℓ} : {A : Type ℓ} → Act C A
  stuck c = unfinished

  abbrev pub on_answer {ℓ μ} : {A : Type ℓ} {B : Type μ} → (A → Act C B) → Answer A C → Answer B C
  on_answer k (answered a c) = k a c
  on_answer k (refused e c) = refused e c
  on_answer k unfinished = unfinished

  -- `?`
  infixl 5 ◌>>=◌
  abbrev pub ◌>>=◌ {ℓ μ} : {A : Type ℓ} {B : Type μ} → Act C A → (A → Act C B) → Act C B
  (m >>= k) c = on_answer k (m c)

  abbrev pub lift {ℓ} : {A : Type ℓ} → Result A FilesystemError → Act C A
  lift (ok a) = pure a
  lift (err e) = fail e

  abbrev pub found {ℓ} : {A : Type ℓ} → FilesystemError → Option A → Act C A
  found e none = fail e
  found e (some a) = pure a

  abbrev pub guard : Bool → FilesystemError → Act C (Unit {0})
  guard true e = pure tt
  guard false e = fail e

  -- What an answer satisfies where the loops in it end: `Q` holds of its value, `X` of its error.
  abbrev pub Meets {ℓ} :
      {A : Type ℓ} → (A → C → Type 0) → (FilesystemError → C → Type 0) → Answer A C → Type 0
  Meets Q X (answered a c) = Q a c
  Meets Q X (refused e c) = X e c
  Meets Q X unfinished = ⊥

-- From a state with `P`, the action ends, with `Q` of its value and `X` of its error.
pub record Ensures {ℓ κ} {A : Type ℓ} {C : Type κ} (P : C → Type 0) (Q : A → C → Type 0)
    (X : FilesystemError → C → Type 0) (m : Act C A) : Type κ where
  pub meets : (c : C) → P c → Meets Q X (m c)
