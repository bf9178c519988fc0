-- ===== src/Host/Catalog.antt =====
-- crates/kobako/src/catalog.rs: the registry of one Sandbox, with receivers of an arbitrary type. The
-- Grants are left out: no operation below reads them.
pub mod Setup
pub mod Lookup
use kobako.Common.{
  ℕ, Bool, Option, none, some, List, [], ◌∷◌, ◌++◌, ◌||◌, any, bytes_eq, if◌then◌else◌, Result, ok,
  err,
}
use kobako.Transport.Preamble.Bodies.{Snippets, Flag}
use kobako.Transport.Preamble.{Preamble}
use kobako.Host.Names.{is_constant_path, is_reserved, starts_with, under}
use kobako.Host.Snippets
use kobako.Host.Snippets.{Error, not_a_path, reserved, conflicting, already_set}

pub record Catalog {ℓ} (A : Type ℓ) : Type ℓ where
  pub bindings : List (List ℕ × A)
  pub snippets : Snippets
  pub flags : List Flag

abbrev pub clash : List ℕ → List ℕ → Bool
clash existing path =
    bytes_eq existing path || starts_with existing (under path) || starts_with path (under existing)

abbrev pub paths {ℓ} : {A : Type ℓ} → List (List ℕ × A) → List (List ℕ)
paths [] = []
paths ((path, object) ∷ rest) = path ∷ paths rest

abbrev pub find {ℓ} : {A : Type ℓ} → List ℕ → List (List ℕ × A) → Option A
find path [] = none
find path ((p, object) ∷ rest) = if bytes_eq p path then some object else find path rest

module _ {ℓ} {A : Type ℓ} where
  -- `Catalog::default`
  abbrev pub default : Catalog A
  default = record { bindings = []; snippets = record { entries = [] }; flags = [] }

  unfoldable pub collides : List ℕ → Catalog A → Bool
  collides path c = any (λ existing. clash existing path) (paths c.bindings)

  unfoldable pub bind : List ℕ → A → Catalog A → Result (Catalog A) Error
  unfolding is_constant_path is_reserved collides
  bind path object c =
      if is_constant_path path
      then (if is_reserved path
          then err (reserved path)
          else if collides path c
          then err (conflicting path)
          else ok (record c { bindings = c.bindings ++ (path, object) ∷ [] }))
      else err (not_a_path path)

  unfoldable pub lookup : List ℕ → Catalog A → Option A
  lookup path c = find path c.bindings

  unfoldable pub flag : List ℕ → List ℕ → Bool → Catalog A → Result (Catalog A) Error
  flag name value critical c =
      if any (λ f. bytes_eq f.name name) c.flags
      then err (already_set name)
      else ok (record c {
        flags = c.flags ++ record { name = name; value = value; critical = critical } ∷ [];
      })

  unfoldable pub preamble : Catalog A → Preamble
  preamble c = record {
    bindings = record { paths = paths c.bindings };
    snippets = c.snippets;
    flags = c.flags;
  }

  unfoldable pub compile : (Preamble → Option (List (List ℕ))) → Catalog A → Catalog A
  unfolding Snippets.compile preamble
  compile runtime c = record c { snippets = Snippets.compile (runtime (preamble c)) c.snippets }
