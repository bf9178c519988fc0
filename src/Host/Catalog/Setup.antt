-- ===== src/Host/Catalog/Setup.antt =====
-- What holds of a Catalog however it was filled.
use kobako.Common.{
  ℕ, ◌≡◌, refl, sym, ap, subst, Bool, true, false, Option, List, [], ◌∷◌, ◌++◌, any, bytes_eq,
  Apart, All, All-append_one, Apart-append_one, ok, ok-injective, required, refused,
}
use kobako.Transport.Preamble.Bodies.{Snippet, Snippets, Flag, source, bytecode}
use kobako.Transport.Preamble.{Preamble}
use kobako.Host.Names.{is_constant_name, is_constant_path, is_reserved}
use kobako.Host.Snippets.{named, register_source, register_binary}
use kobako.Host.Snippets.Replay.{same_name, Apart-compile}
use kobako.Host.Catalog.{Catalog, default, clash, paths, collides, bind, flag, compile}

abbrev pub IsServicePath : List ℕ → Type 0
IsServicePath path = (is_constant_path path ≡ true) × (is_reserved path ≡ false)

abbrev pub same_flag : Flag → Flag → Bool
same_flag f g = bytes_eq f.name g.name

pub record IsCatalog {ℓ} {A : Type ℓ} (c : Catalog A) : Type ℓ where
  pub named : All IsServicePath (paths c.bindings)
  pub apart : Apart clash (paths c.bindings)
  pub snippets : Apart same_name c.snippets.entries
  pub flags : Apart same_flag c.flags

-- The registrations of a Sandbox, in any order.
pub data Filled {ℓ} {A : Type ℓ} : Catalog A → Type ℓ where
  start : Filled default
  bound :
      {c c' : Catalog A} (path : List ℕ) (object : A)
      → Filled c
      → bind path object c ≡ ok c'
      → Filled c'
  flagged :
      {c c' : Catalog A} (name value : List ℕ) (critical : Bool)
      → Filled c
      → flag name value critical c ≡ ok c'
      → Filled c'
  preloaded :
      {c : Catalog A} {t : Snippets} (name body : List ℕ)
      → Filled c
      → register_source name body c.snippets ≡ ok t
      → Filled (record c { snippets = t })
  binary :
      {c : Catalog A} (body : List ℕ)
      → Filled c
      → Filled (record c { snippets = register_binary body c.snippets })
  compiled :
      {c : Catalog A} (runtime : Preamble → Option (List (List ℕ)))
      → Filled c
      → Filled (compile runtime c)

pub record Bound {ℓ} {A : Type ℓ} (path : List ℕ) (object : A) (c c' : Catalog A) : Type ℓ where
  pub constant : is_constant_path path ≡ true
  pub unreserved : is_reserved path ≡ false
  pub free : collides path c ≡ false
  pub grown : c' ≡ record c { bindings = c.bindings ++ (path, object) ∷ [] }

module _ {ℓ} {A : Type ℓ} where
  pub bind-Bound :
      (path : List ℕ) (object : A) (c : Catalog A) {c' : Catalog A}
      → bind path object c ≡ ok c'
      → Bound path object c c'
  unfolding bind
  bind-Bound path object c e =
      let (constant, e1) = required (is_constant_path path) _ e in
      let (unreserved, e2) = refused (is_reserved path) _ e1 in
      let (free, e3) = refused (collides path c) _ e2 in
      record {
        constant = constant;
        unreserved = unreserved;
        free = free;
        grown = sym (ok-injective e3);
      }

  paths-append_one :
      (bs : List (List ℕ × A)) (path : List ℕ) (object : A)
      → paths (bs ++ (path, object) ∷ []) ≡ paths bs ++ path ∷ []
  paths-append_one [] path object = refl
  paths-append_one ((p, o) ∷ bs) path object = ap (λ ps. p ∷ ps) (paths-append_one bs path object)

  bind-IsCatalog :
      (path : List ℕ) (object : A) (c : Catalog A) {c' : Catalog A}
      → bind path object c ≡ ok c'
      → IsCatalog c
      → IsCatalog c'
  unfolding collides
  bind-IsCatalog path object c e h =
      let b = bind-Bound path object c e in
      subst IsCatalog (sym b.grown) (record {
        named = rw (paths-append_one c.bindings path object) (
            All-append_one IsServicePath (paths c.bindings) path h.named
              (b.constant, b.unreserved));
        apart =
            rw (paths-append_one c.bindings path object)
              (Apart-append_one clash (paths c.bindings) path h.apart b.free);
        snippets = h.snippets;
        flags = h.flags;
      })

  flag-IsCatalog :
      (name value : List ℕ) (critical : Bool) (c : Catalog A) {c' : Catalog A}
      → flag name value critical c ≡ ok c'
      → IsCatalog c
      → IsCatalog c'
  unfolding flag
  flag-IsCatalog name value critical c e h =
      let (free, e1) = refused (any (λ f. bytes_eq f.name name) c.flags) _ e in
      subst IsCatalog (ok-injective e1) (record {
        named = h.named;
        apart = h.apart;
        snippets = h.snippets;
        flags = Apart-append_one same_flag c.flags _ h.flags free;
      })

register_source-Apart :
    (name body : List ℕ) (t : Snippets) {t' : Snippets}
    → register_source name body t ≡ ok t'
    → Apart same_name t.entries
    → Apart same_name t'.entries
unfolding register_source
register_source-Apart name body t e h =
    let (constant, e1) = required (is_constant_name name) _ e in
    let (free, e2) = refused (any (named name) t.entries) _ e1 in
    subst (λ t'. Apart same_name t'.entries) (ok-injective e2)
      (Apart-append_one same_name t.entries (source name body) h free)

no_bytecode_clash :
    (body : List ℕ) (es : List Snippet) → any (λ x. same_name x (bytecode body)) es ≡ false
no_bytecode_clash body [] = refl
no_bytecode_clash body (e ∷ es) = no_bytecode_clash body es

module _ {ℓ} {A : Type ℓ} where
  with_snippets :
      {c : Catalog A} {t : Snippets}
      → Apart same_name t.entries
      → IsCatalog c
      → IsCatalog (record c { snippets = t })
  with_snippets s h = record { named = h.named; apart = h.apart; snippets = s; flags = h.flags }

-- However a Catalog was filled and compiled, its Service paths are constant paths outside the
-- reserved namespace of which none equals or stands under another, and no two of its source snippets
-- and no two of its flags share a name.
pub Filled-IsCatalog {ℓ} : {A : Type ℓ} (c : Catalog A) → Filled c → IsCatalog c
unfolding register_binary compile
Filled-IsCatalog c start = record { named = tt; apart = tt; snippets = tt; flags = tt }
Filled-IsCatalog c' (bound {c} path object f e) =
    bind-IsCatalog path object c e (Filled-IsCatalog c f)
Filled-IsCatalog c' (flagged {c} name value critical f e) =
    flag-IsCatalog name value critical c e (Filled-IsCatalog c f)
Filled-IsCatalog _ (preloaded {c} name body f e) =
    let h = Filled-IsCatalog c f in
    with_snippets (register_source-Apart name body c.snippets e h.snippets) h
Filled-IsCatalog _ (binary {c} body f) =
    let h = Filled-IsCatalog c f in
    with_snippets
      (Apart-append_one same_name c.snippets.entries (bytecode body) h.snippets
        (no_bytecode_clash body c.snippets.entries))
      h
Filled-IsCatalog _ (compiled {c} runtime f) =
    let h = Filled-IsCatalog c f in
    with_snippets (Apart-compile (runtime _) c.snippets h.snippets) h
