-- ===== src/Host/Catalog/Lookup.antt =====
-- Services are found by the path they were bound under.
use kobako.Common.{
  ℕ, zero, suc, ◌≡◌, ◌≢◌, refl, sym, ap, subst, true, false, ◌||◌, none, some, List, [], ◌∷◌, ◌++◌,
  arith, any, bytes_eq, Apart, All, or_false, Bool-cases, inl, inr, get_elem?, ok, bytes_eq→eq,
}
use kobako.Host.Names.{starts_with, under}
use kobako.Host.Catalog.{Catalog, clash, paths, find, collides, bind, lookup}
use kobako.Host.Catalog.Setup.{Filled, Filled-IsCatalog, bind-Bound}

bytes_eq_self : (xs : List ℕ) → bytes_eq xs xs ≡ true
bytes_eq_self [] = refl
bytes_eq_self (x ∷ xs) = ground (arith, bytes_eq_self xs)

bytes_eq-ne : (xs ys : List ℕ) → xs ≢ ys → bytes_eq xs ys ≡ false
bytes_eq-ne xs ys h = elim (Bool-cases (bytes_eq xs ys)) [
  | inl e ↦ absurd (h (bytes_eq→eq xs ys e))
  | inr e ↦ e
]

clash-differs : (p q : List ℕ) → clash p q ≡ false → bytes_eq p q ≡ false
clash-differs p q h =
    let (first, last) =
      or_false (bytes_eq p q || starts_with p (under q)) (starts_with q (under p)) h in
    (or_false (bytes_eq p q) (starts_with p (under q)) first).0

module _ {ℓ} {A : Type ℓ} where
  find-append_new :
      (bs : List (List ℕ × A)) (path : List ℕ) (object : A)
      → any (λ p. clash p path) (paths bs) ≡ false
      → find path (bs ++ (path, object) ∷ []) ≡ some object
  find-append_new [] path object h = rw (bytes_eq_self path)
  find-append_new ((p, o) ∷ bs) path object h =
      let (here, later) = or_false (clash p path) (any (λ q. clash q path) (paths bs)) h in
      rw (clash-differs p path here) (find-append_new bs path object later)

  find-append_old :
      (bs : List (List ℕ × A)) (path other : List ℕ) (object : A)
      → other ≢ path
      → find other (bs ++ (path, object) ∷ []) ≡ find other bs
  find-append_old [] path other object h = rw (bytes_eq-ne path other (λ e. h (sym e)))
  find-append_old ((p, o) ∷ bs) path other object h = elim (Bool-cases (bytes_eq p other)) [
    | inl e ↦ rw e refl
    | inr e ↦ rw e (find-append_old bs path other object h)
  ]

  All-at :
      (P : List ℕ → Type 0) (bs : List (List ℕ × A)) (i : ℕ) {path : List ℕ} {object : A}
      → All P (paths bs)
      → get_elem? bs i ≡ some (path, object)
      → P path
  All-at P [] i h e = cc
  All-at P ((p, o) ∷ bs) zero (h, hs) e = subst P (ap (λ r. elim r [ none ↦ p | some b ↦ b.0 ]) e) h
  All-at P ((p, o) ∷ bs) (suc i) (h, hs) e = All-at P bs i hs e

  find-at :
      (bs : List (List ℕ × A)) (i : ℕ) {path : List ℕ} {object : A}
      → Apart clash (paths bs)
      → get_elem? bs i ≡ some (path, object)
      → find path bs ≡ some object
  find-at [] i h e = cc
  find-at ((p, o) ∷ bs) zero {path} {object} h e = rw (same, bytes_eq_self path) (ap some (cc))
    where
      same : p ≡ path
      same = ap (λ r. elim r [ none ↦ p | some b ↦ b.0 ]) e
  find-at ((p, o) ∷ bs) (suc i) {path} {object} (h, hs) e =
      rw (clash-differs p path (All-at (λ q. clash p q ≡ false) bs i h e)) (find-at bs i hs e)

-- Binding an object under a path makes it the one that the path is looked up to.
pub lookup-bind {ℓ} :
    {A : Type ℓ} (path : List ℕ) (object : A) (c c' : Catalog A)
    → bind path object c ≡ ok c'
    → lookup path c' ≡ some object
unfolding lookup collides
lookup-bind path object c c' e =
    let b = bind-Bound path object c e in rw b.grown (find-append_new c.bindings path object b.free)

-- Binding an object under a path leaves what every other path is looked up to.
pub lookup-bind_other {ℓ} :
    {A : Type ℓ} (path other : List ℕ) (object : A) (c c' : Catalog A)
    → bind path object c ≡ ok c'
    → other ≢ path
    → lookup other c' ≡ lookup other c
unfolding lookup
lookup-bind_other path other object c c' e h =
    let b = bind-Bound path object c e in
    rw b.grown (find-append_old c.bindings path other object h)

-- However a Catalog was filled, every entry of its bindings is the one that its path is looked up
-- to: none is shadowed by an earlier one.
pub lookup-Filled {ℓ} :
    {A : Type ℓ} (c : Catalog A) (i : ℕ) (path : List ℕ) (object : A)
    → Filled c
    → get_elem? c.bindings i ≡ some (path, object)
    → lookup path c ≡ some object
unfolding lookup
lookup-Filled c i path object f e = find-at c.bindings i (Filled-IsCatalog c f).apart e
