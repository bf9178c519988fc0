-- ===== src/Host/Handles/Ids.antt =====
-- The ids that the table issues.
use kobako.Common.{
  ℕ, zero, suc, ◌-◌, ◌%◌, ◌^◌, ◌≤◌, ◌<◌, ◌≡◌, ◌≢◌, ◌∙◌, sym, refl, ap, none, some, List, [], ◌∷◌,
  ◌++◌, arith, true, false, length, length-append, get_elem?, ok, err, ok-injective, subst, leb,
  ◌==◌,
}
use kobako.Transport.Fault.{internal}
use kobako.Host.Handles.{HandleTable, max_handle_id, out_of_handles, alloc, get, alloc_handle}

-- No id was wrapped.
pub record IsTable {ℓ} {A : Type ℓ} (t : HandleTable A) : Type ℓ where
  pub within : length t.entries ≤ max_handle_id

module _ {ℓ} {A : Type ℓ} where
  get_elem?-append_new : (xs : List A) (x : A) → get_elem? (xs ++ x ∷ []) (length xs) ≡ some x
  get_elem?-append_new [] x = refl
  get_elem?-append_new (y ∷ xs) x = get_elem?-append_new xs x

  get_elem?-append_old :
      (xs : List A) (x : A) (i : ℕ) → i ≢ length xs → get_elem? (xs ++ x ∷ []) i ≡ get_elem? xs i
  get_elem?-append_old [] x zero h = absurd (h refl)
  get_elem?-append_old [] x (suc i) h = refl
  get_elem?-append_old (y ∷ xs) x zero h = refl
  get_elem?-append_old (y ∷ xs) x (suc i) h = get_elem?-append_old xs x i (λ e. h (ap suc e))

  get_elem?-length : (xs : List A) → get_elem? xs (length xs) ≡ none
  get_elem?-length [] = refl
  get_elem?-length (x ∷ xs) = get_elem?-length xs

-- What an allocation promises of the id and of the new table.
pub record Issued {ℓ} {A : Type ℓ} (object : A) (t : HandleTable A) (id : ℕ) (t' : HandleTable A)
    : Type ℓ where
  pub positive : 1 ≤ id
  pub legal : id ≤ max_handle_id
  pub fresh : get t id ≡ none
  pub bound : get t' id ≡ some object
  pub table : IsTable t'

module _ {ℓ} {A : Type ℓ} (object : A) (t : HandleTable A) where
  abbrev grown : HandleTable A
  grown = record { entries = t.entries ++ object ∷ [] }

  length-grown : length grown.entries ≡ suc (length t.entries)
  length-grown = omega (arith, length-append t.entries (object ∷ []))

  alloc-room :
      length t.entries < max_handle_id → alloc_handle object t ≡ ok (suc (length t.entries), grown)
  unfolding alloc alloc_handle
  alloc-room lt = rw (alloc_handle, alloc, test, id)
    where
      test : leb max_handle_id (length t.entries % 2 ^ 32) ≡ false
      test = ground arith

      id : length grown.entries % 2 ^ 32 ≡ suc (length t.entries)
      id = omega (arith, length-grown)

  alloc-full :
      length t.entries ≡ max_handle_id
      → alloc_handle object t ≡ err (record { kind = internal; message = out_of_handles })
  unfolding alloc alloc_handle
  alloc-full e = rw (alloc_handle, alloc, test)
    where
      test : leb max_handle_id (length t.entries % 2 ^ 32) ≡ true
      test = ground arith

  get-suc : (u : HandleTable A) (n : ℕ) → get u (suc n) ≡ get_elem? u.entries n
  unfolding get
  get-suc u n = rw (nonzero, back)
    where
      nonzero : (suc n == 0) ≡ false
      nonzero = ground arith

      back : suc n - 1 ≡ n
      back = omega arith

  get-others : (j : ℕ) → j ≢ suc (length t.entries) → get grown j ≡ get t j
  unfolding get
  get-others zero h = refl
  get-others (suc j) h =
      get-suc grown j
      ∙ get_elem?-append_old t.entries object j (λ e. h (ap suc e))
      ∙ sym (get-suc t j)

  grown-Issued : length t.entries < max_handle_id → Issued object t (suc (length t.entries)) grown
  grown-Issued lt = record {
    positive = omega arith;
    legal = lt;
    fresh = get-suc t (length t.entries) ∙ get_elem?-length t.entries;
    bound = get-suc grown (length t.entries) ∙ get_elem?-append_new t.entries object;
    table = record { within = omega (arith, length-grown) };
  }

-- While fewer than 2 ^ 31 - 1 objects are bound, binding one issues a legal id that was not bound,
-- under which it is found, and the new table holds no more than 2 ^ 31 - 1 objects.
pub alloc-Issued {ℓ} :
    {A : Type ℓ} (object : A) (t : HandleTable A)
    → length t.entries < max_handle_id
    → (id : ℕ) × (t' : HandleTable A) × (alloc_handle object t ≡ ok (id, t'))
      × Issued object t id t'
alloc-Issued object t lt =
    (suc (length t.entries), grown object t, alloc-room object t lt, grown-Issued object t lt)

-- At 2 ^ 31 - 1 bound objects the next binding is refused as an internal Fault, before an id could
-- wrap.
pub alloc_handle-full {ℓ} :
    {A : Type ℓ} (object : A) (t : HandleTable A)
    → length t.entries ≡ max_handle_id
    → alloc_handle object t ≡ err (record { kind = internal; message = out_of_handles })
alloc_handle-full = alloc-full

-- While fewer than 2 ^ 31 - 1 objects are bound, binding one leaves what every other id resolves to.
pub alloc_handle-others {ℓ} :
    {A : Type ℓ} (object : A) (t t' : HandleTable A) (id j : ℕ)
    → length t.entries < max_handle_id
    → alloc_handle object t ≡ ok (id, t')
    → j ≢ id
    → get t' j ≡ get t j
alloc_handle-others {A} object t t' id j lt e h =
    subst (λ u. get u j ≡ get t j) (ap (λ r. r.1) same)
      (get-others object t j (λ q. h (q ∙ ap (λ r. r.0) same)))
  where
    same : ◌≡◌ {A = ℕ × HandleTable A} (suc (length t.entries), grown object t) (id, t')
    same = ok-injective (sym (alloc-room object t lt) ∙ e)
