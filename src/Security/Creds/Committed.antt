-- ===== src/Security/Creds/Committed.antt =====
-- crates/kobako-runtime/src/vfs/cred.rs: the bytes held on a caller's behalf. Each update is one
-- atomic step, so a run is a sequence of them.
use kobako.Common.{
  ℕ, ◌+◌, ◌-◌, ◌^◌, ◌≤◌, ◌≡◌, refl, true, List, [], ◌∷◌, ◌&&◌, ltb, leb, if◌then◌else◌, arith,
  Result, ok, err, required, ok-injective, sym,
}
use kobako.Security.Files.{FilesystemError, out_of_memory}

pub record VmCommitted : Type 0 where
  pub limit : ℕ
  pub used : ℕ

-- `checked_add` and the filter on its sum
unfoldable pub security_vm_enough_memory : ℕ → VmCommitted → Result VmCommitted FilesystemError
security_vm_enough_memory bytes c =
    if ltb (c.used + bytes) (2 ^ 64) && leb (c.used + bytes) c.limit
    then ok (record c { used = c.used + bytes })
    else err out_of_memory

-- `fetch_sub` wraps.
unfoldable pub vm_unacct_memory : ℕ → VmCommitted → VmCommitted
vm_unacct_memory bytes c =
    if leb bytes c.used
    then record c { used = c.used - bytes }
    else record c { used = c.used + 2 ^ 64 - bytes }

-- One charge taken out of those that are held.
pub data Removed : ℕ → List ℕ → List ℕ → Type 0 where
  here : {bytes : ℕ} {charges : List ℕ} → Removed bytes (bytes ∷ charges) charges
  there :
      {bytes x : ℕ} {charges rest : List ℕ}
      → Removed bytes charges rest
      → Removed bytes (x ∷ charges) (x ∷ rest)

-- The bytes held by callers, charged and given back in any order; `charges` are those still held.
pub data Held : List ℕ → VmCommitted → Type 0 where
  none_held : (limit : ℕ) → Held [] (record { limit = limit; used = 0 })
  charged :
      {charges : List ℕ} {c c' : VmCommitted} (bytes : ℕ)
      → Held charges c
      → security_vm_enough_memory bytes c ≡ ok c'
      → Held (bytes ∷ charges) c'
  returned :
      {charges rest : List ℕ} {c : VmCommitted} (bytes : ℕ)
      → Held charges c
      → Removed bytes charges rest
      → Held rest (vm_unacct_memory bytes c)

abbrev pub sum : List ℕ → ℕ
sum [] = 0
sum (x ∷ xs) = x + sum xs

Removed-sum :
    {bytes : ℕ} {charges rest : List ℕ}
    → Removed bytes charges rest
    → sum charges ≡ bytes + sum rest
Removed-sum here = refl
Removed-sum (there {bytes} {x} r) = omega (arith, Removed-sum r)

-- Whatever was charged and given back, in any order, the count is what callers still hold, it is
-- within the limit, and giving back never wrapped.
pub Held-sum :
    (charges : List ℕ) (c : VmCommitted)
    → Held charges c
    → (c.used ≡ sum charges) × (c.used ≤ c.limit)
unfolding security_vm_enough_memory vm_unacct_memory
Held-sum _ _ (none_held limit) = (refl, omega arith)
Held-sum _ _ (charged {charges} {c} {c'} bytes h e) =
    let (total, within) = Held-sum charges c h in
    let (fits, done) =
      required (ltb (c.used + bytes) (2 ^ 64) && leb (c.used + bytes) c.limit) _ e in
    rw (sym (ok-injective done)) (omega (arith, total), bounded fits)
  where
    bounded :
        (ltb (c.used + bytes) (2 ^ 64) && leb (c.used + bytes) c.limit) ≡ true
        → c.used + bytes ≤ c.limit
    bounded fits = ground arith
Held-sum _ _ (returned {charges} {rest} {c} bytes h r) =
    let (total, within) = Held-sum charges c h in
    let enough : leb bytes c.used ≡ true = ground (arith, total, Removed-sum r) in
    rw enough (omega (arith, total, Removed-sum r), omega (arith, within))
