-- ===== src/Security/Confinement/Modules.antt =====
-- What every module of a caller answered (crates/kobako-runtime/src/vfs/cred.rs), among them those of its
-- Mounts (security.rs).
use kobako.Common.{
  ℕ, zero, suc, ◌≡◌, refl, sym, ap, subst, Bool, Option, none, some, List, [], ◌∷◌, ◌++◌, get_elem?,
  All, ok, ok-injective,
}
use kobako.Common.Outcomes.{ok_inv}
use kobako.Security.Files.{FileType, Access, FMode}
use kobako.Security.OpenFlags.{OpenHow}
use kobako.Security.Creds.{
  Verdict, SecurityPath, Blob, SecurityOperations, call_int_hook, security_file_open,
  security_file_truncate,
}
use kobako.Security.MountPolicies.{Mount, mount_policy, policies_of}

module _ {B : Type 0} where
  pub All-right :
      (P : SecurityOperations B → Type 0) (xs ys : List (SecurityOperations B))
      → All P (xs ++ ys)
      → All P ys
  All-right P [] ys h = h
  All-right P (x ∷ xs) ys (hx, hs) = All-right P xs ys hs

  pub All-call_int_hook :
      (hook : SecurityOperations B → Verdict) (modules : List (SecurityOperations B))
      → call_int_hook hook modules ≡ ok tt
      → All (λ m. hook m ≡ ok tt) modules
  unfolding call_int_hook
  All-call_int_hook hook [] e = tt
  All-call_int_hook hook (m ∷ rest) e =
      let (u, first, others) = ok_inv (λ u. call_int_hook hook rest) (hook m) e in
      (first, All-call_int_hook hook rest others)

  module _ (P : SecurityOperations B → Type 0) where
    policy_head :
        (mount : Mount) (rest : List Mount) {policy : List ℕ → Access → Bool}
        → All P (policies_of (mount ∷ rest))
        → mount.policy ≡ some policy
        → P (mount_policy (record { mnt = mount.mnt; at = mount.at; policy = policy }))
    unfolding policies_of
    policy_head mount rest h e = (rw e at h).0

    policy_tail :
        (mount : Mount) (rest : List Mount) (policy : Option (List ℕ → Access → Bool))
        → mount.policy ≡ policy
        → All P (policies_of (mount ∷ rest))
        → All P (policies_of rest)
    unfolding policies_of
    policy_tail mount rest none q h = rw q at h
    policy_tail mount rest (some policy) q h = (rw q at h).1

    -- The module that a Mount's Policy is, among those of all Mounts.
    pub policy_module :
        (mounts : List Mount) (i : ℕ) {mount : Mount} {policy : List ℕ → Access → Bool}
        → All P (policies_of mounts)
        → get_elem? mounts i ≡ some mount
        → mount.policy ≡ some policy
        → P (mount_policy (record { mnt = mount.mnt; at = mount.at; policy = policy }))
    policy_module [] i h there e = cc
    policy_module (m ∷ mounts) zero {mount} h there e =
        policy_head mount mounts (subst (λ x. All P (policies_of (x ∷ mounts))) same h) e
      where
        same : m ≡ mount
        same = ap (λ r. elim r [ none ↦ m | some x ↦ x ]) there
    policy_module (m ∷ mounts) (suc i) h there e =
        policy_module mounts i (policy_tail m mounts m.policy refl h) there e

  -- What a file was opened with, and what a truncate of it was told, module by module.
  abbrev pub Truncated : SecurityPath → FileType → FMode → OpenHow → SecurityOperations B → Type 0
  Truncated path kind mode how m =
      (kept : Option (Blob B)) × (m.file_open path kind mode how ≡ ok kept)
      × (m.file_truncate kept ≡ ok tt)

  pub All-truncate :
      (path : SecurityPath) (kind : FileType) (mode : FMode) (how : OpenHow)
      (modules : List (SecurityOperations B)) {kept : List (Option (Blob B))}
      → security_file_open path kind mode how modules ≡ ok kept
      → security_file_truncate kept modules ≡ ok tt
      → All (Truncated path kind mode how) modules
  unfolding security_file_open security_file_truncate
  All-truncate path kind mode how [] e t = tt
  All-truncate path kind mode how (m ∷ rest) {kept} e t =
      let (k, opened, e1) = ok_inv _ (m.file_open path kind mode how) e in
      let (others, rest_opened, e2) = ok_inv _ (security_file_open path kind mode how rest) e1 in
      let (u, first, last) = ok_inv _ (m.file_truncate k) (rw (sym (ok-injective e2)) at t) in
      ((k, opened, first), All-truncate path kind mode how rest rest_opened last)
