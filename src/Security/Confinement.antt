-- ===== src/Security/Confinement.antt =====
-- What a guest was allowed once the modules of a caller let a call through.
mod Modules
use kobako.Common.{
  ℕ, zero, suc, ◌≡◌, ◌<◌, ◌⊎◌, inl, inr, refl, sym, ap, subst, Bool, true, false, ◌&&◌, not, Option,
  none, some, List, [], ◌∷◌, ◌++◌, length, leb, ◌==◌, get_elem?, All, arith, if◌then◌else◌, ok,
  required, refused, ok-injective, Bool-cases,
}
use kobako.Common.Outcomes.{ok_inv}
use kobako.Security.Files.{FileType, Access, read, read_write, FMode}
use kobako.Security.OpenFlags.{OpenHow}
use kobako.Security.Creds.{
  Verdict, SecurityPath, Dentry, Blob, allowed_access, SecurityOperations, call_int_hook,
  security_file_open, security_file_truncate, with_modules,
}
use kobako.Security.MountPolicies.{
  path_max, MountPolicy, Mount, guards, guest_path, path_perm, access_of, policy_file_open,
  policy_file_truncate, policy_path_link, policy_path_rename, mount_policy, policies_of,
  restrict_self, is_dir,
}
use kobako.Security.Confinement.Modules.{
  All-right, All-call_int_hook, policy_module, Truncated, All-truncate,
}

-- The Policy was asked about the guest path that `path` stands for, and allowed it.
pub record Judged (p : MountPolicy) (path : SecurityPath) (access : Access) : Type 0 where
  pub short : length (guest_path p path.name) < path_max
  pub allowed : p.policy (guest_path p path.name) access ≡ true

path_perm-Judged :
    (p : MountPolicy) (path : SecurityPath) (access : Access)
    → path_perm p path access ≡ ok tt
    → guards p path.mnt ≡ true
    → Judged p path access
unfolding path_perm
path_perm-Judged p path access e g =
    let (long, e1) = refused (leb path_max (length (guest_path p path.name))) _ (rw g at e) in
    let (allowed, e2) = required (p.policy (guest_path p path.name) access) _ e1 in
    record { short = ground arith; allowed = allowed }

-- A change of the Filesystem's entries that the modules are asked about, with what they are told.
pub data Change : Type 0 where
  mknod mkdir rmdir unlink symlink utimes : SecurityPath → Change
  link : (old new : SecurityPath) → Change
  rename : (old new : SecurityPath) (old_dentry new_dentry : Dentry) → Change

-- The hook that judges it.
abbrev pub hook : {B : Type 0} → Change → SecurityOperations B → Verdict
hook (mknod path) m = m.path_mknod path
hook (mkdir path) m = m.path_mkdir path
hook (rmdir path) m = m.path_rmdir path
hook (unlink path) m = m.path_unlink path
hook (symlink path) m = m.path_symlink path
hook (utimes path) m = m.path_utimes path
hook (link old new) m = m.path_link old new
hook (rename old new old_dentry new_dentry) m = m.path_rename old new old_dentry new_dentry

-- The paths that it changes.
abbrev pub changed : Change → List SecurityPath
changed (mknod path) = path ∷ []
changed (mkdir path) = path ∷ []
changed (rmdir path) = path ∷ []
changed (unlink path) = path ∷ []
changed (symlink path) = path ∷ []
changed (utimes path) = path ∷ []
changed (link old new) = old ∷ new ∷ []
changed (rename old new old_dentry new_dentry) = old ∷ new ∷ []

hook-path_perm :
    (B : Type 0) (p : MountPolicy) (change : Change)
    → hook change (mount_policy {B = B} p) ≡ ok tt
    → All (λ path. path_perm p path read_write ≡ ok tt) (changed change)
unfolding mount_policy policy_path_link policy_path_rename
hook-path_perm B p (mknod path) e = (e, tt)
hook-path_perm B p (mkdir path) e = (e, tt)
hook-path_perm B p (rmdir path) e = (e, tt)
hook-path_perm B p (unlink path) e = (e, tt)
hook-path_perm B p (symlink path) e = (e, tt)
hook-path_perm B p (utimes path) e = (e, tt)
hook-path_perm B p (link old new) e =
    let (u, from, to) = ok_inv (λ u. path_perm p new read_write) (path_perm p old read_write) e in
    (from, (to, tt))
hook-path_perm B p (rename old new old_dentry new_dentry) e =
    let (u, from, e1) = ok_inv _ (path_perm p old read_write) e in
    let (v, to, e2) = ok_inv _ (path_perm p new read_write) e1 in (from, (to, tt))

All-get_elem? :
    {A : Type 0} (P : A → Type 0) (xs : List A) (i : ℕ) {x : A}
    → All P xs
    → get_elem? xs i ≡ some x
    → P x
All-get_elem? P [] i h there = cc
All-get_elem? P (y ∷ ys) zero (h, hs) there =
    subst P (ap (λ r. elim r [ none ↦ y | some x ↦ x ]) there) h
All-get_elem? P (y ∷ ys) (suc i) (h, hs) there = All-get_elem? P ys i hs there

-- The Policy of a Mount, as a module.
abbrev pub module_of : Mount → (List ℕ → Access → Bool) → MountPolicy
module_of mount policy = record { mnt = mount.mnt; at = mount.at; policy = policy }

-- Whatever modules a caller had, once it is restricted by its Mounts, every change that its modules
-- let through (a making or removing of an entry, a symbolic or hard link, a rename, a setting of
-- times) was put, for every path it changes, to each Policy that guards that path's mount, under a
-- guest path below PATH_MAX, and that Policy allowed the guest to change it.
pub restrict_self-Judged :
    {B : Type 0} (security : List (SecurityOperations B)) (mounts : List Mount) (i : ℕ)
    (mount : Mount) (policy : List ℕ → Access → Bool) (change : Change) (j : ℕ)
    (path : SecurityPath)
    → get_elem? mounts i ≡ some mount
    → mount.policy ≡ some policy
    → call_int_hook (hook change) (restrict_self security mounts) ≡ ok tt
    → get_elem? (changed change) j ≡ some path
    → guards (module_of mount policy) path.mnt ≡ true
    → Judged (module_of mount policy) path read_write
unfolding restrict_self with_modules
restrict_self-Judged {B} security mounts i mount policy change j path there e passed its g =
    path_perm-Judged (module_of mount policy) path read_write
      (All-get_elem? _ (changed change) j (hook-path_perm B (module_of mount policy) change asked)
        its)
      g
  where
    asked : hook {B = B} change (mount_policy (module_of mount policy)) ≡ ok tt
    asked =
        policy_module (λ m. hook change m ≡ ok tt) mounts i
          (All-right _ security (policies_of mounts)
            (All-call_int_hook (hook change) (security ++ policies_of mounts) passed))
          there e

-- Both paths of a rename were judged, and it moves no directory to another name.
pub record Unmoved (p : MountPolicy) (old new : SecurityPath) (old_dentry new_dentry : Dentry)
    : Type 0 where
  pub source : Judged p old read_write
  pub target : Judged p new read_write
  pub not_a_tree : (is_dir old_dentry.kind && not (old_dentry.id == new_dentry.id)) ≡ false

truncate-read_write :
    (B : Type 0) (access : Access)
    → policy_file_truncate {B = B} (some (allowed_access access)) ≡ ok tt
    → access ≡ read_write
unfolding policy_file_truncate
truncate-read_write B read e = cc
truncate-read_write B read_write e = refl

module _ {A : Type 0} (x y : A) {r : A} where
  if_true : (b : Bool) → b ≡ true → (if b then x else y) ≡ r → x ≡ r
  if_true true h e = e
  if_true false h e = cc

  if_false : (b : Bool) → b ≡ false → (if b then x else y) ≡ r → y ≡ r
  if_false true h e = cc
  if_false false h e = e

policy-truncate :
    {B : Type 0} (p : MountPolicy) (path : SecurityPath) (mode : FMode) (how : OpenHow)
    (kept : Option (Blob B))
    → guards p path.mnt ≡ true
    → policy_file_open p path mode how ≡ ok kept
    → policy_file_truncate kept ≡ ok tt
    → (mode.created ≡ true) ⊎ Judged p path read_write
unfolding policy_file_open
policy-truncate {B} p path mode how kept g opened truncated = elim (Bool-cases mode.created) [
  | inl made ↦ inl made
  | inr found ↦
      let (u, judged, e) =
        ok_inv (λ u. ok (some (allowed_access (access_of mode how))))
          (path_perm p path (access_of mode how))
          (if_false _ _ mode.created found (if_true _ _ (guards p path.mnt) g opened)) in
      let changing =
        truncate-read_write B (access_of mode how) (rw (sym (ok-injective e)) at truncated) in
      inr (subst (Judged p path) changing (path_perm-Judged p path (access_of mode how) judged g))
]

-- Whatever modules a caller had, once it is restricted by its Mounts, a file that it opened and may
-- later truncate through the descriptor was made by that open, or each Policy that guards the path it
-- was opened at allowed the guest to change it there, under a guest path below PATH_MAX.
pub truncate-Judged :
    {B : Type 0} (security : List (SecurityOperations B)) (mounts : List Mount) (i : ℕ)
    (mount : Mount) (policy : List ℕ → Access → Bool) (path : SecurityPath) (kind : FileType)
    (mode : FMode) (how : OpenHow) (kept : List (Option (Blob B)))
    → get_elem? mounts i ≡ some mount
    → mount.policy ≡ some policy
    → guards (module_of mount policy) path.mnt ≡ true
    → security_file_open path kind mode how (restrict_self security mounts) ≡ ok kept
    → security_file_truncate kept (restrict_self security mounts) ≡ ok tt
    → (mode.created ≡ true) ⊎ Judged (module_of mount policy) path read_write
unfolding restrict_self with_modules mount_policy
truncate-Judged security mounts i mount policy path kind mode how kept there e g opened truncated =
    let (k, o, t) =
      policy_module (Truncated path kind mode how) mounts i
        (All-right _ security (policies_of mounts)
          (All-truncate path kind mode how (security ++ policies_of mounts) opened truncated))
        there e in
    policy-truncate (module_of mount policy) path mode how k g o t

policy-rename :
    (p : MountPolicy) (old new : SecurityPath) (old_dentry new_dentry : Dentry)
    → guards p old.mnt ≡ true
    → guards p new.mnt ≡ true
    → policy_path_rename p old new old_dentry new_dentry ≡ ok tt
    → Unmoved p old new old_dentry new_dentry
unfolding policy_path_rename
policy-rename p old new old_dentry new_dentry from_here to_here e =
    let (u, from, e1) = ok_inv _ (path_perm p old read_write) e in
    let (v, to, e2) = ok_inv _ (path_perm p new read_write) e1 in
    let moves = is_dir old_dentry.kind && not (old_dentry.id == new_dentry.id) in
    let (stays, done) = refused (moves && guards p old.mnt) _ e2 in
    record {
      source = path_perm-Judged p old read_write from from_here;
      target = path_perm-Judged p new read_write to to_here;
      not_a_tree = alone moves (guards p old.mnt) from_here stays;
    }
  where
    alone : (a b : Bool) → b ≡ true → (a && b) ≡ false → a ≡ false
    alone true b h e = cc
    alone false b h e = refl

-- Whatever modules a caller had, once it is restricted by its Mounts, a rename between paths of a
-- mount that a Policy guards, let through by the caller's modules, had both paths allowed by that
-- Policy as changes, under guest paths below PATH_MAX, and moves no directory to another name.
pub restrict_self-Unmoved :
    {B : Type 0} (security : List (SecurityOperations B)) (mounts : List Mount) (i : ℕ)
    (mount : Mount) (policy : List ℕ → Access → Bool) (old new : SecurityPath)
    (old_dentry new_dentry : Dentry)
    → get_elem? mounts i ≡ some mount
    → mount.policy ≡ some policy
    → guards (module_of mount policy) old.mnt ≡ true
    → guards (module_of mount policy) new.mnt ≡ true
    → call_int_hook
        (λ m. m.path_rename old new old_dentry new_dentry)
        (restrict_self security mounts)
      ≡ ok tt
    → Unmoved (module_of mount policy) old new old_dentry new_dentry
unfolding restrict_self with_modules mount_policy
restrict_self-Unmoved security mounts i mount policy old new old_dentry new_dentry there e from to
      passed =
    policy-rename (module_of mount policy) old new old_dentry new_dentry from to (
      policy_module (λ m. m.path_rename old new old_dentry new_dentry ≡ ok tt) mounts i
        (All-right _ security (policies_of mounts) (
          All-call_int_hook (λ m. m.path_rename old new old_dentry new_dentry)
            (security ++ policies_of mounts) passed))
        there e)
