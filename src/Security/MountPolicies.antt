-- ===== src/Security/MountPolicies.antt =====
-- crates/kobako-runtime/src/security.rs: kobako's own rules and a Mount's Policy. The Host App's
-- Policy is a function; the revalidation of a walk's start is left out.
use kobako.Common.{
  ℕ, Bool, true, false, Option, none, some, List, [], ◌∷◌, ◌++◌, ◌||◌, ◌&&◌, not, length, leb, ◌==◌,
  bytes_eq, codes, if◌then◌else◌, Result, ok, err,
}
use kobako.Common.Outcomes.{◌>>=◌}
use kobako.Security.Files.{
  FilesystemError, permission_denied, unsupported, invalid_filename, crosses_devices, FileType,
  reg_file, dir, Access, read, read_write, FMode,
}
use kobako.Security.OpenFlags.{OpenHow}
use kobako.Security.Creds.{
  Verdict, SecurityPath, Dentry, Blob, allowed_access, SecurityOperations, allowing, with_modules,
}

abbrev pub path_max : ℕ
path_max = 4096

abbrev pub root : List ℕ
root = codes "/"

abbrev pub opens : FileType → Bool
opens reg_file = true
opens dir = true
opens _ = false

abbrev pub kobako_security : {B : Type 0} → SecurityOperations B
kobako_security = record allowing {
  file_open = λ path kind mode how. if opens kind then ok none else err permission_denied;
  inode_readlink = λ dentry. err unsupported;
}

pub record MountPolicy : Type 0 where
  pub mnt : ℕ
  pub at : List ℕ
  pub policy : List ℕ → Access → Bool

unfoldable pub guards : MountPolicy → ℕ → Bool
guards p mnt = p.mnt == mnt

unfoldable pub guest_path : MountPolicy → List ℕ → List ℕ
guest_path p path =
    if bytes_eq path root then p.at else if bytes_eq p.at root then path else p.at ++ path

unfoldable pub path_perm : MountPolicy → SecurityPath → Access → Verdict
unfolding guards guest_path
path_perm p path access =
    if guards p path.mnt
    then (if leb path_max (length (guest_path p path.name))
        then err invalid_filename
        else if p.policy (guest_path p path.name) access
        then ok tt
        else err permission_denied)
    else ok tt

-- What an open may change.
abbrev pub access_of : FMode → OpenHow → Access
access_of mode how = if mode.created || mode.write || how.truncate then read_write else read

unfoldable pub policy_file_open :
    {B : Type 0}
    → MountPolicy
    → SecurityPath
    → FMode
    → OpenHow
    → Result (Option (Blob B)) FilesystemError
unfolding path_perm
policy_file_open p path mode how =
    let judged = path_perm p path (access_of mode how) in
    if guards p path.mnt
    then (if mode.created
        then ok (some (allowed_access (access_of mode how)))
        else (do judged_ok ← judged; ok (some (allowed_access (access_of mode how)))))
    else ok none

unfoldable pub policy_file_truncate : {B : Type 0} → Option (Blob B) → Verdict
policy_file_truncate (some (allowed_access read)) = err permission_denied
policy_file_truncate _ = ok tt

abbrev pub is_dir : Result FileType FilesystemError → Bool
is_dir (ok dir) = true
is_dir _ = false

unfoldable pub policy_path_rename :
    MountPolicy → SecurityPath → SecurityPath → Dentry → Dentry → Verdict
unfolding path_perm
policy_path_rename p old new old_dentry new_dentry = do
  old_ok ← path_perm p old read_write
  new_ok ← path_perm p new read_write
  if is_dir old_dentry.kind && not (old_dentry.id == new_dentry.id) && guards p old.mnt
      then err crosses_devices
      else ok tt

unfoldable pub policy_path_link : MountPolicy → SecurityPath → SecurityPath → Verdict
unfolding path_perm
policy_path_link p old new = do old_ok ← path_perm p old read_write; path_perm p new read_write

unfoldable pub mount_policy : {B : Type 0} → MountPolicy → SecurityOperations B
unfolding path_perm policy_path_link policy_path_rename policy_file_open policy_file_truncate
mount_policy p = record allowing {
  path_mknod = λ path. path_perm p path read_write;
  path_mkdir = λ path. path_perm p path read_write;
  path_rmdir = λ path. path_perm p path read_write;
  path_unlink = λ path. path_perm p path read_write;
  path_symlink = λ path. path_perm p path read_write;
  path_link = policy_path_link p;
  path_rename = policy_path_rename p;
  file_open = λ path kind mode how. policy_file_open p path mode how;
  file_truncate = policy_file_truncate;
  path_utimes = λ path. path_perm p path read_write;
}

pub record Mount : Type 0 where
  pub at : List ℕ
  pub policy : Option (List ℕ → Access → Bool)
  pub mnt : ℕ

abbrev pub policy_of : Mount → Option MountPolicy
policy_of mount = elim mount.policy [
  | none ↦ none
  | some policy ↦ some (record { mnt = mount.mnt; at = mount.at; policy = policy })
]

-- `filter_map`, with the module that a Policy is
unfoldable pub policies_of : {B : Type 0} → List Mount → List (SecurityOperations B)
unfolding mount_policy
policies_of [] = []
policies_of (mount ∷ rest) = elim (policy_of mount) [
  | none ↦ policies_of rest
  | some p ↦ mount_policy p ∷ policies_of rest
]

-- `prepare_creds_within`, its modules
unfoldable pub prepare_creds :
    {B : Type 0} → List (SecurityOperations B) → List (SecurityOperations B)
prepare_creds modules = kobako_security ∷ modules

unfoldable pub restrict_self :
    {B : Type 0} → List (SecurityOperations B) → List Mount → List (SecurityOperations B)
unfolding with_modules policies_of
restrict_self security mounts = with_modules (policies_of mounts) security
