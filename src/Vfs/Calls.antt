-- ===== src/Vfs/Calls.antt =====
-- crates/kobako-runtime/src/vfs/namei.rs: the calls that make and remove an entry at a path; in Calls/Pairs
-- those that name two.
pub mod Pairs
pub mod Apart
pub mod ReadOnly
use kobako.Common.{
  ℕ, Bool, true, false, Option, none, some, List, not, ◌&&◌, if◌then◌else◌, Result, ok, err,
}
use kobako.Security.Files.{
  FilesystemError, not_found, already_exists, invalid_input, directory_not_empty, is_a_directory,
  not_a_directory,
}
use kobako.Vfs.Actions.{Answer, Act, pure, fail, found, guard, lift, on_answer, ◌>>=◌}
use kobako.Vfs.Names.{LastType, norm, dot, dot_dot, getname}
use kobako.Vfs.Tree.{Caller, ask, try}
use kobako.Vfs.Walk.{Nameidata}
use kobako.Vfs.Lookup.{or_again, filename_parentat}
use kobako.Vfs.SuperBlock.{SuperBlock, inode_lock, is_dir_kind}
use kobako.Vfs.Entries.{stands, held, inode_ops, vfs_mkdir, vfs_rmdir, vfs_unlink, vfs_symlink}

pub data PathHook : Type 0 where
  path_mkdir path_rmdir path_unlink path_symlink : PathHook

pub record Mount (S : Type 0) : Type 0 where
  -- Its address.
  pub id : ℕ
  pub sb : SuperBlock S
  pub mnt_want_write : S → Result (Unit {0}) FilesystemError × S
  -- The security modules' hook on the path of a dentry.
  pub security_path : PathHook → ℕ → S → Result (Unit {0}) FilesystemError × S
  -- Those on two paths of the mount.
  pub security_path_link : ℕ → ℕ → S → Result (Unit {0}) FilesystemError × S
  pub security_path_rename : ℕ → ℕ → S → Result (Unit {0}) FilesystemError × S

unfoldable pub retry_estale : {C W A : Type 0} → Act C W → (W → Act C A) → Act C A
unfolding or_again
retry_estale walk act c = on_answer (λ w c. or_again (walk >>= act) (act w c)) (walk c)

-- Why a last name that no entry has is not removed as a directory.
unfoldable pub removable : {C : Type 0} → LastType → Act C (Unit {0})
removable norm = pure tt
removable dot = fail invalid_input
removable dot_dot = fail directory_not_empty

abbrev pub is_norm : LastType → Bool
is_norm norm = true
is_norm _ = false

module _ {S : Type 0} (mnt : Mount S) where
  unfoldable pub lookup_last_locked : Nameidata → Act (Caller S) ℕ
  lookup_last_locked nd = try (mnt.sb.lookup_one_qstr_excl nd.at nd.last)

  unfoldable pub filename_create : Nameidata → Bool → Act (Caller S) ℕ
  unfolding lookup_last_locked held
  filename_create nd want_dir = do
    named ← guard (is_norm nd.last_type) already_exists
    write ← ask mnt.mnt_want_write
    locked ← held mnt.sb (inode_lock nd.at)
    child ← lookup_last_locked nd
    kind ← ask (mnt.sb.tree.kind child)
    absent ← guard (not (stands kind)) already_exists
    as_asked ← guard (not (nd.trailing_slash && not want_dir)) not_found
    writable ← lift write
    pure child

  unfoldable pub start_dirop : Nameidata → Act (Caller S) ℕ
  unfolding lookup_last_locked held inode_ops
  start_dirop nd = do
    locked ← held mnt.sb (inode_lock nd.at)
    child ← lookup_last_locked nd
    kind ← inode_ops mnt.sb child
    pure child

  unfoldable pub make_dir : ℕ × ℕ → Act (Caller S) (Unit {0})
  unfolding vfs_mkdir
  make_dir (at, child) = do
    permitted ← try (mnt.security_path path_mkdir child)
    vfs_mkdir mnt.sb at child

  unfoldable pub make_link : List ℕ → ℕ × ℕ → Act (Caller S) (Unit {0})
  unfolding vfs_symlink
  make_link target (at, child) = do
    permitted ← try (mnt.security_path path_symlink child)
    vfs_symlink mnt.sb at child target

  unfoldable pub remove_dir : Nameidata → Act (Caller S) (Unit {0})
  unfolding removable start_dirop vfs_rmdir
  remove_dir nd = do
    named ← removable nd.last_type
    writable ← try mnt.mnt_want_write
    child ← start_dirop nd
    permitted ← try (mnt.security_path path_rmdir child)
    vfs_rmdir mnt.sb nd.at child

  -- A file does not remove as a directory.
  unfoldable pub no_slash : Nameidata → ℕ → Act (Caller S) (Unit {0})
  no_slash nd child =
      if nd.trailing_slash
      then (do
        kind ← ask (mnt.sb.tree.kind child)
        fail (if is_dir_kind kind then is_a_directory else not_a_directory))
      else pure tt

  unfoldable pub remove_file : Nameidata → Act (Caller S) (Unit {0})
  unfolding start_dirop no_slash vfs_unlink
  remove_file nd = do
    named ← guard (is_norm nd.last_type) is_a_directory
    writable ← try mnt.mnt_want_write
    child ← start_dirop nd
    plain ← no_slash nd child
    permitted ← try (mnt.security_path path_unlink child)
    vfs_unlink mnt.sb nd.at child

  module _ (path_init : S → Result ℕ FilesystemError × S) (path : List ℕ) where
    -- A walk of its own counts its links anew.
    unfoldable pub parentat : Act (Caller S) Nameidata
    unfolding filename_parentat
    parentat c = filename_parentat mnt.sb.tree path_init path c.tree

    unfoldable pub create_at : Bool → Act (Caller S) (ℕ × ℕ)
    unfolding parentat filename_create
    create_at want_dir = do nd ← parentat; child ← filename_create nd want_dir; pure (nd.at, child)

    unfoldable pub filename_mkdirat : Act (Caller S) (Unit {0})
    unfolding retry_estale create_at make_dir
    filename_mkdirat = retry_estale (create_at true) make_dir

    unfoldable pub filename_symlinkat : List ℕ → Act (Caller S) (Unit {0})
    unfolding getname retry_estale create_at make_link
    filename_symlinkat target = do
      named ← lift (getname target)
      retry_estale (create_at false) (make_link target)

    unfoldable pub filename_rmdir : Act (Caller S) (Unit {0})
    unfolding retry_estale parentat remove_dir
    filename_rmdir = retry_estale parentat remove_dir

    unfoldable pub filename_unlinkat : Act (Caller S) (Unit {0})
    unfolding retry_estale parentat remove_file
    filename_unlinkat = retry_estale parentat remove_file
