-- ===== src/Vfs/Calls/Pairs.antt =====
-- crates/kobako-runtime/src/vfs/namei.rs: the calls that name two paths, a hard link and a move, each
-- path beneath a start on a mount of its own.
use kobako.Common.{ℕ, Bool, false, none, List, not, ◌||◌, ◌&&◌, ◌==◌, Result}
use kobako.Security.Files.{
  FilesystemError, not_found, crosses_devices, resource_busy, not_a_directory,
}
use kobako.Vfs.Actions.{Act, pure, found, guard, ◌>>=◌}
use kobako.Vfs.Tree.{Caller, try}
use kobako.Vfs.Walk.{Nameidata}
use kobako.Vfs.Lookup.{is_dir, filename_lookup}
use kobako.Vfs.Entries.{inode_ops, vfs_link}
use kobako.Vfs.Rename.{RenameData, start_renaming, vfs_rename}
use kobako.Vfs.Calls.{Mount, retry_estale, is_norm, parentat, filename_create}

-- The mount of the name that a link makes, or that a move takes away, and the one of the other path.
module _ {S : Type 0} (mnt other : Mount S) where
  -- `Arc::ptr_eq` of the two mounts
  abbrev pub one_mount : Act (Caller S) (Unit {0})
  one_mount = guard (other.id == mnt.id) crosses_devices

  unfoldable pub link_made : ℕ × Nameidata × ℕ → Act (Caller S) (Unit {0})
  unfolding vfs_link
  link_made (target, new, child) = do
    same ← one_mount
    permitted ← try (mnt.security_path_link target child)
    vfs_link mnt.sb target new.at child

  -- Unless the source is a directory, no trailing slash stands on either side.
  unfoldable pub takes_slashes : RenameData → Nameidata → Nameidata → Act (Caller S) (Unit {0})
  unfolding inode_ops
  takes_slashes rd source target = do
    kind ← inode_ops mnt.sb rd.old_dentry
    guard (not (not (is_dir kind) && (source.trailing_slash || target.trailing_slash)))
        not_a_directory

  unfoldable pub rename_names : Nameidata × Nameidata → Act (Caller S) (Unit {0})
  unfolding start_renaming takes_slashes vfs_rename
  rename_names (source, target) = do
    same ← one_mount
    named ← guard (is_norm source.last_type && is_norm target.last_type) resource_busy
    writable ← try mnt.mnt_want_write
    rd ← start_renaming mnt.sb source.at source.last target.at target.last none
    plain ← takes_slashes rd source target
    permitted ← try (mnt.security_path_rename rd.old_dentry rd.new_dentry)
    vfs_rename mnt.sb rd

  module _ (other_init : S → Result ℕ FilesystemError × S) (other_path : List ℕ)
      (path_init : S → Result ℕ FilesystemError × S) (path : List ℕ) where
    -- The walk of a link: to what stands at the old path, then to the new name.
    unfoldable pub link_at : Bool → Act (Caller S) (ℕ × Nameidata × ℕ)
    unfolding filename_lookup parentat filename_create
    link_at follow = do
      old ← λ c. filename_lookup other.sb.tree other_init other_path follow c.tree
      target ← found not_found old.path
      new ← parentat mnt path_init path
      child ← filename_create mnt new false
      pure (target, new, child)

    unfoldable pub filename_linkat : Bool → Act (Caller S) (Unit {0})
    unfolding retry_estale link_at link_made
    filename_linkat follow = retry_estale (link_at follow) link_made

    unfoldable pub both_parents : Act (Caller S) (Nameidata × Nameidata)
    unfolding parentat
    both_parents = do
      source ← parentat mnt path_init path
      target ← parentat other other_init other_path
      pure (source, target)

    unfoldable pub filename_renameat2 : Act (Caller S) (Unit {0})
    unfolding retry_estale both_parents rename_names
    filename_renameat2 = retry_estale both_parents rename_names
