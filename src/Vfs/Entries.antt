-- ===== src/Vfs/Entries.antt =====
-- crates/kobako-runtime/src/vfs/namei.rs: making and removing an entry of a directory that is held.
use kobako.Common.{ℕ, Bool, true, false, Option, none, some, List, ◌==◌, not}
use kobako.Security.Files.{
  not_found, already_exists, not_a_directory, is_a_directory, not_permitted, FileType, Mask,
  none_asked,
}
use kobako.Vfs.Actions.{Act, pure, fail, found, guard, ◌>>=◌}
use kobako.Vfs.Tree.{Caller, ask, try}
use kobako.Vfs.Walk.{inode_permission}
use kobako.Vfs.Lookup.{is_dir}
use kobako.Vfs.Dentries.{Dentries, unhash}
use kobako.Vfs.SuperBlock.{SuperBlock, Lock, inode_lock, change}

abbrev pub write : Mask
write = record none_asked { may_write = true }

abbrev pub write_exec : Mask
write_exec = record none_asked { may_write = true; may_exec = true }

abbrev pub stands : {A : Type 0} → Option A → Bool
stands none = false
stands (some a) = true

-- The kind that a removal asks for.
unfoldable pub right_victim : {C : Type 0} → Bool → Bool → Act C (Unit {0})
right_victim true false = fail not_a_directory
right_victim false true = fail is_a_directory
right_victim _ _ = pure tt

module _ {S : Type 0} (sb : SuperBlock S) where
  unfoldable pub alive : ℕ → Act (Caller S) (Unit {0})
  alive dir = do dead ← ask (sb.is_deaddir dir); guard (not dead) not_found

  unfoldable pub may_create_dentry : ℕ → ℕ → Act (Caller S) (Unit {0})
  unfolding alive inode_permission
  may_create_dentry dir child = do
    kind ← ask (sb.tree.kind child)
    absent ← guard (not (stands kind)) already_exists
    living ← alive dir
    inode_permission sb.tree dir write_exec

  unfoldable pub may_delete_dentry : ℕ → Option FileType → Bool → Act (Caller S) (Unit {0})
  unfolding alive inode_permission right_victim
  may_delete_dentry dir victim wanted_dir = do
    kind ← found not_found victim
    permitted ← inode_permission sb.tree dir write_exec
    right ← right_victim wanted_dir (is_dir kind)
    alive dir

  -- `inode_ops()?`
  unfoldable pub inode_ops : ℕ → Act (Caller S) FileType
  inode_ops dentry = do kind ← ask (sb.tree.kind dentry); found not_found kind

  unfoldable pub held : Lock → Act (Caller S) (Unit {0})
  held l = try (sb.lock l)

  unfoldable pub on_dentries : (Dentries → Dentries) → Act (Caller S) (Unit {0})
  on_dentries f = change λ s. sb.with_dentries (f (sb.dentries s)) s

  unfoldable pub vfs_rmdir : ℕ → ℕ → Act (Caller S) (Unit {0})
  unfolding may_delete_dentry held inode_ops on_dentries unhash
  vfs_rmdir dir victim = do
    kind ← ask (sb.tree.kind victim)
    may ← may_delete_dentry dir kind true
    locked ← held (inode_lock victim)
    ops ← inode_ops dir
    removed ← try (sb.rmdir dir victim)
    shrunk ← change (sb.shrink_dcache_parent victim)
    dead ← change (sb.mark_dead victim)
    on_dentries λ ds. unhash ds victim

  unfoldable pub vfs_unlink : ℕ → ℕ → Act (Caller S) (Unit {0})
  unfolding may_delete_dentry held inode_ops on_dentries unhash
  vfs_unlink dir victim = do
    kind ← ask (sb.tree.kind victim)
    may ← may_delete_dentry dir kind false
    locked ← held (inode_lock victim)
    ops ← inode_ops dir
    removed ← try (sb.unlink dir victim)
    on_dentries λ ds. unhash ds victim

  unfoldable pub vfs_mkdir : ℕ → ℕ → Act (Caller S) (Unit {0})
  unfolding may_create_dentry inode_ops
  vfs_mkdir dir child = do
    may ← may_create_dentry dir child
    ops ← inode_ops dir
    try (sb.mkdir dir child)

  unfoldable pub vfs_create : ℕ → ℕ → Act (Caller S) (Unit {0})
  unfolding may_create_dentry inode_ops
  vfs_create dir child = do
    may ← may_create_dentry dir child
    ops ← inode_ops dir
    try (sb.create dir child)

  unfoldable pub vfs_symlink : ℕ → ℕ → List ℕ → Act (Caller S) (Unit {0})
  unfolding may_create_dentry inode_ops
  vfs_symlink dir child target = do
    may ← may_create_dentry dir child
    ops ← inode_ops dir
    try (sb.symlink dir child target)

  unfoldable pub vfs_link : ℕ → ℕ → ℕ → Act (Caller S) (Unit {0})
  unfolding may_create_dentry held inode_ops
  vfs_link old dir child = do
    may ← may_create_dentry dir child
    kind ← inode_ops old
    file ← guard (not (is_dir kind)) not_permitted
    locked ← held (inode_lock old)
    links ← try (sb.nlink old)
    named ← guard (not (links == 0)) not_found
    ops ← inode_ops dir
    try (sb.link dir old child)
