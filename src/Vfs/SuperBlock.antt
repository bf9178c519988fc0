-- ===== src/Vfs/SuperBlock.antt =====
-- What a change of a directory asks of its Filesystem, its locks and its dentries:
-- crates/kobako-runtime's vfs/inode.rs, vfs/super_block.rs and vfs/dentry.rs. The release of a lock is
-- left out.
use kobako.Common.{ℕ, Bool, true, false, Option, List, Result}
use kobako.Security.Files.{FilesystemError, FileType}
use kobako.Vfs.Actions.{Act, answered}
use kobako.Vfs.Tree.{Tree, Caller}
use kobako.Vfs.Dentries.{Dentries}

pub data RenameFlag : Type 0 where
  no_replace exchanging whiteout : RenameFlag

-- What is held: the Filesystem's rename lock, the directory of a dentry, or an inode.
pub data Lock : Type 0 where
  rename_mutex : Lock
  inode_lock : ℕ → Lock
  lock_of : ℕ → Lock

pub record SuperBlock (S : Type 0) : Type 0 where
  pub tree : Tree S
  pub lookup_one_qstr_excl : ℕ → List ℕ → S → Result ℕ FilesystemError × S
  pub lock : Lock → S → Result (Unit {0}) FilesystemError × S
  -- The inode of a dentry, none on a negative one.
  pub inode : ℕ → S → Option ℕ × S
  pub names_the_entry_of : ℕ → ℕ → S → Bool × S
  pub is_deaddir : ℕ → S → Bool × S
  pub nlink : ℕ → S → Result ℕ FilesystemError × S
  -- The InodeOperations of a directory.
  pub rename : ℕ → ℕ → ℕ → ℕ → Option RenameFlag → S → Result (Unit {0}) FilesystemError × S
  pub rmdir : ℕ → ℕ → S → Result (Unit {0}) FilesystemError × S
  pub unlink : ℕ → ℕ → S → Result (Unit {0}) FilesystemError × S
  pub mkdir : ℕ → ℕ → S → Result (Unit {0}) FilesystemError × S
  pub create : ℕ → ℕ → S → Result (Unit {0}) FilesystemError × S
  pub symlink : ℕ → ℕ → List ℕ → S → Result (Unit {0}) FilesystemError × S
  pub link : ℕ → ℕ → ℕ → S → Result (Unit {0}) FilesystemError × S
  pub mark_dead : ℕ → S → S
  pub shrink_dcache_parent : ℕ → S → S
  pub dentries : S → Dentries
  pub with_dentries : Dentries → S → S

module _ {S : Type 0} where
  abbrev pub change : (S → S) → Act (Caller S) (Unit {0})
  change f c = answered tt (record c { tree = f c.tree })

-- Whether a dentry is a directory.
abbrev pub is_dir_kind : Option FileType → Bool
is_dir_kind (Option.some FileType.dir) = true
is_dir_kind _ = false
