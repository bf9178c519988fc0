-- ===== src/Vfs/Tree.antt =====
-- What a walk asks of the dentries, the Filesystems and the security modules: crates/kobako-runtime's
-- vfs/dentry.rs, vfs/inode.rs, vfs/cred.rs and vfs/namei.rs (`lookup_dentry`). A dentry is its
-- identity. Each operation may change the state, by itself or by what another writer does meanwhile.
use kobako.Common.{ℕ, Bool, Option, List, Result, ok, err}
use kobako.Security.Files.{FilesystemError, FileType, Mask}
use kobako.Vfs.Actions.{Answer, answered, refused, Act}

pub record Tree (S : Type 0) : Type 0 where
  pub lookup_dentry : ℕ → List ℕ → S → Result ℕ FilesystemError × S
  -- The kind of the inode that a dentry records, none on a negative one.
  pub kind : ℕ → S → Option FileType × S
  pub get_link : ℕ → S → Result (List ℕ) FilesystemError × S
  -- `->permission` of a directory's Filesystem, and the security modules'.
  pub permission : ℕ → Mask → S → Result (Unit {0}) FilesystemError × S
  pub security_inode_permission : ℕ → Mask → S → Result (Unit {0}) FilesystemError × S
  pub rdonly : S → Bool × S
  -- The parent that a dentry's state holds, none at a root.
  pub above : ℕ → S → Option ℕ × S
  pub is_subdir : ℕ → ℕ → S → Bool × S
  -- `RENAME_LOCK`
  pub read_seqbegin : S → ℕ × S
  pub read_seqretry : ℕ → S → Bool × S

-- The state of one call: the tree, and the links that all of its walks followed.
pub record Caller (S : Type 0) : Type 0 where
  pub tree : S
  pub total_link_count : ℕ

module _ {S A : Type 0} where
  abbrev pub told : Caller S → A × S → Answer A (Caller S)
  told c (a, s) = answered a (record c { tree = s })

  abbrev pub told_or : Caller S → Result A FilesystemError × S → Answer A (Caller S)
  told_or c (ok a, s) = answered a (record c { tree = s })
  told_or c (err e, s) = refused e (record c { tree = s })

  abbrev pub ask : (S → A × S) → Act (Caller S) A
  ask q c = told c (q c.tree)

  abbrev pub try : (S → Result A FilesystemError × S) → Act (Caller S) A
  try q c = told_or c (q c.tree)
