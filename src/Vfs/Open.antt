-- ===== src/Vfs/Open.antt =====
-- crates/kobako-runtime/src/vfs/namei.rs: the open of what a walk ended on, with `do_dentry_open` of
-- vfs/file.rs. What a Filesystem hands out is of any type, and so is what the modules keep on a file.
pub mod Truncates
use kobako.Common.{
  ℕ, Bool, true, false, Option, none, some, List, not, ◌&&◌, ◌||◌, if◌then◌else◌, Result,
}
use kobako.Security.Files.{
  FilesystemError, not_found, already_exists, is_a_directory, not_a_directory, filesystem_loop,
  FileType, reg_file, dir, symlink, fifo, sock, blkdev, chrdev, unknown, FMode, Mask, none_asked,
}
use kobako.Security.OpenFlags.{OpenHow, OpenFlags}
use kobako.Vfs.Actions.{Act, pure, fail, found, guard, ◌>>=◌}
use kobako.Vfs.Tree.{Caller, ask, try}
use kobako.Vfs.Walk.{Nameidata, inode_permission}
use kobako.Vfs.Lookup.{is_dir, complete_walk}
use kobako.Vfs.SuperBlock.{inode_lock}
use kobako.Vfs.Entries.{inode_ops, held}
use kobako.Vfs.Rename.{unless}
use kobako.Vfs.Calls.{Mount}

pub record Opener (S F B : Type 0) : Type 0 where
  pub mnt : Mount S
  pub security_file_open : ℕ → FileType → FMode → OpenHow → S → Result B FilesystemError × S
  pub security_file_alloc : B
  pub security_file_truncate : B → S → Result (Unit {0}) FilesystemError × S
  -- `Dentry::open`
  pub open_inode : ℕ → OpenHow → S → Result F FilesystemError × S
  pub empty_fops : F
  -- `notify_change` of a dentry, with `Iattr::open_truncate` through the file.
  pub truncate : ℕ → F → S → Result (Unit {0}) FilesystemError × S

pub record File (F B : Type 0) : Type 0 where
  pub path : ℕ
  pub ops : F
  pub mode : FMode
  pub how : OpenHow
  pub security : B

unfoldable pub special_file : FileType → Bool
special_file fifo = true
special_file sock = true
special_file blkdev = true
special_file chrdev = true
special_file _ = false

abbrev pub is_reg_file : FileType → Bool
is_reg_file reg_file = true
is_reg_file _ = false

-- Why an entry of this kind is not opened.
unfoldable pub refusal : Nameidata → OpenHow → Bool → FileType → Option FilesystemError
refusal nd how created kind =
    if how.create && how.exclusive && not created
    then some already_exists
    else if is_dir kind
    then (if how.create then some is_a_directory else none)
    else if nd.lookup_directory
    then some not_a_directory
    else none

-- Whether the open empties the file.
unfoldable pub truncates : OpenHow → Bool → FileType → Bool
truncates how created kind = if created then false else how.truncate && is_reg_file kind

-- What the open asks permission for.
abbrev pub asked_mask : OpenFlags → Bool → Mask
asked_mask op created = if created then none_asked else op.acc_mode

-- `Mask::OPEN | mask`
abbrev pub with_open : Mask → Mask
with_open mask = record mask { may_open = true }

unfoldable pub open_refusal : FileType → Mask → Option FilesystemError
open_refusal symlink mask = some filesystem_loop
open_refusal dir mask = if mask.may_write then some is_a_directory else none
open_refusal _ mask = none

module _ {S F B : Type 0} (o : Opener S F B) where
  unfoldable pub do_dentry_open : ℕ → FileType → FMode → OpenHow → Act (Caller S) (F × B)
  unfolding special_file
  do_dentry_open child kind mode how =
      if mode.path then pure (o.empty_fops, o.security_file_alloc) else (do
        writable ←
            if mode.write && not (special_file kind) then try o.mnt.mnt_want_write else pure tt
        security ← try (o.security_file_open child kind mode how)
        ops ← try (o.open_inode child how)
        pure (ops, security))

  unfoldable pub may_open : ℕ → FileType → Mask → Act (Caller S) (Unit {0})
  unfolding open_refusal inode_permission
  may_open child kind mask = do
    opens ← unless (open_refusal kind mask)
    inode_permission o.mnt.sb.tree child (with_open mask)

  -- An entry that stood is walked to completion first.
  unfoldable pub completed : Nameidata → Bool → Option (F × B) → Act (Caller S) (Unit {0})
  unfolding complete_walk
  completed nd created none = if created then pure tt else complete_walk o.mnt.sb.tree nd
  completed nd created (some file) = pure tt

  unfoldable pub want_for : Bool → Act (Caller S) (Unit {0})
  want_for truncate = if truncate then try o.mnt.mnt_want_write else pure tt

  -- What a Filesystem opened already is not opened again.
  unfoldable pub opened_or :
      Option (F × B) → ℕ → FileType → FMode → OpenHow → Act (Caller S) (F × B)
  unfolding do_dentry_open
  opened_or (some file) child kind mode how = pure file
  opened_or none child kind mode how = do_dentry_open child kind mode how

  unfoldable pub handle_truncate : Bool → ℕ → F × B → Act (Caller S) (Unit {0})
  unfolding held
  handle_truncate truncate child (ops, security) =
      if truncate
      then (do
        permitted ← try (o.security_file_truncate security)
        locked ← held o.mnt.sb (inode_lock child)
        try (o.truncate child ops))
      else pure tt

  unfoldable pub do_open :
      Nameidata → ℕ → Option (F × B) → FMode → OpenFlags → Act (Caller S) (File F B)
  unfolding completed inode_ops refusal truncates want_for may_open opened_or handle_truncate
  do_open nd child opened mode op = do
    complete ← completed nd mode.created opened
    kind ← inode_ops o.mnt.sb child
    right ← unless (refusal nd op.open_flag mode.created kind)
    writable ← want_for (truncates op.open_flag mode.created kind)
    permitted ← may_open child kind (asked_mask op mode.created)
    file ← opened_or opened child kind mode op.open_flag
    emptied ← handle_truncate (truncates op.open_flag mode.created kind) child file
    pure (record { path = child; ops = file.0; mode = mode; how = op.open_flag; security = file.1 })
