-- ===== src/Vfs/Rename.antt =====
-- crates/kobako-runtime/src/vfs/namei.rs: the move of an entry, once both walks are over.
pub mod Steady
pub mod Kept
pub mod Moved
pub mod Landed
use kobako.Common.{
  ℕ, Bool, true, false, Option, none, some, List, [], ◌∷◌, ◌++◌, ◌==◌, ◌||◌, not, leb,
  if◌then◌else◌,
}
use kobako.Security.Files.{
  FilesystemError, not_found, already_exists, invalid_input, directory_not_empty, FileType,
}
use kobako.Vfs.Actions.{Act, pure, fail, found, guard, ◌>>=◌}
use kobako.Vfs.Tree.{Tree, Caller, ask, try}
use kobako.Vfs.Walk.{inode_permission}
use kobako.Vfs.Dentries.{move_dentry, exchange}
use kobako.Vfs.SuperBlock.{
  RenameFlag, no_replace, exchanging, whiteout, Lock, rename_mutex, inode_lock, lock_of, SuperBlock,
  change, is_dir_kind,
}
use kobako.Vfs.Entries.{
  write, stands, may_create_dentry, may_delete_dentry, inode_ops, held, on_dentries,
}

pub record RenameData : Type 0 where
  pub old_parent : ℕ
  pub old_dentry : ℕ
  pub new_parent : ℕ
  pub new_dentry : ℕ
  pub flag : Option RenameFlag

abbrev pub is_exchange : Option RenameFlag → Bool
is_exchange (some exchanging) = true
is_exchange _ = false

-- What a flag will not take at the new name.
unfoldable pub refusal_of : Option RenameFlag → Bool → Option FilesystemError
refusal_of (some exchanging) false = some not_found
refusal_of (some no_replace) true = some already_exists
refusal_of _ _ = none

abbrev pub unless : {C : Type 0} → Option FilesystemError → Act C (Unit {0})
unless none = pure tt
unless (some e) = fail e

-- Why a target above the source's directory is refused.
abbrev pub above_source : Option RenameFlag → FilesystemError
above_source (some exchanging) = invalid_input
above_source _ = directory_not_empty

-- `lock_two_nondirectories`: lowest address first, and one only once.
unfoldable pub nondirectories : Option ℕ → Option ℕ → List ℕ
nondirectories (some a) (some b) =
    if a == b then a ∷ [] else if leb a b then a ∷ b ∷ [] else b ∷ a ∷ []
nondirectories (some a) none = a ∷ []
nondirectories none (some b) = b ∷ []
nondirectories none none = []

abbrev pub only : Bool → Option ℕ → List ℕ
only true (some i) = i ∷ []
only _ _ = []

-- The inodes that `lock_moved` holds, in its order.
unfoldable pub moved_locks : Bool → Bool → Bool → Option RenameFlag → Option ℕ → Option ℕ → List ℕ
unfolding nondirectories
moved_locks true new_is_dir same_dir flag source target =
    only (not same_dir) source
    ++ only (not new_is_dir || (not same_dir || not (is_exchange flag))) target
moved_locks false true same_dir flag source target =
    only (not same_dir || not (is_exchange flag)) target ++ only true source
moved_locks false false same_dir flag source target = nondirectories source target

module _ {S : Type 0} (sb : SuperBlock S) where
  unfoldable pub lock_rename : ℕ → ℕ → Act (Caller S) (Unit {0})
  unfolding held
  lock_rename old_dir new_dir = if old_dir == new_dir then held sb (inode_lock old_dir) else (do
    rename ← held sb rename_mutex
    beneath ← ask (sb.tree.is_subdir old_dir new_dir)
    first ← held sb (inode_lock (if beneath then new_dir else old_dir))
    held sb (inode_lock (if beneath then old_dir else new_dir)))

  unfoldable pub unless_beneath : ℕ → ℕ → FilesystemError → Act (Caller S) (Unit {0})
  unless_beneath d ancestor e = do
    beneath ← ask (sb.tree.is_subdir d ancestor)
    guard (not beneath) e

  unfoldable pub start_renaming :
      ℕ → List ℕ → ℕ → List ℕ → Option RenameFlag → Act (Caller S) RenameData
  unfolding lock_rename refusal_of unless_beneath
  start_renaming old_dir old_name new_dir new_name flag = do
    locked ← lock_rename old_dir new_dir
    old ← try (sb.lookup_one_qstr_excl old_dir old_name)
    moving ← inode_ops sb old
    new ← try (sb.lookup_one_qstr_excl new_dir new_name)
    target ← ask (sb.tree.kind new)
    takes ← unless (refusal_of flag (stands target))
    apart ← unless_beneath new_dir old invalid_input
    below ← unless_beneath old_dir new (above_source flag)
    pure (record {
      old_parent = old_dir;
      old_dentry = old;
      new_parent = new_dir;
      new_dentry = new;
      flag = flag;
    })

  unfoldable pub lock_all : List ℕ → Act (Caller S) (Unit {0})
  unfolding held
  lock_all [] = pure tt
  lock_all (i ∷ is) = do locked ← held sb (lock_of i); lock_all is

  unfoldable pub may_replace : RenameData → Bool → Option FileType → Act (Caller S) (Unit {0})
  unfolding may_create_dentry may_delete_dentry
  may_replace rd is_dir none = may_create_dentry sb rd.new_parent rd.new_dentry
  may_replace rd is_dir (some kind) =
      may_delete_dentry sb rd.new_parent (some kind)
        (if is_exchange rd.flag then is_dir_kind (some kind) else is_dir)

  -- A directory changing its parent is asked to change.
  unfoldable pub may_reparent : RenameData → Bool → Bool → Act (Caller S) (Unit {0})
  unfolding inode_permission
  may_reparent rd is_dir target_dir = if rd.old_parent == rd.new_parent then pure tt else (do
    old ← if is_dir then inode_permission sb.tree rd.old_dentry write else pure tt
    if is_exchange rd.flag
        then (if target_dir then inode_permission sb.tree rd.new_dentry write else pure tt)
        else pure tt)

  unfoldable pub land : RenameData → Bool → Act (Caller S) (Unit {0})
  unfolding on_dentries move_dentry exchange
  land rd target_dir =
      if is_exchange rd.flag
      then on_dentries sb (λ ds. exchange ds rd.old_dentry rd.new_dentry)
      else (do
        shrunk ← if target_dir then change (sb.shrink_dcache_parent rd.new_dentry) else pure tt
        dead ← if target_dir then change (sb.mark_dead rd.new_dentry) else pure tt
        on_dentries sb (λ ds. move_dentry ds rd.old_dentry rd.new_dentry))

  unfoldable pub lock_moved : RenameData → Bool → Bool → Act (Caller S) (Unit {0})
  unfolding moved_locks lock_all
  lock_moved rd is_dir target_dir = do
    source ← ask (sb.inode rd.old_dentry)
    target ← ask (sb.inode rd.new_dentry)
    lock_all (moved_locks is_dir target_dir (rd.old_parent == rd.new_parent) rd.flag source target)

  -- The checks of a move, its locks, and the change in the Filesystem.
  unfoldable pub admitted :
      RenameData → Option FileType → Option FileType → Act (Caller S) (Unit {0})
  unfolding may_delete_dentry may_replace may_reparent lock_moved inode_ops
  admitted rd moving target = do
    leaves ← may_delete_dentry sb rd.old_parent moving (is_dir_kind moving)
    replaces ← may_replace rd (is_dir_kind moving) target
    reparents ← may_reparent rd (is_dir_kind moving) (is_dir_kind target)
    locked ← lock_moved rd (is_dir_kind moving) (is_dir_kind target)
    old_ops ← inode_ops sb rd.old_parent
    new_ops ← inode_ops sb rd.new_parent
    try (sb.rename rd.old_parent rd.old_dentry rd.new_parent rd.new_dentry rd.flag)

  unfoldable pub move : RenameData → Option FileType → Option FileType → Act (Caller S) (Unit {0})
  unfolding admitted land
  move rd moving target = do moved ← admitted rd moving target; land rd (is_dir_kind target)

  unfoldable pub vfs_rename : RenameData → Act (Caller S) (Unit {0})
  unfolding move
  vfs_rename rd = do
    moving ← ask (sb.tree.kind rd.old_dentry)
    target ← ask (sb.tree.kind rd.new_dentry)
    same ←
        if rd.old_dentry == rd.new_dentry
        then pure true
        else ask (sb.names_the_entry_of rd.old_dentry rd.new_dentry)
    if same then pure tt else move rd moving target
