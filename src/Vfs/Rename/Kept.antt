-- ===== src/Vfs/Rename/Kept.antt =====
-- The parents of the dentries behind the checks and the locks of a move
-- (crates/kobako-runtime/src/vfs/namei.rs).
use kobako.Common.{
  ℕ, Bool, true, false, Option, none, some, List, [], ◌∷◌, ◌==◌, not, if◌then◌else◌,
}
use kobako.Security.Files.{
  FilesystemError, not_found, already_exists, not_a_directory, is_a_directory, read_only_filesystem,
  FileType, Mask,
}
use kobako.Vfs.Actions.{Act, pure, fail, found, guard}
use kobako.Vfs.Actions.Rules.{ensures_weaken, ensures_if, and_then}
use kobako.Vfs.Tree.{Caller, ask}
use kobako.Vfs.Walk.{stored, sb_permission, inode_permission}
use kobako.Vfs.Lookup.{is_dir}
use kobako.Vfs.Dentries.{Rooted}
use kobako.Vfs.SuperBlock.{Lock, lock_of, SuperBlock, is_dir_kind}
use kobako.Vfs.Entries.{
  write, write_exec, stands, right_victim, alive, may_create_dentry, may_delete_dentry, inode_ops,
  held,
}
use kobako.Vfs.Rename.{
  RenameData, is_exchange, moved_locks, lock_all, may_replace, may_reparent, lock_moved,
}
use kobako.Vfs.Rename.Steady
use kobako.Vfs.Rename.Steady.{Steady, Good}

module _ {S : Type 0} (sb : SuperBlock S) (parent : ℕ → Option ℕ)
    (rooted : (d : ℕ) → Rooted parent d) (steady : Steady sb parent rooted) where
  abbrev At : Caller S → Type 0
  At c = Steady.At sb parent rooted c

  abbrev Steps : {A : Type 0} → Act (Caller S) A → Type 0
  Steps m = Steady.Steps sb parent rooted m

  pub kind_of : (d : ℕ) → Steps (ask (sb.tree.kind d))
  kind_of d = Steady.ask-Steps sb parent rooted (sb.tree.kind d) (steady.kind d)

  pub done : {A : Type 0} (a : A) → Steps (pure a)
  done a = Steady.pure-Steps sb parent rooted a

  pub refuse : {A : Type 0} (e : FilesystemError) → Steps (fail {A = A} e)
  refuse e = Steady.fail-Ensures sb parent rooted e

  pub required : {A : Type 0} (e : FilesystemError) (a : Option A) → Steps (found e a)
  required e a = Steady.found-Steps sb parent rooted e a

  pub checked : (b : Bool) (e : FilesystemError) → Steps (guard b e)
  checked b e = ensures_weaken (Steady.guard-Ensures sb parent rooted b e) λ a c k. k.0

  pub inode_ops-Steps : (d : ℕ) → Steps (inode_ops sb d)
  unfolding inode_ops
  inode_ops-Steps d = and_then (kind_of d) λ kind. required not_found kind

  pub held-Steps : (l : Lock) → Steps (held sb l)
  unfolding held
  held-Steps l = Steady.try-Steps sb parent rooted (sb.lock l) (steady.lock l)

  pub inode_permission-Steps : (d : ℕ) (mask : Mask) → Steps (inode_permission sb.tree d mask)
  unfolding inode_permission sb_permission
  inode_permission-Steps d mask =
      and_then
        (ensures_if mask.may_write
          (and_then (Steady.ask-Steps sb parent rooted sb.tree.rdonly steady.rdonly) λ b.
            ensures_if b
              (and_then (kind_of d) λ kind.
                and_then (required not_found kind)
                  λ k. ensures_if (stored k) (refuse read_only_filesystem) (done tt))
              (done tt))
          (done tt))
        λ w. and_then (kind_of d) λ kind. and_then (required not_found kind) λ k.
          and_then
            (Steady.try-Steps sb parent rooted (sb.tree.permission d mask)
              (steady.permission d mask))
            λ p.
              Steady.try-Steps sb parent rooted (sb.tree.security_inode_permission d mask)
                (steady.security d mask)

  pub alive-Steps : (d : ℕ) → Steps (alive sb d)
  unfolding alive
  alive-Steps d =
      and_then (Steady.ask-Steps sb parent rooted (sb.is_deaddir d) (steady.dead d))
        λ b. checked (not b) not_found

  pub right_victim-Steps : (a b : Bool) → Steps (right_victim a b)
  unfolding right_victim
  right_victim-Steps true true = done tt
  right_victim-Steps true false = refuse not_a_directory
  right_victim-Steps false true = refuse is_a_directory
  right_victim-Steps false false = done tt

  pub may_delete_dentry-Steps :
      (dir : ℕ) (victim : Option FileType) (b : Bool) → Steps (may_delete_dentry sb dir victim b)
  unfolding may_delete_dentry
  may_delete_dentry-Steps dir victim b = and_then (required not_found victim) λ kind.
      and_then (inode_permission-Steps dir write_exec)
        λ p. and_then (right_victim-Steps b (is_dir kind)) λ r. alive-Steps dir

  pub may_create_dentry-Steps : (dir child : ℕ) → Steps (may_create_dentry sb dir child)
  unfolding may_create_dentry
  may_create_dentry-Steps dir child = and_then (kind_of child) λ kind.
      and_then (checked (not (stands kind)) already_exists)
        λ a. and_then (alive-Steps dir) λ l. inode_permission-Steps dir write_exec

  pub lock_all-Steps : (is : List ℕ) → Steps (lock_all sb is)
  unfolding lock_all
  lock_all-Steps [] = done tt
  lock_all-Steps (i ∷ is) = and_then (held-Steps (lock_of i)) λ l. lock_all-Steps is

  pub may_replace-Steps :
      (rd : RenameData) (b : Bool) (target : Option FileType) → Steps (may_replace sb rd b target)
  unfolding may_replace
  may_replace-Steps rd b none = may_create_dentry-Steps rd.new_parent rd.new_dentry
  may_replace-Steps rd b (some kind) =
      may_delete_dentry-Steps rd.new_parent (some kind)
        (if is_exchange rd.flag then is_dir_kind (some kind) else b)

  pub may_reparent-Steps : (rd : RenameData) (b t : Bool) → Steps (may_reparent sb rd b t)
  unfolding may_reparent
  may_reparent-Steps rd b t = ensures_if (rd.old_parent == rd.new_parent) (done tt) (
      and_then (ensures_if b (inode_permission-Steps rd.old_dentry write) (done tt)) λ o.
        ensures_if (is_exchange rd.flag)
          (ensures_if t (inode_permission-Steps rd.new_dentry write) (done tt)) (done tt))

  pub lock_moved-Steps : (rd : RenameData) (b t : Bool) → Steps (lock_moved sb rd b t)
  unfolding lock_moved
  lock_moved-Steps rd b t =
      and_then
        (Steady.ask-Steps sb parent rooted (sb.inode rd.old_dentry) (steady.inode rd.old_dentry))
        λ source.
          and_then
            (Steady.ask-Steps sb parent rooted (sb.inode rd.new_dentry)
              (steady.inode rd.new_dentry))
            λ target.
              lock_all-Steps
                (moved_locks b t (rd.old_parent == rd.new_parent) rd.flag source target)
