-- ===== src/Vfs/Rename/Moved.antt =====
-- The parents of the dentries behind a move (crates/kobako-runtime/src/vfs/namei.rs).
use kobako.Common.{
  ℕ, ◌≡◌, sym, ap, subst, ◌∙◌, Bool, true, false, Option, none, some, List, ◌==◌, not,
  if◌then◌else◌,
}
use kobako.Security.Files.{FilesystemError, invalid_input, FileType}
use kobako.Vfs.Actions.{Act, guard, ◌>>=◌, Meets, Ensures}
use kobako.Vfs.Actions.Rules.{ensures_given, ensures_value, ensures_if, and_then}
use kobako.Vfs.Tree.{Caller, ask, try}
use kobako.Vfs.Dentries.{Dentries, Rooted, is_subdir, move_dentry, exchange}
use kobako.Vfs.Dentries.Moves.{AllRooted, move_dentry-AllRooted, exchange-AllRooted}
use kobako.Vfs.SuperBlock.{RenameFlag, rename_mutex, inode_lock, SuperBlock, is_dir_kind}
use kobako.Vfs.Entries.{stands, on_dentries}
use kobako.Vfs.Rename.{
  RenameData, is_exchange, refusal_of, unless, unless_beneath, above_source, lock_rename,
  start_renaming, land, admitted, move, vfs_rename,
}
use kobako.Vfs.Rename.Steady
use kobako.Vfs.Rename.Steady.{Steady, Good}
use kobako.Vfs.Rename.Kept

-- What a move starts from, once it is admitted.
record Fit (parent : ℕ → Option ℕ) (rooted : (d : ℕ) → Rooted parent d) (rd : RenameData)
    : Type 0 where
  old_placed : parent rd.old_dentry ≡ some rd.old_parent
  new_placed : parent rd.new_dentry ≡ some rd.new_parent
  apart : is_subdir rd.old_dentry (rooted rd.new_parent) ≡ false
  below : is_subdir rd.new_dentry (rooted rd.old_parent) ≡ false

-- The moves, on dentries whose parents are these.
moved :
    (parent : ℕ → Option ℕ) (rooted : (d : ℕ) → Rooted parent d) (ds : Dentries) (rd : RenameData)
    → Fit parent rooted rd
    → ds.parent ≡ parent
    → AllRooted (move_dentry ds rd.old_dentry rd.new_dentry)
      × AllRooted (exchange ds rd.old_dentry rd.new_dentry)
moved parent rooted ds rd fit e =
    subst
      (λ p.
        (rooted : (d : ℕ) → Rooted p d)
        → Fit p rooted rd
        → AllRooted (move_dentry ds rd.old_dentry rd.new_dentry)
          × AllRooted (exchange ds rd.old_dentry rd.new_dentry))
      e
      (λ rooted fit. (
        move_dentry-AllRooted ds rooted rd.old_dentry rd.new_dentry rd.new_parent fit.new_placed
            fit.apart,
        exchange-AllRooted ds rooted rd.old_dentry rd.new_dentry rd.old_parent rd.new_parent
            fit.old_placed fit.new_placed fit.apart fit.below,
      ))
      rooted fit

module _ {S : Type 0} (sb : SuperBlock S) (parent : ℕ → Option ℕ)
    (rooted : (d : ℕ) → Rooted parent d) (steady : Steady sb parent rooted) where
  abbrev Ends : {A : Type 0} → (A → Caller S → Type 0) → Act (Caller S) A → Type 0
  Ends Q m = Ensures (Steady.At sb parent rooted) Q (λ e. Good sb parent rooted) m

  lock_rename-Steps : (old new : ℕ) → Steady.Steps sb parent rooted (lock_rename sb old new)
  unfolding lock_rename
  lock_rename-Steps old new =
      ensures_if (old == new) (Kept.held-Steps sb parent rooted steady (inode_lock old)) (
        and_then (Kept.held-Steps sb parent rooted steady rename_mutex) λ r.
          and_then
            (Steady.ask-Steps sb parent rooted (sb.tree.is_subdir old new) (steady.subdir old new))
            λ b.
              and_then
                (Kept.held-Steps sb parent rooted steady (inode_lock (if b then new else old)))
                λ f. Kept.held-Steps sb parent rooted steady (inode_lock (if b then old else new)))

  lookup-Placed :
      (dir : ℕ) (name : List ℕ)
      → Ends
          (λ d c. Steady.At sb parent rooted c × (parent d ≡ some dir))
          (try (sb.lookup_one_qstr_excl dir name))
  lookup-Placed dir name = record {
    meets = λ c e.
        Steady.told_or-Meets sb parent rooted _ c (sb.lookup_one_qstr_excl dir name c.tree)
          (steady.lookup dir name c.tree ∙ e)
          λ d f. (
            steady.lookup dir name c.tree ∙ e,
            ap (λ p. p d) (sym e) ∙ steady.looked_up dir d name c.tree f,
          );
  }

  subdir-Answers :
      (d a : ℕ)
      → Ends
          (λ b c. Steady.At sb parent rooted c × (is_subdir a (rooted d) ≡ b))
          (ask (sb.tree.is_subdir d a))
  subdir-Answers d a = record {
    meets = λ c e. (steady.subdir d a c.tree ∙ e, sym (steady.subdir_of d a c.tree e));
  }

  admits :
      (x b : Bool) (e : FilesystemError)
      → x ≡ b
      → Ends (λ u c. Steady.At sb parent rooted c × (x ≡ false)) (guard (not b) e)
  admits x true e h = Steady.fail-Ensures sb parent rooted e
  admits x false e h = ensures_value tt λ c at. (at, h)

  unless_beneath-Apart :
      (d a : ℕ) (e : FilesystemError)
      → Ends
          (λ u c. Steady.At sb parent rooted c × (is_subdir a (rooted d) ≡ false))
          (unless_beneath sb d a e)
  unfolding unless_beneath
  unless_beneath-Apart d a e = and_then (subdir-Answers d a) λ b. ensures_given λ h. admits _ b e h

  unless-Steps : (r : Option FilesystemError) → Steady.Steps sb parent rooted (unless r)
  unless-Steps none = Steady.pure-Steps sb parent rooted tt
  unless-Steps (some e) = Steady.fail-Ensures sb parent rooted e

  start_renaming-Fit :
      (old_dir : ℕ) (old_name : List ℕ) (new_dir : ℕ) (new_name : List ℕ) (flag : Option RenameFlag)
      → Ends
          (λ rd c. Steady.At sb parent rooted c × Fit parent rooted rd)
          (start_renaming sb old_dir old_name new_dir new_name flag)
  unfolding start_renaming
  start_renaming-Fit old_dir old_name new_dir new_name flag =
      and_then (lock_rename-Steps old_dir new_dir) λ l.
        and_then (lookup-Placed old_dir old_name) λ old. ensures_given λ po.
          and_then (Kept.inode_ops-Steps sb parent rooted steady old) λ m.
            and_then (lookup-Placed new_dir new_name) λ new. ensures_given λ pn.
              and_then (Kept.kind_of sb parent rooted steady new) λ target.
                and_then (unless-Steps (refusal_of flag (stands target))) λ u.
                  and_then (unless_beneath-Apart new_dir old invalid_input) λ u.
                    ensures_given λ apart.
                      and_then (unless_beneath-Apart old_dir new (above_source flag)) λ u.
                        ensures_given λ below.
                          ensures_value
                            (record {
                              old_parent = old_dir;
                              old_dentry = old;
                              new_parent = new_dir;
                              new_dentry = new;
                              flag = flag;
                            })
                            λ c at. (
                              at,
                              record {
                                old_placed = po;
                                new_placed = pn;
                                apart = apart;
                                below = below;
                              },
                            )

  written-Good :
      (f : Dentries → Dentries)
      → ((ds : Dentries) → ds.parent ≡ parent → AllRooted (f ds))
      → Ends (λ u c. Good sb parent rooted c) (on_dentries sb f)
  unfolding on_dentries
  written-Good f h = record {
    meets = λ c e. subst AllRooted (sym (steady.written (f (sb.dentries c.tree)) c.tree)) (h _ e);
  }

  land-Good :
      (rd : RenameData) (t : Bool)
      → Fit parent rooted rd
      → Ends (λ u c. Good sb parent rooted c) (land sb rd t)
  unfolding land
  land-Good rd t fit =
      ensures_if (is_exchange rd.flag)
        (written-Good (λ ds. exchange ds rd.old_dentry rd.new_dentry)
          λ ds e. (moved parent rooted ds rd fit e).1)
        (and_then
          (ensures_if t (Steady.change-Steps sb parent rooted _ (steady.shrink rd.new_dentry))
            (Steady.pure-Steps sb parent rooted tt))
          λ s.
            and_then
              (ensures_if t
                (Steady.change-Steps sb parent rooted _ (steady.mark_dead rd.new_dentry))
                (Steady.pure-Steps sb parent rooted tt))
              λ d.
                written-Good (λ ds. move_dentry ds rd.old_dentry rd.new_dentry)
                  λ ds e. (moved parent rooted ds rd fit e).0)

  admitted-Steps :
      (rd : RenameData) (moving target : Option FileType)
      → Steady.Steps sb parent rooted (admitted sb rd moving target)
  unfolding admitted
  admitted-Steps rd moving target =
      and_then (Kept.may_delete_dentry-Steps sb parent rooted steady rd.old_parent moving _) λ a.
        and_then (Kept.may_replace-Steps sb parent rooted steady rd _ target) λ b.
          and_then (Kept.may_reparent-Steps sb parent rooted steady rd _ _) λ c.
            and_then (Kept.lock_moved-Steps sb parent rooted steady rd _ _) λ d.
              and_then (Kept.inode_ops-Steps sb parent rooted steady rd.old_parent) λ e.
                and_then (Kept.inode_ops-Steps sb parent rooted steady rd.new_parent) λ f.
                  Steady.try-Steps sb parent rooted _
                    (steady.rename rd.old_parent rd.old_dentry rd.new_parent rd.new_dentry rd.flag)

  move-Good :
      (rd : RenameData) (moving target : Option FileType)
      → Fit parent rooted rd
      → Ends (λ u c. Good sb parent rooted c) (move sb rd moving target)
  unfolding move
  move-Good rd moving target fit =
      and_then (admitted-Steps rd moving target) λ g. land-Good rd (is_dir_kind target) fit

  vfs_rename-Good :
      (rd : RenameData)
      → Fit parent rooted rd
      → Ends (λ u c. Good sb parent rooted c) (vfs_rename sb rd)
  unfolding vfs_rename
  vfs_rename-Good rd fit = and_then (Kept.kind_of sb parent rooted steady rd.old_dentry) λ moving.
      and_then (Kept.kind_of sb parent rooted steady rd.new_dentry) λ target.
        and_then
          (ensures_if (rd.old_dentry == rd.new_dentry) (Steady.pure-Steps sb parent rooted true) (
            Steady.ask-Steps sb parent rooted (sb.names_the_entry_of rd.old_dentry rd.new_dentry)
              (steady.entry rd.old_dentry rd.new_dentry)))
          λ same.
            ensures_if same (ensures_value tt λ c e. Steady.good sb parent rooted c e)
              (move-Good rd moving target fit)

  -- Whatever the flag and the names, and on every path, a refusal included, a move from one
  -- directory to another leaves every dentry of the Filesystem beneath a root where all were before,
  -- so that each walk up the parents ends. No other move lands while the locks are held or waited for,
  -- and no lookup among them splices a directory's dentry in from elsewhere.
  pub start_renaming-AllRooted :
      (old_dir : ℕ) (old_name : List ℕ) (new_dir : ℕ) (new_name : List ℕ) (flag : Option RenameFlag)
      (c : Caller S)
      → (sb.dentries c.tree).parent ≡ parent
      → Meets
          (λ u c. AllRooted (sb.dentries c.tree))
          (λ e c. AllRooted (sb.dentries c.tree))
          ((start_renaming sb old_dir old_name new_dir new_name flag >>= λ rd. vfs_rename sb rd) c)
  start_renaming-AllRooted old_dir old_name new_dir new_name flag c e =
      (and_then (start_renaming-Fit old_dir old_name new_dir new_name flag)
          λ rd. ensures_given λ fit. vfs_rename-Good rd fit).meets
        c e
