-- ===== src/Vfs/Rename/Landed.antt =====
-- Where a move (crates/kobako-runtime/src/vfs/namei.rs) leaves its dentry, and the hash table.
use kobako.Common.{ℕ, ◌≡◌, refl, ap, ◌∙◌, Bool, true, false, Option}
use kobako.Security.Files.{FileType}
use kobako.Vfs.Actions.{answered, on_answer}
use kobako.Vfs.Tree.{Caller}
use kobako.Vfs.Dentries.{Dentries, move_dentry}
use kobako.Vfs.Dentries.Landed.{Landed, move_dentry-Landed}
use kobako.Vfs.SuperBlock.{SuperBlock, is_dir_kind}
use kobako.Vfs.Entries.{on_dentries}
use kobako.Vfs.Rename.{RenameData, is_exchange, admitted, land, move}

-- What the move relies on: what is stored is there, and taking the entries out from beneath a directory
-- and marking it dead leave it in its place.
pub record Stays {S : Type 0} (sb : SuperBlock S) : Type 0 where
  pub written : (ds : Dentries) (s : S) → sb.dentries (sb.with_dentries ds s) ≡ ds
  pub shrunk_name :
      (d : ℕ) (s : S) → (sb.dentries (sb.shrink_dcache_parent d s)).name d ≡ (sb.dentries s).name d
  pub shrunk_parent :
      (d : ℕ) (s : S)
      → (sb.dentries (sb.shrink_dcache_parent d s)).parent d ≡ (sb.dentries s).parent d
  pub dead_name : (d : ℕ) (s : S) → (sb.dentries (sb.mark_dead d s)).name d ≡ (sb.dentries s).name d
  pub dead_parent :
      (d : ℕ) (s : S) → (sb.dentries (sb.mark_dead d s)).parent d ≡ (sb.dentries s).parent d

module _ {S : Type 0} (sb : SuperBlock S) (stays : Stays sb) where
  -- The dentry in place of the target, with the dentries as they were at `s`.
  Replaced : RenameData → S → Caller S → Type 0
  Replaced rd s c = Landed (sb.dentries s) (sb.dentries c.tree) rd.old_dentry rd.new_dentry

  -- A state that differs from `s` in no place of the target.
  replaced :
      (rd : RenameData) (s s' : S) (links : ℕ)
      → (sb.dentries s').name rd.new_dentry ≡ (sb.dentries s).name rd.new_dentry
      → (sb.dentries s').parent rd.new_dentry ≡ (sb.dentries s).parent rd.new_dentry
      → (c : Caller S) × (on_dentries sb
            (λ ds. move_dentry ds rd.old_dentry rd.new_dentry)
            (record { tree = s'; total_link_count = links })
          ≡ answered tt c)
        × Replaced rd s c
  unfolding on_dentries Replaced
  replaced rd s s' links same_name same_parent = (
    record {
      tree = sb.with_dentries (move_dentry (sb.dentries s') rd.old_dentry rd.new_dentry) s';
      total_link_count = links;
    },
    refl,
    rw (stays.written (move_dentry (sb.dentries s') rd.old_dentry rd.new_dentry) s') (
        move_dentry-Landed (sb.dentries s) (sb.dentries s') rd.old_dentry rd.new_dentry same_name
          same_parent),
  )

  land-Replaced :
      (rd : RenameData) (t : Bool) (c : Caller S)
      → is_exchange rd.flag ≡ false
      → (c' : Caller S) × (land sb rd t c ≡ answered tt c') × Replaced rd c.tree c'
  unfolding land
  land-Replaced rd false c e = rw e (replaced rd c.tree c.tree c.total_link_count refl refl)
  land-Replaced rd true c e =
      let shrunk = sb.shrink_dcache_parent rd.new_dentry c.tree in
      rw e (
        replaced rd c.tree (sb.mark_dead rd.new_dentry shrunk) c.total_link_count
          (stays.dead_name rd.new_dentry shrunk ∙ stays.shrunk_name rd.new_dentry c.tree)
          (stays.dead_parent rd.new_dentry shrunk ∙ stays.shrunk_parent rd.new_dentry c.tree))

  -- Where shrinking the entries beneath a directory and marking it dead leave its name and its parent, a
  -- move that is no exchange, once its checks and locks and the Filesystem's rename let it through,
  -- succeeds, and leaves its dentry with the name and in the directory that the target had before, where
  -- a lookup of that name finds it.
  pub move-Replaced :
      (rd : RenameData) (moving target : Option FileType) (c c1 : Caller S)
      → is_exchange rd.flag ≡ false
      → admitted sb rd moving target c ≡ answered tt c1
      → (c2 : Caller S) × (move sb rd moving target c ≡ answered tt c2)
        × Landed (sb.dentries c1.tree) (sb.dentries c2.tree) rd.old_dentry rd.new_dentry
  unfolding move Replaced
  move-Replaced rd moving target c c1 flag e =
      let (c2, landed, there) = land-Replaced rd (is_dir_kind target) c1 flag in
      (c2, ap (on_answer (λ u. land sb rd (is_dir_kind target))) e ∙ landed, there)
