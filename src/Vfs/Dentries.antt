-- ===== src/Vfs/Dentries.antt =====
-- crates/kobako-runtime/src/vfs/dentry.rs: where the dentries of a Filesystem stand, and their moves.
-- The parent of a dentry that no lookup made yet is the directory that it will be made in. The LRU,
-- which keeps dentries alive, is left out; what a dentry names is asked of the `Tree`.
pub mod Moves
pub mod Landed
use kobako.Common.{
  ℕ, ◌≡◌, Bool, true, false, Option, none, some, List, ◌==◌, ◌||◌, ◌&&◌, bytes_eq, if◌then◌else◌,
}
use kobako.Vfs.Walk.{parent_or}

pub record Dentries : Type 0 where
  pub parent : ℕ → Option ℕ
  pub name : ℕ → List ℕ
  pub hashed : ℕ → Bool
  pub table : ℕ → List ℕ → Option ℕ

-- A dentry that a walk up its parents leads to a root.
pub data Rooted (parent : ℕ → Option ℕ) : ℕ → Type 0 where
  at_root : {d : ℕ} → parent d ≡ none → Rooted parent d
  beneath : {d p : ℕ} → parent d ≡ some p → Rooted parent p → Rooted parent d

-- The walk up the parents, which ends since the dentry is rooted.
unfoldable pub d_ancestor : {parent : ℕ → Option ℕ} {at : ℕ} → ℕ → Rooted parent at → Bool
d_ancestor ancestor (at_root e) = false
d_ancestor ancestor (beneath {p} e r) = p == ancestor || d_ancestor ancestor r

unfoldable pub is_subdir : {parent : ℕ → Option ℕ} {d : ℕ} → ℕ → Rooted parent d → Bool
unfolding d_ancestor
is_subdir {d} ancestor r = d == ancestor || d_ancestor ancestor r

-- A map with one value replaced.
abbrev pub set : {A : Type 0} → (ℕ → A) → ℕ → A → ℕ → A
set f d a x = if x == d then a else f x

abbrev pub set_key : (ℕ → List ℕ → Option ℕ) → ℕ → List ℕ → Option ℕ → ℕ → List ℕ → Option ℕ
set_key f dir name d x n = if x == dir && bytes_eq n name then d else f x n

-- A root stands as its own parent.
abbrev pub above : Dentries → ℕ → ℕ
above ds d = parent_or d (ds.parent d)

unfoldable pub unhash : Dentries → ℕ → Dentries
unhash ds d =
    if ds.hashed d
    then record ds {
      table = set_key ds.table (above ds d) (ds.name d) none;
      hashed = set ds.hashed d false;
    }
    else ds

unfoldable pub move_dentry : Dentries → ℕ → ℕ → Dentries
unfolding unhash
move_dentry before d target =
    let ds = unhash before target in
    let parent = above ds target in
    let removed =
      (if ds.hashed d then set_key ds.table (above ds d) (ds.name d) none else ds.table) in
    record {
      table = set_key removed parent (ds.name target) (some d);
      hashed = set ds.hashed d true;
      parent = set ds.parent d (some parent);
      name = set ds.name d (ds.name target);
    }

unfoldable pub exchange : Dentries → ℕ → ℕ → Dentries
exchange ds first second =
    let one = above ds first in
    let other = above ds second in
    let without_first =
      (if ds.hashed first then set_key ds.table one (ds.name first) none else ds.table) in
    let without =
      (if ds.hashed second
        then set_key without_first other (ds.name second) none
        else without_first) in
    record {
      table =
          set_key (set_key without other (ds.name second) (some first)) one (ds.name first)
            (some second);
      hashed = set (set ds.hashed first true) second true;
      parent = set (set ds.parent first (ds.parent second)) second (ds.parent first);
      name = set (set ds.name first (ds.name second)) second (ds.name first);
    }
