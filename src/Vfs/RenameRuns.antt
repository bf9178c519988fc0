-- ===== src/Vfs/RenameRuns.antt =====
-- A move in a small tree: the root 0 holds the directories `a` (1) and `b` (2), and `b` holds what does
-- not stand yet, `c` (3).
use kobako.Common.{
  ℕ, zero, suc, ◌≡◌, refl, true, false, Option, none, some, List, ◌==◌, bytes_eq, codes,
  if◌then◌else◌, Result, ok, err, ok-injective, required, ==_iff, ap, sym, ◌∙◌,
}
use kobako.Security.Files.{FilesystemError, invalid_input, not_found, dir}
use kobako.Vfs.Actions.{Answer, answered, refused, unfinished, Meets, ◌>>=◌}
use kobako.Vfs.Tree.{Tree, Caller}
use kobako.Vfs.Lookup.{fresh}
use kobako.Vfs.Dentries.{Dentries, Rooted, at_root, beneath, is_subdir}
use kobako.Vfs.Dentries.Moves.{AllRooted}
use kobako.Vfs.SuperBlock.{SuperBlock}
use kobako.Vfs.Dentries.Landed.{Landed}
use kobako.Vfs.Rename.{RenameData, start_renaming, admitted, move, vfs_rename}
use kobako.Vfs.Rename.Landed.{Stays, move-Replaced}
use kobako.Vfs.Rename.Steady.{Steady}
use kobako.Vfs.Rename.Moved.{start_renaming-AllRooted}

-- What no lookup made yet stands in `b` too.
abbrev parents : ℕ → Option ℕ
parents zero = none
parents (suc zero) = some 0
parents (suc (suc zero)) = some 0
parents (suc (suc (suc d))) = some 2

abbrev rooted : (d : ℕ) → Rooted parents d
rooted zero = at_root refl
rooted (suc zero) = beneath {p = 0} refl (at_root refl)
rooted (suc (suc zero)) = beneath {p = 0} refl (at_root refl)
rooted (suc (suc (suc d))) = beneath {p = 2} refl (beneath {p = 0} refl (at_root refl))

abbrev pub dentries : Dentries
dentries = record {
  parent = parents;
  name = λ d. if d == 1 then codes "a" else if d == 2 then codes "b" else codes "c";
  hashed = λ d. true;
  table = λ d name. none;
}

abbrev dentry_of : List ℕ → ℕ
dentry_of name = if bytes_eq name (codes "a") then 1 else if bytes_eq name (codes "b") then 2 else 3

-- A lookup answers the dentry of the name where it stands in the directory.
abbrev placed : Option ℕ → ℕ → ℕ → Result ℕ FilesystemError
placed none parent_dir d = err not_found
placed (some p) parent_dir d = if p == parent_dir then ok d else err not_found

abbrev lookup_in : ℕ → List ℕ → Dentries → Result ℕ FilesystemError × Dentries
lookup_in parent_dir name s = (placed (s.parent (dentry_of name)) parent_dir (dentry_of name), s)

abbrev pub allowed : {A : Type 0} → A → Result (Unit {0}) FilesystemError × A
allowed s = (ok tt, s)

abbrev pub tree : Tree Dentries
tree = record {
  lookup_dentry = lookup_in;
  kind = λ d s. (if d == 3 then none else some dir, s);
  get_link = λ d s. (err not_found, s);
  permission = λ d mask s. allowed s;
  security_inode_permission = λ d mask s. allowed s;
  rdonly = λ s. (false, s);
  above = λ d s. (s.parent d, s);
  is_subdir = λ d a s. (is_subdir a (rooted d), s);
  read_seqbegin = λ s. (0, s);
  read_seqretry = λ begun s. (false, s);
}

abbrev pub sb : SuperBlock Dentries
sb = record {
  tree = tree;
  lookup_one_qstr_excl = lookup_in;
  lock = λ l s. allowed s;
  inode = λ d s. (if d == 3 then none else some d, s);
  names_the_entry_of = λ d d' s. (false, s);
  is_deaddir = λ d s. (false, s);
  nlink = λ d s. (ok 1, s);
  rename = λ a b c d flag s. allowed s;
  rmdir = λ parent_dir d s. allowed s;
  unlink = λ parent_dir d s. allowed s;
  mkdir = λ parent_dir d s. allowed s;
  create = λ parent_dir d s. allowed s;
  symlink = λ parent_dir d target s. allowed s;
  link = λ parent_dir old d s. allowed s;
  mark_dead = λ d s. s;
  shrink_dcache_parent = λ d s. s;
  dentries = λ s. s;
  with_dentries = λ ds s. ds;
}

placed_lem :
    (above : Option ℕ) (parent_dir e d : ℕ)
    → placed above parent_dir e ≡ ok d
    → (above ≡ some parent_dir) × (e ≡ d)
placed_lem none parent_dir e d h = cc
placed_lem (some p) parent_dir e d h =
    let (q, r) = required (p == parent_dir) not_found h in
    (ap some ((==_iff p parent_dir).0 q), ok-injective r)

steady : Steady sb parents rooted
steady = record {
  kind = λ d s. refl;
  permission = λ d mask s. refl;
  security = λ d mask s. refl;
  rdonly = λ s. refl;
  lock = λ l s. refl;
  inode = λ d s. refl;
  entry = λ d d' s. refl;
  dead = λ d s. refl;
  rename = λ a b c d flag s. refl;
  mark_dead = λ d s. refl;
  shrink = λ d s. refl;
  lookup = λ parent_dir name s. refl;
  looked_up = λ parent_dir d name s h.
      let (above, e) = placed_lem (s.parent (dentry_of name)) parent_dir (dentry_of name) d h in
      ap s.parent (sym e) ∙ above;
  subdir = λ d a s. refl;
  subdir_of = λ d a s e. refl;
  written = λ ds s. refl;
}

abbrev result : Answer (Unit {0}) (Caller Dentries) → Option FilesystemError × Option ℕ × Option ℕ
result (answered u c) = (none, c.tree.parent 1, c.tree.table 2 (codes "c"))
result (refused e c) = (some e, c.tree.parent 1, none)
result unfinished = (none, none, none)

-- The directory `a` moves to `b/c`, and `b` does not move beneath itself.
moves :
    result (
      (start_renaming sb 0 (codes "a") 2 (codes "c") none >>= λ rd. vfs_rename sb rd)
        (fresh dentries))
    ≡ (none, some 2, some 1)
unfolding start_renaming vfs_rename is_subdir
moves = refl

into_itself :
    result (
      (start_renaming sb 0 (codes "b") 2 (codes "c") none >>= λ rd. vfs_rename sb rd)
        (fresh dentries))
    ≡ (some invalid_input, some 0, none)
unfolding start_renaming vfs_rename is_subdir
into_itself = refl

start_renaming-AllRooted_example :
    Meets
      (λ u c. AllRooted c.tree)
      (λ e c. AllRooted c.tree)
      ((start_renaming sb 0 (codes "a") 2 (codes "c") none >>= λ rd. vfs_rename sb rd)
        (fresh dentries))
start_renaming-AllRooted_example =
    start_renaming-AllRooted sb parents rooted steady 0 (codes "a") 2 (codes "c") none
      (fresh dentries) refl

abbrev moving : RenameData
moving = record { old_parent = 0; old_dentry = 1; new_parent = 2; new_dentry = 3; flag = none }

stays : Stays sb
stays = record {
  written = λ ds s. refl;
  shrunk_name = λ d s. refl;
  shrunk_parent = λ d s. refl;
  dead_name = λ d s. refl;
  dead_parent = λ d s. refl;
}

may_move : admitted sb moving (some dir) none (fresh dentries) ≡ answered tt (fresh dentries)
unfolding admitted is_subdir
may_move = refl

move-Replaced_example :
    (c2 : Caller Dentries) × (move sb moving (some dir) none (fresh dentries) ≡ answered tt c2)
    × Landed dentries c2.tree 1 3
move-Replaced_example =
    move-Replaced sb stays moving (some dir) none (fresh dentries) (fresh dentries) refl may_move
