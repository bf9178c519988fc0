-- ===== src/Vfs/Runs.antt =====
-- Walks of a small tree: beneath the start 1 stand the file `a` (2), the link `l` (3) to `d/f`, the
-- directory `d` (4) with the file `f` (5), and what does not stand (6). The root 0 is above the start.
use kobako.Common.{
  ℕ, zero, suc, ◌<◌, ◌≡◌, ◌≢◌, refl, true, false, Option, none, some, List, [], ◌∷◌, ◌==◌,
  get_elem?, bytes_eq, codes, if◌then◌else◌, arith, Result, ok, ok-injective, subst, sym,
}
use kobako.Security.Files.{
  FilesystemError, not_a_directory, escape, FileType, reg_file, dir, symlink,
}
use kobako.Vfs.Actions.{Answer, answered, refused}
use kobako.Vfs.Actions.Alike.{Yields}
use kobako.Vfs.Tree.{Tree, Caller}
use kobako.Vfs.Walk.{Nameidata}
use kobako.Vfs.Lookup.{starting, filename_lookup}
use kobako.Vfs.Names.{norm}
use kobako.Vfs.Bounded.{Bounded, filename_lookup-Bounded}
use kobako.Vfs.Confined.{Closed, SameOn, Within}
use kobako.Vfs.Confined.Calls.{filename_lookup-Confined}

abbrev State : Type 0
State = ℕ

abbrev child_of : List ℕ → ℕ
child_of name =
    if bytes_eq name (codes "a")
    then 2
    else if bytes_eq name (codes "l")
    then 3
    else if bytes_eq name (codes "d")
    then 4
    else if bytes_eq name (codes "f")
    then 5
    else 6

abbrev kind_of : ℕ → Option FileType
kind_of d = get_elem? (dir ∷ dir ∷ reg_file ∷ symlink ∷ dir ∷ reg_file ∷ []) d

abbrev lookup_in : ℕ → ℕ → List ℕ → State → Result ℕ FilesystemError × State
lookup_in outside zero name s = (ok outside, suc s)
lookup_in outside (suc d) name s = (ok (child_of name), suc s)

abbrev above_of : ℕ → State → Option ℕ × State
above_of d s =
    (if d == 0 then none else if d == 1 then some 0 else if d == 5 then some 4 else some 1, s)

-- The tree, with what a lookup at the root answers.
abbrev tree : ℕ → Tree State
tree outside = record {
  lookup_dentry = lookup_in outside;
  kind = λ d s. (kind_of d, s);
  get_link = λ d s. (ok (codes "d/f"), s);
  permission = λ d mask s. (ok tt, s);
  security_inode_permission = λ d mask s. (ok tt, s);
  rdonly = λ s. (true, s);
  above = above_of;
  is_subdir = λ d a s. (true, s);
  read_seqbegin = λ s. (0, s);
  read_seqretry = λ begun s. (false, s);
}

abbrev start : State → Result ℕ FilesystemError × State
start s = (ok 1, s)

abbrev status : Answer Nameidata (Caller State) → Option (Option ℕ × ℕ)
status (answered nd c) = some (nd.path, c.total_link_count)
status _ = none

abbrev refusal : Answer Nameidata (Caller State) → Option FilesystemError
refusal (refused e c) = some e
refusal _ = none

through_link : status (filename_lookup (tree 9) start (codes "./l") true 0) ≡ some (some 5, 1)
unfolding filename_lookup
through_link = refl

link_itself : status (filename_lookup (tree 9) start (codes "d//../l") false 0) ≡ some (some 3, 0)
unfolding filename_lookup
link_itself = refl

file_with_slash :
    refusal (filename_lookup (tree 9) start (codes "a/") false 0) ≡ some not_a_directory
unfolding filename_lookup
file_with_slash = refl

above_start : refusal (filename_lookup (tree 9) start (codes "d/../..") false 0) ≡ some escape
unfolding filename_lookup
above_start = refl

absolute : refusal (filename_lookup (tree 9) start (codes "/a") false 0) ≡ some escape
unfolding filename_lookup
absolute = refl

child_pos : (name : List ℕ) → 0 < child_of name
child_pos name = ground arith

above_pos : (at p s : ℕ) → 0 < at → at ≢ 1 → (above_of at s).0 ≡ some p → 0 < p
above_pos at p s h ne e = ground arith

closed : (outside : ℕ) → Closed (tree outside) 1 (λ d. 0 < d)
closed outside = record { started = omega arith; lookup = lookup; above = above_pos }
  where
    lookup :
        (at child : ℕ) (name : List ℕ) (s : State)
        → 0 < at
        → (lookup_in outside at name s).0 ≡ ok child
        → 0 < child
    lookup zero child name s h e = absurd (omega arith)
    lookup (suc d) child name s h e = subst (λ c. 0 < c) (ok-injective e) (child_pos name)

same_beneath : (o o' : ℕ) → SameOn (tree o) (tree o') (λ d. 0 < d)
same_beneath o o' = record {
  lookup = lookup;
  kind = λ d i. refl;
  get_link = λ d i. refl;
  permission = λ d i. refl;
  security = λ d i. refl;
  above = λ d i. refl;
  is_subdir = λ d a i j. refl;
  rdonly = refl;
  read_seqbegin = refl;
  read_seqretry = refl;
}
  where
    lookup : (d : ℕ) → 0 < d → lookup_in o d ≡ lookup_in o' d
    lookup zero i = absurd (omega arith)
    lookup (suc d) i = refl

filename_lookup-Bounded_example : Bounded (filename_lookup (tree 9) start (codes "./l") true 0)
filename_lookup-Bounded_example = filename_lookup-Bounded (tree 9) start (codes "./l") true 0

-- What a lookup of `d/` ends on, one lookup in a directory later.
abbrev directory : Nameidata
directory = record (starting 1 0 []) {
  pending = [];
  last = codes "d";
  last_type = norm;
  trailing_slash = true;
  path = some 4;
  lookup_directory = true;
}

filename_lookup-Confined_example :
    (filename_lookup (tree 9) start (codes "d/../l") true 0
      ≡ filename_lookup (tree 2) start (codes "d/../l") true 0)
    × Yields
        (λ nd. Within 1 (λ d. 0 < d) nd)
        (filename_lookup (tree 9) start (codes "d/../l") true 0)
filename_lookup-Confined_example =
    filename_lookup-Confined (tree 9) (tree 2) 1 (λ d. 0 < d) (closed 9) (same_beneath 9 2) start
      (λ s d e. sym (ok-injective e)) (codes "d/../l") true 0
