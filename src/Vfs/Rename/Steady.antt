-- ===== src/Vfs/Rename/Steady.antt =====
-- What is assumed of the steps of a move (crates/kobako-runtime/src/vfs/namei.rs) where no other lands.
use kobako.Common.{
  ℕ, ◌≡◌, refl, sym, subst, ◌∙◌, Bool, true, false, Option, none, some, List, Result, ok, err,
}
use kobako.Security.Files.{FilesystemError, Mask}
use kobako.Vfs.Actions.{Act, pure, fail, found, guard, Meets, Ensures}
use kobako.Vfs.Tree.{Caller, ask, try, told_or}
use kobako.Vfs.Dentries.{Dentries, Rooted, is_subdir}
use kobako.Vfs.Dentries.Moves.{AllRooted}
use kobako.Vfs.SuperBlock.{RenameFlag, Lock, SuperBlock, change}

-- What is assumed of the operations of a move, the waits for its locks and its lookups included: none
-- moves a dentry, a lookup answers a dentry of its directory, and `is_subdir` answers from the parents.
-- For a move across directories the rename lock keeps others from it once it is held. A lookup of a move
-- within one directory, which takes no such lock, may splice a directory in from elsewhere: that is not
-- covered.
pub record Steady {S : Type 0} (sb : SuperBlock S) (parent : ℕ → Option ℕ)
    (rooted : (d : ℕ) → Rooted parent d) : Type 0 where
  pub kind : (d : ℕ) (s : S) → (sb.dentries (sb.tree.kind d s).1).parent ≡ (sb.dentries s).parent
  pub permission :
      (d : ℕ) (mask : Mask) (s : S)
      → (sb.dentries (sb.tree.permission d mask s).1).parent ≡ (sb.dentries s).parent
  pub security :
      (d : ℕ) (mask : Mask) (s : S)
      → (sb.dentries (sb.tree.security_inode_permission d mask s).1).parent ≡ (sb.dentries s).parent
  pub rdonly : (s : S) → (sb.dentries (sb.tree.rdonly s).1).parent ≡ (sb.dentries s).parent
  pub lock : (l : Lock) (s : S) → (sb.dentries (sb.lock l s).1).parent ≡ (sb.dentries s).parent
  pub inode : (d : ℕ) (s : S) → (sb.dentries (sb.inode d s).1).parent ≡ (sb.dentries s).parent
  pub entry :
      (d d' : ℕ) (s : S)
      → (sb.dentries (sb.names_the_entry_of d d' s).1).parent ≡ (sb.dentries s).parent
  pub dead : (d : ℕ) (s : S) → (sb.dentries (sb.is_deaddir d s).1).parent ≡ (sb.dentries s).parent
  pub rename :
      (a b c d : ℕ) (flag : Option RenameFlag) (s : S)
      → (sb.dentries (sb.rename a b c d flag s).1).parent ≡ (sb.dentries s).parent
  pub mark_dead : (d : ℕ) (s : S) → (sb.dentries (sb.mark_dead d s)).parent ≡ (sb.dentries s).parent
  pub shrink :
      (d : ℕ) (s : S) → (sb.dentries (sb.shrink_dcache_parent d s)).parent ≡ (sb.dentries s).parent
  pub lookup :
      (dir : ℕ) (name : List ℕ) (s : S)
      → (sb.dentries (sb.lookup_one_qstr_excl dir name s).1).parent ≡ (sb.dentries s).parent
  pub looked_up :
      (dir d : ℕ) (name : List ℕ) (s : S)
      → (sb.lookup_one_qstr_excl dir name s).0 ≡ ok d
      → (sb.dentries s).parent d ≡ some dir
  pub subdir :
      (d a : ℕ) (s : S) → (sb.dentries (sb.tree.is_subdir d a s).1).parent ≡ (sb.dentries s).parent
  pub subdir_of :
      (d a : ℕ) (s : S)
      → (sb.dentries s).parent ≡ parent
      → (sb.tree.is_subdir d a s).0 ≡ is_subdir a (rooted d)
  pub written : (ds : Dentries) (s : S) → sb.dentries (sb.with_dentries ds s) ≡ ds

module _ {S : Type 0} (sb : SuperBlock S) (parent : ℕ → Option ℕ)
    (rooted : (d : ℕ) → Rooted parent d) where
  abbrev pub At : Caller S → Type 0
  At c = (sb.dentries c.tree).parent ≡ parent

  abbrev pub Good : Caller S → Type 0
  Good c = AllRooted (sb.dentries c.tree)

  abbrev pub Steps : {A : Type 0} → Act (Caller S) A → Type 0
  Steps m = Ensures At (λ a. At) (λ e. Good) m

  pub good : (c : Caller S) → At c → Good c
  good c e d = subst (λ p. Rooted p d) (sym e) (rooted d)

  pub ask-Steps :
      {A : Type 0} (q : S → A × S)
      → ((s : S) → (sb.dentries (q s).1).parent ≡ (sb.dentries s).parent)
      → Steps (ask q)
  ask-Steps q h = record { meets = λ c e. h c.tree ∙ e }

  pub told_or-Meets :
      {A : Type 0} (Q : A → Caller S → Type 0) (c : Caller S) (r : Result A FilesystemError × S)
      → (sb.dentries (r.1)).parent ≡ parent
      → ((a : A) → r.0 ≡ ok a → Q a (record c { tree = r.1 }))
      → Meets Q (λ e. Good) (told_or c r)
  told_or-Meets Q c (ok a, s) e h = h a refl
  told_or-Meets Q c (err x, s) e h = good (record c { tree = s }) e

  pub try-Steps :
      {A : Type 0} (q : S → Result A FilesystemError × S)
      → ((s : S) → (sb.dentries (q s).1).parent ≡ (sb.dentries s).parent)
      → Steps (try q)
  try-Steps q h = record {
    meets = λ c e. told_or-Meets (λ a. At) c (q c.tree) (h c.tree ∙ e) λ a f. h c.tree ∙ e;
  }

  pub change-Steps :
      (f : S → S)
      → ((s : S) → (sb.dentries (f s)).parent ≡ (sb.dentries s).parent)
      → Steps (change f)
  change-Steps f h = record { meets = λ c e. h c.tree ∙ e }

  pub pure-Steps : {A : Type 0} (a : A) → Steps (pure a)
  pure-Steps a = record { meets = λ c e. e }

  pub fail-Ensures :
      {A : Type 0} {Q : A → Caller S → Type 0} (e : FilesystemError)
      → Ensures At Q (λ e. Good) (fail e)
  fail-Ensures x = record { meets = good }

  pub found-Steps : {A : Type 0} (e : FilesystemError) (a : Option A) → Steps (found e a)
  found-Steps e none = fail-Ensures e
  found-Steps e (some a) = pure-Steps a

  pub guard-Ensures :
      (b : Bool) (e : FilesystemError)
      → Ensures At (λ u c. At c × (b ≡ true)) (λ e. Good) (guard b e)
  guard-Ensures true e = record { meets = λ c p. (p, refl) }
  guard-Ensures false e = fail-Ensures e
