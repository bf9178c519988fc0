-- ===== src/Vfs/Confined.antt =====
-- What a walk (crates/kobako-runtime/src/vfs/namei.rs) asks of the dentries beneath its start.
pub mod Walks
pub mod Calls
use kobako.Common.{
  ℕ, zero, suc, ◌≡◌, ◌≢◌, refl, ap, Bool, true, false, Option, none, some, List, [], ◌∷◌, ◌++◌,
  arith, length, not, ◌==◌, Bool-cases, ◌⊎◌, inl, inr, if◌then◌else◌, Result, ok, err,
}
use kobako.Security.Files.{
  FilesystemError, not_found, not_a_directory, escape, would_block, read_only_filesystem, FileType,
  reg_file, dir, symlink, fifo, sock, blkdev, chrdev, unknown, Mask,
}
use kobako.Vfs.Actions.{
  Answer, answered, refused, unfinished, Act, pure, fail, stuck, found, guard, lift, ◌>>=◌,
}
use kobako.Vfs.Actions.Alike.{
  Yields, Any, Alike, Alike-refl, Alike-pure, Alike-fail, Alike-if, and_Alike,
}
use kobako.Vfs.Names.{
  LastType, norm, dot, dot_dot, maxsymlinks, slash, getname, starts_with, parts, jump, type_of,
  is_empty, without_slashes, any_slashes,
}
use kobako.Vfs.Tree.{Tree, Caller, ask, try, told, told_or}
use kobako.Vfs.Walk.{
  Nameidata, Next, walked, linked, ended, stored, sb_permission, inode_permission, count_link,
  pick_link, stepped_into, walk_component, is_root, parent, climb, follow_dotdot, component,
  next_name, set_last, no_parent, parent_or, one_round, on_next, link_path_walk, walk_names, exec,
}

-- What a kind of dentries has to do with a tree: a name looked up in one of them is one of them, and
-- so is the directory above any but the start.
pub record Closed {S : Type 0} (t : Tree S) (start : ℕ) (In : ℕ → Type 0) : Type 0 where
  pub started : In start
  pub lookup :
      (at child : ℕ) (name : List ℕ) (s : S)
      → In at
      → (t.lookup_dentry at name s).0 ≡ ok child
      → In child
  pub above : (at p : ℕ) (s : S) → In at → at ≢ start → (t.above at s).0 ≡ some p → In p

-- Two trees that are the same on those dentries.
pub record SameOn {S : Type 0} (t u : Tree S) (In : ℕ → Type 0) : Type 0 where
  pub lookup : (d : ℕ) → In d → t.lookup_dentry d ≡ u.lookup_dentry d
  pub kind : (d : ℕ) → In d → t.kind d ≡ u.kind d
  pub get_link : (d : ℕ) → In d → t.get_link d ≡ u.get_link d
  pub permission : (d : ℕ) → In d → t.permission d ≡ u.permission d
  pub security : (d : ℕ) → In d → t.security_inode_permission d ≡ u.security_inode_permission d
  pub above : (d : ℕ) → In d → t.above d ≡ u.above d
  pub is_subdir : (d a : ℕ) → In d → In a → t.is_subdir d a ≡ u.is_subdir d a
  pub rdonly : t.rdonly ≡ u.rdonly
  pub read_seqbegin : t.read_seqbegin ≡ u.read_seqbegin
  pub read_seqretry : t.read_seqretry ≡ u.read_seqretry

-- The walk stands beneath its start, and so does what it found.
abbrev pub InPath : (ℕ → Type 0) → Option ℕ → Type 0
InPath In none = Unit
InPath In (some d) = In d

pub record Within (start : ℕ) (In : ℕ → Type 0) (nd : Nameidata) : Type 0 where
  pub rooted : nd.root ≡ start
  pub inside : In nd.at
  pub found : InPath In nd.path

abbrev pub nameidata_of : Next → Nameidata
nameidata_of (walked nd) = nd
nameidata_of (linked nd) = nd
nameidata_of (ended nd) = nd

module _ {S A : Type 0} where
  pub Alike-ask :
      (Q : A → Type 0) {q r : S → A × S} → q ≡ r → ((s : S) → Q (q s).0) → Alike Q (ask q) (ask r)
  Alike-ask Q {q} e h = record { same = λ c. ap (λ f. ask f c) e; yields = λ c. h c.tree }

  told_or-Yields :
      (Q : A → Type 0) (c : Caller S) (r : Result A FilesystemError × S)
      → ((a : A) → r.0 ≡ ok a → Q a)
      → Yields Q (told_or c r)
  told_or-Yields Q c (ok a, s) h = h a refl
  told_or-Yields Q c (err e, s) h = tt

  pub Alike-try :
      (Q : A → Type 0) {q r : S → Result A FilesystemError × S}
      → q ≡ r
      → ((s : S) (a : A) → (q s).0 ≡ ok a → Q a)
      → Alike Q (try q) (try r)
  Alike-try Q {q} e h = record {
    same = λ c. ap (λ f. try f c) e;
    yields = λ c. told_or-Yields Q c (q c.tree) (h c.tree);
  }

  pub Alike-found :
      (Q : A → Type 0) (e : FilesystemError) (a : Option A)
      → ((x : A) → a ≡ some x → Q x)
      → Alike {C = Caller S} Q (found e a) (found e a)
  Alike-found Q e none h = Alike-fail e
  Alike-found Q e (some a) h = Alike-pure a (h a refl)

pub Alike-guard :
    {S : Type 0} (b : Bool) (e : FilesystemError)
    → Alike {C = Caller S} (λ x. b ≡ true) (guard b e) (guard b e)
Alike-guard true e = Alike-pure tt refl
Alike-guard false e = Alike-fail e

module _ {S : Type 0} (t u : Tree S) (start : ℕ) (In : ℕ → Type 0) (closed : Closed t start In)
    (same : SameOn t u In) where
  abbrev Stays : Nameidata → Type 0
  Stays nd = Within start In nd

  sb_permission-Alike :
      (d : ℕ) (mask : Mask) → In d → Alike Any (sb_permission t d mask) (sb_permission u d mask)
  unfolding sb_permission
  sb_permission-Alike d mask i =
      Alike-if mask.may_write
        (and_Alike (Alike-ask Any same.rdonly λ s. tt) λ b v.
          Alike-if b
            (and_Alike (Alike-ask Any (same.kind d i) λ s. tt) λ kind v.
              and_Alike (Alike-found Any not_found kind λ x e. tt) λ stands v.
                Alike-if (stored stands) (Alike-fail read_only_filesystem) (Alike-pure tt tt))
            (Alike-pure tt tt))
        (Alike-pure tt tt)

  pub inode_permission-Alike :
      (d : ℕ) (mask : Mask)
      → In d
      → Alike Any (inode_permission t d mask) (inode_permission u d mask)
  unfolding inode_permission
  inode_permission-Alike d mask i = and_Alike (sb_permission-Alike d mask i) λ w v.
      and_Alike (Alike-ask Any (same.kind d i) λ s. tt) λ kind v.
        and_Alike (Alike-found Any not_found kind λ x e. tt) λ stands v.
          and_Alike (Alike-try Any (ap (λ f. f mask) (same.permission d i)) λ s a e. tt)
            λ p v. Alike-try Any (ap (λ f. f mask) (same.security d i)) λ s a e. tt

  pub pick_link-Alike :
      (nd : Nameidata) (d : ℕ) → Stays nd → In d → Alike Stays (pick_link t nd d) (pick_link u nd d)
  unfolding pick_link
  pick_link-Alike nd d st i = and_Alike (Alike-refl count_link) λ w v.
      and_Alike (Alike-try Any (same.get_link d i) λ s a e. tt) λ target v.
        Alike-if (starts_with slash target) (Alike-fail escape) (
          Alike-pure (record nd { pending = parts (jump target) ++ nd.pending })
            (record { rooted = st.rooted; inside = st.inside; found = st.found }))

  is_root-Alike : (d : ℕ) → In d → Alike Any (is_root t d) (is_root u d)
  unfolding is_root
  is_root-Alike d i =
      and_Alike (Alike-ask Any (same.above d i) λ s. tt) λ above v. Alike-pure (no_parent above) tt

  In-parent_or :
      (d : ℕ) (above : Option ℕ) → In d → ((p : ℕ) → above ≡ some p → In p) → In (parent_or d above)
  In-parent_or d none i h = i
  In-parent_or d (some p) i h = h p refl

  parent-Alike : (d : ℕ) → In d → d ≢ start → Alike In (parent t d) (parent u d)
  unfolding parent
  parent-Alike d i ne =
      and_Alike
        (Alike-ask (λ above. In (parent_or d above)) (same.above d i)
          λ s. In-parent_or d _ i λ p e. closed.above d p s i ne e)
        λ above v. Alike-pure (parent_or d above) v

  climb-Alike : (nd : Nameidata) → Stays nd → nd.at ≢ start → Alike Stays (climb t nd) (climb u nd)
  unfolding climb
  climb-Alike nd st ne = and_Alike (parent-Alike nd.at st.inside ne) λ above v.
      and_Alike (Alike-ask Any (ap (λ f. f nd.r_seq) same.read_seqretry) λ s. tt) λ moved w.
        Alike-if moved (Alike-fail would_block) (
          Alike-pure (record nd { at = above })
            (record { rooted = st.rooted; inside = v; found = st.found }))

  pub follow_dotdot-Alike :
      (nd : Nameidata) → Stays nd → Alike Stays (follow_dotdot t nd) (follow_dotdot u nd)
  unfolding follow_dotdot
  follow_dotdot-Alike nd st = elim (Bool-cases (nd.at == nd.root)) [
    | inl e ↦ rw e (Alike-fail escape)
    | inr e ↦ rw e (
        and_Alike (is_root-Alike nd.at st.inside)
          λ top v. Alike-if top (Alike-fail escape) (climb-Alike nd st (apart e)))
  ]
    where
      apart : nd.at == nd.root ≡ false → nd.at ≢ start
      apart e p = grind (arith, st.rooted)
