-- ===== src/Vfs/Counted.antt =====
-- The links that a walk counts at each step (crates/kobako-runtime/src/vfs/namei.rs).
use kobako.Common.{
  ℕ, zero, suc, ◌+◌, ◌≤◌, ◌<◌, ◌≡◌, refl, ◌⊎◌, inl, inr, Bool, true, false, Option, none, some,
  List, [], ◌∷◌, length, ap, ◌==◌, if◌then◌else◌, arith, Result, ok, err,
}
use kobako.Security.Files.{
  FilesystemError, not_found, read_only_filesystem, escape, would_block, not_a_directory,
  filesystem_loop, FileType, dir, symlink, reg_file, fifo, sock, blkdev, chrdev, unknown, Mask,
}
use kobako.Vfs.Actions.{Act, found, pure, fail, Meets, Ensures}
use kobako.Vfs.Actions.Rules.{ensures_weaken, ensures_value, ensures_if, and_then}
use kobako.Vfs.Names.{
  LastType, norm, dot, dot_dot, maxsymlinks, slash, starts_with, type_of, is_empty, without_slashes,
}
use kobako.Vfs.Tree.{Tree, Caller, ask, try, told_or}
use kobako.Vfs.Walk.{
  Nameidata, Next, walked, linked, ended, stored, sb_permission, inode_permission, count_link,
  pick_link, stepped_into, walk_component, is_root, parent, climb, follow_dotdot, component,
  next_name, no_parent, parent_or, one_round, on_next, link_path_walk, walk_names, exec,
}

pub length-without_slashes : (names : List (List ℕ)) → length (without_slashes names) ≤ length names
unfolding without_slashes
length-without_slashes [] = omega arith
length-without_slashes ([] ∷ names) = omega (arith, length-without_slashes names)
length-without_slashes ((x ∷ xs) ∷ names) = omega arith

module _ {S : Type 0} where
  -- At least `n` links are counted, and no more than a call may follow.
  abbrev pub Kept : ℕ → Caller S → Type 0
  Kept n c = (n ≤ c.total_link_count) × (c.total_link_count ≤ maxsymlinks)

  -- More are counted where the walk answers ELOOP.
  abbrev pub Over : FilesystemError → Caller S → Type 0
  Over e c = (c.total_link_count ≤ maxsymlinks) ⊎ (e ≡ filesystem_loop)

  -- An action that keeps the count between `n` and the most.
  abbrev pub Keeps : {A : Type 0} → ℕ → Act (Caller S) A → Type 0
  Keeps n m = Ensures (Kept n) (λ a. Kept n) Over m

  module _ {A : Type 0} (n : ℕ) where
    told_or-Meets :
        (c : Caller S)
        → Kept n c
        → (r : Result A FilesystemError × S) → Meets (λ a. Kept n) Over (told_or c r)
    told_or-Meets c k (ok a, s) = k
    told_or-Meets c k (err e, s) = inl (k.1)

    pub try-Keeps : (q : S → Result A FilesystemError × S) → Keeps n (try q)
    try-Keeps q = record { meets = λ c k. told_or-Meets c k (q c.tree) }

    pub ask-Keeps : (q : S → A × S) → Keeps n (ask q)
    ask-Keeps q = record { meets = λ c k. k }

    pub pure-Keeps : (a : A) → Keeps n (pure a)
    pure-Keeps a = record { meets = λ c k. k }

    pub fail-Keeps :
        {Q : A → Caller S → Type 0} (e : FilesystemError) → Ensures (Kept n) Q Over (fail e)
    fail-Keeps e = record { meets = λ c k. inl (k.1) }

    pub found-Keeps : (e : FilesystemError) (a : Option A) → Keeps n (found e a)
    found-Keeps e none = record { meets = λ c k. inl (k.1) }
    found-Keeps e (some a) = record { meets = λ c k. k }

  -- A step up keeps the names that are left.
  abbrev pub Same : ℕ → Nameidata → Nameidata → Caller S → Type 0
  Same n nd on c = Kept n c × (on.pending ≡ nd.pending)

  -- What a round leaves: fewer names, one more link, or the end.
  pub Rounded : ℕ → ℕ → Next → Caller S → Type 0
  Rounded n left (walked on) c = Kept n c × (length on.pending < left)
  Rounded n left (linked on) c = Kept (suc n) c
  Rounded n left (ended on) c = Kept n c

module _ {S : Type 0} (t : Tree S) (n : ℕ) where
  pub sb_permission-Keeps : (dentry : ℕ) (mask : Mask) → Keeps n (sb_permission t dentry mask)
  unfolding sb_permission
  sb_permission-Keeps dentry mask =
      ensures_if mask.may_write
        (and_then (ask-Keeps n t.rdonly) λ b.
          ensures_if b
            (and_then (ask-Keeps n (t.kind dentry)) λ kind.
              and_then (found-Keeps n not_found kind) λ stands.
                ensures_if (stored stands) (fail-Keeps n read_only_filesystem) (pure-Keeps n tt))
            (pure-Keeps n tt))
        (pure-Keeps n tt)

  pub inode_permission-Keeps : (dentry : ℕ) (mask : Mask) → Keeps n (inode_permission t dentry mask)
  unfolding inode_permission
  inode_permission-Keeps dentry mask = and_then (sb_permission-Keeps dentry mask) λ w.
      and_then (ask-Keeps n (t.kind dentry)) λ kind. and_then (found-Keeps n not_found kind) λ s.
        and_then (try-Keeps n (t.permission dentry mask))
          λ p. try-Keeps n (t.security_inode_permission dentry mask)

  counted :
      (b : Bool) (c : Caller S)
      → (b ≡ false → Kept (suc n) c)
      → Meets
          (λ a. Kept (suc n))
          Over
          ((if b then fail {A = Unit {0}} filesystem_loop else pure tt) c)
  counted true c h = inr refl
  counted false c h = h refl

  pub count_link-Keeps : Ensures (Kept {S = S} n) (λ a. Kept (suc n)) Over count_link
  unfolding count_link
  count_link-Keeps = record { meets = λ c k. counted _ _ λ e. ground (arith, k) }

  pub pick_link-Keeps :
      (nd : Nameidata) (dentry : ℕ)
      → Ensures (Kept n) (λ a. Kept (suc n)) Over (pick_link t nd dentry)
  unfolding pick_link
  pick_link-Keeps nd dentry = and_then count_link-Keeps λ u.
      and_then (try-Keeps (suc n) (t.get_link dentry)) λ target.
        ensures_if (starts_with slash target) (fail-Keeps (suc n) escape) (pure-Keeps (suc n) _)

  pub is_root-Keeps : (dentry : ℕ) → Keeps n (is_root t dentry)
  unfolding is_root
  is_root-Keeps dentry = and_then (ask-Keeps n (t.above dentry)) λ a. pure-Keeps n (no_parent a)

  pub parent-Keeps : (dentry : ℕ) → Keeps n (parent t dentry)
  unfolding parent
  parent-Keeps dentry =
      and_then (ask-Keeps n (t.above dentry)) λ a. pure-Keeps n (parent_or dentry a)

  pub climb-Keeps : (nd : Nameidata) → Ensures (Kept n) (Same n nd) Over (climb t nd)
  unfolding climb
  climb-Keeps nd = and_then (parent-Keeps nd.at) λ above.
      and_then (ask-Keeps n (t.read_seqretry nd.r_seq)) λ moved.
        ensures_if moved (fail-Keeps n would_block)
          (ensures_value (record nd { at = above }) λ c k. (k, refl))

  pub follow_dotdot-Keeps :
      (nd : Nameidata) → Ensures (Kept n) (Same n nd) Over (follow_dotdot t nd)
  unfolding follow_dotdot
  follow_dotdot-Keeps nd =
      ensures_if (nd.at == nd.root) (fail-Keeps n escape) (
        and_then (is_root-Keeps nd.at) λ top. ensures_if top (fail-Keeps n escape) (climb-Keeps nd))

  pub stepped_into-Keeps :
      (nd : Nameidata) (dentry : ℕ) (kind : FileType) (left : ℕ)
      → length nd.pending < left
      → Ensures (Kept n) (Rounded n left) Over (stepped_into t nd dentry kind)
  unfolding stepped_into Rounded
  stepped_into-Keeps nd dentry symlink left h =
      and_then (pick_link-Keeps nd dentry) λ behind. record { meets = λ c k. k }
  stepped_into-Keeps nd dentry dir left h = record { meets = λ c k. (k, omega arith) }
  stepped_into-Keeps nd dentry reg_file left h = fail-Keeps n not_a_directory
  stepped_into-Keeps nd dentry fifo left h = fail-Keeps n not_a_directory
  stepped_into-Keeps nd dentry sock left h = fail-Keeps n not_a_directory
  stepped_into-Keeps nd dentry blkdev left h = fail-Keeps n not_a_directory
  stepped_into-Keeps nd dentry chrdev left h = fail-Keeps n not_a_directory
  stepped_into-Keeps nd dentry unknown left h = fail-Keeps n not_a_directory

  pub walk_component-Keeps :
      (nd : Nameidata) (name : List ℕ) (left : ℕ)
      → length nd.pending < left
      → Ensures (Kept n) (Rounded n left) Over (walk_component t nd name)
  unfolding walk_component
  walk_component-Keeps nd name left h =
      and_then (try-Keeps n (t.lookup_dentry nd.at name)) λ dentry.
        and_then (ask-Keeps n (t.kind dentry)) λ kind.
          and_then (found-Keeps n not_found kind)
            λ stands. stepped_into-Keeps nd dentry stands left h

  pub component-Keeps :
      (nd : Nameidata) (name : List ℕ) (kind : LastType) (left : ℕ)
      → length nd.pending < left
      → Ensures (Kept n) (Rounded n left) Over (component t nd name kind)
  unfolding component Rounded
  component-Keeps nd name norm left h = walk_component-Keeps nd name left h
  component-Keeps nd name dot left h = record { meets = λ c k. (k, omega arith) }
  component-Keeps nd name dot_dot left h =
      and_then (follow_dotdot-Keeps nd)
        λ above. record { meets = λ c k. (k.0, omega (arith, ap length (k.1))) }

  next_name-Keeps :
      (nd : Nameidata) (names : List (List ℕ)) (left : ℕ)
      → length names ≤ left
      → Ensures (Kept n) (Rounded n left) Over (next_name t nd names)
  unfolding next_name Rounded
  next_name-Keeps nd [] left h = fail-Keeps n not_found
  next_name-Keeps nd (part ∷ rest) left h =
      ensures_if (is_empty (without_slashes rest)) (record { meets = λ c k. k })
        (component-Keeps _ part (type_of part) left (omega (arith, length-without_slashes rest)))

  pub one_round-Keeps :
      (nd : Nameidata) (left : ℕ)
      → length nd.pending ≤ left
      → Ensures (Kept n) (Rounded n left) Over (one_round t nd)
  unfolding one_round
  one_round-Keeps nd left h =
      and_then (inode_permission-Keeps nd.at exec) λ p. next_name-Keeps nd nd.pending left h

module _ {S : Type 0} (t : Tree S) where
  on_next-Keeps :
      (n left : ℕ) (on through : Nameidata → Act (Caller S) Nameidata)
      → ((nd : Nameidata) → length nd.pending < left → Keeps n (on nd))
      → ((nd : Nameidata) → Keeps (suc n) (through nd))
      → (next : Next) → Ensures (Rounded n left next) (λ a. Kept n) Over (on_next on through next)
  unfolding Rounded
  on_next-Keeps n left on through h g (walked nd) = record {
    meets = λ c k. (h nd (k.1)).meets c (k.0);
  }
  on_next-Keeps n left on through h g (linked nd) =
      ensures_weaken (g nd) λ a c k. (omega (arith, k.0), k.1)
  on_next-Keeps n left on through h g (ended nd) = pure-Keeps n nd

  pub link_path_walk-Keeps :
      (n links fuel : ℕ) (nd : Nameidata)
      → length nd.pending < fuel
      → maxsymlinks < links + n
      → Ensures (Kept n) (λ a. Kept n) Over (link_path_walk t links fuel nd)
  unfolding link_path_walk
  link_path_walk-Keeps n links zero nd h g = absurd (omega arith)
  link_path_walk-Keeps n zero (suc fuel) nd h g = record {
    meets = λ c k. absurd (omega (arith, k.0));
  }
  link_path_walk-Keeps n (suc links) (suc fuel) nd h g =
      and_then (one_round-Keeps t n nd fuel (omega arith)) λ next.
        on_next-Keeps n fuel _ _ (λ on k. link_path_walk-Keeps n (suc links) fuel on k g)
          (λ through.
            link_path_walk-Keeps (suc n) links (suc (length through.pending)) through (omega arith)
              (omega arith))
          next

  pub walk_names-Keeps : (n : ℕ) (nd : Nameidata) → Keeps n (walk_names t nd)
  unfolding walk_names
  walk_names-Keeps n nd =
      link_path_walk-Keeps n (suc maxsymlinks) (suc (length nd.pending)) nd (omega arith)
        (omega arith)
