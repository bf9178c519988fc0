-- ===== src/Vfs/Walk.antt =====
-- crates/kobako-runtime/src/vfs/namei.rs: the walk of a path to the directory of its last name. The
-- mount and the credentials of a walk are in its `Tree`.
use kobako.Common.{
  ℕ, zero, suc, Bool, true, false, Option, none, some, List, [], ◌∷◌, ◌++◌, ◌==◌, ltb, length,
  if◌then◌else◌,
}
use kobako.Security.Files.{
  not_found, not_a_directory, escape, filesystem_loop, would_block, read_only_filesystem, FileType,
  reg_file, dir, symlink, Mask, none_asked,
}
use kobako.Vfs.Actions.{Act, pure, fail, stuck, found, ◌>>=◌}
use kobako.Vfs.Names.{
  LastType, norm, dot, dot_dot, maxsymlinks, slash, is_empty, starts_with, parts, without_slashes,
  any_slashes, type_of, jump,
}
use kobako.Vfs.Tree.{Tree, Caller, ask, try}

pub record Nameidata : Type 0 where
  pub root : ℕ
  pub r_seq : ℕ
  pub at : ℕ
  pub pending : List (List ℕ)
  pub last : List ℕ
  pub last_type : LastType
  pub trailing_slash : Bool
  pub path : Option ℕ
  pub lookup_directory : Bool

-- Where a name leads: on, through a link, or nowhere, since it is the last.
pub data Next : Type 0 where
  walked linked ended : Nameidata → Next

-- The last name itself, kept where it is a `norm` one.
abbrev pub kept_name : LastType → List ℕ → List ℕ
kept_name norm name = name
kept_name _ name = []

unfoldable pub set_last : List ℕ → Bool → Nameidata → Nameidata
unfolding type_of
set_last name slashes nd = record nd {
  last = kept_name (type_of name) name;
  last_type = type_of name;
  trailing_slash = slashes;
}

-- The Mask that a walk asks of each directory.
abbrev pub exec : Mask
exec = record none_asked { may_exec = true }

-- A read-only superblock refuses the kinds that it stores.
unfoldable pub stored : FileType → Bool
stored reg_file = true
stored dir = true
stored symlink = true
stored _ = false

-- A root stands as its own parent.
abbrev pub no_parent : Option ℕ → Bool
no_parent none = true
no_parent (some p) = false

abbrev pub parent_or : ℕ → Option ℕ → ℕ
parent_or dentry none = dentry
parent_or dentry (some p) = p

module _ {S : Type 0} where
  unfoldable pub count_link : Act (Caller S) (Unit {0})
  count_link c =
      let count = suc c.total_link_count in
      (if ltb maxsymlinks count then fail filesystem_loop else pure tt)
        (record c { total_link_count = count })

  abbrev pub on_next :
      (Nameidata → Act (Caller S) Nameidata)
      → (Nameidata → Act (Caller S) Nameidata)
      → Next
      → Act (Caller S) Nameidata
  on_next on through (walked nd) = on nd
  on_next on through (linked nd) = through nd
  on_next on through (ended nd) = pure nd

module _ {S : Type 0} (t : Tree S) where
  unfoldable pub sb_permission : ℕ → Mask → Act (Caller S) (Unit {0})
  unfolding stored
  sb_permission dentry mask =
      if mask.may_write
      then (do
        rdonly ← ask t.rdonly
        if rdonly
            then (do
              kind ← ask (t.kind dentry)
              stands ← found not_found kind
              if stored stands then fail read_only_filesystem else pure tt)
            else pure tt)
      else pure tt

  unfoldable pub inode_permission : ℕ → Mask → Act (Caller S) (Unit {0})
  unfolding sb_permission
  inode_permission dentry mask = do
    writable ← sb_permission dentry mask
    kind ← ask (t.kind dentry)
    stands ← found not_found kind
    permitted ← try (t.permission dentry mask)
    try (t.security_inode_permission dentry mask)

  unfoldable pub pick_link : Nameidata → ℕ → Act (Caller S) Nameidata
  unfolding count_link starts_with jump parts
  pick_link nd dentry = do
    counted ← count_link
    target ← try (t.get_link dentry)
    if starts_with slash target
        then fail escape
        else pure (record nd { pending = parts (jump target) ++ nd.pending })

  unfoldable pub stepped_into : Nameidata → ℕ → FileType → Act (Caller S) Next
  unfolding pick_link
  stepped_into nd dentry symlink = do behind ← pick_link nd dentry; pure (linked behind)
  stepped_into nd dentry dir = pure (walked (record nd { at = dentry }))
  stepped_into nd dentry _ = fail not_a_directory

  unfoldable pub walk_component : Nameidata → List ℕ → Act (Caller S) Next
  unfolding stepped_into
  walk_component nd name = do
    dentry ← try (t.lookup_dentry nd.at name)
    kind ← ask (t.kind dentry)
    stands ← found not_found kind
    stepped_into nd dentry stands

  unfoldable pub is_root : ℕ → Act (Caller S) Bool
  is_root dentry = do above ← ask (t.above dentry); pure (no_parent above)

  unfoldable pub parent : ℕ → Act (Caller S) ℕ
  parent dentry = do above ← ask (t.above dentry); pure (parent_or dentry above)

  unfoldable pub climb : Nameidata → Act (Caller S) Nameidata
  unfolding parent
  climb nd = do
    above ← parent nd.at
    moved ← ask (t.read_seqretry nd.r_seq)
    if moved then fail would_block else pure (record nd { at = above })

  unfoldable pub follow_dotdot : Nameidata → Act (Caller S) Nameidata
  unfolding is_root climb
  follow_dotdot nd =
      if nd.at == nd.root
      then fail escape
      else (do top ← is_root nd.at; if top then fail escape else climb nd)

  unfoldable pub component : Nameidata → List ℕ → LastType → Act (Caller S) Next
  unfolding follow_dotdot walk_component
  component nd name dot = pure (walked nd)
  component nd name dot_dot = do above ← follow_dotdot nd; pure (walked above)
  component nd name norm = walk_component nd name

  -- One round of `link_path_walk` behind `pop_front`.
  unfoldable pub next_name : Nameidata → List (List ℕ) → Act (Caller S) Next
  unfolding without_slashes any_slashes is_empty set_last component type_of
  next_name nd [] = fail not_found
  next_name nd (part ∷ rest) =
      let behind = record nd { pending = without_slashes rest } in
      if is_empty (without_slashes rest)
      then pure (ended (set_last part (any_slashes rest) behind))
      else component behind part (type_of part)

  unfoldable pub one_round : Nameidata → Act (Caller S) Next
  unfolding inode_permission next_name
  one_round nd = do permitted ← inode_permission nd.at exec; next_name nd nd.pending

  -- The loop: `fuel` is above the names to walk, taken anew behind each of the `links` to follow.
  unfoldable pub link_path_walk : ℕ → ℕ → Nameidata → Act (Caller S) Nameidata
  unfolding one_round
  link_path_walk links zero nd = stuck
  link_path_walk zero (suc fuel) nd = do
    next ← one_round nd
    on_next (λ on. link_path_walk zero fuel on) (λ through. stuck) next
  link_path_walk (suc links) (suc fuel) nd = do
    next ← one_round nd
    on_next (λ on. link_path_walk (suc links) fuel on)
        (λ through. link_path_walk links (suc (length through.pending)) through) next

  -- `link_path_walk` with the fuel that is enough.
  unfoldable pub walk_names : Nameidata → Act (Caller S) Nameidata
  unfolding link_path_walk
  walk_names nd = link_path_walk (suc maxsymlinks) (suc (length nd.pending)) nd
