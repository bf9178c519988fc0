-- ===== src/Vfs/Lookup.antt =====
-- crates/kobako-runtime/src/vfs/namei.rs: the walk of a path to what it names, and to the directory
-- that holds its last name.
use kobako.Common.{
  ℕ, zero, suc, Bool, true, false, Option, none, some, not, List, [], if◌then◌else◌, Result,
}
use kobako.Security.Files.{
  FilesystemError, not_found, not_a_directory, escape, stale_network_file_handle, FileType, dir,
  symlink,
}
use kobako.Vfs.Actions.{Answer, refused, Act, pure, fail, stuck, lift, found, guard, ◌>>=◌}
use kobako.Vfs.Names.{LastType, norm, dot, dot_dot, maxsymlinks, slash, getname, starts_with, parts}
use kobako.Vfs.Tree.{Tree, Caller, ask, try}
use kobako.Vfs.Walk.{Nameidata, pick_link, follow_dotdot, walk_names}

abbrev pub is_dir : FileType → Bool
is_dir dir = true
is_dir _ = false

abbrev pub is_symlink : Option FileType → Bool
is_symlink (some symlink) = true
is_symlink _ = false

abbrev pub is_stale : FilesystemError → Bool
is_stale stale_network_file_handle = true
is_stale _ = false

-- What the last name stands for: it is found, or a link is to be followed.
pub data Last : Type 0 where
  stood : Nameidata → Last
  through : Bool → Nameidata → ℕ → Last

abbrev pub standing : Nameidata → Nameidata
standing nd = record nd { path = some nd.at }

-- What stands at the last name. A trailing slash asks for a directory.
abbrev pub asked : Nameidata → ℕ → Nameidata
asked nd child = record nd {
  path = some child;
  lookup_directory = if nd.trailing_slash then true else nd.lookup_directory;
}

-- `walk`, made once more where it answers ESTALE.
module _ {C A : Type 0} (walk : Act C A) where
  unfoldable pub or_again : Answer A C → Answer A C
  or_again (refused e c) = if is_stale e then walk c else refused e c
  or_again r = r

  unfoldable pub walk_with_reval : Act C A
  unfolding or_again
  walk_with_reval c = or_again (walk c)

abbrev pub path_or : ℕ → Option ℕ → ℕ
path_or at none = at
path_or at (some dentry) = dentry

abbrev pub stands_at : Nameidata → ℕ
stands_at nd = path_or nd.at nd.path

-- The walk of a path, ready to begin at a directory.
unfoldable pub starting : ℕ → ℕ → List ℕ → Nameidata
unfolding parts
starting start r_seq path = record {
  root = start;
  r_seq = r_seq;
  at = start;
  pending = parts path;
  last = [];
  last_type = dot;
  trailing_slash = false;
  path = none;
  lookup_directory = false;
}

module _ {S : Type 0} where
  -- Only a directory satisfies a path that asks for one.
  unfoldable pub right_kind : Nameidata → FileType → Act (Caller S) Nameidata
  right_kind nd kind =
      if nd.lookup_directory
      then (if is_dir kind then pure nd else fail not_a_directory)
      else pure nd

  -- No link is followed yet.
  abbrev pub fresh : S → Caller S
  fresh s = record { tree = s; total_link_count = 0 }

module _ {S : Type 0} (t : Tree S) where
  unfoldable pub dots : LastType → Nameidata → Act (Caller S) Nameidata
  unfolding follow_dotdot
  dots dot_dot nd = follow_dotdot t nd
  dots _ nd = pure nd

  unfoldable pub handle_dots : Nameidata → Act (Caller S) Nameidata
  unfolding dots
  handle_dots nd = do stands ← dots nd.last_type nd; pure (standing stands)

  unfoldable pub stop_or_follow : Bool → Nameidata → ℕ → Act (Caller S) Last
  stop_or_follow follow nd child =
      if follow
      then (do
        kind ← ask (t.kind child)
        pure (if is_symlink kind then through follow nd child else stood nd))
      else pure (stood nd)

  -- One round of `lookup_last` on a `norm` name.
  unfoldable pub find_last : Bool → Nameidata → Act (Caller S) Last
  unfolding stop_or_follow
  find_last follow nd = do
    child ← try (t.lookup_dentry nd.at nd.last)
    kind ← ask (t.kind child)
    stands ← found not_found kind
    stop_or_follow (if nd.trailing_slash then true else follow) (asked nd child) child

  unfoldable pub last_round : LastType → Bool → Nameidata → Act (Caller S) Last
  unfolding handle_dots find_last
  last_round norm follow nd = find_last follow nd
  last_round _ follow nd = do at ← handle_dots nd; pure (stood at)

  -- The link behind a last name, and the walk to the last name of its target.
  unfoldable pub follow_link : Nameidata → ℕ → Act (Caller S) Nameidata
  unfolding pick_link walk_names
  follow_link nd child = do behind ← pick_link t nd child; walk_names t behind

  abbrev pub on_last :
      (Bool → Nameidata → Act (Caller S) Nameidata) → Last → Act (Caller S) Nameidata
  on_last on (stood nd) = pure nd
  on_last on (through follow nd child) = follow_link nd child >>= λ behind. on follow behind

  -- The loop, on more rounds than there are links to follow.
  unfoldable pub lookup_last : ℕ → Bool → Nameidata → Act (Caller S) Nameidata
  unfolding last_round follow_link
  lookup_last zero follow nd = stuck
  lookup_last (suc rounds) follow nd = do
    last ← last_round nd.last_type follow nd
    on_last (λ again behind. lookup_last rounds again behind) last

  unfoldable pub complete_walk : Nameidata → Act (Caller S) (Unit {0})
  complete_walk nd = do beneath ← ask (t.is_subdir (stands_at nd) nd.root); guard beneath escape

  unfoldable pub set_nameidata :
      (S → Result ℕ FilesystemError × S) → List ℕ → Act (Caller S) Nameidata
  unfolding getname starts_with starting
  set_nameidata path_init path = do
    named ← lift (getname path)
    relative ← guard (not (starts_with slash path)) escape
    start ← try path_init
    kind ← ask (t.kind start)
    stands ← found not_found kind
    opens ← guard (is_dir stands) not_a_directory
    r_seq ← ask t.read_seqbegin
    pure (starting start r_seq path)

  unfoldable pub path_lookupat : Bool → Nameidata → Act (Caller S) Nameidata
  unfolding walk_names lookup_last complete_walk right_kind
  path_lookupat follow nd = do
    names ← walk_names t nd
    last ← lookup_last (suc maxsymlinks) follow names
    complete ← complete_walk last
    path ← found not_found last.path
    kind ← ask (t.kind path)
    stands ← found not_found kind
    right_kind last stands

  unfoldable pub path_parentat : Nameidata → Act (Caller S) Nameidata
  unfolding walk_names complete_walk
  path_parentat nd = do names ← walk_names t nd; complete ← complete_walk names; pure names

  module _ (path_init : S → Result ℕ FilesystemError × S) (path : List ℕ) where
    unfoldable pub filename_lookup : Bool → S → Answer Nameidata (Caller S)
    unfolding set_nameidata path_lookupat walk_with_reval
    filename_lookup follow s =
        walk_with_reval (set_nameidata path_init path >>= λ nd. path_lookupat follow nd) (fresh s)

    unfoldable pub filename_parentat : S → Answer Nameidata (Caller S)
    unfolding set_nameidata path_parentat walk_with_reval
    filename_parentat s =
        walk_with_reval (set_nameidata path_init path >>= λ nd. path_parentat nd) (fresh s)
