-- ===== src/Vfs/Found.antt =====
-- What a call that walks a path finds (crates/kobako-runtime/src/vfs/namei.rs), whatever moves
-- meanwhile.
use kobako.Common.{ℕ, suc, ◌≡◌, Bool, true, some, List, if◌then◌else◌, Result, ◌⊎◌}
use kobako.Security.Files.{FilesystemError, not_found, FileType}
use kobako.Vfs.Actions.{refused, Act, found, ◌>>=◌}
use kobako.Vfs.Names.{maxsymlinks}
use kobako.Vfs.Tree.{Tree, Caller, ask}
use kobako.Vfs.Walk.{Nameidata, walk_names}
use kobako.Vfs.Lookup.{
  is_dir, is_stale, lookup_last, stands_at, complete_walk, set_nameidata, right_kind, path_lookupat,
  fresh,
}

module _ {S : Type 0} (t : Tree S) where
  -- What the last questions of a lookup were answered, from the state `ended` that the walk left: where
  -- the walk stands is at or beneath its start; right then, the path names an entry, as a directory where
  -- one was asked for; and nothing was done since.
  pub record Stands (nd : Nameidata) (ended c : Caller S) : Type 0 where
    pub beneath : (t.is_subdir (stands_at nd) nd.root ended.tree).0 ≡ true
    pub dentry : ℕ
    pub kind : FileType
    pub path : nd.path ≡ some dentry
    pub stands : (t.kind dentry (t.is_subdir (stands_at nd) nd.root ended.tree).1).0 ≡ some kind
    pub last : (t.kind dentry (t.is_subdir (stands_at nd) nd.root ended.tree).1).1 ≡ c.tree
    pub right : (if nd.lookup_directory then is_dir kind else true) ≡ true

  -- What a lookup does once the walk is over, and from each later question on.
  abbrev standing : Nameidata → ℕ → Act (Caller S) Nameidata
  standing last path = do
    kind ← ask (t.kind path)
    stands ← found not_found kind
    right_kind last stands

  abbrev behind : Nameidata → Unit {0} → Act (Caller S) Nameidata
  behind last u = found not_found last.path >>= standing last

  abbrev finished : Nameidata → Act (Caller S) Nameidata
  finished last = do complete ← complete_walk t last; behind last complete

  -- A lookup, up to where its walk is over.
  module _ (path_init : S → Result ℕ FilesystemError × S) (path : List ℕ) (follow : Bool) where
    abbrev pub walked : Act (Caller S) Nameidata
    walked = do
      start ← set_nameidata t path_init path
      names ← walk_names t start
      lookup_last t (suc maxsymlinks) follow names

    abbrev pub looked_up : Act (Caller S) Nameidata
    looked_up = set_nameidata t path_init path >>= λ nd. path_lookupat t follow nd

    -- Where a lookup that starts at `s` begins the walk whose answer it gives: at once, or where its first
    -- walk was refused as stale.
    pub Begun : S → Caller S → Type 0
    Begun s began =
        (began ≡ fresh s)
        ⊎ ((e : FilesystemError) × (is_stale e ≡ true) × (looked_up (fresh s) ≡ refused e began))
