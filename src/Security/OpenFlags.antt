-- ===== src/Security/OpenFlags.antt =====
-- crates/kobako-runtime/src/vfs/openat2.rs: what an open asks for.
use kobako.Common.{
  ◌≡◌, refl, Bool, true, false, ◌&&◌, ◌||◌, not, if◌then◌else◌, Result, ok, err, ok-injective,
  refused, Bool-cases, inl, inr, subst,
}
use kobako.Security.Files.{FilesystemError, invalid_input, Mask, none_asked}

pub record OpenHow : Type 0 where
  pub read : Bool
  pub write : Bool
  pub create : Bool
  pub exclusive : Bool
  pub truncate : Bool
  pub directory : Bool
  pub follow : Bool
  pub append : Bool
  pub nonblock : Bool
  pub dsync : Bool
  pub sync : Bool

-- `OpenHow::default`
abbrev pub default : OpenHow
default = record {
  read = false;
  write = false;
  create = false;
  exclusive = false;
  truncate = false;
  directory = false;
  follow = false;
  append = false;
  nonblock = false;
  dsync = false;
  sync = false;
}

pub record OpenFlags : Type 0 where
  pub open_flag : OpenHow
  pub acc_mode : Mask
  pub lookup_follow : Bool
  pub lookup_directory : Bool

-- The flags of an open that asks neither to read nor to write.
abbrev pub path_flags : OpenHow → OpenFlags
path_flags how = record {
  open_flag = record default { directory = how.directory; follow = how.follow };
  acc_mode = none_asked;
  lookup_follow = how.follow;
  lookup_directory = how.directory;
}

-- The bits that the three tests set.
abbrev pub mask_of : OpenHow → Mask
mask_of how = record none_asked {
  may_read = how.read;
  may_write = how.write || how.truncate;
  may_append = how.append;
}

-- The flags of any other open.
abbrev pub file_flags : OpenHow → OpenFlags
file_flags how = record {
  open_flag = record how { dsync = how.dsync || how.sync };
  acc_mode = mask_of how;
  lookup_follow = how.follow && not (how.create && how.exclusive);
  lookup_directory = how.directory;
}

unfoldable pub build_open_flags : OpenHow → Result OpenFlags FilesystemError
build_open_flags how =
    if not how.read && not how.write
    then ok (path_flags how)
    else if how.directory && how.create
    then err invalid_input
    else ok (file_flags how)

-- The request that an open's flags stand for: what an open that asks for no access keeps of it, and
-- all of it otherwise, where SYNC brings DSYNC with it.
abbrev pub normal : OpenHow → OpenHow
normal how =
    if how.read || how.write
    then record how { dsync = how.dsync || how.sync }
    else record default { directory = how.directory; follow = how.follow }

-- How the flags of an open hang together, and with what was asked: the permission to ask for covers
-- what the kept request reads, writes, truncates and appends, a link at the end is followed unless the
-- file must be new, and no directory is to be made.
pub record Coherent (how : OpenHow) (op : OpenFlags) : Type 0 where
  pub kept : op.open_flag ≡ normal how
  pub reads : op.acc_mode.may_read ≡ op.open_flag.read
  pub writes : op.acc_mode.may_write ≡ (op.open_flag.write || op.open_flag.truncate)
  pub appends : op.acc_mode.may_append ≡ op.open_flag.append
  pub runs_nothing : op.acc_mode.may_exec ≡ false
  pub follows :
      op.lookup_follow
      ≡ (op.open_flag.follow && not (op.open_flag.create && op.open_flag.exclusive))
  pub wants_directory : op.lookup_directory ≡ op.open_flag.directory
  pub makes_none : (op.open_flag.directory && op.open_flag.create) ≡ false

and_false : (a : Bool) → (a && false) ≡ false
and_false true = refl
and_false false = refl

and_true : (a : Bool) → a ≡ (a && true)
and_true true = refl
and_true false = refl

module _ (how : OpenHow) where
  path_flags-Coherent : (not how.read && not how.write) ≡ true → Coherent how (path_flags how)
  path_flags-Coherent e = record {
    kept = rw (none_wanted how.read how.write e) refl;
    reads = refl;
    writes = refl;
    appends = refl;
    runs_nothing = refl;
    follows = and_true how.follow;
    wants_directory = refl;
    makes_none = and_false how.directory;
  }
    where
      none_wanted : (a b : Bool) → (not a && not b) ≡ true → (a || b) ≡ false
      none_wanted true b h = cc
      none_wanted false true h = cc
      none_wanted false false h = refl

  file_flags-Coherent :
      (not how.read && not how.write) ≡ false
      → (how.directory && how.create) ≡ false
      → Coherent how (file_flags how)
  file_flags-Coherent e sane = record {
    kept = rw (some_wanted how.read how.write e) refl;
    reads = refl;
    writes = refl;
    appends = refl;
    runs_nothing = refl;
    follows = refl;
    wants_directory = refl;
    makes_none = sane;
  }
    where
      some_wanted : (a b : Bool) → (not a && not b) ≡ false → (a || b) ≡ true
      some_wanted true b h = refl
      some_wanted false true h = refl
      some_wanted false false h = cc

-- The flags that an open is carried out with hang together: they ask permission for what the open
-- does to the file, follow a link at the end unless the open must make the file, take no open that
-- would make a directory, and keep of the request what an open with such access honours.
pub build_open_flags-Coherent :
    (how : OpenHow) (op : OpenFlags) → build_open_flags how ≡ ok op → Coherent how op
unfolding build_open_flags
build_open_flags-Coherent how op e = elim (Bool-cases (not how.read && not how.write)) [
  | inl path ↦ subst (Coherent how) (ok-injective (rw path at e)) (path_flags-Coherent how path)
  | inr file ↦
      let (sane, done) = refused (how.directory && how.create) _ (rw file at e) in
      subst (Coherent how) (ok-injective done) (file_flags-Coherent how file sane)
]
