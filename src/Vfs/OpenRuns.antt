-- ===== src/Vfs/OpenRuns.antt =====
-- An open that empties a file, in the small tree of RenameRuns with files in place of directories, on a
-- read-only mount. What the Filesystem hands out is a number.
use kobako.Common.{ℕ, ◌≡◌, refl, true, false, Option, none, some, [], Result, ok, err}
use kobako.Security.Files.{
  FilesystemError, read_only_filesystem, is_a_directory, reg_file, FMode, none_asked,
}
use kobako.Security.OpenFlags.{OpenHow, OpenFlags, default}
use kobako.Vfs.Actions.{Answer, answered, refused, unfinished}
use kobako.Vfs.Tree.{Caller}
use kobako.Vfs.Lookup.{starting, fresh}
use kobako.Vfs.Dentries.{Dentries, is_subdir}
use kobako.Vfs.RenameRuns.{dentries, allowed, tree, sb}
use kobako.Vfs.CallRuns.{read_only}
use kobako.Vfs.Open.{Opener, File, do_open}
use kobako.Vfs.Open.Truncates.{with_truncate, Spared, do_open-Spared}

abbrev opener : Opener Dentries ℕ ℕ
opener = record {
  mnt = record read_only {
    sb = record sb { tree = record tree { kind = λ d s. (some reg_file, s) } };
  };
  security_file_open = λ d kind mode how s. (ok 7, s);
  security_file_alloc = 0;
  security_file_truncate = λ b s. allowed s;
  open_inode = λ d how s. (ok d, s);
  empty_fops = 0;
  truncate = λ d f s. allowed s;
}

abbrev reading : FMode
reading = record {
  read = true;
  write = false;
  lseek = true;
  pread = true;
  pwrite = false;
  stream = false;
  created = false;
  path = false;
}

abbrev flags : OpenFlags
flags = record {
  open_flag = record default { read = true; truncate = true };
  acc_mode = record none_asked { may_read = true };
  lookup_follow = true;
  lookup_directory = false;
}

abbrev opened : Answer (File ℕ ℕ) (Caller Dentries) → Option (Result (ℕ × ℕ) FilesystemError)
opened (answered f c) = some (ok (f.ops, f.security))
opened (refused e c) = some (err e)
opened unfinished = none

not_emptied :
    opened (do_open opener (starting 0 0 []) 1 none reading flags (fresh dentries))
    ≡ some (err read_only_filesystem)
unfolding do_open is_subdir starting
not_emptied = refl

-- A Filesystem that empties no file, and says so.
abbrev unable : ℕ → OpenHow → Dentries → Result ℕ FilesystemError × Dentries
unable d how s = (err is_a_directory, s)

do_open-Spared_example :
    do_open opener (starting 0 0 []) 1 none reading flags (fresh dentries)
    ≡ do_open
        (with_truncate unable (λ d f s. (err is_a_directory, s)) opener)
        (starting 0 0 [])
        1
        none
        reading
        flags
        (fresh dentries)
do_open-Spared_example =
    do_open-Spared unable (λ d f s. (err is_a_directory, s)) opener (starting 0 0 []) 1 none reading
      flags (Spared.read_only read_only_filesystem refl (λ s. refl) (λ s. refl)) (fresh dentries)
