-- ===== src/Vfs/CallRuns.antt =====
-- Calls that make, remove or move an entry in the small tree of RenameRuns, on a read-only mount and on
-- two mounts.
use kobako.Common.{ℕ, ◌≡◌, refl, true, Option, none, some, codes, Result, ok, err}
use kobako.Security.Files.{FilesystemError, crosses_devices, not_found, read_only_filesystem}
use kobako.Vfs.Actions.{Answer, refused}
use kobako.Vfs.Tree.{Caller}
use kobako.Vfs.Lookup.{fresh}
use kobako.Vfs.Dentries.{Dentries, is_subdir}
use kobako.Vfs.SuperBlock.{SuperBlock}
use kobako.Vfs.Calls.{
  Mount, filename_mkdirat, filename_symlinkat, filename_rmdir, filename_unlinkat,
}
use kobako.Vfs.Calls.Pairs.{filename_linkat, filename_renameat2}
use kobako.Vfs.Calls.Apart.{Never, with_changes_apart}
use kobako.Vfs.Actions.Alike.{Yields}
use kobako.Vfs.Lookup.{filename_parentat}
use kobako.Vfs.Calls.ReadOnly.{with_changes, with_changes_read_only}
use kobako.Vfs.RenameRuns.{dentries, allowed, sb}

abbrev pub read_only : Mount Dentries
read_only = record {
  id = 0;
  sb = sb;
  mnt_want_write = λ s. (err read_only_filesystem, s);
  security_path = λ hook d s. allowed s;
  security_path_link = λ old new s. allowed s;
  security_path_rename = λ old new s. allowed s;
}

-- Another Filesystem, whose changes fail.
abbrev failing : SuperBlock Dentries
failing = record sb {
  mkdir = λ at d s. (err not_found, s);
  rmdir = λ at d s. (err not_found, s);
  unlink = λ at d s. (err not_found, s);
}

abbrev at_root_dir : Dentries → Result ℕ FilesystemError × Dentries
at_root_dir s = (ok 0, s)

with_changes_read_only_example :
    (filename_mkdirat read_only at_root_dir (codes "b/c") (fresh dentries)
      ≡ filename_mkdirat
          (with_changes read_only failing)
          at_root_dir
          (codes "b/c")
          (fresh dentries))
    × (filename_symlinkat read_only at_root_dir (codes "b/c") (codes "a") (fresh dentries)
        ≡ filename_symlinkat
            (with_changes read_only failing)
            at_root_dir
            (codes "b/c")
            (codes "a")
            (fresh dentries))
    × (filename_rmdir read_only at_root_dir (codes "b/c") (fresh dentries)
        ≡ filename_rmdir
            (with_changes read_only failing)
            at_root_dir
            (codes "b/c")
            (fresh dentries))
    × (filename_unlinkat read_only at_root_dir (codes "b/c") (fresh dentries)
        ≡ filename_unlinkat
            (with_changes read_only failing)
            at_root_dir
            (codes "b/c")
            (fresh dentries))
    × (filename_linkat read_only read_only at_root_dir
          (codes "a")
          at_root_dir
          (codes "b/c")
          true
          (fresh dentries)
        ≡ filename_linkat
            (with_changes read_only failing)
            read_only
            at_root_dir
            (codes "a")
            at_root_dir
            (codes "b/c")
            true
            (fresh dentries))
    × (filename_renameat2 read_only read_only at_root_dir
          (codes "a")
          at_root_dir
          (codes "b/c")
          (fresh dentries)
        ≡ filename_renameat2
            (with_changes read_only failing)
            read_only
            at_root_dir
            (codes "a")
            at_root_dir
            (codes "b/c")
            (fresh dentries))
with_changes_read_only_example =
    with_changes_read_only read_only failing (λ s. refl) at_root_dir (codes "b/c") read_only
      at_root_dir (codes "a") (codes "a") true (fresh dentries)

-- Two mounts that take writes.
abbrev here : Mount Dentries
here = record read_only { mnt_want_write = λ s. allowed s }

abbrev there : Mount Dentries
there = record here { id = 1 }

-- Why a move is refused, and where `a` stands then.
abbrev refusal : Answer (Unit {0}) (Caller Dentries) → Option (FilesystemError × Option ℕ)
refusal (refused e c) = some (e, c.tree.parent 1)
refusal _ = none

stays_here :
    refusal (
      filename_renameat2 here there at_root_dir
        (codes "a")
        at_root_dir
        (codes "b")
        (fresh dentries))
    ≡ some (crosses_devices, some 0)
unfolding filename_renameat2 filename_parentat is_subdir
stays_here = refl

with_changes_apart_example :
    Yields Never (
      filename_linkat here there at_root_dir
        (codes "a")
        at_root_dir
        (codes "b/c")
        true
        (fresh dentries))
    × (filename_linkat here there at_root_dir
          (codes "a")
          at_root_dir
          (codes "b/c")
          true
          (fresh dentries)
        ≡ filename_linkat
            (with_changes here failing)
            (with_changes there failing)
            at_root_dir
            (codes "a")
            at_root_dir
            (codes "b/c")
            true
            (fresh dentries))
    × Yields Never (
        filename_renameat2 here there at_root_dir
          (codes "a")
          at_root_dir
          (codes "b/c")
          (fresh dentries))
    × (filename_renameat2 here there at_root_dir
          (codes "a")
          at_root_dir
          (codes "b/c")
          (fresh dentries)
        ≡ filename_renameat2
            (with_changes here failing)
            (with_changes there failing)
            at_root_dir
            (codes "a")
            at_root_dir
            (codes "b/c")
            (fresh dentries))
with_changes_apart_example =
    with_changes_apart here there failing failing refl at_root_dir (codes "a") at_root_dir
      (codes "b/c") true (fresh dentries)
