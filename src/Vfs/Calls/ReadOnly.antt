-- ===== src/Vfs/Calls/ReadOnly.antt =====
-- The calls on a read-only mount (crates/kobako-runtime/src/vfs/namei.rs).
use kobako.Common.{
  ℕ, ◌≡◌, refl, ap, ◌∙◌, Bool, true, false, List, not, ◌&&◌, Result, ok, err, Bool-cases, inl, inr,
}
use kobako.Security.Files.{
  FilesystemError, not_found, already_exists, is_a_directory, resource_busy, read_only_filesystem,
}
use kobako.Vfs.Actions.{Answer, answered, refused, unfinished, Act, found, guard, lift, ◌>>=◌}
use kobako.Vfs.Actions.Alike.{Any, Alike, Alike-refl, Alike-pure, Alike-fail, Alike-same, and_Alike}
use kobako.Vfs.Names.{getname}
use kobako.Vfs.Tree.{Caller, ask, try}
use kobako.Vfs.Walk.{Nameidata}
use kobako.Vfs.Lookup.{is_stale, or_again, filename_lookup}
use kobako.Vfs.SuperBlock.{SuperBlock, inode_lock}
use kobako.Vfs.Entries.{stands, held}
use kobako.Vfs.Confined.{Alike-ask, Alike-try}
use kobako.Vfs.Calls.Pairs.{
  one_mount, link_at, filename_linkat, rename_names, both_parents, filename_renameat2,
}
use kobako.Vfs.Calls.{
  Mount, retry_estale, removable, is_norm, lookup_last_locked, filename_create, parentat, create_at,
  filename_mkdirat, make_link, filename_symlinkat, remove_dir, filename_rmdir, remove_file,
  filename_unlinkat,
}

-- The mount with another Filesystem's changes in place of its own.
abbrev pub with_changes : {S : Type 0} → Mount S → SuperBlock S → Mount S
with_changes mnt u = record mnt {
  sb = record mnt.sb {
    rename = u.rename;
    rmdir = u.rmdir;
    unlink = u.unlink;
    mkdir = u.mkdir;
    create = u.create;
    symlink = u.symlink;
    link = u.link;
    mark_dead = u.mark_dead;
    shrink_dcache_parent = u.shrink_dcache_parent;
    with_dentries = u.with_dentries;
  };
}

module _ {C A : Type 0} where
  pub again_same :
      {m n : Act C A} → ((c : C) → m c ≡ n c) → (r : Answer A C) → or_again m r ≡ or_again n r
  unfolding or_again
  again_same h (answered a c) = refl
  again_same h unfinished = refl
  again_same {m} {n} h (refused e c) = elim (Bool-cases (is_stale e)) [
    | inl p ↦ rw p (h c)
    | inr p ↦ rw p refl
  ]

module _ {C W A : Type 0} where
  retry_same :
      {Q : W → Type 0} {walk : Act C W} {act act' : W → Act C A}
      → Alike Q walk walk
      → ((w : W) → Q w → (c : C) → act w c ≡ act' w c)
      → (c : C) → retry_estale walk act c ≡ retry_estale walk act' c
  unfolding retry_estale
  retry_same {walk} {act} {act'} hw h =
      (and_Alike {R = Any} hw λ w q. Alike-same _ _ λ c.
        again_same ((and_Alike {R = Any} hw λ w q. Alike-same (act w) (act' w) (h w q)).same)
          (act w c)
        ∙ ap (or_again (walk >>= act')) (h w q c)).same

module _ {S : Type 0} (mnt : Mount S) (u : SuperBlock S)
    (read_only : (s : S) → (mnt.mnt_want_write s).0 ≡ err read_only_filesystem) where
  Never : {A : Type 0} → A → Type 0
  Never a = ⊥

  -- The write that the mount refuses.
  want_write-Never : Alike Never (try mnt.mnt_want_write) (try mnt.mnt_want_write)
  unfolding Never
  want_write-Never = Alike-try _ refl λ s a e. absurd (cc (e, read_only s))

  refused_write :
      (w : Result (Unit {0}) FilesystemError)
      → w ≡ err read_only_filesystem
      → Alike {C = Caller S} Never (lift w) (lift w)
  unfolding Never
  refused_write (ok a) e = absurd (cc e)
  refused_write (err x) e = Alike-fail x

  filename_create-Never :
      (nd : Nameidata) (want_dir : Bool)
      → Alike Never (filename_create mnt nd want_dir) (filename_create mnt nd want_dir)
  unfolding filename_create Never
  filename_create-Never nd want_dir =
      and_Alike (Alike-refl (guard (is_norm nd.last_type) already_exists)) λ n v.
        and_Alike
          (Alike-ask (λ w. w ≡ err read_only_filesystem) {q = mnt.mnt_want_write} refl read_only)
          λ write e. and_Alike (Alike-refl (held mnt.sb (inode_lock nd.at))) λ l v.
            and_Alike (Alike-refl (lookup_last_locked mnt nd)) λ child v.
              and_Alike (Alike-refl (ask (mnt.sb.tree.kind child))) λ kind v.
                and_Alike (Alike-refl (guard (not (stands kind)) already_exists)) λ a v.
                  and_Alike (Alike-refl (guard (not (nd.trailing_slash && not want_dir)) not_found))
                    λ s v. and_Alike (refused_write write e) λ w never. Alike-pure child never

  remove_dir_same :
      (nd : Nameidata) (c : Caller S) → remove_dir mnt nd c ≡ remove_dir (with_changes mnt u) nd c
  unfolding remove_dir Never
  remove_dir_same nd =
      (and_Alike {R = Any} (Alike-refl (removable nd.last_type))
        λ n v. and_Alike {R = Any} want_write-Never λ w never. absurd never).same

  remove_file_same :
      (nd : Nameidata) (c : Caller S) → remove_file mnt nd c ≡ remove_file (with_changes mnt u) nd c
  unfolding remove_file Never
  remove_file_same nd =
      (and_Alike {R = Any} (Alike-refl (guard (is_norm nd.last_type) is_a_directory))
        λ n v. and_Alike {R = Any} want_write-Never λ w never. absurd never).same

  module _ (path_init : S → Result ℕ FilesystemError × S) (path : List ℕ) where
    create_at-Never :
        (want_dir : Bool)
        → Alike Never
            (create_at mnt path_init path want_dir)
            (create_at mnt path_init path want_dir)
    unfolding create_at Never
    create_at-Never want_dir = and_Alike (Alike-refl (parentat mnt path_init path)) λ nd v.
        and_Alike (filename_create-Never nd want_dir) λ child never. Alike-pure (nd.at, child) never

    mkdirat_same :
        (c : Caller S)
        → filename_mkdirat mnt path_init path c
          ≡ filename_mkdirat (with_changes mnt u) path_init path c
    unfolding filename_mkdirat Never create_at filename_create
    mkdirat_same = retry_same (create_at-Never true) λ w never. absurd never

    symlink_same :
        (target : List ℕ) (c : Caller S)
        → retry_estale (create_at mnt path_init path false) (make_link mnt target) c
          ≡ retry_estale
              (create_at (with_changes mnt u) path_init path false)
              (make_link (with_changes mnt u) target)
              c
    unfolding Never create_at filename_create
    symlink_same target = retry_same (create_at-Never false) λ w never. absurd never

    module _ (other : Mount S) (other_init : S → Result ℕ FilesystemError × S)
        (other_path : List ℕ) where
      link_at-Never :
          (follow : Bool)
          → Alike Never
              (link_at mnt other other_init other_path path_init path follow)
              (link_at mnt other other_init other_path path_init path follow)
      unfolding link_at Never
      link_at-Never follow =
          and_Alike
            (Alike-refl λ c. filename_lookup other.sb.tree other_init other_path follow c.tree)
            λ old v. and_Alike (Alike-refl (found not_found old.path)) λ target v.
              and_Alike (Alike-refl (parentat mnt path_init path)) λ new v.
                and_Alike (filename_create-Never new false)
                  λ child never. Alike-pure (target, new, child) never

      linkat_same :
          (follow : Bool) (c : Caller S)
          → filename_linkat mnt other other_init other_path path_init path follow c
            ≡ filename_linkat
                (with_changes mnt u)
                other
                other_init
                other_path
                path_init
                path
                follow
                c
      unfolding filename_linkat Never link_at filename_create
      linkat_same follow = retry_same (link_at-Never follow) λ w never. absurd never

      rename_names_same :
          (names : Nameidata × Nameidata) (c : Caller S)
          → rename_names mnt other names c ≡ rename_names (with_changes mnt u) other names c
      unfolding rename_names Never
      rename_names_same (source, target) =
          (and_Alike {R = Any} (Alike-refl (one_mount mnt other)) λ s v.
            and_Alike {R = Any}
              (Alike-refl
                (guard (is_norm source.last_type && is_norm target.last_type) resource_busy))
              λ n v. and_Alike {R = Any} want_write-Never λ w never. absurd never).same

      -- On a read-only mount no making of a directory, of a symbolic or of a hard link, no removal of a
      -- directory or of a file, and no move from it asks its Filesystem for a change, whatever mount the
      -- other path of a link or of a move is on: the call gives the same answer, and leaves the same
      -- state, whatever the changes of that Filesystem do.
      pub with_changes_read_only :
          (target : List ℕ) (follow : Bool) (c : Caller S)
          → (filename_mkdirat mnt path_init path c
              ≡ filename_mkdirat (with_changes mnt u) path_init path c)
            × (filename_symlinkat mnt path_init path target c
                ≡ filename_symlinkat (with_changes mnt u) path_init path target c)
            × (filename_rmdir mnt path_init path c
                ≡ filename_rmdir (with_changes mnt u) path_init path c)
            × (filename_unlinkat mnt path_init path c
                ≡ filename_unlinkat (with_changes mnt u) path_init path c)
            × (filename_linkat mnt other other_init other_path path_init path follow c
                ≡ filename_linkat
                    (with_changes mnt u)
                    other
                    other_init
                    other_path
                    path_init
                    path
                    follow
                    c)
            × (filename_renameat2 mnt other other_init other_path path_init path c
                ≡ filename_renameat2
                    (with_changes mnt u)
                    other
                    other_init
                    other_path
                    path_init
                    path
                    c)
      unfolding filename_symlinkat filename_rmdir filename_unlinkat filename_renameat2 parentat
          both_parents
      with_changes_read_only target follow c = (
        mkdirat_same c,
        (and_Alike {R = Any} (Alike-refl (lift (getname target)))
              λ n v. Alike-same _ _ (symlink_same target)).same
            c,
        retry_same (Alike-refl (parentat mnt path_init path)) (λ nd v. remove_dir_same nd) c,
        retry_same (Alike-refl (parentat mnt path_init path)) (λ nd v. remove_file_same nd) c,
        linkat_same follow c,
        retry_same (Alike-refl (both_parents mnt other other_init other_path path_init path))
            (λ names v. rename_names_same names) c,
      )
