-- ===== src/Vfs/Calls/Apart.antt =====
-- The calls that name two paths (crates/kobako-runtime/src/vfs/namei.rs), where these are on two mounts.
use kobako.Common.{ℕ, ◌≡◌, ap, ◌∙◌, Bool, true, false, List, ◌==◌, Result, Bool-cases, inl, inr}
use kobako.Security.Files.{FilesystemError, crosses_devices}
use kobako.Vfs.Actions.{Answer, answered, refused, unfinished, Act, guard, ◌>>=◌}
use kobako.Vfs.Actions.Alike.{Yields, Alike, Alike-refl, Alike-fail, and_Alike}
use kobako.Vfs.Tree.{Caller}
use kobako.Vfs.Lookup.{is_stale, or_again}
use kobako.Vfs.SuperBlock.{SuperBlock}
use kobako.Vfs.Calls.{Mount, retry_estale, filename_create}
use kobako.Vfs.Calls.Pairs.{
  one_mount, link_at, link_made, filename_linkat, rename_names, both_parents, filename_renameat2,
}
use kobako.Vfs.Calls.ReadOnly.{with_changes, again_same}

-- Of an action that does not succeed.
abbrev pub Never : {A : Type 0} → A → Type 0
Never a = ⊥

module _ {C A : Type 0} where
  again-Never :
      {m m' : Act C A}
      → Alike Never m m'
      → (r : Answer A C) → Yields Never r
      → Yields Never (or_again m r)
  unfolding or_again
  again-Never h (answered a c) q = q
  again-Never h unfinished q = tt
  again-Never h (refused e c) q = elim (Bool-cases (is_stale e)) [
    | inl p ↦ rw p (h.yields c)
    | inr p ↦ rw p tt
  ]

  -- A call whose change never succeeds.
  retry-Never :
      {W : Type 0} (walk : Act C W) (act act' : W → Act C A)
      → ((w : W) → Alike Never (act w) (act' w))
      → Alike Never (retry_estale walk act) (retry_estale walk act')
  unfolding retry_estale
  retry-Never {W} walk act act' h = and_Alike (Alike-refl walk) λ w v. record {
    same = λ c. again_same (once.same) (act w c) ∙ ap (or_again (walk >>= act')) ((h w).same c);
    yields = λ c. again-Never once (act w c) ((h w).yields c);
  }
    where
      once : Alike Never (walk >>= act) (walk >>= act')
      once = and_Alike (Alike-refl walk) λ w v. h w

refused_guard :
    {C : Type 0} (b : Bool) (e : FilesystemError)
    → b ≡ false
    → Alike {C = C} Never (guard b e) (guard b e)
refused_guard true e p = cc
refused_guard false e p = Alike-fail e

module _ {S : Type 0} (mnt other : Mount S) (u v : SuperBlock S)
    (apart : (other.id == mnt.id) ≡ false) where
  one_mount-Never : Alike Never (one_mount mnt other) (one_mount mnt other)
  one_mount-Never = refused_guard (other.id == mnt.id) crosses_devices apart

  module _ (other_init : S → Result ℕ FilesystemError × S) (other_path : List ℕ)
      (path_init : S → Result ℕ FilesystemError × S) (path : List ℕ) where
    linkat-Never :
        (follow : Bool)
        → Alike Never (filename_linkat mnt other other_init other_path path_init path follow) (
            filename_linkat
              (with_changes mnt u)
              (with_changes other v)
              other_init
              other_path
              path_init
              path
              follow)
    unfolding filename_linkat link_at filename_create link_made
    linkat-Never follow =
        retry-Never (link_at mnt other other_init other_path path_init path follow)
          (link_made mnt other) (link_made (with_changes mnt u) (with_changes other v))
          λ made. and_Alike one_mount-Never λ s never. absurd never

    renameat2-Never :
        Alike Never (filename_renameat2 mnt other other_init other_path path_init path) (
          filename_renameat2
            (with_changes mnt u)
            (with_changes other v)
            other_init
            other_path
            path_init
            path)
    unfolding filename_renameat2 both_parents rename_names
    renameat2-Never =
        retry-Never (both_parents mnt other other_init other_path path_init path)
          (rename_names mnt other) (rename_names (with_changes mnt u) (with_changes other v))
          λ names. and_Alike one_mount-Never λ s never. absurd never

    -- A hard link or a move whose paths are on two mounts does not succeed, and asks the Filesystem of
    -- neither for a change: it gives the same answer, and leaves the same state, whatever the changes of
    -- both Filesystems do.
    pub with_changes_apart :
        (follow : Bool) (c : Caller S)
        → Yields Never (filename_linkat mnt other other_init other_path path_init path follow c)
          × (filename_linkat mnt other other_init other_path path_init path follow c
              ≡ filename_linkat
                  (with_changes mnt u)
                  (with_changes other v)
                  other_init
                  other_path
                  path_init
                  path
                  follow
                  c)
          × Yields Never (filename_renameat2 mnt other other_init other_path path_init path c)
          × (filename_renameat2 mnt other other_init other_path path_init path c
              ≡ filename_renameat2
                  (with_changes mnt u)
                  (with_changes other v)
                  other_init
                  other_path
                  path_init
                  path
                  c)
    with_changes_apart follow c = (
      (linkat-Never follow).yields c,
      (linkat-Never follow).same c,
      renameat2-Never.yields c,
      renameat2-Never.same c,
    )
