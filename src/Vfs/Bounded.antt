-- ===== src/Vfs/Bounded.antt =====
-- The links and the rounds of a call that walks a path (crates/kobako-runtime/src/vfs/namei.rs).
use kobako.Common.{
  ℕ, zero, suc, ◌+◌, ◌≤◌, ◌<◌, refl, inl, inr, Bool, true, false, List, not, ok, err, arith, Result,
  Bool-cases, if◌then◌else◌,
}
use kobako.Security.Files.{FilesystemError, FileType, not_found, not_a_directory, escape}
use kobako.Vfs.Actions.{Answer, answered, refused, unfinished, Act, lift, guard, Meets, Ensures}
use kobako.Vfs.Actions.Rules.{ensures_weaken, ensures_if, and_then}
use kobako.Vfs.Names.{LastType, norm, dot, dot_dot, maxsymlinks, slash, getname, starts_with}
use kobako.Vfs.Tree.{Tree, Caller}
use kobako.Vfs.Walk.{Nameidata}
use kobako.Vfs.Lookup.{
  Last, stood, through, is_dir, is_symlink, is_stale, or_again, walk_with_reval, standing, asked,
  dots, handle_dots, stop_or_follow, find_last, last_round, follow_link, on_last, lookup_last,
  stands_at, complete_walk, starting, set_nameidata, right_kind, path_lookupat, path_parentat,
  fresh, filename_lookup, filename_parentat,
}
use kobako.Vfs.Counted.{
  Kept, Over, Keeps, try-Keeps, ask-Keeps, pure-Keeps, fail-Keeps, found-Keeps, pick_link-Keeps,
  follow_dotdot-Keeps, walk_names-Keeps,
}

module _ {S : Type 0} (n : ℕ) where
  guard-Keeps : (b : Bool) (e : FilesystemError) → Keeps {S = S} n (guard b e)
  guard-Keeps true e = pure-Keeps n tt
  guard-Keeps false e = fail-Keeps n e

  lift-Keeps : {A : Type 0} (r : Result A FilesystemError) → Keeps {S = S} n (lift r)
  lift-Keeps (ok a) = pure-Keeps n a
  lift-Keeps (err e) = fail-Keeps n e

module _ {S : Type 0} (t : Tree S) (n : ℕ) where
  dots-Keeps : (kind : LastType) (nd : Nameidata) → Keeps n (dots t kind nd)
  unfolding dots
  dots-Keeps dot_dot nd = ensures_weaken (follow_dotdot-Keeps t n nd) λ a c k. k.0
  dots-Keeps dot nd = pure-Keeps n nd
  dots-Keeps norm nd = pure-Keeps n nd

  handle_dots-Keeps : (nd : Nameidata) → Keeps n (handle_dots t nd)
  unfolding handle_dots
  handle_dots-Keeps nd = and_then (dots-Keeps nd.last_type nd) λ at. pure-Keeps n (standing at)

  stop_or_follow-Keeps :
      (follow : Bool) (nd : Nameidata) (child : ℕ) → Keeps n (stop_or_follow t follow nd child)
  unfolding stop_or_follow
  stop_or_follow-Keeps follow nd child =
      ensures_if follow
        (and_then (ask-Keeps n (t.kind child))
          λ kind. pure-Keeps n (if is_symlink kind then through follow nd child else stood nd))
        (pure-Keeps n (stood nd))

  find_last-Keeps : (follow : Bool) (nd : Nameidata) → Keeps n (find_last t follow nd)
  unfolding find_last
  find_last-Keeps follow nd = and_then (try-Keeps n (t.lookup_dentry nd.at nd.last)) λ child.
      and_then (ask-Keeps n (t.kind child)) λ kind.
        and_then (found-Keeps n not_found kind) λ stands.
          stop_or_follow-Keeps (if nd.trailing_slash then true else follow) (asked nd child) child

  last_round-Keeps :
      (kind : LastType) (follow : Bool) (nd : Nameidata) → Keeps n (last_round t kind follow nd)
  unfolding last_round
  last_round-Keeps norm follow nd = find_last-Keeps follow nd
  last_round-Keeps dot follow nd = and_then (handle_dots-Keeps nd) λ at. pure-Keeps n (stood at)
  last_round-Keeps dot_dot follow nd = and_then (handle_dots-Keeps nd) λ at. pure-Keeps n (stood at)

  follow_link-Keeps :
      (nd : Nameidata) (child : ℕ)
      → Ensures (Kept n) (λ a. Kept (suc n)) Over (follow_link t nd child)
  unfolding follow_link
  follow_link-Keeps nd child =
      and_then (pick_link-Keeps t n nd child) λ behind. walk_names-Keeps t (suc n) behind

module _ {S : Type 0} (t : Tree S) where
  on_last-Keeps :
      (n : ℕ) (on : Bool → Nameidata → Act (Caller S) Nameidata)
      → ((follow : Bool) (nd : Nameidata) → Keeps (suc n) (on follow nd))
      → (last : Last) → Keeps n (on_last t on last)
  on_last-Keeps n on h (stood nd) = pure-Keeps n nd
  on_last-Keeps n on h (through follow nd child) =
      ensures_weaken (and_then (follow_link-Keeps t n nd child) λ behind. h follow behind)
        λ a c k. (omega (arith, k.0), k.1)

  lookup_last-Keeps :
      (n rounds : ℕ) (follow : Bool) (nd : Nameidata)
      → maxsymlinks < rounds + n
      → Keeps n (lookup_last t rounds follow nd)
  unfolding lookup_last
  lookup_last-Keeps n zero follow nd h = record { meets = λ c k. absurd (omega (arith, k.0, k.1)) }
  lookup_last-Keeps n (suc rounds) follow nd h =
      and_then (last_round-Keeps t n nd.last_type follow nd) λ last.
        on_last-Keeps n _
          (λ again behind. lookup_last-Keeps (suc n) rounds again behind (omega arith)) last

  complete_walk-Keeps : (n : ℕ) (nd : Nameidata) → Keeps n (complete_walk t nd)
  unfolding complete_walk
  complete_walk-Keeps n nd =
      and_then (ask-Keeps n (t.is_subdir (stands_at nd) nd.root))
        λ beneath. guard-Keeps n beneath escape

  right_kind-Keeps :
      (n : ℕ) (nd : Nameidata) (kind : FileType) → Keeps {S = S} n (right_kind nd kind)
  unfolding right_kind
  right_kind-Keeps n nd kind =
      ensures_if nd.lookup_directory
        (ensures_if (is_dir kind) (pure-Keeps n nd) (fail-Keeps n not_a_directory))
        (pure-Keeps n nd)

  path_lookupat-Keeps :
      (n : ℕ) (follow : Bool) (nd : Nameidata) → Keeps n (path_lookupat t follow nd)
  unfolding path_lookupat
  path_lookupat-Keeps n follow nd = and_then (walk_names-Keeps t n nd) λ names.
      and_then (lookup_last-Keeps n (suc maxsymlinks) follow names (omega arith)) λ last.
        and_then (complete_walk-Keeps n last) λ u.
          and_then (found-Keeps n not_found last.path) λ path.
            and_then (ask-Keeps n (t.kind path)) λ kind.
              and_then (found-Keeps n not_found kind) λ stands. right_kind-Keeps n last stands

  path_parentat-Keeps : (n : ℕ) (nd : Nameidata) → Keeps n (path_parentat t nd)
  unfolding path_parentat
  path_parentat-Keeps n nd =
      and_then (walk_names-Keeps t n nd)
        λ names. and_then (complete_walk-Keeps n names) λ u. pure-Keeps n names

  set_nameidata-Keeps :
      (n : ℕ) (path_init : S → Result ℕ FilesystemError × S) (path : List ℕ)
      → Keeps n (set_nameidata t path_init path)
  unfolding set_nameidata
  set_nameidata-Keeps n path_init path = and_then (lift-Keeps n (getname path)) λ u.
      and_then (guard-Keeps n (not (starts_with slash path)) escape) λ v.
        and_then (try-Keeps n path_init) λ start. and_then (ask-Keeps n (t.kind start)) λ kind.
          and_then (found-Keeps n not_found kind) λ stands.
            and_then (guard-Keeps n (is_dir stands) not_a_directory) λ w.
              and_then (ask-Keeps n t.read_seqbegin)
                λ r_seq. pure-Keeps n (starting start r_seq path)

  again-Keeps :
      {A : Type 0} (walk : Act (Caller S) A)
      → Keeps 0 walk
      → (r : Answer A (Caller S)) → Meets (λ a. Kept 0) Over r
      → Meets (λ a. Kept 0) Over (or_again walk r)
  unfolding or_again
  again-Keeps walk h (answered a c) m = m
  again-Keeps walk h unfinished m = m
  again-Keeps walk h (refused e c) (inl k) = elim (Bool-cases (is_stale e)) [
    | inl p ↦ rw p (h.meets c (omega arith, k))
    | inr p ↦ rw p (inl k)
  ]
  again-Keeps walk h (refused e c) (inr p) = rw p (inr refl)

  walk_with_reval-Keeps :
      {A : Type 0} (walk : Act (Caller S) A) → Keeps 0 walk → Keeps 0 (walk_with_reval walk)
  unfolding walk_with_reval
  walk_with_reval-Keeps walk h = record { meets = λ c k. again-Keeps walk h (walk c) (h.meets c k) }

-- What a call leaves that ended: at most 40 links were followed, or it is refused with ELOOP.
pub Bounded : {S : Type 0} → Answer Nameidata (Caller S) → Type 0
Bounded r = Meets (λ nd c. c.total_link_count ≤ maxsymlinks) Over r

module _ {S : Type 0} (t : Tree S) (path_init : S → Result ℕ FilesystemError × S)
    (path : List ℕ) where
  -- A lookup ends on any tree, whatever other writers do to it meanwhile: it never runs out of fuel.
  -- Where it finds the path, it followed 40 links at most, those of a walk that answered ESTALE
  -- included, and where it followed more it answers ELOOP.
  pub filename_lookup-Bounded :
      (follow : Bool) (s : S) → Bounded (filename_lookup t path_init path follow s)
  unfolding Bounded filename_lookup
  filename_lookup-Bounded follow s =
      (ensures_weaken
          (walk_with_reval-Keeps t _ (
            and_then (set_nameidata-Keeps t 0 path_init path)
              λ nd. path_lookupat-Keeps t 0 follow nd))
          λ a c k. k.1).meets
        (fresh s) (omega arith, omega arith)

  -- A walk to the directory that holds the last name ends too, with as many links.
  pub filename_parentat-Bounded : (s : S) → Bounded (filename_parentat t path_init path s)
  unfolding Bounded filename_parentat
  filename_parentat-Bounded s =
      (ensures_weaken
          (walk_with_reval-Keeps t _
            (and_then (set_nameidata-Keeps t 0 path_init path) λ nd. path_parentat-Keeps t 0 nd))
          λ a c k. k.1).meets
        (fresh s) (omega arith, omega arith)
