-- ===== src/Vfs/Confined/Calls.antt =====
-- The calls that walk a path, in two trees that are the same beneath its start.
use kobako.Common.{
  ℕ, zero, suc, ◌≡◌, refl, ap, sym, subst, ◌∙◌, Bool, true, false, Option, none, some, List, not,
  Bool-cases, inl, inr, if◌then◌else◌, Result, ok,
}
use kobako.Security.Files.{FilesystemError, not_found, not_a_directory, escape, FileType}
use kobako.Vfs.Actions.{Answer, answered, refused, unfinished, Act, guard, lift}
use kobako.Vfs.Actions.Alike.{
  Yields, Any, Alike, Alike-refl, Alike-pure, Alike-fail, Alike-if, and_Alike,
}
use kobako.Vfs.Names.{LastType, norm, dot, dot_dot, maxsymlinks, slash, getname, starts_with}
use kobako.Vfs.Tree.{Tree, Caller}
use kobako.Vfs.Walk.{Nameidata}
use kobako.Vfs.Lookup.{
  Last, stood, through, is_dir, is_symlink, is_stale, or_again, walk_with_reval, standing, asked,
  dots, handle_dots, stop_or_follow, find_last, last_round, follow_link, on_last, lookup_last,
  path_or, stands_at, complete_walk, starting, set_nameidata, right_kind, path_lookupat,
  path_parentat, fresh, filename_lookup, filename_parentat,
}
use kobako.Vfs.Confined.{
  Closed, SameOn, InPath, Within, Alike-ask, Alike-try, Alike-found, pick_link-Alike,
  follow_dotdot-Alike,
}
use kobako.Vfs.Confined.Walks.{lookup_dentry-Alike, walk_names-Alike}

abbrev last_of : Last → Nameidata
last_of (stood nd) = nd
last_of (through follow nd child) = nd

-- The link to follow is beneath the start too.
abbrev LinkIn : (ℕ → Type 0) → Last → Type 0
LinkIn In (stood nd) = Unit
LinkIn In (through follow nd child) = In child

module _ {S : Type 0} (t u : Tree S) (start : ℕ) (In : ℕ → Type 0) (closed : Closed t start In)
    (same : SameOn t u In) where
  abbrev Stays : Nameidata → Type 0
  Stays nd = Within start In nd

  abbrev StaysLast : Last → Type 0
  StaysLast last = Within start In (last_of last) × LinkIn In last

  dots-Alike :
      (kind : LastType) (nd : Nameidata) → Stays nd → Alike Stays (dots t kind nd) (dots u kind nd)
  unfolding dots
  dots-Alike dot_dot nd st = follow_dotdot-Alike t u start In closed same nd st
  dots-Alike dot nd st = Alike-pure nd st
  dots-Alike norm nd st = Alike-pure nd st

  handle_dots-Alike :
      (nd : Nameidata) → Stays nd → Alike Stays (handle_dots t nd) (handle_dots u nd)
  unfolding handle_dots
  handle_dots-Alike nd st = and_Alike (dots-Alike nd.last_type nd st) λ at st'.
      Alike-pure (standing at)
        (record { rooted = st'.rooted; inside = st'.inside; found = st'.inside })

  stop_or_follow-Alike :
      (follow : Bool) (nd : Nameidata) (child : ℕ)
      → Stays nd
      → In child
      → Alike StaysLast (stop_or_follow t follow nd child) (stop_or_follow u follow nd child)
  unfolding stop_or_follow
  stop_or_follow-Alike follow nd child st i =
      Alike-if follow
        (and_Alike (Alike-ask Any (same.kind child i) λ s. tt) λ kind v.
          Alike-pure (if is_symlink kind then through follow nd child else stood nd)
            (either (is_symlink kind)))
        (Alike-pure (stood nd) (st, tt))
    where
      either : (b : Bool) → StaysLast (if b then through follow nd child else stood nd)
      either true = (st, i)
      either false = (st, tt)

  find_last-Alike :
      (follow : Bool) (nd : Nameidata)
      → Stays nd
      → Alike StaysLast (find_last t follow nd) (find_last u follow nd)
  unfolding find_last
  find_last-Alike follow nd st =
      and_Alike (lookup_dentry-Alike t u start In closed same nd.at nd.last st.inside) λ child i.
        and_Alike (Alike-ask Any (same.kind child i) λ s. tt) λ kind v.
          and_Alike (Alike-found Any not_found kind λ x e. tt) λ stands v.
            stop_or_follow-Alike (if nd.trailing_slash then true else follow) (asked nd child) child
              (record { rooted = st.rooted; inside = st.inside; found = i }) i

  last_round-Alike :
      (kind : LastType) (follow : Bool) (nd : Nameidata)
      → Stays nd
      → Alike StaysLast (last_round t kind follow nd) (last_round u kind follow nd)
  unfolding last_round
  last_round-Alike norm follow nd st = find_last-Alike follow nd st
  last_round-Alike dot follow nd st =
      and_Alike (handle_dots-Alike nd st) λ at st'. Alike-pure (stood at) (st', tt)
  last_round-Alike dot_dot follow nd st =
      and_Alike (handle_dots-Alike nd st) λ at st'. Alike-pure (stood at) (st', tt)

  follow_link-Alike :
      (nd : Nameidata) (child : ℕ)
      → Stays nd
      → In child
      → Alike Stays (follow_link t nd child) (follow_link u nd child)
  unfolding follow_link
  follow_link-Alike nd child st i =
      and_Alike (pick_link-Alike t u start In closed same nd child st i)
        λ behind st'. walk_names-Alike t u start In closed same behind st'

  on_last-Alike :
      (on on' : Bool → Nameidata → Act (Caller S) Nameidata)
      → ((follow : Bool) (nd : Nameidata) → Stays nd → Alike Stays (on follow nd) (on' follow nd))
      → (last : Last) → StaysLast last
      → Alike Stays (on_last t on last) (on_last u on' last)
  on_last-Alike on on' h (stood nd) st = Alike-pure nd (st.0)
  on_last-Alike on on' h (through follow nd child) st =
      and_Alike (follow_link-Alike nd child (st.0) (st.1)) λ behind st'. h follow behind st'

  lookup_last-Alike :
      (rounds : ℕ) (follow : Bool) (nd : Nameidata)
      → Stays nd
      → Alike Stays (lookup_last t rounds follow nd) (lookup_last u rounds follow nd)
  unfolding lookup_last
  lookup_last-Alike zero follow nd st = record { same = λ c. refl; yields = λ c. tt }
  lookup_last-Alike (suc rounds) follow nd st =
      and_Alike (last_round-Alike nd.last_type follow nd st) λ last st'.
        on_last-Alike _ _ (λ again behind. lookup_last-Alike rounds again behind) last st'

  In-path_or : (at : ℕ) (path : Option ℕ) → In at → InPath In path → In (path_or at path)
  In-path_or at none i p = i
  In-path_or at (some d) i p = p

  complete_walk-Alike :
      (nd : Nameidata) → Stays nd → Alike Any (complete_walk t nd) (complete_walk u nd)
  unfolding complete_walk
  complete_walk-Alike nd st =
      and_Alike
        (Alike-ask Any
          (same.is_subdir (stands_at nd) nd.root (In-path_or nd.at nd.path st.inside st.found)
            (subst In (sym st.rooted) closed.started))
          λ s. tt)
        λ beneath v. Alike-refl (guard beneath escape)

  right_kind-Alike :
      (nd : Nameidata) (kind : FileType)
      → Stays nd
      → Alike {C = Caller S} Stays (right_kind nd kind) (right_kind nd kind)
  unfolding right_kind
  right_kind-Alike nd kind st =
      Alike-if nd.lookup_directory
        (Alike-if (is_dir kind) (Alike-pure nd st) (Alike-fail not_a_directory)) (Alike-pure nd st)

  path_lookupat-Alike :
      (follow : Bool) (nd : Nameidata)
      → Stays nd
      → Alike Stays (path_lookupat t follow nd) (path_lookupat u follow nd)
  unfolding path_lookupat
  path_lookupat-Alike follow nd st =
      and_Alike (walk_names-Alike t u start In closed same nd st) λ names st'.
        and_Alike (lookup_last-Alike (suc maxsymlinks) follow names st') λ last st''.
          and_Alike (complete_walk-Alike last st'') λ w v.
            and_Alike (Alike-found In not_found last.path λ x e. subst (InPath In) e st''.found)
              λ path i. and_Alike (Alike-ask Any (same.kind path i) λ s. tt) λ kind v.
                and_Alike (Alike-found Any not_found kind λ x e. tt)
                  λ stands v. right_kind-Alike last stands st''

  path_parentat-Alike :
      (nd : Nameidata) → Stays nd → Alike Stays (path_parentat t nd) (path_parentat u nd)
  unfolding path_parentat
  path_parentat-Alike nd st =
      and_Alike (walk_names-Alike t u start In closed same nd st)
        λ names st'. and_Alike (complete_walk-Alike names st') λ w v. Alike-pure names st'

  module _ (path_init : S → Result ℕ FilesystemError × S)
      (starts : (s : S) (d : ℕ) → (path_init s).0 ≡ ok d → d ≡ start) (path : List ℕ) where
    set_nameidata-Alike :
        Alike Stays (set_nameidata t path_init path) (set_nameidata u path_init path)
    unfolding set_nameidata starting
    set_nameidata-Alike = and_Alike (Alike-refl (lift (getname path))) λ named v.
        and_Alike (Alike-refl (guard (not (starts_with slash path)) escape)) λ relative v.
          and_Alike (Alike-try (λ d. d ≡ start) refl starts) λ d e.
            and_Alike (Alike-ask Any (same.kind d (inside d e)) λ s. tt) λ kind v.
              and_Alike (Alike-found Any not_found kind λ x e. tt) λ stands v.
                and_Alike (Alike-refl (guard (is_dir stands) not_a_directory)) λ opens v.
                  and_Alike (Alike-ask Any same.read_seqbegin λ s. tt) λ r_seq v.
                    Alike-pure (starting d r_seq path)
                      (record { rooted = e; inside = inside d e; found = tt })
      where
        inside : (d : ℕ) → d ≡ start → In d
        inside d e = subst In (sym e) closed.started

    again-Alike :
        {m n : Act (Caller S) Nameidata}
        → Alike Stays m n
        → (r : Answer Nameidata (Caller S)) → Yields Stays r
        → (or_again m r ≡ or_again n r) × Yields Stays (or_again m r)
    unfolding or_again
    again-Alike h (answered a c) q = (refl, q)
    again-Alike h unfinished q = (refl, tt)
    again-Alike h (refused e c) q = elim (Bool-cases (is_stale e)) [
      | inl p ↦ rw p (h.same c, h.yields c)
      | inr p ↦ rw p (refl, tt)
    ]

    walk_with_reval-Alike :
        {m n : Act (Caller S) Nameidata}
        → Alike Stays m n
        → Alike Stays (walk_with_reval m) (walk_with_reval n)
    unfolding walk_with_reval
    walk_with_reval-Alike {m} {n} h = record {
      same = λ c. (again-Alike h (m c) (h.yields c)).0 ∙ ap (or_again n) (h.same c);
      yields = λ c. (again-Alike h (m c) (h.yields c)).1;
    }

    -- A lookup depends on nothing but what stands beneath its start: while no directory there is
    -- carried out from under the start, two trees that are the same beneath it give the same answer,
    -- whatever they hold elsewhere, and what the lookup finds stands beneath the start.
    pub filename_lookup-Confined :
        (follow : Bool) (s : S)
        → (filename_lookup t path_init path follow s ≡ filename_lookup u path_init path follow s)
          × Yields Stays (filename_lookup t path_init path follow s)
    unfolding filename_lookup
    filename_lookup-Confined follow s =
        let h =
          walk_with_reval-Alike (and_Alike set_nameidata-Alike (path_lookupat-Alike follow)) in
        (h.same (fresh s), h.yields (fresh s))

    -- So does a walk to the directory that holds the last name.
    pub filename_parentat-Confined :
        (s : S)
        → (filename_parentat t path_init path s ≡ filename_parentat u path_init path s)
          × Yields Stays (filename_parentat t path_init path s)
    unfolding filename_parentat
    filename_parentat-Confined s =
        let h = walk_with_reval-Alike (and_Alike set_nameidata-Alike path_parentat-Alike) in
        (h.same (fresh s), h.yields (fresh s))
