-- ===== src/Vfs/Confined/Walks.antt =====
-- The walk of a path's names, in two trees that are the same beneath its start.
use kobako.Common.{ℕ, zero, suc, refl, ap, List, [], ◌∷◌, length}
use kobako.Security.Files.{
  not_found, not_a_directory, FileType, reg_file, dir, symlink, fifo, sock, blkdev, chrdev, unknown,
}
use kobako.Vfs.Actions.{Act, stuck}
use kobako.Vfs.Actions.Alike.{Any, Alike, Alike-pure, Alike-fail, Alike-if, and_Alike}
use kobako.Vfs.Names.{
  LastType, norm, dot, dot_dot, maxsymlinks, type_of, is_empty, without_slashes, any_slashes,
}
use kobako.Vfs.Tree.{Tree, Caller, try}
use kobako.Vfs.Walk.{
  Nameidata, Next, walked, linked, ended, stepped_into, walk_component, component, next_name,
  set_last, one_round, on_next, link_path_walk, walk_names, exec,
}
use kobako.Vfs.Confined.{
  Closed, SameOn, Within, nameidata_of, Alike-ask, Alike-try, Alike-found, inode_permission-Alike,
  pick_link-Alike, follow_dotdot-Alike,
}

module _ {S : Type 0} (t u : Tree S) (start : ℕ) (In : ℕ → Type 0) (closed : Closed t start In)
    (same : SameOn t u In) where
  abbrev Stays : Nameidata → Type 0
  Stays nd = Within start In nd

  abbrev StaysNext : Next → Type 0
  StaysNext next = Within start In (nameidata_of next)

  stepped_into-Alike :
      (nd : Nameidata) (d : ℕ) (kind : FileType)
      → Stays nd
      → In d
      → Alike StaysNext (stepped_into t nd d kind) (stepped_into u nd d kind)
  unfolding stepped_into
  stepped_into-Alike nd d symlink st i =
      and_Alike (pick_link-Alike t u start In closed same nd d st i)
        λ behind st'. Alike-pure (linked behind) st'
  stepped_into-Alike nd d dir st i =
      Alike-pure (walked (record nd { at = d }))
        (record { rooted = st.rooted; inside = i; found = st.found })
  stepped_into-Alike nd d reg_file st i = Alike-fail not_a_directory
  stepped_into-Alike nd d fifo st i = Alike-fail not_a_directory
  stepped_into-Alike nd d sock st i = Alike-fail not_a_directory
  stepped_into-Alike nd d blkdev st i = Alike-fail not_a_directory
  stepped_into-Alike nd d chrdev st i = Alike-fail not_a_directory
  stepped_into-Alike nd d unknown st i = Alike-fail not_a_directory

  pub lookup_dentry-Alike :
      (at : ℕ) (name : List ℕ)
      → In at
      → Alike In (try (t.lookup_dentry at name)) (try (u.lookup_dentry at name))
  lookup_dentry-Alike at name i =
      Alike-try In (ap (λ f. f name) (same.lookup at i)) λ s d e. closed.lookup at d name s i e

  walk_component-Alike :
      (nd : Nameidata) (name : List ℕ)
      → Stays nd
      → Alike StaysNext (walk_component t nd name) (walk_component u nd name)
  unfolding walk_component
  walk_component-Alike nd name st = and_Alike (lookup_dentry-Alike nd.at name st.inside) λ d i.
      and_Alike (Alike-ask Any (same.kind d i) λ s. tt) λ kind v.
        and_Alike (Alike-found Any not_found kind λ x e. tt)
          λ stands v. stepped_into-Alike nd d stands st i

  component-Alike :
      (nd : Nameidata) (name : List ℕ) (kind : LastType)
      → Stays nd
      → Alike StaysNext (component t nd name kind) (component u nd name kind)
  unfolding component
  component-Alike nd name norm st = walk_component-Alike nd name st
  component-Alike nd name dot st = Alike-pure (walked nd) st
  component-Alike nd name dot_dot st =
      and_Alike (follow_dotdot-Alike t u start In closed same nd st)
        λ above st'. Alike-pure (walked above) st'

  next_name-Alike :
      (nd : Nameidata) (names : List (List ℕ))
      → Stays nd
      → Alike StaysNext (next_name t nd names) (next_name u nd names)
  unfolding next_name set_last
  next_name-Alike nd [] st = Alike-fail not_found
  next_name-Alike nd (part ∷ rest) st =
      let behind : Nameidata = record nd { pending = without_slashes rest } in
      Alike-if (is_empty (without_slashes rest))
        (Alike-pure (ended (set_last part (any_slashes rest) behind))
          (record { rooted = st.rooted; inside = st.inside; found = st.found }))
        (component-Alike behind part (type_of part)
          (record { rooted = st.rooted; inside = st.inside; found = st.found }))

  one_round-Alike : (nd : Nameidata) → Stays nd → Alike StaysNext (one_round t nd) (one_round u nd)
  unfolding one_round
  one_round-Alike nd st =
      and_Alike (inode_permission-Alike t u start In closed same nd.at exec st.inside)
        λ p v. next_name-Alike nd nd.pending st

  on_next-Alike :
      (on on' through through' : Nameidata → Act (Caller S) Nameidata)
      → ((nd : Nameidata) → Stays nd → Alike Stays (on nd) (on' nd))
      → ((nd : Nameidata) → Stays nd → Alike Stays (through nd) (through' nd))
      → (next : Next) → StaysNext next
      → Alike Stays (on_next on through next) (on_next on' through' next)
  on_next-Alike on on' through through' h g (walked nd) st = h nd st
  on_next-Alike on on' through through' h g (linked nd) st = g nd st
  on_next-Alike on on' through through' h g (ended nd) st = Alike-pure nd st

  Alike-stuck : Alike {C = Caller S} Stays stuck stuck
  Alike-stuck = record { same = λ c. refl; yields = λ c. tt }

  link_path_walk-Alike :
      (links fuel : ℕ) (nd : Nameidata)
      → Stays nd
      → Alike Stays (link_path_walk t links fuel nd) (link_path_walk u links fuel nd)
  unfolding link_path_walk
  link_path_walk-Alike links zero nd st = Alike-stuck
  link_path_walk-Alike zero (suc fuel) nd st = and_Alike (one_round-Alike nd st) λ next st'.
      on_next-Alike _ _ _ _ (λ on. link_path_walk-Alike zero fuel on) (λ nd st. Alike-stuck) next
        st'
  link_path_walk-Alike (suc links) (suc fuel) nd st = and_Alike (one_round-Alike nd st) λ next st'.
      on_next-Alike _ _ _ _ (λ on. link_path_walk-Alike (suc links) fuel on)
        (λ through. link_path_walk-Alike links (suc (length through.pending)) through) next st'

  pub walk_names-Alike :
      (nd : Nameidata) → Stays nd → Alike Stays (walk_names t nd) (walk_names u nd)
  unfolding walk_names
  walk_names-Alike nd st = link_path_walk-Alike (suc maxsymlinks) (suc (length nd.pending)) nd st
