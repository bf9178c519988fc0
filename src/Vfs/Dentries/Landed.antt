-- ===== src/Vfs/Dentries/Landed.antt =====
-- The hash table of dentries (crates/kobako-runtime/src/vfs/dentry.rs) behind `d_move`.
use kobako.Common.{
  ℕ, ◌≡◌, refl, ap, ◌∙◌, true, Option, some, List, [], ◌∷◌, ◌==◌, ==_iff, bytes_eq, Bool-cases, inl,
  inr,
}
use kobako.Vfs.Dentries.{Dentries, above, set, set_key, unhash, move_dentry}
use kobako.Vfs.Walk.{parent_or}

bytes_eq_self : (xs : List ℕ) → bytes_eq xs xs ≡ true
bytes_eq_self [] = refl
bytes_eq_self (x ∷ xs) = rw ((==_iff x x).1 refl) (bytes_eq_self xs)

eq_self : (d : ℕ) → d == d ≡ true
eq_self d = (==_iff d d).1 refl

-- Behind a move of `d` to where `target` stood before it: `d` has the target's name and stands in the
-- target's directory, and a lookup of that name there finds it.
pub record Landed (before after : Dentries) (d target : ℕ) : Type 0 where
  pub name : after.name d ≡ before.name target
  pub parent : after.parent d ≡ some (above before target)
  pub hashed : after.hashed d ≡ true
  pub found : after.table (above before target) (before.name target) ≡ some d

unhash-name : (ds : Dentries) (d : ℕ) → (unhash ds d).name ≡ ds.name
unfolding unhash
unhash-name ds d = elim (Bool-cases (ds.hashed d)) [ inl e ↦ rw e refl | inr e ↦ rw e refl ]

unhash-parent : (ds : Dentries) (d : ℕ) → (unhash ds d).parent ≡ ds.parent
unfolding unhash
unhash-parent ds d = elim (Bool-cases (ds.hashed d)) [ inl e ↦ rw e refl | inr e ↦ rw e refl ]

-- With `ds` the dentries once the target is out of the hash table.
place :
    (before ds : Dentries) (d target : ℕ) (rest : ℕ → List ℕ → Option ℕ)
    → ds.name target ≡ before.name target
    → above ds target ≡ above before target
    → Landed before
        (record {
          table = set_key rest (above ds target) (ds.name target) (some d);
          hashed = set ds.hashed d true;
          parent = set ds.parent d (some (above ds target));
          name = set ds.name d (ds.name target);
        })
        d
        target
place before ds d target rest same_name same_place = record {
  name = rw (eq_self d) same_name;
  parent = rw (eq_self d) (ap some same_place);
  hashed = rw (eq_self d) refl;
  found =
      rw (same_place, same_name, eq_self (above before target), bytes_eq_self (before.name target))
        refl;
}

-- A move lands where the target stood.
pub move_dentry-Landed :
    (before ds : Dentries) (d target : ℕ)
    → ds.name target ≡ before.name target
    → ds.parent target ≡ before.parent target
    → Landed before (move_dentry ds d target) d target
unfolding move_dentry
move_dentry-Landed before ds d target same_name same_parent =
    place before (unhash ds target) d target _
      (ap (λ f. f target) (unhash-name ds target) ∙ same_name)
      (ap (λ f. parent_or target (f target)) (unhash-parent ds target)
        ∙ ap (parent_or target) same_parent)
