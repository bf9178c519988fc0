-- ===== src/Vfs/Dentries/Moves.antt =====
-- The parents of dentries (crates/kobako-runtime/src/vfs/dentry.rs) behind `d_move` and `d_exchange`.
use kobako.Common.{
  ℕ, suc, ◌<◌, ◌≡◌, refl, sym, ap, ◌∙◌, subst, inl, inr, Bool, true, false, Option, some, ◌==◌,
  ==_iff, ◌||◌, Bool-cases, arith,
}
use kobako.Vfs.Walk.{parent_or}
use kobako.Vfs.Dentries.{
  Dentries, Rooted, at_root, beneath, d_ancestor, is_subdir, set, unhash, move_dentry, exchange,
}

or_false : (a b : Bool) → (a || b) ≡ false → (a ≡ false) × (b ≡ false)
or_false true b h = cc
or_false false b h = (refl, h)

or_true : (a b : Bool) → (a || b) ≡ true → a ≡ false → b ≡ true
or_true true b h e = cc
or_true false b h e = h

module _ {parent : ℕ → Option ℕ} where
  depth : {d : ℕ} → Rooted parent d → ℕ
  depth (at_root e) = 0
  depth (beneath e r) = suc (depth r)

  depth_unique :
      {d d' : ℕ} → d ≡ d' → (r : Rooted parent d) (r' : Rooted parent d') → depth r ≡ depth r'
  unfolding depth
  depth_unique q (at_root e) (at_root e') = refl
  depth_unique q (at_root e) (beneath e' r') = absurd (cc (e, e', ap parent q))
  depth_unique q (beneath e r) (at_root e') = absurd (cc (e, e', ap parent q))
  depth_unique q (beneath e r) (beneath e' r') =
      ap suc (depth_unique (cc (e, e', ap parent q)) r r')

  depth_ancestor :
      (a : ℕ) {d : ℕ} (r : Rooted parent d)
      → d_ancestor a r ≡ true
      → (r' : Rooted parent a) → depth r' < depth r
  unfolding depth d_ancestor
  depth_ancestor a (at_root e) h r' = cc
  depth_ancestor a (beneath {p} e r) h r' = elim (Bool-cases (p == a)) [
    | inl q ↦ omega (arith, depth_unique ((==_iff p a).0 q) r r')
    | inr q ↦ omega (arith, depth_ancestor a r (or_true _ _ h q) r')
  ]

  -- No dentry stands above its own parent.
  parent-is_subdir :
      (d : ℕ) {p : ℕ} → parent d ≡ some p → (r : Rooted parent p) → is_subdir d r ≡ false
  unfolding is_subdir depth
  parent-is_subdir d {p} e r = elim (Bool-cases (is_subdir d r)) [
    | inr f ↦ f
    | inl f ↦ absurd (elim (Bool-cases (p == d)) [
      | inl q ↦ omega (arith, depth_unique ((==_iff p d).0 q) r (beneath e r))
      | inr q ↦ omega (arith, depth_ancestor d r (or_true _ _ f q) (beneath e r))
    ])
  ]

module _ (parent next : ℕ → Option ℕ) where
  -- A dentry stays rooted where no dentry on its way up moves.
  avoids :
      (a b : ℕ)
      → ((x : ℕ) → x == a ≡ false → x == b ≡ false → next x ≡ parent x)
      → {d : ℕ} (r : Rooted parent d) → is_subdir a r ≡ false
      → is_subdir b r ≡ false
      → Rooted next d
  unfolding is_subdir d_ancestor
  avoids a b h {d} (at_root e) f g = at_root (h d ((or_false _ _ f).0) ((or_false _ _ g).0) ∙ e)
  avoids a b h {d} (beneath {p} e r) f g =
      beneath (h d ((or_false _ _ f).0) ((or_false _ _ g).0) ∙ e)
        (avoids a b h r ((or_false _ _ f).1) ((or_false _ _ g).1))

set_here : {A : Type 0} (f : ℕ → A) (d : ℕ) (a : A) → set f d a d ≡ a
set_here f d a = rw ((==_iff d d).1 refl) refl

set_other : {A : Type 0} (f : ℕ → A) (d : ℕ) (a : A) (x : ℕ) → x == d ≡ false → set f d a x ≡ f x
set_other f d a x e = rw e refl

-- Every dentry of the Filesystem is beneath a root.
abbrev pub AllRooted : Dentries → Type 0
AllRooted ds = (d : ℕ) → Rooted ds.parent d

unhash-parent : (ds : Dentries) (d : ℕ) → (unhash ds d).parent ≡ ds.parent
unfolding unhash
unhash-parent ds d = elim (Bool-cases (ds.hashed d)) [ inl e ↦ rw e refl | inr e ↦ rw e refl ]

-- A dentry is one of the two that moved, or it is not.
moved_or :
    {next : ℕ → Option ℕ} (a b d : ℕ)
    → Rooted next a
    → Rooted next b
    → (d == a ≡ false → d == b ≡ false → Rooted next d)
    → Rooted next d
moved_or {next} a b d ra rb h = elim (Bool-cases (d == a)) [
  | inl e ↦ subst (Rooted next) (sym ((==_iff d a).0 e)) ra
  | inr e ↦ elim (Bool-cases (d == b)) [
    | inl f ↦ subst (Rooted next) (sym ((==_iff d b).0 f)) rb
    | inr f ↦ h e f
  ]
]

module _ (parent next : ℕ → Option ℕ) where
  -- Where the dentries that moved are rooted, all are.
  all_rooted :
      (a b : ℕ)
      → ((x : ℕ) → x == a ≡ false → x == b ≡ false → next x ≡ parent x)
      → Rooted next a
      → Rooted next b
      → {d : ℕ} → Rooted parent d
      → Rooted next d
  all_rooted a b h ra rb {d} (at_root e) = moved_or a b d ra rb λ p q. at_root (h d p q ∙ e)
  all_rooted a b h ra rb {d} (beneath e r) =
      moved_or a b d ra rb λ p q. beneath (h d p q ∙ e) (all_rooted a b h ra rb r)

-- A move to a place that is not beneath the dentry leaves every dentry rooted.
pub move_dentry-AllRooted :
    (ds : Dentries) (rooted : AllRooted ds) (old target new_dir : ℕ)
    → ds.parent target ≡ some new_dir
    → is_subdir old (rooted new_dir) ≡ false
    → AllRooted (move_dentry ds old target)
unfolding move_dentry
move_dentry-AllRooted ds rooted old target new_dir e f d =
    all_rooted ds.parent _ old old stays
      (beneath at_new (avoids ds.parent _ old old stays (rooted new_dir) f f))
      (beneath at_new (avoids ds.parent _ old old stays (rooted new_dir) f f)) (rooted d)
  where
    stays :
        (x : ℕ)
        → x == old ≡ false
        → x == old ≡ false
        → (move_dentry ds old target).parent x ≡ ds.parent x
    stays x p q = rw (unhash-parent ds target, p) refl

    at_new : (move_dentry ds old target).parent old ≡ some new_dir
    at_new =
        set_here (unhash ds target).parent old _
        ∙ ap (λ f. some (parent_or target (f target))) (unhash-parent ds target)
        ∙ ap (λ p. some (parent_or target p)) e

-- So does an exchange of two places, neither beneath the other's dentry.
pub exchange-AllRooted :
    (ds : Dentries) (rooted : AllRooted ds) (old new old_dir new_dir : ℕ)
    → ds.parent old ≡ some old_dir
    → ds.parent new ≡ some new_dir
    → is_subdir old (rooted new_dir) ≡ false
    → is_subdir new (rooted old_dir) ≡ false
    → AllRooted (exchange ds old new)
unfolding exchange
exchange-AllRooted ds rooted old new old_dir new_dir e e' f f' d =
    all_rooted ds.parent _ old new stays
      (beneath old_place (
        avoids ds.parent _ old new stays (rooted new_dir) f
          (parent-is_subdir new e' (rooted new_dir))))
      (beneath (set_here (set ds.parent old (ds.parent new)) new (ds.parent old) ∙ e) (
        avoids ds.parent _ old new stays (rooted old_dir) (parent-is_subdir old e (rooted old_dir))
          f'))
      (rooted d)
  where
    stays :
        (x : ℕ) → x == old ≡ false → x == new ≡ false → (exchange ds old new).parent x ≡ ds.parent x
    stays x p q = rw (q, p) refl

    old_place : (exchange ds old new).parent old ≡ some new_dir
    old_place = elim (Bool-cases (old == new)) [
      | inl q ↦ rw q (ap ds.parent ((==_iff old new).0 q) ∙ e')
      | inr q ↦
          set_other (set ds.parent old (ds.parent new)) new (ds.parent old) old q
          ∙ set_here ds.parent old (ds.parent new)
          ∙ e'
    ]
