-- ===== src/Vfs/Open/Truncates.antt =====
-- When an open (crates/kobako-runtime/src/vfs/namei.rs) empties the file. A Filesystem may empty it where
-- it is opened with `truncate`, or in the `notify_change` behind that open.
use kobako.Common.{
  ℕ, ◌≡◌, refl, Bool, true, false, not, ◌&&◌, Option, none, some, ◌⊎◌, inl, inr, Result, err, ok,
  sym, ap, ◌∙◌, if◌then◌else◌,
}
use kobako.Security.Files.{FilesystemError, not_found, FileType, reg_file, FMode}
use kobako.Security.OpenFlags.{OpenHow, OpenFlags}
use kobako.Vfs.Actions.{Act, pure, found}
use kobako.Vfs.Actions.Alike.{
  Any, Alike, Alike-refl, Alike-pure, Alike-same, Alike-given, Alike-if, and_Alike,
}
use kobako.Vfs.Tree.{Caller, try, told_or}
use kobako.Vfs.Walk.{Nameidata}
use kobako.Vfs.Entries.{inode_ops}
use kobako.Vfs.Rename.{unless}
use kobako.Vfs.Confined.{Alike-try, Alike-ask, Alike-found}
use kobako.Vfs.Open.{
  Opener, special_file, refusal, truncates, asked_mask, may_open, completed, want_for,
  do_dentry_open, opened_or, handle_truncate, do_open,
}

module _ {S F B : Type 0} where
  -- The opener with another `->open` of an inode where it is asked to truncate, and another way to empty
  -- a file behind it.
  abbrev pub with_truncate :
      (ℕ → OpenHow → S → Result F FilesystemError × S)
      → (ℕ → F → S → Result (Unit {0}) FilesystemError × S)
      → Opener S F B
      → Opener S F B
  with_truncate opens empties o = record o {
    open_inode = λ d how s. if how.truncate then opens d how s else o.open_inode d how s;
    truncate = empties;
  }

  -- Why an open of `child` empties nothing: it does not ask to; the Filesystem made the file in the
  -- lookup, and opened it there; the file stood, is regular, and its mount takes no write; or nothing
  -- opened it yet, it is opened for more than its path, and the security modules refuse that open.
  pub data Spared (o : Opener S F B) (child : ℕ) (opened : Option (F × B)) (mode : FMode)
      (how : OpenHow) : Type 0 where
    unasked : how.truncate ≡ false → Spared o child opened mode how
    made :
        (file : F × B) → mode.created ≡ true → opened ≡ some file → Spared o child opened mode how
    read_only :
        (e : FilesystemError)
        → mode.created ≡ false
        → ((s : S) → (o.mnt.sb.tree.kind child s).0 ≡ some reg_file)
        → ((s : S) → (o.mnt.mnt_want_write s).0 ≡ err e)
        → Spared o child opened mode how
    forbidden :
        (e : FilesystemError)
        → opened ≡ none
        → mode.path ≡ false
        → ((kind : FileType) (s : S) → (o.security_file_open child kind mode how s).0 ≡ err e)
        → Spared o child opened mode how

Alike-else :
    {A C : Type 0} {Q : A → Type 0} (b : Bool) (j k : Act C A) {m n : Act C A}
    → b ≡ false
    → Alike Q m n
    → Alike Q (if b then j else m) (if b then k else n)
Alike-else true j k e h = cc
Alike-else false j k e h = h

module _ {S F B : Type 0} (opens : ℕ → OpenHow → S → Result F FilesystemError × S)
    (empties : ℕ → F → S → Result (Unit {0}) FilesystemError × S) (o : Opener S F B) where
  never : {A : Type 0} {a : A} {e : FilesystemError} → ok a ≡ err e → ⊥
  never p = cc

  -- What is left to know once the mount was asked.
  Later : ℕ → Option (F × B) → FMode → OpenHow → Type 0
  Later child opened mode how =
      (how.truncate ≡ false)
      ⊎ (((file : F × B) × (mode.created ≡ true) × (opened ≡ some file))
          ⊎ ((e : FilesystemError) × (opened ≡ none)
              × (mode.path ≡ false)
              × ((kind : FileType) (s : S)
                  → (o.security_file_open child kind mode how s).0 ≡ err e)))

  -- A file that stands, is to be emptied, and whose mount takes no write.
  Locked : FMode → OpenHow → FileType → Type 0
  Locked mode how kind =
      (e : FilesystemError) × (mode.created ≡ false)
      × (kind ≡ reg_file)
      × ((s : S) → (o.mnt.mnt_want_write s).0 ≡ err e)

  inode_ops-Spared :
      (child : ℕ) (opened : Option (F × B)) (mode : FMode) (how : OpenHow)
      → Spared o child opened mode how
      → Alike {C = Caller S}
          (λ kind. Later child opened mode how ⊎ Locked mode how kind)
          (inode_ops o.mnt.sb child)
          (inode_ops o.mnt.sb child)
  unfolding Later Locked inode_ops
  inode_ops-Spared child opened mode how (unasked e) = Alike-given _ λ kind. inl (inl e)
  inode_ops-Spared child opened mode how (made file c e) =
      Alike-given _ λ kind. inl (inr (inl (file, c, e)))
  inode_ops-Spared child opened mode how (forbidden e n p h) =
      Alike-given _ λ kind. inl (inr (inr (e, n, p, h)))
  inode_ops-Spared child opened mode how (read_only e c regular h) =
      and_Alike {j = found not_found} {k = found not_found}
        (Alike-ask (λ kind. kind ≡ some reg_file) {q = o.mnt.sb.tree.kind child} refl regular)
        λ kind is.
          Alike-found _ not_found kind λ k stands. inr (e, c, some-injective (sym stands ∙ is), h)
    where
      some-injective : {a b : FileType} → some a ≡ some b → a ≡ b
      some-injective {a} p = ap (λ r. elim r [ none ↦ a | some x ↦ x ]) p

  truncates-Locked :
      (how : OpenHow) (b : Bool) (kind : FileType)
      → b ≡ false
      → kind ≡ reg_file
      → truncates how b kind ≡ how.truncate
  unfolding truncates
  truncates-Locked how b kind stood regular = rw (regular, stood) (and_true how.truncate)
    where
      and_true : (a : Bool) → (a && true) ≡ a
      and_true true = refl
      and_true false = refl

  want_refused :
      (P : Type 0) (e : FilesystemError) (truncate : Bool)
      → ((s : S) → (o.mnt.mnt_want_write s).0 ≡ err e)
      → (truncate ≡ false → P)
      → Alike {C = Caller S} (λ u. P) (want_for o truncate) (want_for o truncate)
  unfolding want_for
  want_refused P e false h k = Alike-pure tt (k refl)
  want_refused P e true h k = Alike-try _ refl λ s a p. absurd (never (sym p ∙ h s))

  want_for-Spared :
      (child : ℕ) (opened : Option (F × B)) (mode : FMode) (how : OpenHow) (kind : FileType)
      → Later child opened mode how ⊎ Locked mode how kind
      → Alike {C = Caller S}
          (λ u. Later child opened mode how)
          (want_for o (truncates how mode.created kind))
          (want_for o (truncates how mode.created kind))
  unfolding want_for Locked Later truncates
  want_for-Spared child opened mode how kind (inl later) = Alike-given _ λ u. later
  want_for-Spared child opened mode how kind (inr (e, stood, regular, h)) =
      want_refused _ e (truncates how mode.created kind) h
        λ off. inl (sym (truncates-Locked how mode.created kind stood regular) ∙ off)

  open_inode-same :
      (child : ℕ) (how : OpenHow)
      → how.truncate ≡ false
      → (c : Caller S)
      → try (o.open_inode child how) c
        ≡ try ((with_truncate opens empties o).open_inode child how) c
  open_inode-same child how e c = ap (told_or c) (choose how.truncate (opens child how c.tree) e)
    where
      choose : {A : Type 0} {y : A} (b : Bool) (x : A) → b ≡ false → y ≡ (if b then x else y)
      choose true x e = cc
      choose false x e = refl

  unasked_false :
      (how : OpenHow) (b : Bool) (kind : FileType)
      → how.truncate ≡ false
      → truncates how b kind ≡ false
  unfolding truncates
  unasked_false how true kind e = refl
  unasked_false how false kind e = rw e refl

  -- The write that `do_dentry_open` asks the mount for.
  abbrev write_for : FMode → FileType → Act (Caller S) (Unit {0})
  write_for mode kind =
      if mode.write && not (special_file kind) then try o.mnt.mnt_want_write else pure tt

  opened_or-Spared :
      (child : ℕ) (opened : Option (F × B)) (mode : FMode) (how : OpenHow) (kind : FileType)
      → Later child opened mode how
      → Alike {C = Caller S}
          (λ file. truncates how mode.created kind ≡ false)
          (opened_or o opened child kind mode how)
          (opened_or (with_truncate opens empties o) opened child kind mode how)
  unfolding opened_or do_dentry_open Later truncates
  opened_or-Spared child (some file) mode how kind (inl off) =
      Alike-pure file (unasked_false how mode.created kind off)
  opened_or-Spared child none mode how kind (inl off) = Alike-if mode.path (Alike-pure _ unasked) (
      and_Alike (Alike-refl (write_for mode kind)) λ u v.
        and_Alike (Alike-refl (try (o.security_file_open child kind mode how))) λ b v.
          and_Alike
            (Alike-same (try (o.open_inode child how))
              (try ((with_truncate opens empties o).open_inode child how))
              (open_inode-same child how off))
            λ ops v. Alike-pure (ops, b) unasked)
    where
      unasked : truncates how mode.created kind ≡ false
      unasked = unasked_false how mode.created kind off
  opened_or-Spared child opened mode how kind (inr (inl (file, standing, e))) =
      rw (e, standing) (Alike-pure file refl)
  opened_or-Spared child opened mode how kind (inr (inr (e, closed, path, h))) = rw closed (
      Alike-else mode.path (pure (o.empty_fops, o.security_file_alloc)) (pure _) path (
        and_Alike (Alike-refl (write_for mode kind)) λ u v.
          and_Alike {Q = λ b. ⊥}
            (Alike-try (λ b. ⊥) {q = o.security_file_open child kind mode how} refl
              λ s a p. absurd (never (sym p ∙ h kind s)))
            λ b bad. absurd bad))

  handle_truncate-same :
      (truncate : Bool) (child : ℕ) (file : F × B)
      → truncate ≡ false
      → (c : Caller S)
      → handle_truncate o truncate child file c
        ≡ handle_truncate (with_truncate opens empties o) truncate child file c
  unfolding handle_truncate
  handle_truncate-same false child file k c = refl
  handle_truncate-same true child file e c = cc

  -- The open of what a walk ended on empties no file where it does not ask to, where the Filesystem made
  -- the file and opened it in the lookup, where a regular file stood on a mount that takes no write, or
  -- where the security modules refuse an open that is for more than the path and that the lookup did not
  -- make: it gives the same answer, and leaves the same state, whatever the Filesystem does when it opens
  -- with `truncate`, and whatever emptying a file behind the open does.
  pub do_open-Spared :
      (nd : Nameidata) (child : ℕ) (opened : Option (F × B)) (mode : FMode) (op : OpenFlags)
      → Spared o child opened mode op.open_flag
      → (c : Caller S)
      → do_open o nd child opened mode op c
        ≡ do_open (with_truncate opens empties o) nd child opened mode op c
  unfolding do_open
  do_open-Spared nd child opened mode op sp =
      (and_Alike (Alike-refl (completed o nd mode.created opened)) λ u v.
        and_Alike (inode_ops-Spared child opened mode op.open_flag sp) λ kind k.
          and_Alike (Alike-refl (unless (refusal nd op.open_flag mode.created kind))) λ u v.
            and_Alike (want_for-Spared child opened mode op.open_flag kind k) λ u later.
              and_Alike (Alike-refl (may_open o child kind (asked_mask op mode.created))) λ u v.
                and_Alike (opened_or-Spared child opened mode op.open_flag kind later) λ file e.
                  and_Alike {R = Any}
                    (Alike-same
                      (handle_truncate o (truncates op.open_flag mode.created kind) child file)
                      (handle_truncate (with_truncate opens empties o)
                        (truncates op.open_flag mode.created kind) child file)
                      (handle_truncate-same (truncates op.open_flag mode.created kind) child file
                        e))
                    λ u v. Alike-refl (pure _)).same
