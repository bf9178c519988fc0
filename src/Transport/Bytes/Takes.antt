-- ===== src/Transport/Bytes/Takes.antt =====
-- What a successful action says of the bytes that it took. `Takes m S`: if `m` returns `v`, then `S`
-- holds of `v` and of the bytes between the old place and the new. `Whole m S`: of all that was
-- left. The bytes of a message are below 256.
use kobako.Common.{
  ℕ, ◌<◌, ◌^◌, ◌≡◌, refl, sym, ap, ◌∙◌, subst, Bool, true, false, List, [], ◌++◌, append_assoc,
  arith, length, if◌then◌else◌, Result, ok, err, ok-injective, All, inl, inr,
}
use kobako.Common.Outcomes.{Result-cases}
use kobako.Common.Words.{IsByte}
use kobako.Transport.Bytes.{
  DecodeError, Reader, Read, pure, fail, ◌>>=◌, new, run, rest_of, remaining, finish,
}
use kobako.Transport.Bytes.Cursor.{IsCursor, finish_inv}

pub record Took {A : Type 0} (S : A → List ℕ → Type 0) (r : Reader) (v : A) (next : Reader)
    : Type 0 where
  pub taken : List ℕ
  pub split : rest_of r ≡ taken ++ rest_of next
  pub holds : S v taken
  pub valid : IsCursor next
  pub bytes : All IsByte (rest_of next)

pub record Takes {A : Type 0} (m : Read A) (S : A → List ℕ → Type 0) : Type 0 where
  pub at :
      (r : Reader)
      → IsCursor r
      → All IsByte (rest_of r)
      → (v : A) (next : Reader) → m r ≡ ok (v, next)
      → Took S r v next

pub record Whole {A : Type 0} (m : Read A) (S : A → List ℕ → Type 0) : Type 0 where
  pub at :
      (r : Reader)
      → IsCursor r
      → All IsByte (rest_of r)
      → (v : A) (next : Reader) → m r ≡ ok (v, next)
      → S v (rest_of r)

module _ {A B : Type 0} where
  -- A successful chain, taken apart.
  bind_inv :
      (m : Read A) (f : A → Read B) (r next : Reader) (b : B)
      → (m >>= f) r ≡ ok (b, next)
      → (a : A) × (mid : Reader) × (m r ≡ ok (a, mid)) × (f a mid ≡ ok (b, next))
  unfolding ◌>>=◌
  bind_inv m f r next b e = go (m r) refl
    where
      go :
          (o : Result (A × Reader) DecodeError)
          → m r ≡ o
          → (a : A) × (mid : Reader) × (m r ≡ ok (a, mid)) × (f a mid ≡ ok (b, next))
      go (ok (a, mid)) p = (a, mid, p, (rw (p, ◌>>=◌) at e))
      go (err x) p = cc (rw (p, ◌>>=◌) at e)

pub Takes-weaken :
    {A : Type 0} {m : Read A} {Q S : A → List ℕ → Type 0}
    → Takes m Q
    → ((v : A) (t : List ℕ) → Q v t → S v t)
    → Takes m S
Takes-weaken h k = record {
  at = λ r c b v next e.
      let one = h.at r c b v next e in
      record {
        taken = one.taken;
        split = one.split;
        holds = k v one.taken one.holds;
        valid = one.valid;
        bytes = one.bytes;
      };
}

-- Nothing is taken.
module _ {A : Type 0} (S : A → List ℕ → Type 0) where
  still : (r : Reader) (a : A) → IsCursor r → All IsByte (rest_of r) → S a [] → Took S r a r
  still r a c b h = record { taken = []; split = refl; holds = h; valid = c; bytes = b }

  moved :
      (r : Reader) {a v : A} {s next : Reader}
      → ◌≡◌ {A = Result (A × Reader) DecodeError} (ok (a, s)) (ok (v, next))
      → Took S r a s
      → Took S r v next
  moved r {a} {v} {s} {next} e t =
      subst (λ (p : A × Reader). Took S r p.0 p.1) {x = (a, s)} {y = (v, next)} (ok-injective e) t

module _ {A : Type 0} {S : A → List ℕ → Type 0} where
  pub Takes-pure : (a : A) → S a [] → Takes (pure a) S
  unfolding pure
  Takes-pure a h = record { at = λ r c b v next e. moved S r e (still S r a c b h) }

  pub Takes-fail : (x : DecodeError) → Takes (fail x) S
  unfolding fail
  Takes-fail x = record { at = λ r c b v next e. cc }

  pub Takes-if :
      (t : Bool) (m n : Read A)
      → (t ≡ true → Takes m S)
      → (t ≡ false → Takes n S)
      → Takes (if t then m else n) S
  Takes-if true m n hm hn = hm refl
  Takes-if false m n hm hn = hn refl

  pub Whole-pure : (a : A) → ((u : List ℕ) → S a u) → Whole (pure a) S
  unfolding pure
  Whole-pure a h = record {
    at = λ r c b v next e.
        subst (λ (p : A × Reader). S p.0 (rest_of r)) {x = (a, r)} {y = (v, next)} (ok-injective e)
          (h (rest_of r));
  }

  pub Whole-fail : (x : DecodeError) → Whole (fail x) S
  unfolding fail
  Whole-fail x = record { at = λ r c b v next e. cc }

  pub Whole-if :
      (t : Bool) (m n : Read A)
      → (t ≡ true → Whole m S)
      → (t ≡ false → Whole n S)
      → Whole (if t then m else n) S
  Whole-if true m n hm hn = hm refl
  Whole-if false m n hm hn = hn refl

  -- Every successful run of the action, over a message that fits a slice.
  pub run-Whole :
      (m : Read A) (bs : List ℕ) (v : A)
      → Whole m S
      → length bs < 2 ^ 63
      → All IsByte bs
      → run m bs ≡ ok v
      → S v bs
  unfolding run
  run-Whole m bs v h fits bytes e = elim (Result-cases (m (new bs))) [
    | inl ((a, next), p) ↦
        subst (λ a. S a bs) (ok-injective (rw p at e))
          (h.at (new bs) (record { within = omega arith; fits = fits }) bytes a next p)
    | inr (x, p) ↦ cc (rw p at e)
  ]

module _ {A B : Type 0} {Q : A → List ℕ → Type 0} {S : B → List ℕ → Type 0} where
  pub Takes-bind :
      {m : Read A} (f : A → Read B)
      → Takes m Q
      → ((a : A) (t : List ℕ) → Q a t → Takes (f a) (λ b u. S b (t ++ u)))
      → Takes (m >>= f) S
  Takes-bind {m} f hm hf = record {
    at = λ r c b v next e.
        let (a, mid, em, ef) = bind_inv m f r next v e in
        let one = hm.at r c b a mid em in
        let two = (hf a one.taken one.holds).at mid one.valid one.bytes v next ef in
        record {
          taken = one.taken ++ two.taken;
          split =
              one.split
              ∙ ap (λ l. one.taken ++ l) two.split
              ∙ sym (append_assoc one.taken two.taken (rest_of next));
          holds = two.holds;
          valid = two.valid;
          bytes = two.bytes;
        };
  }

  pub Whole-bind :
      {m : Read A} (f : A → Read B)
      → Takes m Q
      → ((a : A) (t : List ℕ) → Q a t → Whole (f a) (λ b u. S b (t ++ u)))
      → Whole (m >>= f) S
  Whole-bind {m} f hm hf = record {
    at = λ r c b v next e.
        let (a, mid, em, ef) = bind_inv m f r next v e in
        let one = hm.at r c b a mid em in
        subst (S v) (sym one.split)
          ((hf a one.taken one.holds).at mid one.valid one.bytes v next ef);
  }

module _ {B : Type 0} {S : B → List ℕ → Type 0} where
  pub Takes-remaining :
      (f : List ℕ → Read B) → ((e : List ℕ) → Takes (f e) S) → Takes (remaining >>= f) S
  unfolding remaining ◌>>=◌
  Takes-remaining f h = record { at = λ r. (h (rest_of r)).at r }

  pub Whole-remaining :
      (f : List ℕ → Read B)
      → ((e : List ℕ) → Whole (f e) (λ b u. u ≡ e → S b u))
      → Whole (remaining >>= f) S
  unfolding remaining ◌>>=◌
  Whole-remaining f h = record { at = λ r c b v next e. (h (rest_of r)).at r c b v next e refl }

  pub Whole-finish :
      (f : Unit {0} → Read B) → Whole (f tt) (λ b u. u ≡ [] → S b u) → Whole (finish >>= f) S
  Whole-finish f h = record {
    at = λ r c b v next e.
        let (a, mid, em, ef) = bind_inv finish f r next v e in
        let (same, done) = finish_inv r mid c em in
        (h.at r c b v next (subst (λ (s : Reader). f tt s ≡ ok (v, next)) same ef)) done;
  }
