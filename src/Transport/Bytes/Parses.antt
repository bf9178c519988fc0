-- ===== src/Transport/Bytes/Parses.antt =====
-- What an action of the reader does on the bytes written for a value, one rule for each way to build
-- an action. `Reads m e v`: where the rest begins with `e`, `m` returns `v` and stands behind `e`.
-- `Ends m e v`: where the rest is `e`, `m` returns `v`. `Fails m e x`: where it is `e`, `m` fails.
use kobako.Common.{
  ℕ, ◌^◌, ◌<◌, ◌≡◌, refl, sym, ap, ◌∙◌, List, [], ◌∷◌, ◌++◌, subst, append-nil, append_assoc, arith,
  length, drop-length, Result, ok, err,
}
use kobako.Transport.Bytes.{
  DecodeError, Reader, Read, pure, fail, lift, ◌>>=◌, new, run, rest_of, remaining,
  skip_unknown_fields, finish, past_last_field,
}
use kobako.Transport.Bytes.Cursor.{IsCursor, finish_runs, finish_refuses}

pub record Left {ℓ} {A : Type ℓ} (m : Read A) (r : Reader) (v : A) (rest : List ℕ) : Type ℓ where
  pub next : Reader
  pub runs : m r ≡ ok (v, next)
  pub left : rest_of next ≡ rest
  pub valid : IsCursor next

pub record Reads {ℓ} {A : Type ℓ} (m : Read A) (e : List ℕ) (v : A) : Type ℓ where
  pub at : (r : Reader) (rest : List ℕ) → IsCursor r → rest_of r ≡ e ++ rest → Left m r v rest

pub record Ends {ℓ} {A : Type ℓ} (m : Read A) (e : List ℕ) (v : A) : Type ℓ where
  pub at : (r : Reader) → IsCursor r → rest_of r ≡ e → (next : Reader) × (m r ≡ ok (v, next))

pub record Fails {ℓ} {A : Type ℓ} (m : Read A) (e : List ℕ) (x : DecodeError) : Type ℓ where
  pub at : (r : Reader) → IsCursor r → rest_of r ≡ e → m r ≡ err x

module _ {ℓ} {A : Type ℓ} where
  pub Reads-pure : (a : A) → Reads (pure a) [] a
  unfolding pure
  Reads-pure a = record { at = λ r rest c e. record { next = r; runs = refl; left = e; valid = c } }

  pub Ends-pure : (a : A) (e : List ℕ) → Ends (pure a) e a
  unfolding pure
  Ends-pure a e = record { at = λ r c e. (r, refl) }

  -- A value computed beside the reader.
  pub Reads-lift : {r : Result A DecodeError} {a : A} → r ≡ ok a → Reads (lift r) [] a
  unfolding lift
  Reads-lift e = record { at = λ r rest c p. record { next = r; runs = rw e; left = p; valid = c } }

  pub Reads-eq : {m n : Read A} {e : List ℕ} {v : A} → m ≡ n → Reads n e v → Reads m e v
  Reads-eq {e} {v} p h = subst (λ k. Reads k e v) (sym p) h

  pub run-Ends : {m : Read A} {e : List ℕ} {v : A} → Ends m e v → length e < 2 ^ 63 → run m e ≡ ok v
  unfolding run
  run-Ends {m} {e} {v} h fits =
      let (next, runs) = h.at (new e) (record { within = omega arith; fits = fits }) refl in rw runs

module _ {ℓ} {A : Type ℓ} where
  pub Fails-fail : (x : DecodeError) (e : List ℕ) → Fails (fail {A = A} x) e x
  unfolding fail
  Fails-fail x e = record { at = λ r c p. refl }

  pub Fails-lift :
      {r : Result A DecodeError} {x : DecodeError} (e : List ℕ) → r ≡ err x → Fails (lift r) e x
  unfolding lift
  Fails-lift e p = record { at = λ r c q. rw p }

  pub run-Fails :
      {m : Read A} {e : List ℕ} {x : DecodeError}
      → Fails m e x
      → length e < 2 ^ 63
      → run m e ≡ err x
  unfolding run
  run-Fails {m} {e} {x} h fits =
      rw (h.at (new e) (record { within = omega arith; fits = fits }) refl)

module _ {ℓ κ} {A : Type ℓ} {B : Type κ} where
  bind_step :
      (m : Read A) (f : A → Read B) (r next : Reader) (a : A)
      → m r ≡ ok (a, next)
      → (m >>= f) r ≡ f a next
  unfolding ◌>>=◌
  bind_step m f r next a e = rw e

  pub Reads-bind :
      {m : Read A} (f : A → Read B) {e₁ e₂ : List ℕ} {a : A} {b : B}
      → Reads m e₁ a
      → Reads (f a) e₂ b
      → Reads (m >>= f) (e₁ ++ e₂) b
  Reads-bind {m} f {e₁} {e₂} {a} {b} hm hf = record {
    at = λ r rest c e.
        let one = hm.at r (e₂ ++ rest) c (e ∙ append_assoc e₁ e₂ rest) in
        let two = hf.at one.next rest one.valid one.left in
        record {
          next = two.next;
          runs = bind_step m f r one.next a one.runs ∙ two.runs;
          left = two.left;
          valid = two.valid;
        };
  }

  pub Fails-bind :
      {m : Read A} (f : A → Read B) {e₁ e₂ : List ℕ} {a : A} {x : DecodeError}
      → Reads m e₁ a
      → Fails (f a) e₂ x
      → Fails (m >>= f) (e₁ ++ e₂) x
  Fails-bind {m} f {e₁} {e₂} {a} {x} hm hf = record {
    at = λ r c e.
        let one = hm.at r e₂ c e in
        bind_step m f r one.next a one.runs ∙ hf.at one.next one.valid one.left;
  }

  pub Fails-first :
      {m : Read A} (f : A → Read B) {e : List ℕ} {x : DecodeError}
      → Fails m e x
      → Fails (m >>= f) e x
  unfolding ◌>>=◌
  Fails-first f h = record { at = λ r c e. rw (h.at r c e) }

  -- The last step of an action consumes nothing.
  pub Reads-bind_last :
      {m : Read A} (f : A → Read B) {e : List ℕ} {a : A} {b : B}
      → Reads m e a
      → Reads (f a) [] b
      → Reads (m >>= f) e b
  Reads-bind_last {m} f {e} {a} {b} hm hf =
      subst (λ l. Reads (m >>= f) l b) (append-nil e) (Reads-bind f hm hf)

  pub Ends-bind :
      {m : Read A} (f : A → Read B) {e₁ e₂ : List ℕ} {a : A} {b : B}
      → Reads m e₁ a
      → Ends (f a) e₂ b
      → Ends (m >>= f) (e₁ ++ e₂) b
  Ends-bind {m} f {e₁} {e₂} {a} {b} hm hf = record {
    at = λ r c e.
        let one = hm.at r e₂ c e in
        let (next, runs) = hf.at one.next one.valid one.left in
        (next, bind_step m f r one.next a one.runs ∙ runs);
  }

  -- The last field before an action that takes no byte.
  pub Ends-last :
      {m : Read A} (f : A → Read B) {e : List ℕ} {a : A} {b : B}
      → Reads m e a
      → Ends (f a) [] b
      → Ends (m >>= f) e b
  Ends-last {m} f {e} {a} {b} hm hf =
      subst (λ l. Ends (m >>= f) l b) (append-nil e) (Ends-bind f hm hf)

module _ {ℓ κ} {A : Type ℓ} {B : Type κ} where
  -- An action that ends the message, and what is built from its result.
  pub Ends-map :
      {m : Read A} (g : A → B) {e : List ℕ} {a : A}
      → Ends m e a
      → Ends (m >>= λ x. pure (g x)) e (g a)
  unfolding pure
  Ends-map {m} g {e} {a} h = record {
    at = λ r c p.
        let (next, runs) = h.at r c p in (next, bind_step m (λ x. pure (g x)) r next a runs);
  }

module _ {κ} {B : Type κ} where
  pub Reads-remaining :
      (f : List ℕ → Read B) {e : List ℕ} {b : B}
      → ((rest : List ℕ) → Reads (f (e ++ rest)) e b)
      → Reads (remaining >>= f) e b
  unfolding remaining
  Reads-remaining f {e} {b} h = record {
    at = λ r rest c p.
        let seen = (h rest).at r rest c p in
        record {
          next = seen.next;
          runs =
              bind_step remaining f r r (e ++ rest) (ap (λ (l : List ℕ). ok (l, r)) p) ∙ seen.runs;
          left = seen.left;
          valid = seen.valid;
        };
  }

  pub Ends-remaining :
      (f : List ℕ → Read B) {e : List ℕ} {b : B} → Ends (f e) e b → Ends (remaining >>= f) e b
  unfolding remaining
  Ends-remaining f {e} {b} h = record {
    at = λ r c p.
        let (next, runs) = h.at r c p in
        (next, bind_step remaining f r r e (ap (λ (l : List ℕ). ok (l, r)) p) ∙ runs);
  }

  pub Fails-remaining :
      (f : List ℕ → Read B) {e : List ℕ} {x : DecodeError}
      → Fails (f e) e x
      → Fails (remaining >>= f) e x
  unfolding remaining
  Fails-remaining f {e} {x} h = record {
    at = λ r c p. bind_step remaining f r r e (ap (λ (l : List ℕ). ok (l, r)) p) ∙ h.at r c p;
  }

  -- Whatever is left is skipped.
  pub Ends-skip :
      (f : Unit {0} → Read B) {e : List ℕ} {b : B}
      → Ends (f tt) [] b
      → Ends (skip_unknown_fields >>= f) e b
  unfolding skip_unknown_fields ◌>>=◌ rest_of
  Ends-skip f {e} {b} h = record {
    at = λ r c p.
        h.at (record r { pos = length r.bytes }) (record { within = omega arith; fits = c.fits })
          (drop-length r.bytes);
  }

  pub Ends-finish : (f : Unit {0} → Read B) {b : B} → Ends (f tt) [] b → Ends (finish >>= f) [] b
  Ends-finish f {b} h = record {
    at = λ r c p.
        let (next, runs) = h.at r c p in
        (next, bind_step finish f r r tt (finish_runs r c p) ∙ runs);
  }

  pub Fails-finish :
      (f : Unit {0} → Read B) (y : ℕ) (ys : List ℕ) → Fails (finish >>= f) (y ∷ ys) past_last_field
  unfolding ◌>>=◌
  Fails-finish f y ys = record { at = λ r c p. rw (finish_refuses r y ys c p) }
