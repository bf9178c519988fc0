-- ===== src/Codec/RoundTrip/Reading.antt =====
-- `Reads m e v n`: with a budget that affords `n`, `m` returns `v` for `e` whatever is behind it, and
-- pays `n`.
use kobako.Common.{
  ℕ, ◌+◌, ◌-◌, ◌≤◌, ◌≡◌, refl, sym, ap, ◌∙◌, subst, false, Option, none, some, List, [], ◌++◌,
  append_assoc, arith, length, take-append_left, drop-append_left, length-append, ltb, ok,
}
use kobako.Codec.Rmp.{ReadsData}
use kobako.Codec.Rmp.Laws.{Gives}
use kobako.Codec.Decoder.{Cursor, Read, pure, ◌>>=◌, and_then, answered, data_of, take_bytes}

abbrev pub Affords : Option ℕ → ℕ → Type 0
Affords none n = Unit {0}
Affords (some b) n = n ≤ b

abbrev pub less : Option ℕ → ℕ → Option ℕ
less none n = none
less (some b) n = some (b - n)

less-less : (b : Option ℕ) (m n : ℕ) → less (less b m) n ≡ less b (m + n)
less-less none m n = refl
less-less (some b) m n = ap some (omega arith)

Affords-first : (b : Option ℕ) (m n : ℕ) → Affords b (m + n) → Affords b m
Affords-first none m n h = tt
Affords-first (some b) m n h = omega arith

Affords-then : (b : Option ℕ) (m n : ℕ) → Affords b (m + n) → Affords (less b m) n
Affords-then none m n h = tt
Affords-then (some b) m n h = omega arith

less-nothing : (b : Option ℕ) → less b 0 ≡ b
less-nothing none = refl
less-nothing (some b) = ap some (omega arith)

abbrev pub at_bytes : List ℕ → Option ℕ → Cursor
at_bytes bytes budget = record { bytes = bytes; budget = budget }

pub record Reads {A : Type 0} (m : Read A) (e : List ℕ) (v : A) (n : ℕ) : Type 0 where
  pub at :
      (rest : List ℕ) (b : Option ℕ)
      → Affords b n
      → m (at_bytes (e ++ rest) b) ≡ ok (v, at_bytes rest (less b n))

module _ {A : Type 0} where
  pub Reads-pure : (a : A) → Reads (pure a) [] a 0
  Reads-pure a = record {
    at = λ rest b h. ap (λ c. ok (a, at_bytes rest c)) (sym (less-nothing b));
  }

  pub Reads-free :
      {m : Read A} {e : List ℕ} {a : A}
      → ((rest : List ℕ) (b : Option ℕ) → m (at_bytes (e ++ rest) b) ≡ ok (a, at_bytes rest b))
      → Reads m e a 0
  Reads-free {m} {e} {a} h = record {
    at = λ rest b k. h rest b ∙ ap (λ c. ok (a, at_bytes rest c)) (sym (less-nothing b));
  }

  pub Reads-data : {r : ReadsData A} {dt : List ℕ} {a : A} → Gives r dt a → Reads (data_of r) dt a 0
  Reads-data {r} {dt} {a} g =
      Reads-free (λ rest b. ap (answered (at_bytes (dt ++ rest) b)) (g.gives rest))

  pub Reads-eq :
      {m k : Read A} {e e' : List ℕ} {a a' : A} {n n' : ℕ}
      → m ≡ k
      → e ≡ e'
      → a ≡ a'
      → n ≡ n'
      → Reads m e a n
      → Reads k e' a' n'
  Reads-eq {m} {k} {e} {e'} {a} {a'} {n} {n'} p q s t h =
      subst (λ x. Reads x e' a' n') p
        (subst (λ x. Reads m x a' n') q
          (subst (λ x. Reads m e x n') s (subst (λ x. Reads m e a x) t h)))

module _ {A B : Type 0} where
  pub Reads-bind :
      {m : Read A} (f : A → Read B) {e₁ e₂ : List ℕ} {a : A} {b : B} {n₁ n₂ : ℕ}
      → Reads m e₁ a n₁
      → Reads (f a) e₂ b n₂
      → Reads (m >>= f) (e₁ ++ e₂) b (n₁ + n₂)
  unfolding ◌>>=◌
  Reads-bind {m} f {e₁} {e₂} {a} {b} {n₁} {n₂} hm hf = record {
    at = λ rest c h.
        ap (λ s. and_then (m (at_bytes s c)) f) (append_assoc e₁ e₂ rest)
        ∙ ap (λ r. and_then r f) (hm.at (e₂ ++ rest) c (Affords-first c n₁ n₂ h))
        ∙ hf.at rest (less c n₁) (Affords-then c n₁ n₂ h)
        ∙ ap (λ s. ok (b, at_bytes rest s)) (less-less c n₁ n₂);
  }

pub Reads-take : (s : List ℕ) → Reads (take_bytes (length s)) s s 0
unfolding take_bytes
Reads-take s =
    Reads-free (λ rest b. rw (enough rest, take-append_left s rest, drop-append_left s rest))
  where
    enough : (rest : List ℕ) → ltb (length (s ++ rest)) (length s) ≡ false
    enough rest = ground (arith, length-append s rest)
