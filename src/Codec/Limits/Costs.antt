-- ===== src/Codec/Limits/Costs.antt =====
-- What a reader that succeeds has paid out of the budget, with a rule for each way to build one.
use kobako.Common.{
  ℕ, ◌+◌, ◌≡◌, refl, Bool, true, false, Option, none, some, arith, Result, ok, err, if◌then◌else◌,
}
use kobako.Codec.Values.{Error}
use kobako.Codec.Rmp.{ReadsData}
use kobako.Codec.Decoder.{Cursor, Read, pure, fail, ◌>>=◌, and_then, data_of, take_bytes, read_type}

-- What is left of a budget once `n` values are paid; no budget stays none.
abbrev pub Paid : Option ℕ → ℕ → Option ℕ → Type 0
Paid none n none = Unit {0}
Paid none n (some after) = ⊥
Paid (some before) n none = ⊥
Paid (some before) n (some after) = n + after ≡ before

pub Paid-nothing : (b : Option ℕ) → Paid b 0 b
Paid-nothing none = tt
Paid-nothing (some b) = omega arith

pub Paid-both : (b c d : Option ℕ) (m n : ℕ) → Paid b m c → Paid c n d → Paid b (m + n) d
Paid-both none none none m n h k = tt
Paid-both none none (some d) m n h k = k
Paid-both none (some c) d m n h k = absurd h
Paid-both (some b) none d m n h k = absurd h
Paid-both (some b) (some c) none m n h k = k
Paid-both (some b) (some c) (some d) m n h k = omega arith

pub record Bounded {A : Type 0} (m : Read A) (Q : A → ℕ → Type 0) : Type 0 where
  pub at : (c c' : Cursor) (a : A) → m c ≡ ok (a, c') → (n : ℕ) × Paid c.budget n c'.budget × Q a n

module _ {A B : Type 0} where
  pub Bounded-bind :
      (m : Read A) (f : A → Read B) (Q : A → ℕ → Type 0) (R : B → ℕ → Type 0)
      → Bounded m Q
      → ((a : A) (n : ℕ) → Q a n → Bounded (f a) (λ b k. R b (n + k)))
      → Bounded (m >>= f) R
  unfolding ◌>>=◌
  Bounded-bind m f Q R hm hf = record { at = λ c c' b e. split c c' b (m c) refl e }
    where
      split :
          (c c' : Cursor) (b : B) (r : Result (A × Cursor) Error)
          → m c ≡ r
          → and_then r f ≡ ok (b, c')
          → (n : ℕ) × Paid c.budget n c'.budget × R b n
      split c c' b (err x) p e = cc
      split c c' b (ok (a, d)) p e =
          let (n, paid, q) = hm.at c d a p in
          let (k, paid', r) = (hf a n q).at d c' b e in
          (n + k, Paid-both c.budget d.budget c'.budget n k paid paid', r)

module _ {A : Type 0} where
  pub Bounded-pure : (a : A) (Q : A → ℕ → Type 0) → Q a 0 → Bounded (pure a) Q
  Bounded-pure a Q q = record { at = λ c c' b e. done c c' b e }
    where
      done :
          (c c' : Cursor) (b : A)
          → ◌≡◌ {A = Result (A × Cursor) Error} (ok (a, c)) (ok (b, c'))
          → (n : ℕ) × Paid c.budget n c'.budget × Q b n
      done c c' b e =
          let same : a ≡ b = cc in
          let still : c ≡ c' = cc in (0, rw (← still) (Paid-nothing c.budget), rw (← same) q)

  pub Bounded-fail : (x : Error) (Q : A → ℕ → Type 0) → Bounded (fail {A = A} x) Q
  Bounded-fail x Q = record { at = λ c c' a e. absurd (cc e) }

  pub Bounded-if :
      (b : Bool) (m k : Read A) (Q : A → ℕ → Type 0)
      → Bounded m Q
      → Bounded k Q
      → Bounded (if b then m else k) Q
  Bounded-if true m k Q hm hk = hm
  Bounded-if false m k Q hm hk = hk

  -- A reader that leaves the budget alone.
  pub Bounded-free :
      (m : Read A)
      → ((c c' : Cursor) (a : A) → m c ≡ ok (a, c') → c.budget ≡ c'.budget)
      → Bounded m (λ a n. n ≡ 0)
  Bounded-free m h = record {
    at = λ c c' a e. (0, rw (← h c c' a e) (Paid-nothing c.budget), refl);
  }

  pub Bounded-data : (r : ReadsData A) → Bounded (data_of r) (λ a n. n ≡ 0)
  Bounded-data r = Bounded-free (data_of r) (λ c c' a e. ground arith)

pub Bounded-take : (n : ℕ) → Bounded (take_bytes n) (λ bytes k. k ≡ 0)
unfolding take_bytes
Bounded-take n = Bounded-free (take_bytes n) (λ c c' a e. ground arith)

pub Bounded-type : Bounded read_type (λ ty k. k ≡ 0)
unfolding read_type
Bounded-type = Bounded-free read_type (λ c c' a e. ground arith)
