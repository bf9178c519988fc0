-- ===== src/Vfs/Actions/Alike.antt =====
-- Two actions that do the same, with a property of what they answer.
use kobako.Common.{Bool, true, false, if◌then◌else◌, ◌≡◌, refl, ◌∙◌, ap}
use kobako.Security.Files.{FilesystemError}
use kobako.Vfs.Actions.{Answer, answered, refused, unfinished, Act, pure, fail, on_answer, ◌>>=◌}

abbrev pub Yields {ℓ κ} : {A : Type ℓ} {C : Type κ} → (A → Type 0) → Answer A C → Type 0
Yields Q (answered a c) = Q a
Yields Q _ = Unit

abbrev pub Any {ℓ} : {A : Type ℓ} → A → Type 0
Any a = Unit

pub record Alike {ℓ κ} {A : Type ℓ} {C : Type κ} (Q : A → Type 0) (m n : Act C A)
    : Type (ℓ ⊔ κ) where
  pub same : (c : C) → m c ≡ n c
  pub yields : (c : C) → Yields Q (m c)

module _ {κ} {C : Type κ} where
  module _ {ℓ} {A : Type ℓ} where
    pub Alike-pure : {Q : A → Type 0} (a : A) → Q a → Alike {C = C} Q (pure a) (pure a)
    Alike-pure a q = record { same = λ c. refl; yields = λ c. q }

    pub Alike-fail : {Q : A → Type 0} (e : FilesystemError) → Alike {C = C} Q (fail e) (fail e)
    Alike-fail e = record { same = λ c. refl; yields = λ c. tt }

    Any-Yields : (r : Answer A C) → Yields Any r
    Any-Yields (answered a c) = tt
    Any-Yields (refused e c) = tt
    Any-Yields unfinished = tt

    pub Alike-refl : (m : Act C A) → Alike Any m m
    Alike-refl m = record { same = λ c. refl; yields = λ c. Any-Yields (m c) }

    pub Alike-same : (m n : Act C A) → ((c : C) → m c ≡ n c) → Alike Any m n
    Alike-same m n h = record { same = h; yields = λ c. Any-Yields (m c) }

    Yields-given : {Q : A → Type 0} → ((a : A) → Q a) → (r : Answer A C) → Yields Q r
    Yields-given h (answered a c) = h a
    Yields-given h (refused e c) = tt
    Yields-given h unfinished = tt

    pub Alike-given : {Q : A → Type 0} (m : Act C A) → ((a : A) → Q a) → Alike Q m m
    Alike-given m h = record { same = λ c. refl; yields = λ c. Yields-given h (m c) }

    pub Alike-if :
        {Q : A → Type 0} (b : Bool) {m n j k : Act C A}
        → Alike Q m n
        → Alike Q j k
        → Alike Q (if b then m else j) (if b then n else k)
    Alike-if true h g = h
    Alike-if false h g = g

  module _ {ℓ μ} {A : Type ℓ} {B : Type μ} where
    same_on :
        (Q : A → Type 0) (R : B → Type 0) (j k : A → Act C B)
        → ((a : A) → Q a → Alike R (j a) (k a))
        → (r : Answer A C) → Yields Q r
        → (on_answer j r ≡ on_answer k r) × Yields R (on_answer j r)
    same_on Q R j k h (answered a c) q = ((h a q).same c, (h a q).yields c)
    same_on Q R j k h (refused e c) q = (refl, tt)
    same_on Q R j k h unfinished q = (refl, tt)

    pub and_Alike :
        {Q : A → Type 0} {R : B → Type 0} {m n : Act C A} {j k : A → Act C B}
        → Alike Q m n
        → ((a : A) → Q a → Alike R (j a) (k a))
        → Alike R (m >>= j) (n >>= k)
    and_Alike {m} {n} {j} {k} hm h = record {
      same = λ c. (same_on _ _ j k h (m c) (hm.yields c)).0 ∙ ap (on_answer k) (hm.same c);
      yields = λ c. (same_on _ _ j k h (m c) (hm.yields c)).1;
    }
