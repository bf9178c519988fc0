-- ===== src/Vfs/Actions/Rules.antt =====
-- What an action ensures, from what its steps ensure.
use kobako.Common.{Bool, true, false, if◌then◌else◌}
use kobako.Security.Files.{FilesystemError}
use kobako.Vfs.Actions.{
  Answer, answered, refused, unfinished, Act, pure, on_answer, ◌>>=◌, Meets, Ensures,
}

module _ {κ} {C : Type κ} where
  module _ {ℓ} {A : Type ℓ} where
    pub meets_weaken :
        (X : FilesystemError → C → Type 0) (Q R : A → C → Type 0)
        → ((a : A) (c : C) → Q a c → R a c)
        → (r : Answer A C) → Meets Q X r
        → Meets R X r
    meets_weaken X Q R h (answered a c) m = h a c m
    meets_weaken X Q R h (refused e c) m = m
    meets_weaken X Q R h unfinished m = m

    pub ensures_weaken :
        {X : FilesystemError → C → Type 0} {P : C → Type 0} {Q R : A → C → Type 0} {m : Act C A}
        → Ensures P Q X m
        → ((a : A) (c : C) → Q a c → R a c)
        → Ensures P R X m
    ensures_weaken {m} hm h = record { meets = λ c p. meets_weaken _ _ _ h (m c) (hm.meets c p) }

    pub ensures_value :
        {X : FilesystemError → C → Type 0} {P : C → Type 0} {Q : A → C → Type 0} (a : A)
        → ((c : C) → P c → Q a c)
        → Ensures P Q X (pure a)
    ensures_value a h = record { meets = h }

    -- A fact that does not depend on the state.
    pub ensures_given :
        {F : Type 0} {X : FilesystemError → C → Type 0} {P : C → Type 0} {Q : A → C → Type 0}
        {m : Act C A}
        → (F → Ensures P Q X m)
        → Ensures (λ c. P c × F) Q X m
    ensures_given h = record { meets = λ c k. (h (k.1)).meets c (k.0) }

    pub ensures_if :
        {X : FilesystemError → C → Type 0} {P : C → Type 0} {Q : A → C → Type 0} (b : Bool)
        {m n : Act C A}
        → Ensures P Q X m
        → Ensures P Q X n
        → Ensures P Q X (if b then m else n)
    ensures_if true hm hn = hm
    ensures_if false hm hn = hn

  module _ {ℓ μ} {A : Type ℓ} {B : Type μ} where
    meets_on :
        (X : FilesystemError → C → Type 0) (Q : A → C → Type 0) (R : B → C → Type 0)
        (k : A → Act C B)
        → ((a : A) → Ensures (Q a) R X (k a))
        → (r : Answer A C) → Meets Q X r
        → Meets R X (on_answer k r)
    meets_on X Q R k h (answered a c) m = (h a).meets c m
    meets_on X Q R k h (refused e c) m = m
    meets_on X Q R k h unfinished m = m

    pub and_then :
        {X : FilesystemError → C → Type 0} {P : C → Type 0} {Q : A → C → Type 0}
        {R : B → C → Type 0} {m : Act C A} {k : A → Act C B}
        → Ensures P Q X m
        → ((a : A) → Ensures (Q a) R X (k a))
        → Ensures P R X (m >>= k)
    and_then {m} {k} hm hk = record { meets = λ c p. meets_on _ _ _ k hk (m c) (hm.meets c p) }
