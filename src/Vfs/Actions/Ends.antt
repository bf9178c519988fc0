-- ===== src/Vfs/Actions/Ends.antt =====
-- What the steps of an action answered, from what the action answered.
use kobako.Common.{Bool, true, false, Option, none, some, ◌≡◌, refl}
use kobako.Security.Files.{FilesystemError}
use kobako.Vfs.Actions.{Answer, answered, refused, unfinished, Act, found, guard, on_answer, ◌>>=◌}

module _ {A B C : Type 0} where
  pub answered_inv :
      (k : A → Act C B) (r : Answer A C) {b : B} {c' : C}
      → on_answer k r ≡ answered b c'
      → (a : A) × (c : C) × (r ≡ answered a c) × (k a c ≡ answered b c')
  answered_inv k (answered a c) e = (a, c, refl, e)
  answered_inv k (refused e c) p = cc
  answered_inv k unfinished p = cc

  pub found_inv :
      (e : FilesystemError) (k : A → Act C B) (o : Option A) (c : C) {b : B} {c' : C}
      → (found e o >>= k) c ≡ answered b c'
      → (a : A) × (o ≡ some a) × (k a c ≡ answered b c')
  found_inv e k none c p = cc
  found_inv e k (some a) c p = (a, refl, p)

pub guard_inv :
    {B C : Type 0} (e : FilesystemError) (k : Unit {0} → Act C B) (b : Bool) (c : C) {x : B}
    {c' : C}
    → (guard b e >>= k) c ≡ answered x c'
    → (b ≡ true) × (k tt c ≡ answered x c')
guard_inv e k true c p = (refl, p)
guard_inv e k false c p = cc
