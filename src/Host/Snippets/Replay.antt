-- ===== src/Host/Snippets/Replay.antt =====
-- What compiling does to the replay table.
use kobako.Common.{
  ℕ, suc, ◌≤◌, ◌≡◌, refl, Bool, false, Option, none, some, List, [], ◌∷◌, arith, length, any, Apart,
  All, Bool-cases, inl, inr,
}
use kobako.Transport.Preamble.Bodies.{Snippet, source, bytecode, Snippets}
use kobako.Host.Snippets.{is_source, named, replace, compile}

-- Whether the later of two entries takes the earlier one's name.
abbrev pub same_name : Snippet → Snippet → Bool
same_name e (source name body) = named name e
same_name e (bytecode body) = false

-- The number of entries still to compile.
abbrev pub sources : List Snippet → ℕ
sources [] = 0
sources (source name body ∷ es) = suc (sources es)
sources (bytecode body ∷ es) = sources es

-- What a table has become once bodies were compiled for it: each source entry, in order, the bytecode
-- of the next body, and each bytecode entry itself.
abbrev pub Compiled : List Snippet → List (List ℕ) → List Snippet → Type 0
Compiled [] bodies [] = Unit {0}
Compiled (source name body ∷ es) (compiled ∷ bodies) (e ∷ es') =
    (e ≡ bytecode compiled) × Compiled es bodies es'
Compiled (bytecode body ∷ es) bodies (e ∷ es') = (e ≡ bytecode body) × Compiled es bodies es'
Compiled _ _ _ = ⊥

replace-Compiled :
    (es : List Snippet) (bodies : List (List ℕ))
    → sources es ≤ length bodies
    → Compiled es bodies (replace es bodies)
replace-Compiled [] bodies h = tt
replace-Compiled (bytecode body ∷ es) bodies h = (refl, replace-Compiled es bodies h)
replace-Compiled (source name body ∷ es) [] h = absurd (omega arith)
replace-Compiled (source name body ∷ es) (compiled ∷ bodies) h =
    (refl, replace-Compiled es bodies (omega arith))

-- A table without sources stays as it is.
Compiled-refl :
    (es : List Snippet) (bodies : List (List ℕ)) → any is_source es ≡ false → Compiled es bodies es
Compiled-refl [] bodies h = tt
Compiled-refl (source name body ∷ es) bodies h = cc
Compiled-refl (bytecode body ∷ es) bodies h = (refl, Compiled-refl es bodies h)

pub any-replace :
    (es : List Snippet) (bodies : List (List ℕ))
    → sources es ≤ length bodies
    → any is_source (replace es bodies) ≡ false
any-replace [] bodies h = refl
any-replace (bytecode body ∷ es) bodies h = any-replace es bodies h
any-replace (source name body ∷ es) [] h = absurd (omega arith)
any-replace (source name body ∷ es) (compiled ∷ bodies) h = any-replace es bodies (omega arith)

module _ (x : Snippet) where
  All-replace :
      (es : List Snippet) (bodies : List (List ℕ))
      → All (λ y. same_name x y ≡ false) es
      → All (λ y. same_name x y ≡ false) (replace es bodies)
  All-replace [] bodies h = tt
  All-replace (bytecode body ∷ es) bodies (h, hs) = (refl, All-replace es bodies hs)
  All-replace (source name body ∷ es) [] h = h
  All-replace (source name body ∷ es) (compiled ∷ bodies) (h, hs) = (refl, All-replace es bodies hs)

All-bytecode :
    (body : List ℕ) (es : List Snippet) → All (λ y. same_name (bytecode body) y ≡ false) es
All-bytecode body [] = tt
All-bytecode body (source name b ∷ es) = (refl, All-bytecode body es)
All-bytecode body (bytecode b ∷ es) = (refl, All-bytecode body es)

Apart-replace :
    (es : List Snippet) (bodies : List (List ℕ))
    → Apart same_name es
    → Apart same_name (replace es bodies)
Apart-replace [] bodies h = tt
Apart-replace (bytecode body ∷ es) bodies (h, hs) =
    (All-replace (bytecode body) es bodies h, Apart-replace es bodies hs)
Apart-replace (source name body ∷ es) [] h = h
Apart-replace (source name body ∷ es) (compiled ∷ bodies) (h, hs) =
    (All-bytecode compiled (replace es bodies), Apart-replace es bodies hs)

pub Apart-compile :
    (answer : Option (List (List ℕ))) (t : Snippets)
    → Apart same_name t.entries
    → Apart same_name (compile answer t).entries
unfolding compile
Apart-compile none t h = elim (Bool-cases (any is_source t.entries)) [
  | inl e ↦ rw e h
  | inr e ↦ rw e h
]
Apart-compile (some bodies) t h = elim (Bool-cases (any is_source t.entries)) [
  | inl e ↦ rw e (Apart-replace t.entries bodies h)
  | inr e ↦ rw e h
]

-- Where the runtime answers a body for every source, compiling puts the bytecode of the i-th body in
-- the place of the i-th source, keeps every bytecode entry in its place, and adds and drops none; and
-- compiling again changes nothing, whatever is answered then.
pub compile-settled :
    (t : Snippets) (bodies : List (List ℕ)) (again : Option (List (List ℕ)))
    → sources t.entries ≤ length bodies
    → Compiled t.entries bodies (compile (some bodies) t).entries
      × (compile again (compile (some bodies) t) ≡ compile (some bodies) t)
unfolding compile
compile-settled t bodies again h = elim (Bool-cases (any is_source t.entries)) [
  | inl e ↦ rw (e, any-replace t.entries bodies h) (replace-Compiled t.entries bodies h, refl)
  | inr e ↦ rw (e, e) (Compiled-refl t.entries bodies e, refl)
]
