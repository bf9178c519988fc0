-- ===== src/Host/Snippets.antt =====
-- crates/kobako/src/snippet.rs: the snippets replayed into every guest, in the order they were
-- registered. What the runtime compiles is an argument.
pub mod Replay
use kobako.Common.{
  ℕ, Bool, true, false, Option, none, some, List, [], ◌∷◌, ◌++◌, any, bytes_eq, if◌then◌else◌,
  Result, ok, err,
}
use kobako.Transport.Preamble.Bodies.{Snippet, source, bytecode, Snippets}
use kobako.Host.Names.{is_constant_name}

-- `Error::Argument`, one constructor for each message the registries put in it
pub data Error : Type 0 where
  not_a_constant : List ℕ → Error
  already_preloaded : List ℕ → Error
  not_a_path : List ℕ → Error
  reserved : List ℕ → Error
  conflicting : List ℕ → Error
  already_set : List ℕ → Error

abbrev pub is_source : Snippet → Bool
is_source (source name body) = true
is_source (bytecode body) = false

abbrev pub named : List ℕ → Snippet → Bool
named name (source taken body) = bytes_eq taken name
named name (bytecode body) = false

unfoldable pub register_source : List ℕ → List ℕ → Snippets → Result Snippets Error
unfolding is_constant_name
register_source name body t =
    if is_constant_name name
    then (if any (named name) t.entries
        then err (already_preloaded name)
        else ok (record { entries = t.entries ++ source name body ∷ [] }))
    else err (not_a_constant name)

unfoldable pub register_binary : List ℕ → Snippets → Snippets
register_binary body t = record { entries = t.entries ++ bytecode body ∷ [] }

-- `sources.zip(bytecodes)` and the assignment to each entry
abbrev pub replace : List Snippet → List (List ℕ) → List Snippet
replace [] bodies = []
replace (bytecode body ∷ entries) bodies = bytecode body ∷ replace entries bodies
replace (source name body ∷ entries) [] = source name body ∷ entries
replace (source name body ∷ entries) (compiled ∷ bodies) =
    bytecode compiled ∷ replace entries bodies

-- `answer` is what the runtime makes of the Preamble.
unfoldable pub compile : Option (List (List ℕ)) → Snippets → Snippets
compile answer t =
    if any is_source t.entries
    then elim answer [ none ↦ t | some bodies ↦ record { entries = replace t.entries bodies } ]
    else t
