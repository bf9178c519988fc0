-- ===== src/Host/Runs.antt =====
-- Runs of the host's registries on small inputs.
mod Dispatches
use kobako.Common.{
  ℕ, zero, suc, ◌≡◌, ◌≢◌, refl, ap, arith, none, some, List, [], ◌∷◌, length, codes, ok, err,
}
use kobako.Transport.Fault.{internal}
use kobako.Transport.Preamble.Bodies.{Snippets, source, bytecode}
use kobako.Host.Handles.{HandleTable, max_handle_id, out_of_handles, alloc_handle, get, alloc}
use kobako.Host.Handles.Ids.{Issued, alloc-Issued, alloc_handle-full, alloc_handle-others}
use kobako.Host.Names.{split}
use kobako.Host.Snippets.{Error, conflicting, reserved, not_a_path, register_source}
use kobako.Host.Snippets
use kobako.Host.Snippets.Replay.{Compiled, compile-settled}
use kobako.Host.Catalog.{Catalog, default, bind, lookup}
use kobako.Host.Catalog.Setup.{IsCatalog, Filled, start, bound, preloaded, Filled-IsCatalog}
use kobako.Host.Catalog.Lookup.{lookup-bind, lookup-bind_other, lookup-Filled}

abbrev two_objects : HandleTable ℕ
two_objects = record { entries = 70 ∷ 80 ∷ [] }

third_id : alloc_handle 90 two_objects ≡ ok (3, record { entries = 70 ∷ 80 ∷ 90 ∷ [] })
unfolding alloc_handle alloc
third_id = refl

alloc-Issued_example :
    (id : ℕ) × (t' : HandleTable ℕ) × (alloc_handle 90 two_objects ≡ ok (id, t'))
    × Issued 90 two_objects id t'
alloc-Issued_example = alloc-Issued 90 two_objects (omega arith)

repeat : ℕ → List ℕ
repeat zero = []
repeat (suc n) = 7 ∷ repeat n

length-repeat : (n : ℕ) → length (repeat n) ≡ n
unfolding repeat
length-repeat zero = refl
length-repeat (suc n) = ap suc (length-repeat n)

abbrev full_table : HandleTable ℕ
full_table = record { entries = repeat max_handle_id }

abbrev kv : List ℕ
kv = codes "MyService::KV"

abbrev one_service : Catalog ℕ
one_service = record { bindings = (kv, 1) ∷ []; snippets = record { entries = [] }; flags = [] }

split_kv : split kv ≡ codes "MyService" ∷ codes "KV" ∷ []
unfolding split
split_kv = refl

kv_is_bound : bind kv 1 default ≡ ok one_service
unfolding bind
kv_is_bound = refl

twice_is_refused : bind kv 2 one_service ≡ err (conflicting kv)
unfolding bind
twice_is_refused = refl

namespace_is_refused :
    bind (codes "MyService") 2 one_service ≡ err (conflicting (codes "MyService"))
unfolding bind
namespace_is_refused = refl

kobako_is_refused : bind (codes "Kobako::IO") 2 one_service ≡ err (reserved (codes "Kobako::IO"))
unfolding bind
kobako_is_refused = refl

lower_is_refused : bind (codes "my::KV") 2 one_service ≡ err (not_a_path (codes "my::KV"))
unfolding bind
lower_is_refused = refl

short_is_bound :
    bind (codes "File") 5 one_service
    ≡ ok (record one_service { bindings = (kv, 1) ∷ (codes "File", 5) ∷ [] })
unfolding bind
short_is_bound = refl

other_path : codes "MyService::KV" ≢ codes "File"
other_path e = cc

abbrev helper : Snippets
helper = record { entries = source (codes "Helper") (codes "X = 1") ∷ [] }

helper_is_taken : register_source (codes "Helper") (codes "X = 1") one_service.snippets ≡ ok helper
unfolding register_source
helper_is_taken = refl

abbrev with_helper : Catalog ℕ
with_helper = record one_service { snippets = helper }

one_service-Filled : Filled one_service
one_service-Filled = bound kv 1 start kv_is_bound

with_helper-Filled : Filled with_helper
with_helper-Filled = preloaded (codes "Helper") (codes "X = 1") one_service-Filled helper_is_taken

lookup-Filled_example : lookup kv with_helper ≡ some 1
lookup-Filled_example = lookup-Filled with_helper 0 kv 1 with_helper-Filled refl

Filled-IsCatalog_example : IsCatalog with_helper
Filled-IsCatalog_example = Filled-IsCatalog with_helper with_helper-Filled

abbrev mixed : Snippets
mixed = record { entries = bytecode (1 ∷ []) ∷ source (codes "Helper") (codes "X = 1") ∷ [] }

compile-settled_example :
    Compiled mixed.entries ((2 ∷ []) ∷ []) (Snippets.compile (some ((2 ∷ []) ∷ [])) mixed).entries
    × (Snippets.compile none (Snippets.compile (some ((2 ∷ []) ∷ [])) mixed)
        ≡ Snippets.compile (some ((2 ∷ []) ∷ [])) mixed)
compile-settled_example = compile-settled mixed ((2 ∷ []) ∷ []) none (omega arith)
