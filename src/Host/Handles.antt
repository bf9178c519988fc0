-- ===== src/Host/Handles.antt =====
-- crates/kobako/src/handles.rs: the capability Handles of one invocation. The objects are an
-- arbitrary type, and the mutex is held for one whole call.
pub mod Ids
use kobako.Common.{
  ℕ, ◌+◌, ◌-◌, ◌%◌, ◌^◌, Option, none, some, List, [], ◌∷◌, ◌++◌, length, get_elem?, leb, ◌==◌,
  codes, if◌then◌else◌, Result, ok, err,
}
use kobako.Transport.Fault.{Fault, internal}

abbrev pub max_handle_id : ℕ
max_handle_id = 0x7fff_ffff

-- `format!` with the limit put in
abbrev pub out_of_handles : List ℕ
out_of_handles =
    codes
      "Out of handle allocations: too many host objects were referenced in a single invocation (limit 2147483647)"

pub record HandleTable {ℓ} (A : Type ℓ) : Type ℓ where
  pub entries : List A

module _ {ℓ} {A : Type ℓ} where
  unfoldable pub alloc : A → HandleTable A → Result (ℕ × HandleTable A) (List ℕ)
  alloc object t =
      if leb max_handle_id (length t.entries % 2 ^ 32)
      then err out_of_handles
      else (let entries = t.entries ++ object ∷ [] in
          ok (length entries % 2 ^ 32, record { entries = entries }))

  unfoldable pub get : HandleTable A → ℕ → Option A
  get t id = if id == 0 then none else get_elem? t.entries (id - 1)

  -- `Handles::alloc`: the refusal is an internal Fault.
  unfoldable pub alloc_handle : A → HandleTable A → Result (ℕ × HandleTable A) Fault
  unfolding alloc
  alloc_handle object t = elim (alloc object t) [
    | ok r ↦ ok r
    | err message ↦ err (record { kind = internal; message = message })
  ]
