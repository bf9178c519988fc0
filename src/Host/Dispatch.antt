-- ===== src/Host/Dispatch.antt =====
-- crates/kobako/src/dispatch.rs: the handler that answers the guest's Calls over a Catalog and the
-- Handles of the invocation.
pub mod Breaks
pub mod Held
use kobako.Common.{
  ℕ, ◌≡◌, refl, Bool, true, false, Option, none, some, List, [], ◌∷◌, ◌++◌, codes, if◌then◌else◌,
  Result, ok, err, ok_or,
}
use kobako.Transport.Call.{Call, Target, path, handle}
use kobako.Transport.Fault.{Fault, undefined}
use kobako.Transport.Reply
use kobako.Transport.Reply.{Reply, fault, break}
use kobako.Host.Catalog.{Catalog, find, lookup}
use kobako.Host.Handles.{HandleTable, get, alloc_handle}
use kobako.Host.Yielder.{
  YieldError, RawYielder, Yielder, call_payload, Running, finished, calling, allocating, resolving,
  Receivers,
}

-- The Handle table is shared with the invocation and stands in the state.
pub record CatalogHandler (A : Type 0) : Type 0 where
  pub catalog : Catalog A
  pub resolved : List (List ℕ × A)

-- What a Call changes: the engine's side, with the mark of a break, and the Handles.
pub record Frame (Y A : Type 0) : Type 0 where
  pub yielder : Yielder Y
  pub table : HandleTable A

abbrev pub undefined_fault : List ℕ → Fault
undefined_fault message = record { kind = undefined; message = message }

-- The state in which a receiver starts.
abbrev pub lent : {Y A : Type 0} → Y → HandleTable A → Frame Y A
lent y t = record { yielder = record { raw = y; broken = false }; table = t }

-- The engine while a receiver's block runs: how it answers a yield, and the objects that the Calls
-- nested in the block bind meanwhile, in their order, since they share the Handle table. Both may turn
-- on the Handles bound so far.
pub record Nesting (Y A : Type 0) : Type 0 where
  pub yielder : HandleTable A → RawYielder Y
  pub bound : HandleTable A → List ℕ → Y → List A

-- `or_else`
abbrev pub or_lookup : {A : Type 0} → Option A → Option A → Option A
or_lookup (some a) other = some a
or_lookup none other = other

-- `Handles::alloc` on the table of the state
abbrev pub bound_in :
    {A : Type 0} → Result (ℕ × HandleTable A) Fault → HandleTable A → Result ℕ Fault × HandleTable A
bound_in (ok (id, t)) old = (ok id, t)
bound_in (err e) old = (err e, old)

-- The receiver's end and whether a break crossed it.
abbrev pub reply_of : Bool → Result (List ℕ) Fault → Reply
reply_of true result = break
reply_of false (ok body) = Reply.ok body
reply_of false (err e) = fault e

-- `Handles::alloc` of one object after the other
unfoldable pub bind_each : {A : Type 0} → List A → HandleTable A → HandleTable A
unfolding alloc_handle
bind_each [] t = t
bind_each (object ∷ objects) t = bind_each objects (bound_in (alloc_handle object t) t).1

-- A receiver with the block and the Handles.
module _ {Y A : Type 0} (raw : Nesting Y A) where
  -- The state in which a receiver goes on after a yield.
  abbrev pub yielded : List ℕ → Frame Y A → Result (List ℕ) YieldError × Yielder Y → Frame Y A
  yielded args f (answer, y) = record {
    yielder = y;
    table = bind_each (raw.bound f.table args f.yielder.raw) f.table;
  }

  unfoldable pub run : {b : Bool} → Running A b → Frame Y A → Result (List ℕ) Fault × Frame Y A
  unfolding call_payload alloc_handle get bind_each
  run (finished result) f = (result, f)
  run (calling given args next) f =
      let arm = call_payload (raw.yielder f.table) args f.yielder in
      run (next arm.0) (yielded args f arm)
  run (allocating object next) f =
      let (id, t) = bound_in (alloc_handle object f.table) f.table in
      run (next id) (record f { table = t })
  run (resolving id next) f = run (next (get f.table id)) f

-- `display` is the `Display` of a u32.
module _ {A : Type 0} (display : ℕ → List ℕ) where
  unfoldable pub resolve_target : CatalogHandler A → Target → HandleTable A → Result A Fault
  unfolding lookup get
  resolve_target h (path p) t =
      ok_or (or_lookup (find p h.resolved) (lookup p h.catalog))
        (undefined_fault (codes "unknown constant " ++ p))
  resolve_target h (handle id) t =
      ok_or (get t id) (undefined_fault (codes "unknown Handle id: " ++ display id))

module _ {Y A : Type 0} (raw : Nesting Y A) (receivers : Receivers A) where
  -- The lines of `answer` behind the test of the method.
  unfoldable pub call_object : A → Call → Y → HandleTable A → Reply × Frame Y A
  unfolding run
  call_object object c y t =
      let (result, f) =
        run raw (receivers.call object c.method c.payload c.block_given) (lent y t) in
      (reply_of f.yielder.broken result, f)

  module _ (display : ℕ → List ℕ) where
    unfoldable pub answer :
        CatalogHandler A → Call → Y → HandleTable A → Reply × (Y × HandleTable A)
    unfolding resolve_target call_object
    answer h c y t = elim (resolve_target display h c.target t) [
      | err e ↦ (fault e, (y, t))
      | ok object ↦
          if receivers.respond_to_guest object c.method
          then (let (reply, f) = call_object object c y t in (reply, (f.yielder.raw, f.table)))
          else (
            fault (
                undefined_fault
                  (codes "method :" ++ c.method ++ codes " is not exposed to the guest")),
            (y, t),
          )
    ]

    -- `CatalogHandler::dispatch`
    unfoldable pub dispatch :
        CatalogHandler A → Call → Y → HandleTable A → Option Reply × (Y × HandleTable A)
    unfolding answer
    dispatch h c y t = let (reply, after) = answer h c y t in (some reply, after)
