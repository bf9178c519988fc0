-- ===== src/Host/Runs/Dispatches.antt =====
-- Runs of the handler on an object that calls its block and one that binds another.
use kobako.Common.{
  ℕ, suc, ◌≡◌, ◌↔◌, refl, arith, Bool, length, true, false, List, [], ◌∷◌, codes, ok,
}
use kobako.Transport.Call.{Call, Target, path, handle}
use kobako.Transport.Reply.{Reply}
use kobako.Transport.YieldReply.{YieldReply}
use kobako.Host.Handles.{HandleTable, alloc_handle, get}
use kobako.Host.Handles.Ids.{IsTable}
use kobako.Host.Yielder.{
  RawYielder, Running, finished, calling, allocating, Receivers, call_payload,
}
use kobako.Host.Dispatch.{
  CatalogHandler, Nesting, bind_each, resolve_target, call_object, run, answer,
}
use kobako.Host.Catalog.{lookup}
use kobako.Host.Dispatch.Breaks.{yields_break, answer-break_iff}
use kobako.Host.Dispatch.Held.{answer_each, answer_each-held}

data Object : Type 0 where
  caller maker : Object

-- A guest whose block always breaks; the state counts the yields.
abbrev breaking : RawYielder ℕ
breaking = record {
  frame = λ y. 0;
  yield_to_block = λ frame args y. (ok YieldReply.break, suc y);
  debug = λ trap. [];
}

-- Two Calls nested in the block bind an object each.
abbrev nesting : Nesting ℕ Object
nesting = record { yielder = λ t. breaking; bound = λ t args y. caller ∷ caller ∷ [] }

abbrev perform : Object → (block_given : Bool) → Running Object block_given
perform caller true = calling refl [] (λ answer. finished (ok (1 ∷ [])))
perform caller false = finished (ok [])
perform maker block_given = allocating caller (λ id. finished (ok []))

abbrev objects : Receivers Object
objects = record {
  respond_to_guest = λ object method. true;
  call = λ object method payload block_given. perform object block_given;
}

abbrev services : CatalogHandler Object
services = record {
  catalog = record {
    bindings = (codes "C", caller) ∷ [];
    snippets = record { entries = [] };
    flags = [];
  };
  resolved = (codes "M", maker) ∷ [];
}

abbrev call_of : Target → Call
call_of target = record { target = target; method = codes "m"; block_given = true; payload = [] }

abbrev one_handle : HandleTable Object
one_handle = record { entries = caller ∷ [] }

one_handle-IsTable : IsTable one_handle
one_handle-IsTable = record { within = omega arith }

abbrev digits : ℕ → List ℕ
digits n = n ∷ []

block_breaks :
    (answer nesting objects digits services (call_of (path (codes "C"))) 0 one_handle).0
    ≡ Reply.break
unfolding answer call_object run call_payload resolve_target lookup
block_breaks = refl

answer-break_iff_example :
    ((answer nesting objects digits services (call_of (path (codes "C"))) 0 one_handle).0
      ≡ Reply.break)
    ↔ ((object : Object) × (resolve_target digits services (path (codes "C")) one_handle
          ≡ ok object)
        × (true ≡ true)
        × (yields_break nesting objects object (call_of (path (codes "C"))) 0 one_handle ≡ true))
answer-break_iff_example =
    answer-break_iff nesting objects digits services (call_of (path (codes "C"))) 0 one_handle

nested_are_bound :
    length
      (answer nesting objects digits services (call_of (path (codes "C"))) 0 one_handle).1.1.entries
    ≡ 3
unfolding answer call_object run bind_each call_payload resolve_target lookup alloc_handle
nested_are_bound = refl

-- `maker` binds another object in between, and the block's Calls bind two.
answer_each-held_example :
    resolve_target digits services
      (handle 1)
      (answer_each nesting objects digits services
        (call_of (path (codes "M")) ∷ call_of (handle 1) ∷ [])
        0
        one_handle).1
    ≡ ok caller
unfolding resolve_target get
answer_each-held_example =
    answer_each-held nesting objects digits services
      (call_of (path (codes "M")) ∷ call_of (handle 1) ∷ []) 0 one_handle 1 caller
      one_handle-IsTable refl
