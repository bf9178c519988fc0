-- ===== src/Endpoint/Instance.antt =====
-- crates/kobako-runtime/src/endpoint.rs: the instance as the upcalls and the invocation drive it, and
-- crates/kobako-runtime/src/dispatch.rs and yielder.rs: what answers its Calls.
use kobako.Common.{ℕ, ◌<◌, ◌^◌, ◌≡◌, Bool, false, Option, none, some, List, Result, ok}
use kobako.Transport.Call.{Call}
use kobako.Transport.Reply.{Reply}
use kobako.Transport.YieldReply.{YieldReply}
use kobako.Endpoint.Buffer.{GuestInstance}
use kobako.Endpoint.Buffer.RoundTrip.{IsGuest}
use kobako.Endpoint.Errors.{Trap}

-- What a handler does with the Yielder it is lent: it answers, or it yields to the block of a frame
-- and goes on with what that answers.
pub data Answering : Type 0 where
  done : Option Reply → Answering
  yielding : ℕ → List ℕ → (Result YieldReply Trap → Answering) → Answering

-- The methods of `DispatchHandler`, for the handlers `H` that an `Arc` may point to. A handler reads
-- what it keeps for itself off the state `G`; what it changes of that is with the handler's own model.
-- The frame is the one that its Yielder tells.
pub record DispatchHandler (G H : Type 0) : Type 0 where
  pub dispatch : H → G → Call → ℕ → Answering
  pub abandoned : H → G → Bool

-- The state of the Calls open on one instance.
pub record Calls (H F : Type 0) : Type 0 where
  pub on_dispatch : Option H
  pub open_count : ℕ
  pub reentry_trap : Option F

-- The methods of `GuestInstance` besides those in `base`; `with_calls` is a write through `calls`, and
-- `display` the `Display` of a fault. An i32 is its 32 bits.
pub record Instance (G H F : Type 0) : Type 0 where
  pub base : GuestInstance G F
  pub handlers : DispatchHandler G H
  pub calls : G → Calls H F
  pub with_calls : Calls H F → G → G
  pub downcall : ℕ → ℕ → G → Option (Result ℕ F) × G
  pub cap_trap : F → Option Trap
  pub display : F → List ℕ

-- The calls and the memory are kept apart, each keeps what is written to it, and the allocator's
-- answer is a u32.
pub record IsInstance {G H F : Type 0} (guest : Instance G H F) : Type 0 where
  pub lawful : IsGuest guest.base
  pub calls-with_calls : (c : Calls H F) (g : G) → guest.calls (guest.with_calls c g) ≡ c
  pub memory-with_calls :
      (c : Calls H F) (g : G) → guest.base.memory (guest.with_calls c g) ≡ guest.base.memory g
  pub calls-store :
      (memory : List ℕ) (g : G) → guest.calls (guest.base.store memory g) ≡ guest.calls g
  pub alloc-u32 :
      (len ptr : ℕ) (g g' : G) → guest.base.alloc len g ≡ (some (ok ptr), g') → ptr < 2 ^ 32

module _ {H F : Type 0} where
  -- `Calls::default`
  abbrev pub no_calls : Calls H F
  no_calls = record { on_dispatch = none; open_count = 0; reentry_trap = none }

  -- `Calls::bind`
  unfoldable pub bind : H → Calls H F → Calls H F
  bind handler c = record c { on_dispatch = some handler }

-- `Calls::abandoned`
unfoldable pub is_abandoned : {G H F : Type 0} → DispatchHandler G H → Calls H F → G → Bool
is_abandoned handlers c g = elim c.on_dispatch [
  | none ↦ false
  | some handler ↦ handlers.abandoned handler g
]
