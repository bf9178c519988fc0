-- ===== src/Host/Yielder.antt =====
-- crates/kobako/src/yielder.rs and receiver.rs: the block that a receiver is lent, and what a receiver
-- does with it. The engine's side of the yield is a parameter, as are the objects.
use kobako.Common.{ℕ, Bool, true, ◌≡◌, Option, List, ◌++◌, codes, Result, ok, err}
use kobako.Transport.Fault.{Fault, block, runtime, internal}
use kobako.Transport.YieldReply.{YieldReply, break, error, unsupported}
use kobako.Endpoint.Errors.{Trap}

pub data YieldError : Type 0 where
  break_error : YieldError
  failure : List ℕ → List ℕ → YieldError
  aborted refused unsupported_error : List ℕ → YieldError

-- `Display` of a YieldError
abbrev pub text_of : YieldError → List ℕ
text_of break_error = codes "guest block break crossed the receiver"
text_of (failure name message) = name ++ codes ": " ++ message
text_of (aborted message) = message
text_of (refused message) = message
text_of (unsupported_error message) = message

-- `From<YieldError> for Fault`
unfoldable pub fault_of : YieldError → Fault
fault_of (failure name message) = record { kind = block; message = text_of (failure name message) }
fault_of (refused message) = record { kind = runtime; message = message }
fault_of break_error = record { kind = internal; message = text_of break_error }
fault_of (aborted message) = record { kind = internal; message = message }
fault_of (unsupported_error message) = record { kind = internal; message = message }

-- A `RawYielder` with its state, and the `Debug` of a Trap.
pub record RawYielder (Y : Type 0) : Type 0 where
  pub frame : Y → ℕ
  pub yield_to_block : ℕ → List ℕ → Y → Result YieldReply Trap × Y
  pub debug : Trap → List ℕ

pub record Yielder (Y : Type 0) : Type 0 where
  pub raw : Y
  pub broken : Bool

-- The arm of the reply, with whether it breaks.
abbrev pub arm_of :
    {Y : Type 0}
    → (Trap → List ℕ)
    → Result YieldReply Trap × Y
    → Bool
    → Result (List ℕ) YieldError × Yielder Y
arm_of debug (ok (YieldReply.ok body), y) broken = (ok body, record { raw = y; broken = broken })
arm_of debug (ok break, y) broken = (err break_error, record { raw = y; broken = true })
arm_of debug (ok (error e), y) broken =
    (err (failure e.name e.message), record { raw = y; broken = broken })
arm_of debug (ok (unsupported refusal), y) broken = (
  err (unsupported_error (codes "the Sandbox runtime does not support yielding to a block")),
  record { raw = y; broken = broken },
)
arm_of debug (err trap, y) broken = (
  err (aborted (codes "yield re-entry trapped: " ++ debug trap)),
  record { raw = y; broken = broken },
)

unfoldable pub call_payload :
    {Y : Type 0} → RawYielder Y → List ℕ → Yielder Y → Result (List ℕ) YieldError × Yielder Y
call_payload raw args b =
    arm_of raw.debug (raw.yield_to_block (raw.frame b.raw) args b.raw) b.broken

-- What a receiver does with the block and the Handles it is lent: it ends, calls the block where there
-- is one, binds an object, or looks one up.
pub data Running (A : Type 0) (block_given : Bool) : Type 0 where
  finished : Result (List ℕ) Fault → Running A block_given
  calling :
      block_given ≡ true
      → List ℕ
      → (Result (List ℕ) YieldError → Running A block_given)
      → Running A block_given
  allocating : A → (Result ℕ Fault → Running A block_given) → Running A block_given
  resolving : ℕ → (Option A → Running A block_given) → Running A block_given

-- The methods of `Receiver`, for the objects `A`.
pub record Receivers (A : Type 0) : Type 0 where
  pub respond_to_guest : A → List ℕ → Bool
  pub call : A → List ℕ → List ℕ → (block_given : Bool) → Running A block_given
