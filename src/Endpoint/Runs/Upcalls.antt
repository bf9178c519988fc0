-- ===== src/Endpoint/Runs/Upcalls.antt =====
-- Runs of upcalls and of the frames of an invocation, on an instance that is a memory, the state of its
-- Calls, with a buffer at the address 24.
use kobako.Common.{
  ℕ, ◌≡◌, refl, arith, true, false, Option, none, some, List, [], ◌∷◌, ◌++◌, length, String, codes,
  Result, ok, err, subst, ◌+◌, ◌*◌, ◌^◌,
}
use kobako.Common.Utf8.{is_utf8}
use kobako.Transport.Bytes.{into_bytes, run}
use kobako.Endpoint.Buffer.{checked_payload_len, read_buffer, unpack_guest_buffer}
use kobako.Endpoint.Instance.{is_abandoned, Answering, done, yielding, Calls, Instance, IsInstance}
use kobako.Transport.Request.{yield, encode_downcall, call, encode_upcall}
use kobako.Endpoint.Dispatch.{
  drive_yield, handle, open_call, close_call, yield_to_block, answer_with,
}
use kobako.Endpoint.Errors.{other}
use kobako.Endpoint.Invoke.{read_outcome}
use kobako.Transport.Call.{Call, path}
use kobako.Transport.Call.RoundTrip.{IsCall}
use kobako.Transport.Reply
use kobako.Transport.Reply.{Reply}
use kobako.Endpoint.Replies.{fault_end, fit_in_message}
use kobako.Endpoint.Dispatch.Served.{handle-answered, written_over}
use kobako.Endpoint.Dispatch.Trapped.{handle-trapped, Reached, here, after}
use kobako.Endpoint.Dispatch.Balanced.{handle-balanced, Closes}

data Handler : Type 0 where
  greeting stubborn : Handler

record InMemory : Type 0 where
  memory : List ℕ
  calls : Calls Handler String

-- `greeting` answers at once; `stubborn` yields to the block and answers whatever comes of it.
abbrev respond : Handler → Answering
respond greeting = done (some (Reply.ok (7 ∷ [])))
respond stubborn = yielding 0 [] (λ answer. done (some Reply.break))

-- The block of this guest traps.
abbrev in_memory : Instance InMemory Handler String
in_memory = record {
  base = record {
    memory = λ g. some g.memory;
    store = λ new g. record g { memory = new };
    alloc = λ len g. (some (ok 24), g);
  };
  handlers = record {
    dispatch = λ handler g c frame. respond handler;
    abandoned = λ handler g. false;
  };
  calls = λ g. g.calls;
  with_calls = λ c g. record g { calls = c };
  downcall = λ ptr len g. (some (err "unreachable"), g);
  cap_trap = λ fault. none;
  display = codes;
}

at_24 :
    {ptr : ℕ} {g g' : InMemory}
    → ◌≡◌ {A = Option (Result ℕ String) × InMemory} (some (ok 24), g) (some (ok ptr), g')
    → 24 ≡ ptr
at_24 e = cc

in_memory-IsInstance : IsInstance in_memory
in_memory-IsInstance = record {
  lawful = record { memory-store = λ g old new e same. refl };
  calls-with_calls = λ c g. refl;
  memory-with_calls = λ c g. refl;
  calls-store = λ memory g. refl;
  alloc-u32 = λ len ptr g g' e. omega (arith, at_24 e);
}

in_memory-Closes : Closes in_memory
in_memory-Closes = record { count-alloc = λ len g. refl; count-downcall = λ ptr len g. refl }

abbrev greet : Call
greet = record {
  target = path (codes "G");
  method = codes "hi";
  block_given = true;
  payload = 1 ∷ [];
}

greet-IsCall : IsCall greet
unfolding is_utf8
greet-IsCall = record {
  target = record { utf8 = refl; fits = omega arith };
  method = record { utf8 = refl; fits = omega arith };
}

abbrev sent : List ℕ
sent = 4 ∷ 0 ∷ 0 ∷ 0 ∷ 0 ∷ 1 ∷ 71 ∷ 0 ∷ 0 ∷ 0 ∷ 2 ∷ 104 ∷ 105 ∷ 1 ∷ 1 ∷ []

greet_bytes : encode_upcall (call greet) ≡ sent
unfolding encode_upcall into_bytes
greet_bytes = refl

abbrev room : List ℕ
room = 0 ∷ 0 ∷ 0 ∷ 0 ∷ 0 ∷ 0 ∷ 0 ∷ 0 ∷ 0 ∷ 0 ∷ 0 ∷ 0 ∷ 0 ∷ 0 ∷ 0 ∷ []

abbrev with_open : Handler → ℕ → Option String → InMemory
with_open handler n trap = record {
  memory = sent ++ room;
  calls = record { on_dispatch = some handler; open_count = n; reentry_trap = trap };
}

abbrev start : Handler → InMemory
start handler = with_open handler 0 none

abbrev answer : Reply
answer = Reply.ok (7 ∷ [])

abbrev replied : InMemory
replied = record (start greeting) { memory = written_over (sent ++ room) 24 (16 ∷ 7 ∷ []) }

answer_bytes : Reply.encode (fit_in_message answer) ≡ 16 ∷ 7 ∷ []
unfolding fit_in_message checked_payload_len Reply.encode into_bytes
answer_bytes = refl

greeting_is_read : read_buffer (sent ++ room) 0 15 ≡ ok (encode_upcall (call greet))
unfolding read_buffer
greeting_is_read = rw greet_bytes refl

handle-answered_example :
    (packed : ℕ) × (handle in_memory 0 15 (start greeting) ≡ (ok packed, replied))
    × (unpack_guest_buffer packed ≡ (24, length (Reply.encode (fit_in_message answer))))
    × ((held : List ℕ) × (in_memory.base.memory replied ≡ some held)
        × (read_buffer held 24 (length (Reply.encode (fit_in_message answer)))
            ≡ ok (Reply.encode (fit_in_message answer))))
unfolding open_call close_call answer_with is_abandoned
handle-answered_example =
    handle-answered in_memory in_memory-IsInstance greet greeting (sent ++ room) (sent ++ room)
      (sent ++ room) 0 15 24 (start greeting) (with_open greeting 1 none) (start greeting) replied
      answer greet-IsCall refl greeting_is_read refl (omega arith) refl refl refl refl (omega arith)
      refl (rw answer_bytes (omega arith)) (rw answer_bytes refl) refl refl

abbrev trap : String
trap = "unreachable"

-- The request to the block stands in the buffer.
abbrev trapped : InMemory
trapped = record (with_open stubborn 1 (some trap)) {
  memory = written_over (sent ++ room) 24 (3 ∷ 0 ∷ 0 ∷ 0 ∷ 0 ∷ []);
}

yield_bytes : encode_downcall (yield 0 []) ≡ 3 ∷ 0 ∷ 0 ∷ 0 ∷ 0 ∷ []
unfolding encode_downcall into_bytes
yield_bytes = refl

block_traps : (yield_to_block in_memory 0 [] (with_open stubborn 1 none)).1 ≡ trapped
unfolding yield_to_block
block_traps = rw (yield_to_block, drive_yield, yield_bytes) refl

stubborn_stands :
    Reached in_memory
      (respond stubborn)
      (with_open stubborn 1 none)
      (done (some Reply.break))
      trapped
stubborn_stands =
    subst
      (Reached in_memory (respond stubborn) (with_open stubborn 1 none) (done (some Reply.break)))
      block_traps (after here)

-- The block's trap ends the upcall, and the answer of the handler is not written.
handle-trapped_example : handle in_memory 0 15 (start stubborn) ≡ (
  err (fault_end trap),
  in_memory.with_calls
      (record (in_memory.calls (close_call in_memory trapped)) { reentry_trap = none })
      (close_call in_memory trapped),
)
unfolding open_call close_call
handle-trapped_example =
    handle-trapped in_memory in_memory-IsInstance greet stubborn (sent ++ room) 0 15
      (start stubborn) trapped (done (some Reply.break)) trap greet-IsCall refl greeting_is_read
      refl (omega arith) stubborn_stands refl

handle-balanced_example :
    (in_memory.calls (handle in_memory 0 15 (start stubborn)).1).open_count
    ≡ (in_memory.calls (start stubborn)).open_count
handle-balanced_example =
    handle-balanced in_memory 0 15 (start stubborn) in_memory-IsInstance in_memory-Closes
      (omega arith)

-- 24 and the length 0, or 3 bytes of no known tag at 0
no_outcome :
    read_outcome in_memory (24 * 2 ^ 32) (start greeting)
    ≡ err (other (codes "Sandbox exited without producing a result"))
unfolding read_outcome into_bytes run
no_outcome = refl

bad_outcome :
    read_outcome in_memory 3 (start greeting)
    ≡ err (other (codes "Sandbox produced an unrecognised result"))
unfolding read_outcome into_bytes run
bad_outcome = refl

far_outcome :
    read_outcome in_memory (24 * 2 ^ 32 + 100) (start greeting)
    ≡ err (other (codes "the Sandbox result is out of bounds"))
unfolding read_outcome into_bytes run
far_outcome = refl
