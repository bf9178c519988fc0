-- ===== src/Endpoint/Invoke.antt =====
-- crates/kobako-runtime/src/endpoint/invoke.rs: what an invocation hands the guest and reads back, and
-- `Entry` of crates/kobako-runtime/src/runtime.rs. The filter, the zip and the count of the source
-- snippets are those of the host's replay table.
pub mod Stdin
pub mod Compiled
use kobako.Common.{
  ℕ, ◌%◌, ◌^◌, Bool, true, false, Option, none, some, List, [], ◌∷◌, ◌++◌, String, length, ◌==◌,
  codes, if◌then◌else◌, Result, ok, err,
}
use kobako.Common.Words.{to_be_bytes}
use kobako.Transport.Bytes.{DecodeError}
use kobako.Transport.CompileReply
use kobako.Transport.CompileReply.{CompileReply, error, unsupported}
use kobako.Transport.Outcome
use kobako.Transport.Outcome.{Outcome}
use kobako.Transport.Preamble
use kobako.Transport.Preamble.{Preamble}
use kobako.Transport.Request.{eval, run_entry, compile, encode_downcall}
use kobako.Host.Snippets.{replace}
use kobako.Host.Snippets.Replay.{sources}
use kobako.Endpoint.Errors.{Trap, other, SetupError, intact, InvokeError, trap, setup}
use kobako.Endpoint.Buffer.{
  WriteError, too_large, out_of_memory, out_of_bounds, incompatible, trapped, ReadError,
  checked_payload_len, read_buffer, alloc_and_write, unpack_guest_buffer,
  sandbox_runtime_not_kobako,
}
use kobako.Endpoint.Instance.{Instance}

unfoldable pub stdin_content : Preamble → Result (List ℕ) String
unfolding checked_payload_len Preamble.encode
stdin_content preamble = elim (checked_payload_len (length (Preamble.encode preamble))) [
  | err reason ↦ err reason
  | ok len ↦
      ok (to_be_bytes (length (Preamble.encode preamble) % 2 ^ 32) ++ Preamble.encode preamble)
]

pub data Entry : Type 0 where
  eval_entry : List ℕ → Entry
  run_at : List ℕ → List ℕ → Entry

unfoldable pub request_of : Entry → List ℕ
unfolding encode_downcall
request_of (eval_entry source) = encode_downcall (eval source)
request_of (run_at entrypoint payload) =
    encode_downcall (run_entry (record { entrypoint = entrypoint; payload = payload }))

unfoldable pub compile_request : List ℕ
unfolding encode_downcall
compile_request = encode_downcall compile

abbrev pub trap_of : List ℕ → InvokeError
trap_of message = trap (other message)

abbrev pub read_error : ReadError → Trap
read_error ReadError.too_large = other (codes "result payload exceeds the 16 MiB limit")
read_error ReadError.out_of_bounds = other (codes "the Sandbox result is out of bounds")

abbrev pub or_trap : Result (List ℕ) ReadError → Result (List ℕ) Trap
or_trap (ok bytes) = ok bytes
or_trap (err e) = err (read_error e)

abbrev pub unframed : List ℕ → Trap
unframed [] = other (codes "Sandbox exited without producing a result")
unframed (byte ∷ bytes) = other (codes "Sandbox produced an unrecognised result")

abbrev pub outcome_or : List ℕ → Result Outcome DecodeError → Result Outcome Trap
outcome_or bytes (ok outcome) = ok outcome
outcome_or bytes (err e) = err (unframed bytes)

abbrev pub compile_reply_or : Result CompileReply DecodeError → Result CompileReply Trap
compile_reply_or (ok reply) = ok reply
compile_reply_or (err e) = err (other (codes "Sandbox produced an unrecognised compile answer"))

module _ {G H F : Type 0} (guest : Instance G H F) where
  abbrev pub cap_or_fault : F → Option Trap → InvokeError
  cap_or_fault fault (some cap) = trap cap
  cap_or_fault fault none =
      trap_of (codes "failed to allocate input buffer: " ++ guest.display fault)

  abbrev pub write_error : WriteError F → InvokeError
  write_error out_of_memory =
      setup (intact (codes "could not allocate input buffer (out of memory)"))
  write_error too_large = trap_of (codes "payload exceeds the 16 MiB limit")
  write_error (incompatible message) = trap_of (codes message)
  write_error (trapped fault) = cap_or_fault fault (guest.cap_trap fault)
  write_error out_of_bounds = trap_of (codes "the input buffer lies outside the Sandbox's memory")

  abbrev pub written_request : List ℕ → Result ℕ (WriteError F) × G → Result (ℕ × ℕ) InvokeError × G
  written_request envelope (ok ptr, g) = (ok (ptr, length envelope % 2 ^ 32), g)
  written_request envelope (err e, g) = (err (write_error e), g)

  unfoldable pub write_request : List ℕ → G → Result (ℕ × ℕ) InvokeError × G
  unfolding alloc_and_write
  write_request envelope g = written_request envelope (alloc_and_write guest.base envelope g)

  unfoldable pub read_answer : ℕ → G → Result (List ℕ) Trap
  unfolding unpack_guest_buffer read_buffer
  read_answer packed g = elim (guest.base.memory g) [
    | none ↦ err (other (codes sandbox_runtime_not_kobako))
    | some memory ↦
        let (ptr, len) = unpack_guest_buffer packed in or_trap (read_buffer memory ptr len)
  ]

  unfoldable pub read_outcome : ℕ → G → Result Outcome Trap
  unfolding read_answer Outcome.decode
  read_outcome packed g = elim (read_answer packed g) [
    | err e ↦ err e
    | ok bytes ↦ outcome_or bytes (Outcome.decode bytes)
  ]

  unfoldable pub read_compile_reply : ℕ → G → Result CompileReply Trap
  unfolding read_answer CompileReply.decode
  read_compile_reply packed g = elim (read_answer packed g) [
    | err e ↦ err e
    | ok bytes ↦ compile_reply_or (CompileReply.decode bytes)
  ]

abbrev pub is_ok {ℓ κ} : {A : Type ℓ} {E : Type κ} → Result A E → Bool
is_ok (ok a) = true
is_ok (err e) = false

abbrev pub replay : Preamble → List (List ℕ) → Preamble
replay preamble bytecodes = record preamble {
  snippets = record { entries = replace preamble.snippets.entries bytecodes };
}

unfoldable pub replay_fits : Preamble → List (List ℕ) → Bool
unfolding checked_payload_len Preamble.encode
replay_fits preamble bytecodes =
    is_ok (checked_payload_len (length (Preamble.encode (replay preamble bytecodes))))

-- `then_some`
abbrev pub some_where {ℓ} : {A : Type ℓ} → Bool → A → Option A
some_where true a = some a
some_where false a = none

unfoldable pub one_per_source : Preamble → List (List ℕ) → Option (List (List ℕ))
one_per_source preamble bytecodes =
    some_where (length bytecodes == sources preamble.snippets.entries) bytecodes

unfoldable pub compiled_bytecodes : Preamble → CompileReply → Option (List (List ℕ))
unfolding one_per_source replay_fits
compiled_bytecodes preamble (CompileReply.ok bytecodes) = elim (one_per_source preamble bytecodes) [
  | none ↦ none
  | some counted ↦ some_where (replay_fits preamble counted) counted
]
compiled_bytecodes preamble (error e) = none
compiled_bytecodes preamble (unsupported refusal) = none
