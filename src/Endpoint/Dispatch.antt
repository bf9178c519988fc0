-- ===== src/Endpoint/Dispatch.antt =====
-- crates/kobako-runtime/src/endpoint/dispatch.rs: the host side of the upcall import. An action takes
-- the instance's state and returns it beside its result, an error included.
pub mod Served
pub mod Trapped
pub mod Balanced
use kobako.Common.{
  ℕ, ◌+◌, ◌-◌, ◌%◌, ◌^◌, Bool, Option, none, some, List, ◌++◌, String, length, ◌==◌, codes,
  if◌then◌else◌, Result, ok, err, ok_or,
}
use kobako.Transport.Abi.{pack_ptr_len}
use kobako.Transport.Bytes.{DecodeError}
use kobako.Transport.Call.{Call}
use kobako.Transport.Fault.{Fault, internal, runtime}
use kobako.Transport.Reply
use kobako.Transport.Reply.{Reply, fault, unsupported}
use kobako.Transport.Request.{Upcall, call, unknown_up, yield, encode_downcall, decode_upcall}
use kobako.Transport.YieldReply
use kobako.Transport.YieldReply.{YieldReply}
use kobako.Endpoint.Errors.{Trap, other}
use kobako.Endpoint.Buffer.{
  WriteError, too_large, out_of_memory, out_of_bounds, incompatible, trapped, ReadError,
  checked_payload_len, read_buffer, alloc_and_write, unpack_guest_buffer, runtime_incompatible,
  sandbox_runtime_not_kobako,
}
use kobako.Endpoint.Instance.{
  Answering, done, yielding, DispatchHandler, Calls, Instance, is_abandoned,
}
use kobako.Endpoint.Replies.{
  UpcallEnd, Act, pure, fail, lift, and_then, ◌>>=◌, one_more, one_less, internal_fault, too_long,
  fit_in_message, raised, not_served, request_error, block_error, named_by, first_of, framed,
  yield_reply_of, or_internal, fault_end, abandoned_end, unwritable,
}

module _ {G H F : Type 0} (guest : Instance G H F) where
  unfoldable pub read_request : ℕ → ℕ → Act G (List ℕ)
  unfolding read_buffer
  read_request req_ptr req_len g = elim (guest.base.memory g) [
    | none ↦ (err sandbox_runtime_not_kobako, g)
    | some memory ↦ (named_by request_error (read_buffer memory req_ptr req_len), g)
  ]

  unfoldable pub keep_trap : {A : Type 0} → F → String → Act G A
  keep_trap trap reason g =
      let c = guest.calls g in
      (err reason, guest.with_calls (record c { reentry_trap = first_of c.reentry_trap trap }) g)

  unfoldable pub write_answer : Result ℕ (WriteError F) × G → Result ℕ String × G
  unfolding keep_trap
  write_answer (ok ptr, g) = (ok ptr, g)
  write_answer (err too_large, g) = (err "payload exceeds the 16 MiB limit", g)
  write_answer (err (incompatible message), g) = (err message, g)
  write_answer (err (trapped trap), g) =
      keep_trap trap "the Sandbox trapped while allocating memory for the request" g
  write_answer (err out_of_memory, g) =
      (err "the Sandbox ran out of memory while preparing the request", g)
  write_answer (err out_of_bounds, g) =
      (err "could not write the request into the Sandbox's memory", g)

  unfoldable pub write_from_callback : List ℕ → Act G ℕ
  unfolding alloc_and_write write_answer
  write_from_callback bytes g = elim (guest.calls g).reentry_trap [
    | some trap ↦ (err "the Sandbox already trapped during this invocation", g)
    | none ↦ write_answer (alloc_and_write guest.base bytes g)
  ]

  -- What the downcall answered.
  unfoldable pub downcall_answer : Option (Result ℕ F) × G → Result ℕ String × G
  unfolding keep_trap
  downcall_answer (none, g) = (err runtime_incompatible, g)
  downcall_answer (some (ok packed), g) = (ok packed, g)
  downcall_answer (some (err trap), g) =
      keep_trap trap "the Sandbox trapped while invoking a block" g

  -- The lines of `drive_yield` behind the downcall.
  unfoldable pub block_result : ℕ → Act G (List ℕ)
  unfolding unpack_guest_buffer read_buffer
  block_result packed g =
      let (reply_ptr, reply_len) = unpack_guest_buffer packed in
      if reply_len == 0
      then (err "the Sandbox returned an empty block result", g)
      else elim (guest.base.memory g) [
        | none ↦ (err sandbox_runtime_not_kobako, g)
        | some memory ↦ (named_by block_error (read_buffer memory reply_ptr reply_len), g)
      ]

  unfoldable pub drive_yield : ℕ → List ℕ → Act G (List ℕ)
  unfolding encode_downcall checked_payload_len write_from_callback downcall_answer block_result
  drive_yield frame args = do
    len ← lift (checked_payload_len (length (encode_downcall (yield frame args))))
    req_ptr ← write_from_callback (encode_downcall (yield frame args))
    packed ← λ g. downcall_answer (guest.downcall req_ptr len g)
    block_result packed

  -- `FrameYielder::yield_to_block`
  unfoldable pub yield_to_block : ℕ → List ℕ → G → Result YieldReply Trap × G
  unfolding drive_yield yield_reply_of
  yield_to_block frame args g =
      let (answer, g') = drive_yield frame args g in (yield_reply_of answer, g')

  -- The handler with the guest it is lent.
  unfoldable pub answer_with : Answering → G → Option Reply × G
  unfolding yield_to_block
  answer_with (done reply) g = (reply, g)
  answer_with (yielding frame args next) g =
      let (answer, g') = yield_to_block frame args g in answer_with (next answer) g'

  unfoldable pub open_call : G → G
  open_call g =
      let c = guest.calls g in guest.with_calls (record c { open_count = one_more c.open_count }) g

  unfoldable pub close_call : G → G
  close_call g =
      let c = guest.calls g in guest.with_calls (record c { open_count = one_less c.open_count }) g

  -- The Call with its handler. The frame is `open - 1` after `open += 1`.
  unfoldable pub serve : Call → H → Act G Reply
  unfolding open_call close_call answer_with
  serve c handler g =
      let inside = open_call g in
      let frame = one_less (guest.calls inside).open_count in
      let (reply, g') = answer_with (guest.handlers.dispatch handler inside c frame) inside in
      (ok_or reply raised, close_call g')

  unfoldable pub bound_handler : Act G H
  bound_handler g = (
    ok_or (guest.calls g).on_dispatch
        "a Sandbox callback fired outside an active invocation — please report this as a kobako bug",
    g,
  )

  unfoldable pub answer_upcall : Result Upcall DecodeError → Act G Reply
  unfolding bound_handler serve
  answer_upcall (ok (call c)) = do handler ← bound_handler; serve c handler
  answer_upcall (ok (unknown_up tag body)) = pure not_served
  answer_upcall (err e) =
      fail "the guest sent a malformed Call envelope — please report this as a kobako bug"

  unfoldable pub reply_to : ℕ → ℕ → Act G Reply
  unfolding read_request answer_upcall decode_upcall
  reply_to req_ptr req_len = do
    req_bytes ← read_request req_ptr req_len
    answer_upcall (decode_upcall req_bytes)

  unfoldable pub write_reply : List ℕ → Act G ℕ
  unfolding write_from_callback pack_ptr_len
  write_reply bytes = do
    ptr ← write_from_callback bytes
    pure (pack_ptr_len ptr (length bytes % 2 ^ 32))

  abbrev pub unwritten : Result ℕ String → Result ℕ (UpcallEnd F)
  unwritten (ok packed) = ok packed
  unwritten (err reason) = err (unwritable reason)

  -- The lines of `handle` behind the write.
  unfoldable pub end_upcall : Result ℕ String → G → Result ℕ (UpcallEnd F) × G
  unfolding is_abandoned
  end_upcall written g =
      let c = guest.calls g in
      elim c.reentry_trap [
        | some trap ↦ (err (fault_end trap), guest.with_calls (record c { reentry_trap = none }) g)
        | none ↦
            if is_abandoned guest.handlers c g
            then (err abandoned_end, g)
            else (unwritten written, g)
      ]

  unfoldable pub handle : ℕ → ℕ → G → Result ℕ (UpcallEnd F) × G
  unfolding reply_to fit_in_message Reply.encode write_reply end_upcall
  handle req_ptr req_len g =
      let (answer, g1) = reply_to req_ptr req_len g in
      let (written, g2) = write_reply (Reply.encode (fit_in_message (or_internal answer))) g1 in
      end_upcall written g2
