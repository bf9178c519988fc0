-- ===== src/Endpoint/Dispatch/Trapped.antt =====
-- The guest is not called again once a callback into it trapped.
use kobako.Common.{
  ℕ, length, inl, inr, ◌≡◌, refl, ap, ◌∙◌, none, some, List, Result, ok, err, String, ◌<◌, ◌^◌,
}
use kobako.Common.Outcomes.{Result-cases}
use kobako.Endpoint.Buffer.{checked_payload_len, read_buffer}
use kobako.Transport.Call.{Call}
use kobako.Transport.Request.{yield, encode_downcall, call, encode_upcall}
use kobako.Endpoint.Instance.{Answering, done, yielding, Instance, IsInstance}
use kobako.Transport.Call.RoundTrip.{IsCall}
use kobako.Endpoint.Dispatch.{
  open_call, drive_yield, yield_to_block, answer_with, write_from_callback, write_reply, end_upcall,
  handle, close_call,
}
use kobako.Endpoint.Dispatch.Served.{reply_to-answered, handle-written}
use kobako.Endpoint.Replies.{fault_end}

module _ {G H F : Type 0} (guest : Instance G H F) where
  -- Where a handler stands after some of its yields, and the state that they leave.
  pub data Reached (answering : Answering) (g : G) : Answering → G → Type 0 where
    here : Reached answering g answering g
    after :
        {frame : ℕ} {args : List ℕ} {next : _} {h : G}
        → Reached answering g (yielding frame args next) h
        → Reached answering g
            (next (yield_to_block guest frame args h).0)
            (yield_to_block guest frame args h).1

  answer_with-Reached :
      {answering : Answering} {g : G} {reached : Answering} {h : G}
      → Reached answering g reached h
      → answer_with guest answering g ≡ answer_with guest reached h
  unfolding answer_with
  answer_with-Reached here = refl
  answer_with-Reached (after r) = answer_with-Reached r

  module _ (g : G) (trap : F) (kept : (guest.calls g).reentry_trap ≡ some trap) where
    yield_to_block-kept : (frame : ℕ) (args : List ℕ) → (yield_to_block guest frame args g).1 ≡ g
    unfolding yield_to_block drive_yield write_from_callback
    yield_to_block-kept frame args =
        elim (Result-cases (checked_payload_len (length (encode_downcall (yield frame args))))) [
          | inl (len, e) ↦ rw (yield_to_block, drive_yield, e, write_from_callback, kept) refl
          | inr (m, e) ↦ rw (yield_to_block, drive_yield, e) refl
        ]

    answer_with-kept : (answering : Answering) → (answer_with guest answering g).1 ≡ g
    unfolding answer_with
    answer_with-kept (done reply) = refl
    answer_with-kept (yielding frame args next) =
        ap (λ h. (answer_with guest (next (yield_to_block guest frame args g).0) h).1)
          (yield_to_block-kept frame args)
        ∙ answer_with-kept (next (yield_to_block guest frame args g).0)

  write_reply-kept :
      (bytes : List ℕ) (g : G) (trap : F)
      → (guest.calls g).reentry_trap ≡ some trap
      → write_reply guest bytes g ≡ (err "the Sandbox already trapped during this invocation", g)
  unfolding write_reply write_from_callback
  write_reply-kept bytes g trap kept = rw (write_reply, write_from_callback, kept) refl

  end_upcall-kept :
      (written : Result ℕ String) (g : G) (trap : F)
      → (guest.calls g).reentry_trap ≡ some trap
      → end_upcall guest written g ≡ (
        err (fault_end trap),
        guest.with_calls (record (guest.calls g) { reentry_trap = none }) g,
      )
  unfolding end_upcall
  end_upcall-kept written g trap kept = rw (end_upcall, kept) refl

-- An upcall with a well-formed Call whose handler has come so far that a callback into the guest has
-- trapped ends as that trap, whatever the handler would still do: the state is the one the trap was
-- kept in, so the guest is not called again, but that the Call is closed and the trap is taken.
pub handle-trapped :
    {G H F : Type 0} (guest : Instance G H F) (laws : IsInstance guest) (c : Call) (handler : H)
    (memory : List ℕ) (req_ptr req_len : ℕ) (g g1 : G) (reached : Answering) (trap : F)
    → IsCall c
    → guest.base.memory g ≡ some memory
    → read_buffer memory req_ptr req_len ≡ ok (encode_upcall (call c))
    → (guest.calls g).on_dispatch ≡ some handler
    → (guest.calls g).open_count < 2 ^ 32
    → Reached guest
        (guest.handlers.dispatch handler (open_call guest g) c (guest.calls g).open_count)
        (open_call guest g)
        reached
        g1
    → (guest.calls g1).reentry_trap ≡ some trap
    → handle guest req_ptr req_len g ≡ (
      err (fault_end trap),
      guest.with_calls
          (record (guest.calls (close_call guest g1)) { reentry_trap = none })
          (close_call guest g1),
    )
unfolding close_call
handle-trapped guest laws c handler memory req_ptr req_len g g1 reached trap lawful there sent bound
      narrow r kept =
    let still = answer_with-kept guest g1 trap kept reached in
    let closed : (guest.calls (close_call guest g1)).reentry_trap ≡ some trap =
      rw (laws.calls-with_calls) kept in
    handle-written guest req_ptr req_len g
      (reply_to-answered guest laws c handler memory req_ptr req_len g lawful there sent bound
        narrow
        (answer_with-Reached guest r ∙ ap (λ g'. ((answer_with guest reached g1).0, g')) still))
      (write_reply-kept guest _ (close_call guest g1) trap closed)
    ∙ end_upcall-kept guest _ (close_call guest g1) trap closed
