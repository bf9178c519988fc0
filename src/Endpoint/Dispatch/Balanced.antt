-- ===== src/Endpoint/Dispatch/Balanced.antt =====
-- Every upcall closes the Call that it opens.
use kobako.Common.{
  ℕ, ◌%◌, ◌^◌, ◌<◌, ◌≡◌, refl, ap, ◌∙◌, Option, none, some, List, String, arith, length, ◌==◌,
  Bool-cases, inl, inr, Result, ok, err,
}
use kobako.Common.Outcomes.{Result-cases}
use kobako.Transport.Bytes.{DecodeError}
use kobako.Transport.Call.{Call}
use kobako.Transport.Reply
use kobako.Transport.Request.{Upcall, call, unknown_up, yield, encode_downcall, decode_upcall}
use kobako.Endpoint.Buffer.{
  WriteError, too_large, out_of_memory, out_of_bounds, incompatible, trapped, checked_payload_len,
  guest_buffer_range, read_buffer, write_at, place, alloc_and_write, unpack_guest_buffer,
}
use kobako.Endpoint.Buffer.RoundTrip.{Option-cases}
use kobako.Endpoint.Instance.{Answering, done, yielding, Instance, IsInstance, is_abandoned}
use kobako.Endpoint.Dispatch.{
  read_request, keep_trap, write_answer, write_from_callback, downcall_answer, block_result,
  drive_yield, yield_to_block, answer_with, open_call, close_call, serve, bound_handler,
  answer_upcall, reply_to, write_reply, end_upcall, handle,
}
use kobako.Endpoint.Replies.{Act, and_then, one_more, one_less, fit_in_message, or_internal}

module _ {G H F : Type 0} (guest : Instance G H F) where
  abbrev pub count : G → ℕ
  count g = (guest.calls g).open_count

  -- The guest closes what it opens while its allocator or a block of it runs.
  pub record Closes : Type 0 where
    pub count-alloc : (len : ℕ) (g : G) → count (guest.base.alloc len g).1 ≡ count g
    pub count-downcall : (ptr len : ℕ) (g : G) → count (guest.downcall ptr len g).1 ≡ count g

  module _ (laws : IsInstance guest) (closes : Closes) where
    count-then :
        {A B : Type 0} (x : Result A String × G) (f : A → Act G B)
        → ((a : A) (h : G) → count (f a h).1 ≡ count h)
        → count (and_then x f).1 ≡ count x.1
    count-then (ok a, g) f each = each a g
    count-then (err reason, g) f each = refl

    count-with_calls :
        (g : G) {n : ℕ} {on_dispatch : Option H} {reentry_trap : Option F}
        → count (
            guest.with_calls
              (record { on_dispatch = on_dispatch; open_count = n; reentry_trap = reentry_trap })
              g)
          ≡ n
    count-with_calls g = ap (λ c. c.open_count) (laws.calls-with_calls _ g)

    count-write_at :
        (ptr : ℕ) (bytes : List ℕ) (g : G) → count (write_at guest.base ptr bytes g).1 ≡ count g
    unfolding write_at
    count-write_at ptr bytes g = elim (Option-cases (guest.base.memory g)) [
      | inl gone ↦ rw (write_at, gone) refl
      | inr (memory, there) ↦
          elim (Result-cases (guest_buffer_range ptr (length bytes) (length memory))) [
            | inr (reason, out) ↦ rw (write_at, there, out) refl
            | inl (range, within) ↦
                rw (write_at, there, within) (ap (λ c. c.open_count) (laws.calls-store _ g))
          ]
    ]

    count-place :
        (bytes : List ℕ) (answer : Option (Result ℕ F) × G)
        → count (place guest.base bytes answer).1 ≡ count answer.1
    unfolding place
    count-place bytes (none, g) = refl
    count-place bytes (some (err fault), g) = refl
    count-place bytes (some (ok ptr), g) = elim (Bool-cases (ptr == 0)) [
      | inl null ↦ rw (place, null) refl
      | inr given ↦ rw (place, given) (count-write_at ptr bytes g)
    ]

    count-alloc_and_write :
        (bytes : List ℕ) (g : G) → count (alloc_and_write guest.base bytes g).1 ≡ count g
    unfolding alloc_and_write
    count-alloc_and_write bytes g = elim (Result-cases (checked_payload_len (length bytes))) [
      | inr (reason, e) ↦ rw (alloc_and_write, e) refl
      | inl (len, e) ↦ elim (Option-cases (guest.base.memory g)) [
        | inl gone ↦ rw (alloc_and_write, e, gone) refl
        | inr (memory, there) ↦
            rw (alloc_and_write, e, there)
              (count-place bytes (guest.base.alloc (len % 2 ^ 32) g)
                ∙ closes.count-alloc (len % 2 ^ 32) g)
      ]
    ]

    count-write_answer :
        (r : Result ℕ (WriteError F) × G) → count (write_answer guest r).1 ≡ count r.1
    unfolding write_answer keep_trap
    count-write_answer (ok ptr, g) = refl
    count-write_answer (err too_large, g) = refl
    count-write_answer (err (incompatible message), g) = refl
    count-write_answer (err (trapped trap), g) = count-with_calls g
    count-write_answer (err out_of_memory, g) = refl
    count-write_answer (err out_of_bounds, g) = refl

    count-write_from_callback :
        (bytes : List ℕ) (g : G) → count (write_from_callback guest bytes g).1 ≡ count g
    unfolding write_from_callback
    count-write_from_callback bytes g = elim (Option-cases (guest.calls g).reentry_trap) [
      | inr (trap, kept) ↦ rw (write_from_callback, kept) refl
      | inl calm ↦
          rw (write_from_callback, calm)
            (count-write_answer (alloc_and_write guest.base bytes g)
              ∙ count-alloc_and_write bytes g)
    ]

    count-downcall_answer :
        (r : Option (Result ℕ F) × G) → count (downcall_answer guest r).1 ≡ count r.1
    unfolding downcall_answer keep_trap
    count-downcall_answer (none, g) = refl
    count-downcall_answer (some (ok packed), g) = refl
    count-downcall_answer (some (err trap), g) = count-with_calls g

    count-block_result : (packed : ℕ) (g : G) → count (block_result guest packed g).1 ≡ count g
    unfolding block_result
    count-block_result packed g = elim (Bool-cases ((unpack_guest_buffer packed).1 == 0)) [
      | inl empty ↦ rw (block_result, empty) refl
      | inr filled ↦ elim (Option-cases (guest.base.memory g)) [
        | inl gone ↦ rw (block_result, filled, gone) refl
        | inr (memory, there) ↦ rw (block_result, filled, there) refl
      ]
    ]

    count-drive_yield :
        (frame : ℕ) (args : List ℕ) (g : G) → count (drive_yield guest frame args g).1 ≡ count g
    unfolding drive_yield
    count-drive_yield frame args g =
        count-then (checked_payload_len (length (encode_downcall (yield frame args))), g) _
          (λ len g1.
            count-then (write_from_callback guest (encode_downcall (yield frame args)) g1) _
              (λ ptr g2.
                count-then (downcall_answer guest (guest.downcall ptr len g2)) _
                  (λ packed g3. count-block_result packed g3)
                ∙ count-downcall_answer (guest.downcall ptr len g2)
                ∙ closes.count-downcall ptr len g2)
            ∙ count-write_from_callback (encode_downcall (yield frame args)) g1)

    count-answer_with :
        (answering : Answering) (g : G) → count (answer_with guest answering g).1 ≡ count g
    unfolding answer_with yield_to_block
    count-answer_with (done reply) g = refl
    count-answer_with (yielding frame args next) g =
        count-answer_with (next (yield_to_block guest frame args g).0)
          (yield_to_block guest frame args g).1
        ∙ count-drive_yield frame args g

    count-open : (g : G) → count (open_call guest g) ≡ one_more (count g)
    unfolding open_call
    count-open g = count-with_calls g

    count-close : (g : G) → count (close_call guest g) ≡ one_less (count g)
    unfolding close_call
    count-close g = count-with_calls g

    count-serve :
        (c : Call) (handler : H) (g : G)
        → count g < 2 ^ 32
        → count (serve guest c handler g).1 ≡ count g
    unfolding serve
    count-serve c handler g narrow =
        rw (serve, count-close, count-answer_with, count-open) (omega arith)

    count-answer_upcall :
        (r : Result Upcall DecodeError) (g : G)
        → count g < 2 ^ 32
        → count (answer_upcall guest r g).1 ≡ count g
    unfolding answer_upcall bound_handler
    count-answer_upcall (ok (call c)) g narrow = elim (Option-cases (guest.calls g).on_dispatch) [
      | inl unbound ↦ rw (answer_upcall, bound_handler, unbound) refl
      | inr (handler, bound) ↦
          rw (answer_upcall, bound_handler, bound) (count-serve c handler g narrow)
    ]
    count-answer_upcall (ok (unknown_up tag body)) g narrow = refl
    count-answer_upcall (err e) g narrow = refl

    count-reply_to :
        (req_ptr req_len : ℕ) (g : G)
        → count g < 2 ^ 32
        → count (reply_to guest req_ptr req_len g).1 ≡ count g
    unfolding reply_to read_request
    count-reply_to req_ptr req_len g narrow = elim (Option-cases (guest.base.memory g)) [
      | inl gone ↦ rw (reply_to, read_request, gone) refl
      | inr (memory, there) ↦ elim (Result-cases (read_buffer memory req_ptr req_len)) [
        | inr (e, unread) ↦ rw (reply_to, read_request, there, unread) refl
        | inl (bytes, sent) ↦
            rw (reply_to, read_request, there, sent)
              (count-answer_upcall (decode_upcall bytes) g narrow)
      ]
    ]

    count-write_reply : (bytes : List ℕ) (g : G) → count (write_reply guest bytes g).1 ≡ count g
    unfolding write_reply
    count-write_reply bytes g =
        count-then (write_from_callback guest bytes g) _ (λ ptr h. refl)
        ∙ count-write_from_callback bytes g

    count-end_upcall :
        (written : Result ℕ String) (g : G) → count (end_upcall guest written g).1 ≡ count g
    unfolding end_upcall
    count-end_upcall written g = elim (Option-cases (guest.calls g).reentry_trap) [
      | inr (trap, kept) ↦ rw (end_upcall, kept) (count-with_calls g)
      | inl calm ↦ elim (Bool-cases (is_abandoned guest.handlers (guest.calls g) g)) [
        | inl gone ↦ rw (end_upcall, calm, gone) refl
        | inr going ↦ rw (end_upcall, calm, going) refl
      ]
    ]

-- Whatever the request, the handler and the ending of an upcall, as many Calls are open after it as
-- before, where the guest's allocator and its downcalls leave as many open as they find.
pub handle-balanced :
    {G H F : Type 0} (guest : Instance G H F) (req_ptr req_len : ℕ) (g : G)
    → IsInstance guest
    → Closes guest
    → (guest.calls g).open_count < 2 ^ 32
    → (guest.calls (handle guest req_ptr req_len g).1).open_count ≡ (guest.calls g).open_count
unfolding handle
handle-balanced guest req_ptr req_len g laws closes narrow =
    let (answer, g1) = reply_to guest req_ptr req_len g in
    let bytes = Reply.encode (fit_in_message (or_internal answer)) in
    let (written, g2) = write_reply guest bytes g1 in
    count-end_upcall guest laws closes written g2
    ∙ count-write_reply guest laws closes bytes g1
    ∙ count-reply_to guest laws closes req_ptr req_len g narrow
