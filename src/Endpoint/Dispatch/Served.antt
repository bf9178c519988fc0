-- ===== src/Endpoint/Dispatch/Served.antt =====
-- From the guest's Call to the Reply it reads.
use kobako.Common.{
  ℕ, ◌+◌, ◌%◌, ◌^◌, ◌≤◌, ◌<◌, ◌≡◌, ◌≢◌, refl, sym, ap, ◌∙◌, true, false, Option, none, some, List,
  arith, length, ltb, Bool-cases, inl, inr, String, Result, ok, err, ok_or, refused, ok-injective,
  length-take, drop,
}
use kobako.Transport.Bytes.{into_bytes}
use kobako.Transport.Abi.{max_dispatch_payload, pack_ptr_len}
use kobako.Transport.Abi.Packing.{unpack-pack}
use kobako.Transport.Call.{Call}
use kobako.Transport.Call.RoundTrip.{IsCall}
use kobako.Transport.Reply
use kobako.Transport.Reply.{Reply}
use kobako.Transport.Request.{call, encode_upcall}
use kobako.Transport.Request.RoundTrip.{Upcall-decode-encode}
use kobako.Common.Outcomes.{Result-cases}
use kobako.Endpoint.Buffer.{
  guest_buffer_range, ReadError, checked_payload_len, read_buffer, alloc_and_write,
  unpack_guest_buffer, splice,
}
use kobako.Endpoint.Buffer.RoundTrip.{alloc_and_write-fits, read_buffer-alloc_and_write}
use kobako.Endpoint.Instance.{Instance, IsInstance, is_abandoned}
use kobako.Endpoint.Dispatch.{
  unwritten, read_request, serve, answer_with, bound_handler, answer_upcall, reply_to,
  write_from_callback, write_answer, write_reply, end_upcall, handle, open_call, close_call,
}
use kobako.Endpoint.Replies.{fit_in_message, too_long, raised, or_internal, one_less}

length-too_long : length (Reply.encode (too_long "payload exceeds the 16 MiB limit")) ≡ 84
unfolding Reply.encode into_bytes
length-too_long = refl

length-fit_in_message :
    (reply : Reply) → length (Reply.encode (fit_in_message reply)) ≤ max_dispatch_payload
unfolding fit_in_message checked_payload_len
length-fit_in_message reply =
    elim (Bool-cases (ltb max_dispatch_payload (length (Reply.encode reply)))) [
      | inl large ↦ rw (fit_in_message, large, length-too_long) (omega arith)
      | inr fits ↦ rw (fit_in_message, fits, short fits) (ground arith)
    ]
  where
    short :
        ltb max_dispatch_payload (length (Reply.encode reply)) ≡ false
        → ltb (length (Reply.encode reply)) (2 ^ 31) ≡ true
    short e = ground arith

read_buffer-short :
    (memory : List ℕ) (ptr len : ℕ) {bytes : List ℕ}
    → read_buffer memory ptr len ≡ ok bytes
    → length bytes ≤ max_dispatch_payload
unfolding read_buffer
read_buffer-short memory ptr len {bytes} e =
    let (small, e1) = refused (ltb max_dispatch_payload len) _ e in
    elim (Result-cases (guest_buffer_range ptr len (length memory))) [
      | inr (message, out) ↦ absurd (unread (rw out at e1))
      | inl (range, within) ↦
          let same = ok-injective (rw within at e1) in
          ground (arith, length-take len (drop range.0 memory), ap length same)
    ]
  where
    unread : ◌≡◌ {A = Result (List ℕ) ReadError} (err ReadError.out_of_bounds) (ok bytes) → ⊥
    unread p = cc

abbrev pub written_over : List ℕ → ℕ → List ℕ → List ℕ
written_over memory ptr bytes = splice memory (ptr, ptr + length bytes) bytes

module _ {G H F : Type 0} (guest : Instance G H F) where
  pub handle-written :
      (req_ptr req_len : ℕ) (g : G) {answer : Result Reply String} {written : Result ℕ String}
      {g1 g2 : G}
      → reply_to guest req_ptr req_len g ≡ (answer, g1)
      → write_reply guest (Reply.encode (fit_in_message (or_internal answer))) g1 ≡ (written, g2)
      → handle guest req_ptr req_len g ≡ end_upcall guest written g2
  unfolding handle
  handle-written req_ptr req_len g replied wrote = rw (handle, replied, wrote) refl

  write_reply-placed :
      (bytes : List ℕ) (g : G) {ptr : ℕ} {g' : G}
      → (guest.calls g).reentry_trap ≡ none
      → length bytes ≤ max_dispatch_payload
      → alloc_and_write guest.base bytes g ≡ (ok ptr, g')
      → write_reply guest bytes g ≡ (ok (pack_ptr_len ptr (length bytes)), g')
  unfolding write_reply write_from_callback write_answer
  write_reply-placed bytes g calm small placed =
      rw (write_reply, write_from_callback, calm, placed, whole) refl
    where
      whole : length bytes % 2 ^ 32 ≡ length bytes
      whole = omega arith

  end_upcall-calm :
      (written : Result ℕ String) (g : G)
      → (guest.calls g).reentry_trap ≡ none
      → is_abandoned guest.handlers (guest.calls g) g ≡ false
      → end_upcall guest written g ≡ (unwritten guest written, g)
  unfolding end_upcall
  end_upcall-calm written g calm awaited = rw (end_upcall, calm, awaited) refl

module _ {G H F : Type 0} (guest : Instance G H F) (laws : IsInstance guest) (c : Call)
    (handler : H) (memory : List ℕ) (req_ptr req_len : ℕ) (g : G) (lawful : IsCall c)
    (there : guest.base.memory g ≡ some memory)
    (sent : read_buffer memory req_ptr req_len ≡ ok (encode_upcall (call c)))
    (bound : (guest.calls g).on_dispatch ≡ some handler) where
  sent-fits : length (encode_upcall (call c)) < 2 ^ 63
  sent-fits = omega (arith, read_buffer-short memory req_ptr req_len sent)

  reply_to-Call : reply_to guest req_ptr req_len g ≡ serve guest c handler g
  unfolding reply_to read_request answer_upcall bound_handler
  reply_to-Call = rw (
    reply_to,
    read_request,
    there,
    sent,
    Upcall-decode-encode (call c) lawful sent-fits,
    answer_upcall,
    bound_handler,
    bound,
  )

  module _ {reply : Option Reply} {g1 : G} (narrow : (guest.calls g).open_count < 2 ^ 32)
      (answered : answer_with guest
          (guest.handlers.dispatch handler (open_call guest g) c (guest.calls g).open_count)
          (open_call guest g)
        ≡ (reply, g1)) where
    frame : one_less (guest.calls (open_call guest g)).open_count ≡ (guest.calls g).open_count
    unfolding open_call
    frame = rw (open_call, laws.calls-with_calls) (omega arith)

    pub reply_to-answered :
        reply_to guest req_ptr req_len g ≡ (ok_or reply raised, close_call guest g1)
    unfolding serve
    reply_to-answered = rw (reply_to-Call, serve, frame, answered)

-- A well-formed Call that the guest left in its memory reaches the bound handler, under the frame that
-- counts the Calls open. Where the handler answers a Reply, no trap was kept, the host has not given
-- up, and the guest has a memory and allocates room in it, the upcall answers the packed address and
-- length at which the guest's memory then holds that Reply, or the Service's failure in place of a
-- Reply past 16 MiB.
pub handle-answered :
    {G H F : Type 0} (guest : Instance G H F) (laws : IsInstance guest) (c : Call) (handler : H)
    (memory before after : List ℕ) (req_ptr req_len ptr : ℕ) (g g1 g2 g3 : G) (reply : Reply)
    → IsCall c
    → guest.base.memory g ≡ some memory
    → read_buffer memory req_ptr req_len ≡ ok (encode_upcall (call c))
    → (guest.calls g).on_dispatch ≡ some handler
    → (guest.calls g).open_count < 2 ^ 32
    → answer_with guest
        (guest.handlers.dispatch handler (open_call guest g) c (guest.calls g).open_count)
        (open_call guest g)
      ≡ (some reply, g1)
    → (guest.calls g1).reentry_trap ≡ none
    → guest.base.memory g1 ≡ some before
    → guest.base.alloc (length (Reply.encode (fit_in_message reply))) (close_call guest g1)
      ≡ (some (ok ptr), g2)
    → ptr ≢ 0
    → guest.base.memory g2 ≡ some after
    → ptr + length (Reply.encode (fit_in_message reply)) ≤ length after
    → guest.base.store (written_over after ptr (Reply.encode (fit_in_message reply))) g2 ≡ g3
    → (guest.calls g2).reentry_trap ≡ none
    → is_abandoned guest.handlers (guest.calls g3) g3 ≡ false
    → (packed : ℕ) × (handle guest req_ptr req_len g ≡ (ok packed, g3))
      × (unpack_guest_buffer packed ≡ (ptr, length (Reply.encode (fit_in_message reply))))
      × ((held : List ℕ) × (guest.base.memory g3 ≡ some held)
          × (read_buffer held ptr (length (Reply.encode (fit_in_message reply)))
              ≡ ok (Reply.encode (fit_in_message reply))))
unfolding close_call unpack_guest_buffer
handle-answered guest laws c handler memory before after req_ptr req_len ptr g g1 g2 g3 reply lawful
      there sent bound narrow answered untrapped here allocated nonzero holds room stored calm
      awaited =
    let bytes = Reply.encode (fit_in_message reply) in
    let small = length-fit_in_message reply in
    let u32 = laws.alloc-u32 (length bytes) ptr (close_call guest g1) g2 allocated in
    let placed =
      alloc_and_write-fits guest.base bytes before after (close_call guest g1) g2 ptr small
        (laws.memory-with_calls _ g1 ∙ here) allocated nonzero u32 holds room
      ∙ ap (λ g'. (ok ptr, g')) stored in
    (
      pack_ptr_len ptr (length bytes),
      handle-written guest req_ptr req_len g
            (reply_to-answered guest laws c handler memory req_ptr req_len g lawful there sent bound
              narrow answered)
            (write_reply-placed guest bytes (close_call guest g1)
              (rw (laws.calls-with_calls) untrapped) small placed)
          ∙ end_upcall-calm guest _ g3
              (ap (λ c'. c'.reentry_trap) (ap guest.calls (sym stored) ∙ laws.calls-store _ g2)
                ∙ calm)
              awaited,
      (unpack-pack ptr (length bytes) 0 u32 (omega arith) (omega arith)).0,
      (read_buffer-alloc_and_write guest.base laws.lawful bytes (close_call guest g1) g3 ptr
          placed).1,
    )
