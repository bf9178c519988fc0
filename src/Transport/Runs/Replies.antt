-- ===== src/Transport/Runs/Replies.antt =====
-- Answers as their tests in the source spell them, and the theorems at such answers.
use kobako.Common
use kobako.Common.{ℕ, ◌<◌, ◌^◌, ◌≡◌, ◌≢◌, refl, List, [], ◌∷◌, ◌++◌, some, codes, arith, length}
use kobako.Common.Utf8.{is_utf8}
use kobako.Transport.Bytes.{malformed, run, into_bytes}
use kobako.Transport.Bytes.Fields.{IsText}
use kobako.Transport.ErrorRecord.{ErrorRecord}
use kobako.Transport.ErrorRecord.RoundTrip.{IsErrorRecord}
use kobako.Transport.Fault.{runtime, undefined}
use kobako.Transport.Reply
use kobako.Transport.Reply.{Reply, fault, break}
use kobako.Transport.Reply.RoundTrip.{followed, Reply-decode-encode, Reply-decode-append}
use kobako.Transport.YieldReply
use kobako.Transport.YieldReply.{YieldReply, error}
use kobako.Transport.CompileReply
use kobako.Transport.CompileReply.{CompileReply}
use kobako.Transport.Outcome
use kobako.Transport.Outcome.{Outcome, panic, service}
use kobako.Transport.Outcome.RoundTrip.{Outcome-decode-encode}

abbrev x_text : IsText (codes "x")
unfolding is_utf8
x_text = record { utf8 = refl; fits = omega arith }

abbrev runtime_fault : Reply
runtime_fault = fault (record { kind = runtime; message = codes "x" })

golden_fault : Reply.encode runtime_fault ≡ 0x11 ∷ 0 ∷ 0 ∷ 0 ∷ 0 ∷ 1 ∷ b'x' ∷ []
unfolding Reply.encode into_bytes
golden_fault = refl

later_category_degrades :
    Reply.decode (0x11 ∷ 9 ∷ 0 ∷ 0 ∷ 0 ∷ 1 ∷ b'x' ∷ [])
    ≡ Common.ok (fault (record { kind = undefined; message = codes "x" }))
unfolding Reply.decode run
later_category_degrades = refl

unknown_reply_tag : Reply.decode (0x13 ∷ 0 ∷ []) ≡ Common.err Reply.bad_tag
unfolding Reply.decode run
unknown_reply_tag = refl

empty_reply : Reply.decode [] ≡ Common.err malformed
unfolding Reply.decode run
empty_reply = refl

Reply-decode-encode_example : Reply.decode (Reply.encode runtime_fault) ≡ Common.ok runtime_fault
Reply-decode-encode_example =
    Reply-decode-encode runtime_fault x_text (rw golden_fault (omega arith))

golden_break : Reply.encode break ≡ 0x12 ∷ []
unfolding Reply.encode into_bytes
golden_break = refl

Reply-decode-append_example :
    Reply.decode (Reply.encode runtime_fault ++ 7 ∷ []) ≡ followed runtime_fault (7 ∷ [])
Reply-decode-append_example =
    Reply-decode-append runtime_fault (7 ∷ []) x_text (rw golden_fault (omega arith))

abbrev jump_error : ErrorRecord
jump_error = record { name = codes "E"; message = codes "m"; backtrace = codes "x" ∷ [] }

jump_error-IsErrorRecord : IsErrorRecord jump_error
unfolding is_utf8
jump_error-IsErrorRecord = record {
  name = record { utf8 = refl; fits = omega arith };
  message = record { utf8 = refl; fits = omega arith };
  backtrace = record { count = omega arith; texts = (x_text, tt) };
}

golden_yield_error :
    YieldReply.encode (error jump_error)
    ≡ 0x13 ∷ 0 ∷ 0 ∷ 0 ∷ 1 ∷ b'E' ∷ 0 ∷ 0 ∷ 0 ∷ 1 ∷ b'm' ∷ 0 ∷ 0 ∷ 0 ∷ 1 ∷ 0 ∷ 0 ∷ 0 ∷ 1 ∷ b'x' ∷ []
unfolding YieldReply.encode into_bytes
golden_yield_error = refl

abbrev two_bytecodes : CompileReply
two_bytecodes = CompileReply.ok ((0xff ∷ 0 ∷ []) ∷ [] ∷ [])

golden_bytecodes :
    CompileReply.encode two_bytecodes
    ≡ 0x10 ∷ 0 ∷ 0 ∷ 0 ∷ 2 ∷ 0 ∷ 0 ∷ 0 ∷ 2 ∷ 0xff ∷ 0 ∷ 0 ∷ 0 ∷ 0 ∷ 0 ∷ []
unfolding CompileReply.encode into_bytes
golden_bytecodes = refl

abbrev service_panic : Outcome
service_panic = panic (record { origin = service; error = jump_error; available = codes "x" ∷ [] })

length_panic : length (Outcome.encode service_panic) ≡ 40
unfolding Outcome.encode into_bytes
length_panic = refl

Outcome-decode-encode_example :
    Outcome.decode (Outcome.encode service_panic) ≡ Common.ok service_panic
Outcome-decode-encode_example =
    Outcome-decode-encode service_panic
      (record {
        error = jump_error-IsErrorRecord;
        available = record { count = omega arith; texts = (x_text, tt) };
      })
      (rw length_panic (omega arith))
