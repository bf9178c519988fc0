-- ===== src/Endpoint/Replies.antt =====
-- crates/kobako-runtime/src/endpoint/dispatch.rs: how an upcall ends, the words of its failures, and
-- the actions on an instance's state. An error keeps the state it is met in.
use kobako.Common.{
  ℕ, ◌+◌, ◌-◌, ◌%◌, ◌^◌, Option, none, some, List, ◌++◌, String, length, codes, Result, ok, err,
}
use kobako.Transport.Bytes.{DecodeError}
use kobako.Transport.Fault.{internal, runtime}
use kobako.Transport.Reply
use kobako.Transport.Reply.{Reply, fault, unsupported}
use kobako.Transport.YieldReply
use kobako.Transport.YieldReply.{YieldReply}
use kobako.Endpoint.Errors.{Trap, other}
use kobako.Endpoint.Buffer.{ReadError, checked_payload_len}

-- How an upcall ends an invocation instead of answering.
pub data UpcallEnd (F : Type 0) : Type 0 where
  fault_end : F → UpcallEnd F
  abandoned_end : UpcallEnd F
  unwritable : String → UpcallEnd F

abbrev pub Act : Type 0 → Type 0 → Type 0
Act G A = G → Result A String × G

module _ {G A : Type 0} where
  abbrev pub pure : A → Act G A
  pure a g = (ok a, g)

  abbrev pub fail : String → Act G A
  fail reason g = (err reason, g)

  abbrev pub lift : Result A String → Act G A
  lift r g = (r, g)

abbrev pub and_then : {G A B : Type 0} → Result A String × G → (A → Act G B) → Result B String × G
and_then (ok a, g) f = f a g
and_then (err reason, g) f = (err reason, g)

infixl 5 ◌>>=◌
abbrev pub ◌>>=◌ : {G A B : Type 0} → Act G A → (A → Act G B) → Act G B
◌>>=◌ m f g = and_then (m g) f

-- `open += 1` and `open -= 1` on a u32
abbrev pub one_more : ℕ → ℕ
one_more n = (n + 1) % 2 ^ 32

abbrev pub one_less : ℕ → ℕ
one_less n = (n + (2 ^ 32 - 1)) % 2 ^ 32

abbrev pub internal_fault : String → Reply
internal_fault reason = fault (record { kind = internal; message = codes reason })

-- The fault that stands for an answer that no message holds.
abbrev pub too_long : String → Reply
too_long limit = fault (record {
  kind = runtime;
  message = codes "Sandbox could not write the Service's answer: " ++ codes limit;
})

unfoldable pub fit_in_message : Reply → Reply
unfolding checked_payload_len Reply.encode
fit_in_message reply = elim (checked_payload_len (length (Reply.encode reply))) [
  | ok len ↦ reply
  | err limit ↦ too_long limit
]

abbrev pub raised : String
raised =
    "a Sandbox callback raised an exception instead of returning a fault — please report this as a kobako bug"

abbrev pub not_served : Reply
not_served = unsupported (record { message = codes "the host does not serve this request" })

abbrev pub request_error : ReadError → String
request_error ReadError.too_large = "request payload exceeds the 16 MiB limit"
request_error ReadError.out_of_bounds = "the Sandbox produced an out-of-bounds request"

abbrev pub block_error : ReadError → String
block_error ReadError.too_large = "block result payload exceeds the 16 MiB limit"
block_error ReadError.out_of_bounds = "the Sandbox returned an out-of-bounds block result"

-- `map_err`
abbrev pub named_by : {A : Type 0} → (ReadError → String) → Result A ReadError → Result A String
named_by name (ok a) = ok a
named_by name (err e) = err (name e)

-- `get_or_insert`
abbrev pub first_of : {A : Type 0} → Option A → A → Option A
first_of none a = some a
first_of (some kept) a = some kept

-- What `YieldReply::decode` is given, with both reasons made a Trap.
abbrev pub framed : Result YieldReply DecodeError → Result YieldReply Trap
framed (ok reply) = ok reply
framed (err e) = err (other (codes e.message))

unfoldable pub yield_reply_of : Result (List ℕ) String → Result YieldReply Trap
unfolding YieldReply.decode
yield_reply_of (ok bytes) = framed (YieldReply.decode bytes)
yield_reply_of (err reason) = err (other (codes reason))

-- `unwrap_or_else` of `handle`
abbrev pub or_internal : Result Reply String → Reply
or_internal (ok reply) = reply
or_internal (err reason) = internal_fault reason
