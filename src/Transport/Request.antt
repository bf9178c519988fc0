-- ===== src/Transport/Request.antt =====
-- crates/kobako-transport/src/envelope/request.rs: the requests of a downcall and of an upcall.
pub mod RoundTrip
pub mod Tags
use kobako.Common.{
  ℕ, Bool, true, false, Option, none, some, List, [], ◌∷◌, ◌==◌, if◌then◌else◌, Result, ok_or,
}
use kobako.Transport.Bytes.{
  DecodeError, Read, pure, fail, lift, ◌>>=◌, run, read_u8, read_u32, remaining, fresh, ◌▸◌, u8,
  u32, remainder, into_bytes,
}
use kobako.Transport.Tag
use kobako.Transport.Tag.{is_assigned}
use kobako.Transport.Call
use kobako.Transport.Call.{Call}
use kobako.Transport.Run
use kobako.Transport.Run.{Run}

-- `UnknownTag(u8)`
pub record UnknownTag : Type 0 where
  pub number : ℕ

-- `UnknownTag::new`
unfoldable pub unknown_tag : ℕ → Option UnknownTag
unknown_tag t = if is_assigned t then none else some (record { number = t })

pub data Downcall : Type 0 where
  eval : List ℕ → Downcall
  run_entry : Run → Downcall
  yield : ℕ → List ℕ → Downcall
  compile : Downcall
  unknown_down : UnknownTag → List ℕ → Downcall

pub data Upcall : Type 0 where
  call : Call → Upcall
  unknown_up : UnknownTag → List ℕ → Upcall

abbrev pub invalid_tag : DecodeError
invalid_tag = record { message = "request tag 0x00 is invalid" }

abbrev pub compile_body : DecodeError
compile_body = record { message = "a compile request carries no body" }

abbrev pub other_direction : DecodeError
other_direction = record {
  message = "request tag is assigned to the other direction or to an answer";
}

unfoldable pub read_tag : Read ℕ
read_tag = do t ← read_u8; if t == Tag.invalid then fail invalid_tag else pure t

unfoldable pub unknown : ℕ → Result UnknownTag DecodeError
unknown t = ok_or (unknown_tag t) other_direction

abbrev pub is_empty : List ℕ → Bool
is_empty [] = true
is_empty (x ∷ xs) = false

-- `tag::COMPILE if body.is_empty()`, and the arm behind it
unfoldable pub compile_arm : List ℕ → Read Downcall
compile_arm body = if is_empty body then pure compile else fail compile_body

unfoldable pub downcall_arm : ℕ → List ℕ → Read Downcall
downcall_arm t body =
    if t == Tag.eval
    then pure (eval body)
    else if t == Tag.run
    then (do r ← lift (Run.decode body); pure (run_entry r))
    else if t == Tag.yield
    then (do frame ← read_u32; args ← remaining; pure (yield frame args))
    else if t == Tag.compile
    then compile_arm body
    else (do u ← lift (unknown t); pure (unknown_down u body))

unfoldable pub read_downcall : Read Downcall
read_downcall = do t ← read_tag; body ← remaining; downcall_arm t body

unfoldable pub decode_downcall : List ℕ → Result Downcall DecodeError
unfolding read_downcall downcall_arm compile_arm read_tag unknown unknown_tag is_assigned Run.decode
decode_downcall bs = run read_downcall bs

unfoldable pub encode_downcall : Downcall → List ℕ
unfolding Run.encode
encode_downcall (eval source) = into_bytes (fresh ▸ u8 Tag.eval ▸ remainder source)
encode_downcall (run_entry r) = into_bytes (fresh ▸ u8 Tag.run ▸ remainder (Run.encode r))
encode_downcall (yield frame args) = into_bytes (fresh ▸ u8 Tag.yield ▸ u32 frame ▸ remainder args)
encode_downcall compile = into_bytes (fresh ▸ u8 Tag.compile)
encode_downcall (unknown_down t body) = into_bytes (fresh ▸ u8 t.number ▸ remainder body)

unfoldable pub upcall_arm : ℕ → List ℕ → Read Upcall
upcall_arm t body =
    if t == Tag.call
    then (do c ← lift (Call.decode body); pure (call c))
    else (do u ← lift (unknown t); pure (unknown_up u body))

unfoldable pub read_upcall : Read Upcall
read_upcall = do t ← read_tag; body ← remaining; upcall_arm t body

unfoldable pub decode_upcall : List ℕ → Result Upcall DecodeError
unfolding read_upcall upcall_arm read_tag unknown unknown_tag is_assigned Call.decode
decode_upcall bs = run read_upcall bs

unfoldable pub encode_upcall : Upcall → List ℕ
unfolding Call.encode
encode_upcall (call c) = into_bytes (fresh ▸ u8 Tag.call ▸ remainder (Call.encode c))
encode_upcall (unknown_up t body) = into_bytes (fresh ▸ u8 t.number ▸ remainder body)
