-- ===== src/Transport/Reply.antt =====
-- crates/kobako-transport/src/envelope/reply.rs: the answer to one dispatch Call.
pub mod RoundTrip
use kobako.Common.{ℕ, List, ◌==◌, if◌then◌else◌, Result}
use kobako.Transport.Bytes.{
  DecodeError, Read, pure, fail, ◌>>=◌, ◌>>◌, run, read_u8, remaining, finish, fresh, ◌▸◌, u8,
  remainder, into_bytes,
}
use kobako.Transport.Tag
use kobako.Transport.Fault
use kobako.Transport.Fault.{Fault}
use kobako.Transport.Unsupported
use kobako.Transport.Unsupported.{Unsupported}

pub data Reply : Type 0 where
  ok : List ℕ → Reply
  fault : Fault → Reply
  break : Reply
  unsupported : Unsupported → Reply

abbrev pub bad_tag : DecodeError
bad_tag = record {
  message = "Reply tag must be 0x10 (ok), 0x11 (fault), 0x12 (break), or 0x15 (unsupported)";
}

-- The arm that the tag names.
unfoldable pub read_arm : ℕ → Read Reply
read_arm t =
    if t == Tag.ok
    then (do body ← remaining; pure (ok body))
    else if t == Tag.fault
    then (do f ← Fault.read; pure (fault f))
    else if t == Tag.break
    then (do finish; pure break)
    else if t == Tag.unsupported
    then (do refusal ← Unsupported.read; pure (unsupported refusal))
    else fail bad_tag

unfoldable pub read_reply : Read Reply
read_reply = do t ← read_u8; read_arm t

unfoldable pub decode : List ℕ → Result Reply DecodeError
unfolding read_reply read_arm Fault.read Fault.from_tag Unsupported.read
decode bs = run read_reply bs

unfoldable pub encode : Reply → List ℕ
unfolding Fault.write Fault.tag Unsupported.encode
encode (ok body) = into_bytes (fresh ▸ u8 Tag.ok ▸ remainder body)
encode (fault f) = into_bytes (fresh ▸ u8 Tag.fault ▸ Fault.write f)
encode break = into_bytes (fresh ▸ u8 Tag.break)
encode (unsupported refusal) = Unsupported.encode refusal
