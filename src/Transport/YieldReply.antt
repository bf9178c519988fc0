-- ===== src/Transport/YieldReply.antt =====
-- crates/kobako-transport/src/envelope/reply.rs: the answer to one Yield Call.
pub mod RoundTrip
use kobako.Common.{ℕ, List, ◌==◌, if◌then◌else◌, Result}
use kobako.Transport.Bytes.{
  DecodeError, Read, pure, fail, ◌>>=◌, ◌>>◌, run, read_u8, remaining, finish, fresh, ◌▸◌, u8,
  remainder, into_bytes,
}
use kobako.Transport.Tag
use kobako.Transport.ErrorRecord
use kobako.Transport.ErrorRecord.{ErrorRecord}
use kobako.Transport.Unsupported
use kobako.Transport.Unsupported.{Unsupported}

pub data YieldReply : Type 0 where
  ok : List ℕ → YieldReply
  break : YieldReply
  error : ErrorRecord → YieldReply
  unsupported : Unsupported → YieldReply

abbrev pub bad_tag : DecodeError
bad_tag = record { message = "Yield Reply tag is not recognised" }

unfoldable pub read_arm : ℕ → Read YieldReply
read_arm t =
    if t == Tag.ok
    then (do body ← remaining; pure (ok body))
    else if t == Tag.break
    then (do finish; pure break)
    else if t == Tag.error
    then (do e ← ErrorRecord.read; finish; pure (error e))
    else if t == Tag.unsupported
    then (do refusal ← Unsupported.read; pure (unsupported refusal))
    else fail bad_tag

unfoldable pub read_yield_reply : Read YieldReply
read_yield_reply = do t ← read_u8; read_arm t

unfoldable pub decode : List ℕ → Result YieldReply DecodeError
unfolding read_yield_reply read_arm ErrorRecord.read Unsupported.read
decode bs = run read_yield_reply bs

unfoldable pub encode : YieldReply → List ℕ
unfolding ErrorRecord.write Unsupported.encode
encode (ok body) = into_bytes (fresh ▸ u8 Tag.ok ▸ remainder body)
encode break = into_bytes (fresh ▸ u8 Tag.break)
encode (error e) = into_bytes (fresh ▸ u8 Tag.error ▸ ErrorRecord.write e)
encode (unsupported refusal) = Unsupported.encode refusal
