-- ===== src/Transport/CompileReply.antt =====
-- crates/kobako-transport/src/envelope/compile_reply.rs: how compiling the source Snippets ended.
pub mod RoundTrip
use kobako.Common.{ℕ, List, ◌==◌, if◌then◌else◌, Result}
use kobako.Transport.Bytes.{
  DecodeError, Read, pure, fail, ◌>>=◌, ◌>>◌, run, read_u8, read_bytes_list, finish, fresh, ◌▸◌, u8,
  list, into_bytes,
}
use kobako.Transport.Tag
use kobako.Transport.ErrorRecord
use kobako.Transport.ErrorRecord.{ErrorRecord}
use kobako.Transport.Unsupported
use kobako.Transport.Unsupported.{Unsupported}

pub data CompileReply : Type 0 where
  ok : List (List ℕ) → CompileReply
  error : ErrorRecord → CompileReply
  unsupported : Unsupported → CompileReply

abbrev pub bad_tag : DecodeError
bad_tag = record {
  message = "Compile Reply tag must be 0x10 (ok), 0x13 (error), or 0x15 (unsupported)";
}

unfoldable pub read_arm : ℕ → Read CompileReply
read_arm t =
    if t == Tag.ok
    then (do bytecodes ← read_bytes_list; finish; pure (ok bytecodes))
    else if t == Tag.error
    then (do e ← ErrorRecord.read; finish; pure (error e))
    else if t == Tag.unsupported
    then (do refusal ← Unsupported.read; pure (unsupported refusal))
    else fail bad_tag

unfoldable pub read_compile_reply : Read CompileReply
read_compile_reply = do t ← read_u8; read_arm t

unfoldable pub decode : List ℕ → Result CompileReply DecodeError
unfolding read_compile_reply read_arm ErrorRecord.read Unsupported.read
decode bs = run read_compile_reply bs

unfoldable pub encode : CompileReply → List ℕ
unfolding ErrorRecord.write Unsupported.encode
encode (ok bytecodes) = into_bytes (fresh ▸ u8 Tag.ok ▸ list bytecodes)
encode (error e) = into_bytes (fresh ▸ u8 Tag.error ▸ ErrorRecord.write e)
encode (unsupported refusal) = Unsupported.encode refusal
