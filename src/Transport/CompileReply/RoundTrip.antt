-- ===== src/Transport/CompileReply/RoundTrip.antt =====
-- A decoded Compile Reply is the one that was encoded.
use kobako.Common.{
  ℕ, ◌<◌, ◌^◌, ◌≡◌, refl, List, [], ◌∷◌, ◌++◌, append-nil, append_assoc, length, subst, Result,
}
use kobako.Common
use kobako.Transport.Bytes.Parses.{
  Ends, Ends-bind, Ends-map, Ends-last, Ends-finish, Ends-pure, run-Ends,
}
use kobako.Transport.Bytes.Fields.{IsText, block, listing, Reads-u8}
use kobako.Transport.Bytes.Writes.{writes, into_bytes-list}
use kobako.Transport.Bytes.Texts.{AreFitting, Reads-bytes_list}
use kobako.Transport.Tag
use kobako.Transport.Unsupported.{kind_unsupported}
use kobako.Transport.Unsupported.RoundTrip.{Ends-refusal, encode-layout as refusal-layout}
use kobako.Transport.ErrorRecord.RoundTrip.{
  IsErrorRecord, Reads-error_record, into_bytes-write_record, layout as record_layout,
}
use kobako.Transport.CompileReply.{
  CompileReply, ok, error, unsupported, read_arm, read_compile_reply, decode, encode,
}

abbrev pub IsCompileReply : CompileReply → Type 0
IsCompileReply (ok bytecodes) = AreFitting bytecodes
IsCompileReply (error e) = IsErrorRecord e
IsCompileReply (unsupported u) = IsText u.message

abbrev pub layout : CompileReply → List ℕ
layout (ok bytecodes) = Tag.ok ∷ listing bytecodes
layout (error e) = Tag.error ∷ record_layout e
layout (unsupported u) = Tag.unsupported ∷ kind_unsupported ∷ block u.message

pub encode-layout : (r : CompileReply) → IsCompileReply r → encode r ≡ layout r
unfolding encode
encode-layout (ok bytecodes) h = simp (writes, into_bytes-list, h.count, h.items)
encode-layout (error e) h = simp (writes, into_bytes-write_record, h)
encode-layout (unsupported u) h = simp (refusal-layout, h)

Ends-layout : (r : CompileReply) → IsCompileReply r → Ends read_compile_reply (layout r) r
unfolding read_compile_reply read_arm
Ends-layout (ok bytecodes) h =
    Ends-bind _ (Reads-u8 Tag.ok)
      (Ends-last _ (Reads-bytes_list bytecodes h) (Ends-finish _ (Ends-pure _ [])))
Ends-layout (error e) h =
    Ends-bind _ (Reads-u8 Tag.error)
      (Ends-last _ (Reads-error_record e h) (Ends-finish _ (Ends-pure _ [])))
Ends-layout (unsupported u) h =
    Ends-bind _ (Reads-u8 Tag.unsupported) (Ends-map unsupported (Ends-refusal u h))

-- Decoding what a Compile Reply encodes to gives it back, on every arm, where its byte strings and
-- lists stay below 2 ^ 32, its texts are UTF-8, and the message fits a slice.
pub CompileReply-decode-encode :
    (r : CompileReply)
    → IsCompileReply r
    → length (encode r) < 2 ^ 63
    → decode (encode r) ≡ Common.ok r
unfolding decode
CompileReply-decode-encode r h fits =
    rw (encode-layout r h) (run-Ends (Ends-layout r h) (rw (encode-layout r h) at fits))
