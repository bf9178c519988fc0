-- ===== src/Transport/YieldReply/RoundTrip.antt =====
-- A decoded Yield Reply is the one that was encoded.
use kobako.Common.{
  ℕ, ◌<◌, ◌^◌, ◌≡◌, refl, List, [], ◌∷◌, ◌++◌, append-nil, append_assoc, length, subst, Result,
}
use kobako.Common
use kobako.Transport.Bytes.Parses.{
  Ends, Ends-bind, Ends-map, Ends-last, Ends-finish, Ends-remaining, Ends-pure, run-Ends,
}
use kobako.Transport.Bytes.Fields.{IsText, block, Reads-u8}
use kobako.Transport.Bytes.Writes.{writes}
use kobako.Transport.Tag
use kobako.Transport.Unsupported.{kind_unsupported}
use kobako.Transport.Unsupported.RoundTrip.{Ends-refusal, encode-layout as refusal-layout}
use kobako.Transport.ErrorRecord.RoundTrip.{
  IsErrorRecord, Reads-error_record, into_bytes-write_record, layout as record_layout,
}
use kobako.Transport.YieldReply.{
  YieldReply, ok, break, error, unsupported, read_arm, read_yield_reply, decode, encode,
}

abbrev pub IsYieldReply : YieldReply → Type 0
IsYieldReply (ok body) = Unit {0}
IsYieldReply break = Unit {0}
IsYieldReply (error e) = IsErrorRecord e
IsYieldReply (unsupported u) = IsText u.message

abbrev pub layout : YieldReply → List ℕ
layout (ok body) = Tag.ok ∷ body
layout break = Tag.break ∷ []
layout (error e) = Tag.error ∷ record_layout e
layout (unsupported u) = Tag.unsupported ∷ kind_unsupported ∷ block u.message

pub encode-layout : (r : YieldReply) → IsYieldReply r → encode r ≡ layout r
unfolding encode
encode-layout (ok body) h = simp writes
encode-layout break h = simp writes
encode-layout (error e) h = simp (writes, into_bytes-write_record, h)
encode-layout (unsupported u) h = simp (refusal-layout, h)

Ends-layout : (r : YieldReply) → IsYieldReply r → Ends read_yield_reply (layout r) r
unfolding read_yield_reply read_arm
Ends-layout (ok body) h = Ends-bind _ (Reads-u8 Tag.ok) (Ends-remaining _ (Ends-pure _ body))
Ends-layout break h = Ends-bind _ (Reads-u8 Tag.break) (Ends-finish _ (Ends-pure _ []))
Ends-layout (error e) h =
    Ends-bind _ (Reads-u8 Tag.error)
      (Ends-last _ (Reads-error_record e h) (Ends-finish _ (Ends-pure _ [])))
Ends-layout (unsupported u) h =
    Ends-bind _ (Reads-u8 Tag.unsupported) (Ends-map unsupported (Ends-refusal u h))

-- Decoding what a Yield Reply encodes to gives it back, on every arm, where its texts are UTF-8 and
-- they and their number stay below 2 ^ 32, and the message fits a slice.
pub YieldReply-decode-encode :
    (r : YieldReply) → IsYieldReply r → length (encode r) < 2 ^ 63 → decode (encode r) ≡ Common.ok r
unfolding decode
YieldReply-decode-encode r h fits =
    rw (encode-layout r h) (run-Ends (Ends-layout r h) (rw (encode-layout r h) at fits))
