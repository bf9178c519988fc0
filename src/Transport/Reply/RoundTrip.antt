-- ===== src/Transport/Reply/RoundTrip.antt =====
-- A decoded Reply is the one that was encoded, and a Fault or a refusal that a later version wrote
-- further fields behind is still read.
use kobako.Common.{
  ℕ, ◌<◌, ◌^◌, ◌≡◌, refl, List, [], ◌∷◌, ◌++◌, append-nil, append_assoc, length, subst, Result,
}
use kobako.Common
use kobako.Transport.Bytes.{DecodeError, past_last_field}
use kobako.Transport.Bytes.Parses.{
  Ends, Ends-bind, Ends-map, Ends-finish, Ends-remaining, Ends-pure, run-Ends, Fails-bind,
  Fails-finish, run-Fails,
}
use kobako.Transport.Bytes.Fields.{IsText, block, Reads-u8}
use kobako.Transport.Bytes.Writes.{writes}
use kobako.Transport.Tag
use kobako.Transport.Fault
use kobako.Transport.Fault.{Fault}
use kobako.Transport.Fault.RoundTrip.{Ends-fault, into_bytes-write_fault}
use kobako.Transport.Unsupported.{kind_unsupported}
use kobako.Transport.Unsupported.RoundTrip.{Ends-unsupported, encode-layout as refusal-layout}
use kobako.Transport.Reply.{
  Reply, ok, fault, break, unsupported, read_arm, read_reply, decode, encode,
}

abbrev pub IsReply : Reply → Type 0
IsReply (ok body) = Unit {0}
IsReply (fault f) = IsText f.message
IsReply break = Unit {0}
IsReply (unsupported u) = IsText u.message

-- The bytes behind a reply's last field that its reader takes: any behind a Fault or a refusal.
abbrev pub open_layout : Reply → List ℕ → List ℕ
open_layout (ok body) more = Tag.ok ∷ body
open_layout (fault f) more = Tag.fault ∷ Fault.tag f.kind ∷ (block f.message ++ more)
open_layout break more = Tag.break ∷ []
open_layout (unsupported u) more = Tag.unsupported ∷ kind_unsupported ∷ (block u.message ++ more)

encode-layout : (r : Reply) → IsReply r → encode r ≡ open_layout r []
unfolding encode
encode-layout (ok body) h = simp writes
encode-layout (fault f) h = simp (writes, into_bytes-write_fault, h, append-nil)
encode-layout break h = simp writes
encode-layout (unsupported u) h = simp (refusal-layout, h, append-nil)

Ends-arm : (r : Reply) (more : List ℕ) → IsReply r → Ends read_reply (open_layout r more) r
unfolding read_reply read_arm
Ends-arm (ok body) more h = Ends-bind _ (Reads-u8 Tag.ok) (Ends-remaining _ (Ends-pure _ body))
Ends-arm (fault f) more h = Ends-bind _ (Reads-u8 Tag.fault) (Ends-map fault (Ends-fault f more h))
Ends-arm break more h = Ends-bind _ (Reads-u8 Tag.break) (Ends-finish _ (Ends-pure _ []))
Ends-arm (unsupported u) more h =
    Ends-bind _ (Reads-u8 Tag.unsupported)
      (Ends-map unsupported (Ends-unsupported kind_unsupported u more h))

-- Decoding what a Reply encodes to gives the Reply back, on every arm, where its text is UTF-8
-- below 2 ^ 32 bytes and the message fits a slice.
pub Reply-decode-encode :
    (r : Reply) → IsReply r → length (encode r) < 2 ^ 63 → decode (encode r) ≡ Common.ok r
unfolding decode
Reply-decode-encode r h fits =
    rw (encode-layout r h) (run-Ends (Ends-arm r [] h) (rw (encode-layout r h) at fits))

-- What a Reply reads as with further bytes behind it: a body takes them, a Fault and a refusal skip
-- them, and a break refuses any.
abbrev pub followed : Reply → List ℕ → Result Reply DecodeError
followed (ok body) more = Common.ok (ok (body ++ more))
followed (fault f) more = Common.ok (fault f)
followed break [] = Common.ok break
followed break (y ∷ more) = Common.err past_last_field
followed (unsupported u) more = Common.ok (unsupported u)

-- With further bytes behind what a Reply encodes to, decoding gives the value on an ok arm with the
-- bytes in its body, the same Fault or refusal, and an error on a break with any byte behind it.
pub Reply-decode-append :
    (r : Reply) (more : List ℕ)
    → IsReply r
    → length (encode r ++ more) < 2 ^ 63
    → decode (encode r ++ more) ≡ followed r more
unfolding decode
Reply-decode-append (ok body) more h fits =
    rw at_end (run-Ends (Ends-arm (ok (body ++ more)) [] tt) (rw at_end at fits))
  where
    at_end : encode (ok body) ++ more ≡ Tag.ok ∷ (body ++ more)
    at_end = rw (encode-layout (ok body) h)
Reply-decode-append (fault f) more h fits =
    rw at_end (run-Ends (Ends-arm (fault f) more h) (rw at_end at fits))
  where
    at_end : encode (fault f) ++ more ≡ open_layout (fault f) more
    at_end = simp (encode-layout, h, append-nil, append_assoc)
Reply-decode-append break [] h fits =
    rw append-nil (Reply-decode-encode break h (rw append-nil at fits))
Reply-decode-append break (y ∷ more) h fits = rw at_end (
    run-Fails
      (unfold read_reply read_arm in Fails-bind _ (Reads-u8 Tag.break) (Fails-finish _ y more))
      (rw at_end at fits))
  where
    at_end : encode break ++ y ∷ more ≡ Tag.break ∷ y ∷ more
    at_end = rw (encode-layout break h)
Reply-decode-append (unsupported u) more h fits =
    rw at_end (run-Ends (Ends-arm (unsupported u) more h) (rw at_end at fits))
  where
    at_end : encode (unsupported u) ++ more ≡ open_layout (unsupported u) more
    at_end = simp (encode-layout, h, append-nil, append_assoc)
