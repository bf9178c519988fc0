-- ===== src/Transport/Outcome/RoundTrip.antt =====
-- A decoded Outcome is the one that was encoded.
use kobako.Common.{
  ℕ, ◌<◌, ◌^◌, ◌≡◌, refl, List, [], ◌∷◌, ◌++◌, append-nil, append_assoc, length, subst, Result,
  arith,
}
use kobako.Common
use kobako.Common.Utf8.{is_utf8}
use kobako.Transport.Bytes.Parses.{
  Ends, Ends-bind, Ends-map, Ends-last, Ends-finish, Ends-remaining, Ends-pure, run-Ends,
}
use kobako.Transport.Bytes.Fields.{IsText, block, listing, Reads-u8, Reads-text}
use kobako.Transport.Bytes.Writes.{writes, into_bytes-bytes}
use kobako.Transport.Bytes.Texts.{IsTexts, Reads-text_list, into_bytes-texts}
use kobako.Transport.Tag
use kobako.Transport.Unsupported.{kind_unsupported}
use kobako.Transport.Unsupported.RoundTrip.{Ends-refusal, encode-layout as refusal-layout}
use kobako.Transport.ErrorRecord.RoundTrip.{
  IsErrorRecord, Reads-error_record, into_bytes-write_record, layout as record_layout,
}
use kobako.Transport.Outcome.{
  Origin, sandbox, service, name, from_name, Panic, Outcome, ok, panic, unsupported, read_panic,
  read_arm, read_outcome, decode, encode,
}

pub record IsPanic (p : Panic) : Type 0 where
  pub error : IsErrorRecord p.error
  pub available : IsTexts p.available

abbrev pub IsOutcome : Outcome → Type 0
IsOutcome (ok body) = Unit {0}
IsOutcome (panic p) = IsPanic p
IsOutcome (unsupported u) = IsText u.message

abbrev pub layout : Outcome → List ℕ
layout (ok body) = Tag.ok ∷ body
layout (panic p) =
    Tag.panic ∷ (block (name p.origin) ++ (record_layout p.error ++ listing p.available))
layout (unsupported u) = Tag.unsupported ∷ kind_unsupported ∷ block u.message

name-IsText : (o : Origin) → IsText (name o)
unfolding name is_utf8
name-IsText sandbox = record { utf8 = refl; fits = omega arith }
name-IsText service = record { utf8 = refl; fits = omega arith }

from_name-name : (o : Origin) → from_name (name o) ≡ o
unfolding name from_name
from_name-name sandbox = refl
from_name-name service = refl

pub encode-layout : (r : Outcome) → IsOutcome r → encode r ≡ layout r
unfolding encode
encode-layout (ok body) h = simp writes
encode-layout (panic p) h = simp (
  writes,
  into_bytes-bytes,
  (name-IsText p.origin).fits,
  into_bytes-write_record,
  h.error,
  into_bytes-texts,
  h.available,
)
encode-layout (unsupported u) h = simp (refusal-layout, h)

Ends-panic :
    (p : Panic)
    → IsPanic p
    → Ends read_panic (block (name p.origin) ++ (record_layout p.error ++ listing p.available)) p
unfolding read_panic
Ends-panic p h = Ends-bind _ (Reads-text (name p.origin) (name-IsText p.origin)) (
    Ends-bind _ (Reads-error_record p.error h.error) (
      Ends-last _ (Reads-text_list p.available h.available)
        (Ends-finish _ (rw from_name-name (Ends-pure p [])))))

Ends-layout : (r : Outcome) → IsOutcome r → Ends read_outcome (layout r) r
unfolding read_outcome read_arm
Ends-layout (ok body) h = Ends-bind _ (Reads-u8 Tag.ok) (Ends-remaining _ (Ends-pure _ body))
Ends-layout (panic p) h = Ends-bind _ (Reads-u8 Tag.panic) (Ends-map panic (Ends-panic p h))
Ends-layout (unsupported u) h =
    Ends-bind _ (Reads-u8 Tag.unsupported) (Ends-map unsupported (Ends-refusal u h))

-- Decoding what an Outcome encodes to gives it back, on every arm, attribution included, where its
-- texts are UTF-8 and they and their number stay below 2 ^ 32, and the message fits a slice.
pub Outcome-decode-encode :
    (r : Outcome) → IsOutcome r → length (encode r) < 2 ^ 63 → decode (encode r) ≡ Common.ok r
unfolding decode
Outcome-decode-encode r h fits =
    rw (encode-layout r h) (run-Ends (Ends-layout r h) (rw (encode-layout r h) at fits))
