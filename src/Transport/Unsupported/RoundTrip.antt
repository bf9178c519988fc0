-- ===== src/Transport/Unsupported/RoundTrip.antt =====
-- What a reader makes of a refusal, whatever its kind and whatever a later version writes behind it.
use kobako.Common.{ℕ, ◌≡◌, List, [], ◌∷◌, ◌++◌, append-nil, subst}
use kobako.Transport.Bytes.Parses.{Ends, Ends-bind, Ends-skip, Ends-pure}
use kobako.Transport.Bytes.Fields.{IsText, block, Reads-text, Reads-u8}
use kobako.Transport.Bytes.Writes.{writes, into_bytes-bytes}
use kobako.Transport.Tag
use kobako.Transport.Unsupported.{Unsupported, kind_unsupported, read, encode}

abbrev pub layout : Unsupported → List ℕ
layout u = Tag.unsupported ∷ kind_unsupported ∷ block u.message

pub encode-layout : (u : Unsupported) → IsText u.message → encode u ≡ layout u
unfolding encode
encode-layout u h = simp (writes, into_bytes-bytes, h.fits)

pub Ends-unsupported :
    (kind : ℕ) (u : Unsupported) (more : List ℕ)
    → IsText u.message
    → Ends read (kind ∷ (block u.message ++ more)) u
unfolding read
Ends-unsupported kind u more h =
    Ends-bind _ (Reads-u8 kind)
      (Ends-bind _ (Reads-text u.message h) (Ends-skip _ (Ends-pure u [])))

pub Ends-refusal :
    (u : Unsupported) → IsText u.message → Ends read (kind_unsupported ∷ block u.message) u
Ends-refusal u h =
    subst (λ l. Ends read (kind_unsupported ∷ l) u) (append-nil (block u.message))
      (Ends-unsupported kind_unsupported u [] h)
