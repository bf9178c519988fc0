-- ===== src/Transport/Fault/RoundTrip.antt =====
-- What a reader of Faults makes of a written one, whatever a later version writes behind it.
use kobako.Common.{ℕ, ◌≡◌, refl, some, List, [], ◌∷◌, ◌++◌}
use kobako.Transport.Bytes.{Writer, pure, into_bytes}
use kobako.Transport.Bytes.Parses.{Ends, Ends-bind, Ends-skip, Ends-pure}
use kobako.Transport.Bytes.Fields.{IsText, block, Reads-text, Reads-u8}
use kobako.Transport.Bytes.Writes.{writes, into_bytes-bytes}
use kobako.Transport.Fault.{
  FaultKind, runtime, argument, undefined, internal, block as block_kind, Fault, tag, from_tag,
  name, from_name, read, write,
}

from_tag-tag : (k : FaultKind) → from_tag (tag k) ≡ k
unfolding from_tag tag
from_tag-tag runtime = refl
from_tag-tag argument = refl
from_tag-tag undefined = refl
from_tag-tag internal = refl
from_tag-tag block_kind = refl

from_name-name : (k : FaultKind) → from_name (name k) ≡ some k
unfolding from_name name
from_name-name runtime = refl
from_name-name argument = refl
from_name-name undefined = refl
from_name-name internal = refl
from_name-name block_kind = refl

-- The name and the tag of a category read back as that category.
pub FaultKind-codes : (k : FaultKind) → (from_name (name k) ≡ some k) × (from_tag (tag k) ≡ k)
FaultKind-codes k = (from_name-name k, from_tag-tag k)

abbrev pub layout : Fault → List ℕ
layout f = tag f.kind ∷ block f.message

pub into_bytes-write_fault :
    (w : Writer) (f : Fault) → IsText f.message → into_bytes (write f w) ≡ into_bytes w ++ layout f
unfolding write
into_bytes-write_fault w f h = simp (writes, into_bytes-bytes, h.fits)

pub Ends-fault :
    (f : Fault) (more : List ℕ)
    → IsText f.message
    → Ends read (tag f.kind ∷ (block f.message ++ more)) f
unfolding read
Ends-fault f more h =
    Ends-bind _ (Reads-u8 (tag f.kind)) (Ends-bind _ (Reads-text f.message h) (Ends-skip _ tagged))
  where
    tagged : Ends (pure (record { kind = from_tag (tag f.kind); message = f.message })) [] f
    tagged = rw from_tag-tag (Ends-pure f [])
