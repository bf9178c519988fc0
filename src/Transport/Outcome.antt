-- ===== src/Transport/Outcome.antt =====
-- crates/kobako-transport/src/envelope/outcome.rs: one invocation's final result.
pub mod RoundTrip
use kobako.Common.{ℕ, List, ◌==◌, bytes_eq, codes, if◌then◌else◌, Result}
use kobako.Transport.Bytes.{
  DecodeError, Read, pure, fail, ◌>>=◌, ◌>>◌, run, read_u8, read_text, read_text_list, remaining,
  finish, fresh, ◌▸◌, u8, bytes, list, remainder, into_bytes,
}
use kobako.Transport.Tag
use kobako.Transport.ErrorRecord
use kobako.Transport.ErrorRecord.{ErrorRecord}
use kobako.Transport.Unsupported
use kobako.Transport.Unsupported.{Unsupported}

pub data Origin : Type 0 where
  sandbox service : Origin

unfoldable pub name : Origin → List ℕ
name sandbox = codes "sandbox"
name service = codes "service"

unfoldable pub from_name : List ℕ → Origin
from_name n = if bytes_eq n (codes "service") then service else sandbox

pub record Panic : Type 0 where
  pub origin : Origin
  pub error : ErrorRecord
  pub available : List (List ℕ)

pub data Outcome : Type 0 where
  ok : List ℕ → Outcome
  panic : Panic → Outcome
  unsupported : Unsupported → Outcome

abbrev pub bad_tag : DecodeError
bad_tag = record { message = "Outcome tag must be 0x10 (ok), 0x14 (panic), or 0x15 (unsupported)" }

unfoldable pub read_panic : Read Panic
read_panic = do
  origin ← read_text
  e ← ErrorRecord.read
  available ← read_text_list
  finish
  pure (record { origin = from_name origin; error = e; available = available })

unfoldable pub read_arm : ℕ → Read Outcome
read_arm t =
    if t == Tag.ok
    then (do body ← remaining; pure (ok body))
    else if t == Tag.panic
    then (do p ← read_panic; pure (panic p))
    else if t == Tag.unsupported
    then (do refusal ← Unsupported.read; pure (unsupported refusal))
    else fail bad_tag

unfoldable pub read_outcome : Read Outcome
read_outcome = do t ← read_u8; read_arm t

unfoldable pub decode : List ℕ → Result Outcome DecodeError
unfolding read_outcome read_arm read_panic from_name ErrorRecord.read Unsupported.read
decode bs = run read_outcome bs

unfoldable pub encode : Outcome → List ℕ
unfolding name ErrorRecord.write Unsupported.encode
encode (ok body) = into_bytes (fresh ▸ u8 Tag.ok ▸ remainder body)
encode (panic p) =
    into_bytes
      (fresh ▸ u8 Tag.panic ▸ bytes (name p.origin) ▸ ErrorRecord.write p.error ▸ list p.available)
encode (unsupported refusal) = Unsupported.encode refusal
