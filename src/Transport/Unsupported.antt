-- ===== src/Transport/Unsupported.antt =====
-- crates/kobako-transport/src/envelope/unsupported.rs: a receiver does not serve the operation.
pub mod RoundTrip
use kobako.Common.{ℕ, List}
use kobako.Transport.Bytes.{
  Read, pure, ◌>>=◌, ◌>>◌, read_u8, read_text, skip_unknown_fields, fresh, ◌▸◌, u8, bytes,
  into_bytes,
}
use kobako.Transport.Tag

abbrev pub kind_unsupported : ℕ
kind_unsupported = 0

pub record Unsupported : Type 0 where
  pub message : List ℕ

-- The refusal as a whole answer, its tag included.
unfoldable pub encode : Unsupported → List ℕ
encode refusal =
    into_bytes (fresh ▸ u8 Tag.unsupported ▸ u8 kind_unsupported ▸ bytes refusal.message)

-- The kind is read and not looked at.
unfoldable pub read : Read Unsupported
read = do read_u8; message ← read_text; skip_unknown_fields; pure (record { message = message })
