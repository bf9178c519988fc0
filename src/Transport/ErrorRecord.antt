-- ===== src/Transport/ErrorRecord.antt =====
-- crates/kobako-transport/src/envelope/error_record.rs: the guest's report that something raised.
pub mod RoundTrip
use kobako.Common.{ℕ, List}
use kobako.Transport.Bytes.{Read, pure, ◌>>=◌, read_text, read_text_list, Writer, ◌▸◌, bytes, list}

pub record ErrorRecord : Type 0 where
  pub name : List ℕ
  pub message : List ℕ
  pub backtrace : List (List ℕ)

unfoldable pub read : Read ErrorRecord
read = do
  name ← read_text
  message ← read_text
  backtrace ← read_text_list
  pure (record { name = name; message = message; backtrace = backtrace })

unfoldable pub write : ErrorRecord → Writer → Writer
write e w = w ▸ bytes e.name ▸ bytes e.message ▸ list e.backtrace
