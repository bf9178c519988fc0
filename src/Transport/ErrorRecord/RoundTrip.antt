-- ===== src/Transport/ErrorRecord/RoundTrip.antt =====
-- What a reader of Error Records makes of a written one.
use kobako.Common.{ℕ, ◌≡◌, List, ◌++◌}
use kobako.Transport.Bytes.{Writer, into_bytes}
use kobako.Transport.Bytes.Parses.{Reads, Reads-bind, Reads-bind_last, Reads-pure}
use kobako.Transport.Bytes.Fields.{IsText, block, listing, Reads-text}
use kobako.Transport.Bytes.Writes.{writes, into_bytes-bytes}
use kobako.Transport.Bytes.Texts.{IsTexts, Reads-text_list, into_bytes-texts}
use kobako.Transport.ErrorRecord.{ErrorRecord, read, write}

pub record IsErrorRecord (e : ErrorRecord) : Type 0 where
  pub name : IsText e.name
  pub message : IsText e.message
  pub backtrace : IsTexts e.backtrace

abbrev pub layout : ErrorRecord → List ℕ
layout e = block e.name ++ (block e.message ++ listing e.backtrace)

pub into_bytes-write_record :
    (w : Writer) (e : ErrorRecord)
    → IsErrorRecord e
    → into_bytes (write e w) ≡ into_bytes w ++ layout e
unfolding write
into_bytes-write_record w e h =
    simp (writes, into_bytes-bytes, into_bytes-texts, h.name.fits, h.message.fits, h.backtrace)

pub Reads-error_record : (e : ErrorRecord) → IsErrorRecord e → Reads read (layout e) e
unfolding read
Reads-error_record e h = Reads-bind _ (Reads-text e.name h.name) (
    Reads-bind _ (Reads-text e.message h.message)
      (Reads-bind_last _ (Reads-text_list e.backtrace h.backtrace) (Reads-pure e)))
