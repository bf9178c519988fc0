-- ===== src/Transport/Run/RoundTrip.antt =====
-- A decoded Run is the one that was encoded.
use kobako.Common.{ℕ, ◌<◌, ◌^◌, ◌≡◌, List, ◌++◌, length, ok}
use kobako.Transport.Bytes.Parses.{Ends, Ends-bind, Ends-remaining, Ends-pure, run-Ends}
use kobako.Transport.Bytes.Fields.{IsText, block, Reads-text}
use kobako.Transport.Bytes.Writes.{writes, into_bytes-bytes}
use kobako.Transport.Run.{Run, read_run, decode, encode}

abbrev pub layout : Run → List ℕ
layout r = block r.entrypoint ++ r.payload

pub encode-layout : (r : Run) → IsText r.entrypoint → encode r ≡ layout r
unfolding encode
encode-layout r h = simp (writes, into_bytes-bytes, h.fits)

Ends-run : (r : Run) → IsText r.entrypoint → Ends read_run (layout r) r
unfolding read_run
Ends-run r h = Ends-bind _ (Reads-text r.entrypoint h) (Ends-remaining _ (Ends-pure r r.payload))

-- Decoding what a Run encodes to gives the Run back, where its entrypoint is UTF-8 below 2 ^ 32
-- bytes and the message fits a slice.
pub Run-decode-encode :
    (r : Run) → IsText r.entrypoint → length (encode r) < 2 ^ 63 → decode (encode r) ≡ ok r
unfolding decode
Run-decode-encode r h fits =
    rw (encode-layout r h) (run-Ends (Ends-run r h) (rw (encode-layout r h) at fits))
