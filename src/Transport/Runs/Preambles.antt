-- ===== src/Transport/Runs/Preambles.antt =====
-- Preambles, and the theorems at such preambles.
use kobako.Common.{◌≡◌, refl, true, [], ◌∷◌, ◌++◌, codes, arith, length, ok, err}
use kobako.Common.Outcomes.{map_ok}
use kobako.Common.Utf8.{is_utf8}
use kobako.Transport.Bytes.{run, into_bytes}
use kobako.Transport.Preamble
use kobako.Transport.Preamble.{Preamble, Entry, entries, assemble}
use kobako.Transport.Preamble.Bodies.{source, encode_bindings, encode_snippets, encode_flag}
use kobako.Transport.Preamble.Records.{empty, unknown_critical, repeated}
use kobako.Transport.Preamble.Frames.{absorb, AreFramed, framed, Preamble-decode-records}
use kobako.Transport.Preamble.RoundTrip.{IsPreamble, Preamble-decode-encode}
use kobako.Transport.Preamble.Unknown.{judged, Preamble-decode-unknown}

abbrev sample : Preamble
sample = record {
  bindings = record { paths = codes "KV" ∷ [] };
  snippets = record { entries = source (codes "a") (codes "1") ∷ [] };
  flags = record { name = codes "f"; value = []; critical = true } ∷ [];
}

golden_preamble : length (Preamble.encode sample) ≡ 56
unfolding Preamble.encode into_bytes
golden_preamble = refl

sample-AreFramed : AreFramed (entries sample)
unfolding encode_bindings encode_snippets encode_flag into_bytes
sample-AreFramed = record { count = omega arith; bodies = omega arith }

sample-IsPreamble : IsPreamble sample
unfolding is_utf8
sample-IsPreamble = record {
  paths = record { count = omega arith; texts = (record { utf8 = refl; fits = omega arith }, tt) };
  snippets = record {
    count = omega arith;
    each = (
      (record { utf8 = refl; fits = omega arith }, record { utf8 = refl; fits = omega arith }),
      tt,
    );
  };
  flags = (
    record {
      name = record { utf8 = refl; fits = omega arith };
      value = record { utf8 = refl; fits = omega arith };
    },
    tt,
  );
  framed = sample-AreFramed;
}

Preamble-decode-encode_example : Preamble.decode (Preamble.encode sample) ≡ ok sample
Preamble-decode-encode_example =
    Preamble-decode-encode sample sample-IsPreamble (rw golden_preamble (omega arith))

abbrev later_record : Entry
later_record = record { is_critical = true; kind = 0x20; body = 1 ∷ 2 ∷ [] }

Preamble-decode-records_example :
    Preamble.decode (framed (later_record ∷ []))
    ≡ map_ok assemble (absorb (later_record ∷ []) empty)
unfolding into_bytes
Preamble-decode-records_example =
    Preamble-decode-records (later_record ∷ [])
      (record { count = omega arith; bodies = (omega arith, tt) }) (omega arith)

critical_is_refused :
    Preamble.decode (0 ∷ 0 ∷ 0 ∷ 1 ∷ 1 ∷ 0x20 ∷ 0 ∷ 0 ∷ 0 ∷ 0 ∷ []) ≡ err unknown_critical
unfolding Preamble.decode run
critical_is_refused = refl

repeated_is_refused :
    Preamble.decode (
      0 ∷ 0 ∷ 0 ∷ 2 ∷ 1 ∷ 5 ∷ 0 ∷ 0 ∷ 0 ∷ 4 ∷ 0 ∷ 0 ∷ 0 ∷ 0 ∷ 1 ∷ 5 ∷ 0 ∷ 0 ∷ 0 ∷ 4 ∷ 0 ∷ 0 ∷ 0 ∷ 0
      ∷ [])
    ≡ err repeated
unfolding Preamble.decode run
repeated_is_refused = refl

Preamble-decode-unknown_example :
    Preamble.decode (framed (entries sample ++ later_record ∷ []))
    ≡ judged later_record (Preamble.decode (framed (entries sample ++ [])))
unfolding encode_bindings encode_snippets encode_flag into_bytes
Preamble-decode-unknown_example =
    Preamble-decode-unknown sample later_record [] sample-IsPreamble (omega arith) (omega arith)
      (omega arith) (record { count = omega arith; bodies = omega arith }) sample-AreFramed
      (omega arith) (omega arith)
