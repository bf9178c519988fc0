-- ===== src/Endpoint/Runs/Invocations.antt =====
-- Runs of the frames of an invocation on a small Catalog.
use kobako.Common.{
  ℕ, ◌≡◌, ◌⊎◌, refl, arith, false, List, [], ◌∷◌, length, take, drop, any, codes, ok, ◌++◌,
}
use kobako.Common.Utf8.{is_utf8}
use kobako.Common.Words.{from_be_bytes, to_be_bytes}
use kobako.Transport.Abi.{frame_len_size}
use kobako.Transport.Bytes.{into_bytes}
use kobako.Transport.CompileReply.{CompileReply}
use kobako.Transport.Preamble
use kobako.Transport.Preamble.{Preamble}
use kobako.Transport.Preamble.Bodies.{source, encode_bindings, encode_snippets}
use kobako.Transport.Preamble.RoundTrip.{IsPreamble}
use kobako.Host.Snippets
use kobako.Host.Catalog.{Catalog, preamble, compile}
use kobako.Endpoint.Invoke.{stdin_content, compiled_bytecodes}
use kobako.Endpoint.Invoke.Stdin.{stdin_content-framed, stdin_content-fits}
use kobako.Endpoint.Invoke.Compiled.{stdin_content-compile}

abbrev scripted : Catalog ℕ
scripted = record {
  bindings = (codes "S", 1) ∷ [];
  snippets = record { entries = source (codes "A") (49 ∷ []) ∷ [] };
  flags = [];
}

abbrev compiles : Preamble → CompileReply
compiles p = CompileReply.ok ((2 ∷ 3 ∷ []) ∷ [])

scripted-length : length (Preamble.encode (preamble scripted)) ≡ 40
unfolding preamble Preamble.encode into_bytes
scripted-length = refl

scripted-IsPreamble : IsPreamble (preamble scripted)
unfolding is_utf8 preamble encode_bindings encode_snippets into_bytes
scripted-IsPreamble = record {
  paths = record { count = omega arith; texts = (record { utf8 = refl; fits = omega arith }, tt) };
  snippets = record {
    count = omega arith;
    each = (
      (record { utf8 = refl; fits = omega arith }, record { utf8 = refl; fits = omega arith }),
      tt,
    );
  };
  flags = tt;
  framed = record { count = omega arith; bodies = omega arith };
}

stdin_content-framed_example :
    (content : List ℕ) × (stdin_content (preamble scripted) ≡ ok content)
    × (from_be_bytes (take frame_len_size content) ≡ length (drop frame_len_size content))
    × (Preamble.decode (drop frame_len_size content) ≡ ok (preamble scripted))
stdin_content-framed_example =
    stdin_content-framed (preamble scripted) scripted-IsPreamble (rw scripted-length (omega arith))

stdin_content-compile_example :
    ((compiled : List ℕ) × (stdin_content
          (preamble (compile (λ p. compiled_bytecodes p (compiles p)) scripted))
        ≡ ok compiled))
    × ((any Snippets.is_source
            (compile (λ p. compiled_bytecodes p (compiles p)) scripted).snippets.entries
          ≡ false)
        ⊎ (compile (λ p. compiled_bytecodes p (compiles p)) scripted ≡ scripted))
stdin_content-compile_example =
    stdin_content-compile scripted compiles
      (to_be_bytes (length (Preamble.encode (preamble scripted)))
        ++ Preamble.encode (preamble scripted))
      (stdin_content-fits (preamble scripted) (rw scripted-length (omega arith)))
