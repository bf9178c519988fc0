-- ===== src/Transport/Runs/Requests.antt =====
-- Requests, and the theorems at such requests.
use kobako.Common.{◌≡◌, refl, [], ◌∷◌, codes, arith, ok, err}
use kobako.Transport.Bytes.{run, into_bytes}
use kobako.Transport.Tag.{is_assigned}
use kobako.Transport.Run
use kobako.Transport.Run.{Run}
use kobako.Transport.Request.{
  Downcall, yield, Upcall, unknown_up, invalid_tag, compile_body, decode_downcall, encode_downcall,
  decode_upcall, encode_upcall,
}
use kobako.Transport.Request.RoundTrip.{Downcall-decode-encode, Upcall-decode-encode}

abbrev sample_run : Run
sample_run = record { entrypoint = codes "Adder"; payload = 0x90 ∷ [] }

golden_run : Run.encode sample_run ≡ 0 ∷ 0 ∷ 0 ∷ 5 ∷ b'A' ∷ b'd' ∷ b'd' ∷ b'e' ∷ b'r' ∷ 0x90 ∷ []
unfolding Run.encode into_bytes
golden_run = refl

abbrev sample_yield : Downcall
sample_yield = yield 2 (0xc0 ∷ [])

golden_yield : encode_downcall sample_yield ≡ 3 ∷ 0 ∷ 0 ∷ 0 ∷ 2 ∷ 0xc0 ∷ []
unfolding encode_downcall into_bytes
golden_yield = refl

Downcall-decode-encode_example : decode_downcall (encode_downcall sample_yield) ≡ ok sample_yield
Downcall-decode-encode_example =
    Downcall-decode-encode sample_yield (omega arith) (rw golden_yield (omega arith))

abbrev later_upcall : Upcall
later_upcall = unknown_up (record { number = 0x20 }) (1 ∷ [])

golden_unknown : encode_upcall later_upcall ≡ 0x20 ∷ 1 ∷ []
unfolding encode_upcall into_bytes
golden_unknown = refl

Upcall-decode-encode_example : decode_upcall (encode_upcall later_upcall) ≡ ok later_upcall
unfolding is_assigned
Upcall-decode-encode_example =
    Upcall-decode-encode later_upcall (record { unassigned = refl })
      (rw golden_unknown (omega arith))

compile_with_body : decode_downcall (8 ∷ 1 ∷ []) ≡ err compile_body
unfolding decode_downcall run
compile_with_body = refl

zeroed_request : decode_upcall (0 ∷ 0 ∷ []) ≡ err invalid_tag
unfolding decode_upcall run
zeroed_request = refl
