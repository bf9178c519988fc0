-- ===== src/Endpoint/Invoke/Compiled.antt =====
-- Compiling the snippets does not cost an invocation its Preamble.
use kobako.Common.{
  ℕ, ◌≡◌, refl, ap, ◌∙◌, Bool, true, false, Option, none, some, List, length, ok, any, Bool-cases,
  inl, inr, ◌⊎◌, ◌++◌, ◌%◌, ◌^◌, sym, arith, ◌==◌,
}
use kobako.Transport.CompileReply.{CompileReply}
use kobako.Transport.Preamble
use kobako.Transport.Preamble.{Preamble}
use kobako.Host.Snippets
use kobako.Host.Catalog.{Catalog, preamble, compile}
use kobako.Endpoint.Buffer.{checked_payload_len}
use kobako.Endpoint.Invoke.{
  stdin_content, compiled_bytecodes, one_per_source, replay, replay_fits, some_where,
}
use kobako.Common.Outcomes.{Result-cases}
use kobako.Host.Snippets.Replay.{sources, any-replace}
use kobako.Endpoint.Buffer.RoundTrip.{Option-cases}
use kobako.Common.Words.{to_be_bytes}

some_where_inv {ℓ} :
    {A : Type ℓ} (b : Bool) (a a' : A) → some_where b a ≡ some a' → (b ≡ true) × (a ≡ a')
some_where_inv true a a' e = (refl, cc)
some_where_inv false a a' e = cc

-- What is replayed is what was answered, a body for each source, and fits with the rest.
pub compiled_bytecodes_inv :
    (p : Preamble) (reply : CompileReply) (bodies : List (List ℕ))
    → compiled_bytecodes p reply ≡ some bodies
    → (length bodies ≡ sources p.snippets.entries) × (replay_fits p bodies ≡ true)
unfolding compiled_bytecodes one_per_source
compiled_bytecodes_inv p (CompileReply.error e) bodies h = cc
compiled_bytecodes_inv p (CompileReply.unsupported refusal) bodies h = cc
compiled_bytecodes_inv p (CompileReply.ok bytecodes) bodies h =
    elim (Bool-cases (length bytecodes == sources p.snippets.entries)) [
      | inl counted ↦
          let (fits, same) =
            some_where_inv (replay_fits p bytecodes) bytecodes bodies
              (rw (compiled_bytecodes, one_per_source, counted) at h) in
          (ap length (sym same) ∙ ground (arith, counted), ap (replay_fits p) (sym same) ∙ fits)
      | inr uncounted ↦ absurd (nothing (rw (compiled_bytecodes, one_per_source, uncounted) at h))
    ]
  where
    nothing : ◌≡◌ {A = Option (List (List ℕ))} none (some bodies) → ⊥
    nothing e = cc

stdin_content-replay :
    (p : Preamble) (bodies : List (List ℕ))
    → replay_fits p bodies ≡ true
    → (content : List ℕ) × (stdin_content (replay p bodies) ≡ ok content)
unfolding replay_fits stdin_content
stdin_content-replay p bodies fits =
    elim (Result-cases (checked_payload_len (length (Preamble.encode (replay p bodies))))) [
      | inl (len, e) ↦ (
        to_be_bytes (length (Preamble.encode (replay p bodies)) % 2 ^ 32)
            ++ Preamble.encode (replay p bodies),
        rw (stdin_content, e) refl,
      )
      | inr (reason, e) ↦ absurd (unfit (rw (replay_fits, e) at fits))
    ]
  where
    unfit : ◌≡◌ {A = Bool} false true → ⊥
    unfit e = cc

-- Where a Catalog's Preamble can be framed, so can it after compiling, whatever the guest answers to
-- the compile; and compiling leaves no source snippet, or leaves the Catalog as it is.
pub stdin_content-compile {ℓ} :
    {A : Type ℓ} (c : Catalog A) (answer : Preamble → CompileReply) (content : List ℕ)
    → stdin_content (preamble c) ≡ ok content
    → ((compiled : List ℕ) × (stdin_content
            (preamble (compile (λ p. compiled_bytecodes p (answer p)) c))
          ≡ ok compiled))
      × ((any Snippets.is_source (compile (λ p. compiled_bytecodes p (answer p)) c).snippets.entries
            ≡ false)
          ⊎ (compile (λ p. compiled_bytecodes p (answer p)) c ≡ c))
unfolding compile Snippets.compile preamble
stdin_content-compile c answer content e =
    elim (Bool-cases (any Snippets.is_source c.snippets.entries)) [
      | inr settled ↦ rw settled ((content, e), inr refl)
      | inl unsettled ↦
          elim (Option-cases (compiled_bytecodes (preamble c) (answer (preamble c)))) [
            | inl unanswered ↦ rw (unsettled, unanswered) ((content, e), inr refl)
            | inr (bodies, answered) ↦
                let (counted, fits) = compiled_bytecodes_inv (preamble c) _ bodies answered in
                rw (unsettled, answered)
                  (
                    stdin_content-replay (preamble c) bodies fits,
                    inl (any-replace c.snippets.entries bodies (omega (arith, counted))),
                  )
          ]
    ]
