-- ===== src/Transport/Call/Canonical.antt =====
-- The only bytes that decode to a Call are the ones that it encodes to.
use kobako.Common.{
  ℕ, ◌<◌, ◌^◌, ◌≡◌, ◌↔◌, refl, sym, ◌∙◌, true, false, List, [], ◌∷◌, append-nil, arith, length,
  ◌==◌, ok, All,
}
use kobako.Common.Words.{IsByte}
use kobako.Transport.Bytes.Fields.{IsText}
use kobako.Transport.Bytes.Takes.{
  Takes, Whole, Takes-pure, Takes-fail, Takes-if, Takes-bind, Whole-bind, Whole-remaining,
  Whole-pure, run-Whole,
}
use kobako.Transport.Bytes.TakesFields.{tagged, Takes-u8, Takes-u32, Takes-text}
use kobako.Transport.Call.{
  Call, Target, path, handle, kind_path, kind_handle, from_bool, read_target, refuse_sentinel,
  read_block_given, read_call, bad_kind, handle_sentinel, bad_block_given, decode, encode,
}
use kobako.Transport.Call.RoundTrip.{
  IsTarget, IsCall, target_layout, layout, encode-layout, Call-decode-encode,
}

-- What the kind byte and the field behind it were, the sentinel not yet refused.
abbrev IsWritten : Target → Type 0
IsWritten (path s) = IsText s
IsWritten (handle id) = id < 2 ^ 32

Takes-target : Takes read_target (λ t u. (u ≡ target_layout t) × IsWritten t)
unfolding read_target
Takes-target = Takes-bind _ Takes-u8 λ kind t h.
    Takes-if (kind == kind_path) _ _
      (λ p.
        Takes-bind _ Takes-text
          λ s u k. Takes-pure (path s) (tagged kind_path _ h p ∙ rw (k.0, append-nil), k.1))
      (λ _.
        Takes-if (kind == kind_handle) _ _
          (λ p.
            Takes-bind _ Takes-u32 λ id u k.
              Takes-pure (handle id) (tagged kind_handle _ h p ∙ rw (k.0, append-nil), k.1))
          (λ _. Takes-fail bad_kind))

Takes-sentinel :
    (t : Target) → IsWritten t → Takes (refuse_sentinel t) (λ v u. (v ≡ t) × (u ≡ []) × IsTarget v)
unfolding refuse_sentinel
Takes-sentinel (path s) h = Takes-pure (path s) (refl, refl, h)
Takes-sentinel (handle id) h =
    Takes-if (id == 0) _ _ (λ _. Takes-fail handle_sentinel)
      (λ p. Takes-pure (handle id) (refl, refl, (ground arith, h)))

Takes-block_given : Takes read_block_given (λ b u. u ≡ from_bool b ∷ [])
unfolding read_block_given
Takes-block_given = Takes-bind _ Takes-u8 λ b t h.
    Takes-if (b == 0) _ _ (λ p. Takes-pure false (tagged 0 [] h p))
      (λ _.
        Takes-if (b == 1) _ _ (λ p. Takes-pure true (tagged 1 [] h p))
          (λ _. Takes-fail bad_block_given))

Whole-IsCall : Whole read_call (λ c bs. (bs ≡ layout c) × IsCall c)
unfolding read_call
Whole-IsCall = Whole-bind _ Takes-target λ kind t ht.
    Whole-bind _ (Takes-sentinel kind ht.1) λ target u hu. Whole-bind _ Takes-text λ method v hv.
      Whole-bind _ Takes-block_given λ b w hw. Whole-remaining _ λ payload.
        Whole-pure _
          λ rest e. (rw (ht.0, hu.1, hv.0, hw, e, hu.0), record { target = hu.2; method = hv.1 })

-- Bytes decode to a Call exactly when the Call is well formed and they are what it encodes to: its
-- texts are UTF-8 below 2 ^ 32 bytes and its Handle id is a u32 other than 0. The bytes are below
-- 256 and fit a slice.
pub Call-decode_iff :
    (bs : List ℕ) (c : Call)
    → length bs < 2 ^ 63
    → All IsByte bs
    → (decode bs ≡ ok c) ↔ (IsCall c × (bs ≡ encode c))
unfolding decode
Call-decode_iff bs c fits bytes = (from, back)
  where
    from : decode bs ≡ ok c → IsCall c × (bs ≡ encode c)
    from e =
        let (same, wf) = run-Whole read_call bs c Whole-IsCall fits bytes e in
        (wf, same ∙ sym (encode-layout c wf))

    back : IsCall c × (bs ≡ encode c) → decode bs ≡ ok c
    back (wf, e) = rw e (Call-decode-encode c wf (rw e at fits))
