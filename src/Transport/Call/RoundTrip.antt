-- ===== src/Transport/Call/RoundTrip.antt =====
-- A decoded Call is the one that was encoded.
use kobako.Common.{
  ℕ, ◌<◌, ◌^◌, ◌≡◌, refl, Bool, true, false, List, [], ◌∷◌, ◌++◌, arith, length, ◌==◌, ok,
}
use kobako.Common.Words.{to_be_bytes}
use kobako.Transport.Bytes.{Writer, into_bytes, pure}
use kobako.Transport.Bytes.Parses.{
  Reads, Ends, Reads-pure, Reads-eq, Reads-bind, Reads-bind_last, Ends-bind, Ends-remaining,
  Ends-pure, run-Ends,
}
use kobako.Transport.Bytes.Fields.{IsText, block, Reads-u8, Reads-u32, Reads-text}
use kobako.Transport.Bytes.Writes.{writes, into_bytes-bytes}
use kobako.Transport.Call.{
  Call, Target, path, handle, kind_path, kind_handle, from_bool, write_target, read_target,
  refuse_sentinel, read_block_given, read_call, decode, encode,
}

-- A target that a Call may carry: text, or a `u32` id that is not the sentinel.
abbrev pub IsTarget : Target → Type 0
IsTarget (path s) = IsText s
IsTarget (handle id) = (0 < id) × (id < 2 ^ 32)

pub record IsCall (c : Call) : Type 0 where
  pub target : IsTarget c.target
  pub method : IsText c.method

abbrev pub target_layout : Target → List ℕ
target_layout (path s) = kind_path ∷ block s
target_layout (handle id) = kind_handle ∷ to_be_bytes id

abbrev pub layout : Call → List ℕ
layout c = target_layout c.target ++ (block c.method ++ (from_bool c.block_given ∷ c.payload))

into_bytes-write_target :
    (w : Writer) (t : Target)
    → IsTarget t
    → into_bytes (write_target t w) ≡ into_bytes w ++ target_layout t
into_bytes-write_target w (path s) h = simp (writes, into_bytes-bytes, h.fits)
into_bytes-write_target w (handle id) h = simp writes

pub encode-layout : (c : Call) → IsCall c → encode c ≡ layout c
unfolding encode
encode-layout c h =
    simp (writes, into_bytes-bytes, h.method.fits, into_bytes-write_target, h.target)

Reads-target : (t : Target) → IsTarget t → Reads read_target (target_layout t) t
unfolding read_target
Reads-target (path s) h =
    Reads-bind _ (Reads-u8 kind_path) (Reads-bind_last _ (Reads-text s h) (Reads-pure (path s)))
Reads-target (handle id) h =
    Reads-bind _ (Reads-u8 kind_handle)
      (Reads-bind_last _ (Reads-u32 id h.1) (Reads-pure (handle id)))

refuse_sentinel-IsTarget : (t : Target) → IsTarget t → refuse_sentinel t ≡ pure t
unfolding refuse_sentinel
refuse_sentinel-IsTarget (path s) h = refl
refuse_sentinel-IsTarget (handle id) h = rw test
  where
    test : (id == 0) ≡ false
    test = ground arith

Reads-block_given : (b : Bool) → Reads read_block_given (from_bool b ∷ []) b
unfolding read_block_given
Reads-block_given true = Reads-bind _ (Reads-u8 1) (Reads-pure true)
Reads-block_given false = Reads-bind _ (Reads-u8 0) (Reads-pure false)

Ends-call : (c : Call) → IsCall c → Ends read_call (layout c) c
unfolding read_call
Ends-call c h = Ends-bind _ (Reads-target c.target h.target) (
    Ends-bind _ (Reads-eq (refuse_sentinel-IsTarget c.target h.target) (Reads-pure c.target)) (
      Ends-bind _ (Reads-text c.method h.method)
        (Ends-bind _ (Reads-block_given c.block_given) (Ends-remaining _ (Ends-pure c c.payload)))))

-- Decoding what a Call encodes to gives the Call back, payload included, where its texts are UTF-8
-- below 2 ^ 32 bytes, its Handle id is a u32 other than 0, and the message fits a slice.
pub Call-decode-encode :
    (c : Call) → IsCall c → length (encode c) < 2 ^ 63 → decode (encode c) ≡ ok c
unfolding decode
Call-decode-encode c h fits =
    rw (encode-layout c h) (run-Ends (Ends-call c h) (rw (encode-layout c h) at fits))
