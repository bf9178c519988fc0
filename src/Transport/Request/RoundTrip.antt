-- ===== src/Transport/Request/RoundTrip.antt =====
-- A decoded request is the one that was encoded.
use kobako.Common.{ℕ, ◌<◌, ◌^◌, ◌≡◌, refl, ap, false, List, [], ◌∷◌, ◌++◌, arith, length, ◌==◌, ok}
use kobako.Common.Words.{to_be_bytes}
use kobako.Transport.Bytes.Parses.{
  Reads, Ends, Ends-bind, Ends-remaining, Ends-pure, Reads-lift, run-Ends, Reads-bind_last,
  Reads-pure,
}
use kobako.Transport.Bytes.Fields.{IsText, Reads-u8, Reads-u32}
use kobako.Transport.Bytes.Writes.{writes}
use kobako.Transport.Tag
use kobako.Transport.Tag.{is_assigned}
use kobako.Transport.Call
use kobako.Transport.Call.{Call}
use kobako.Transport.Call.RoundTrip.{IsCall, Call-decode-encode}
use kobako.Transport.Run
use kobako.Transport.Run.{Run}
use kobako.Transport.Run.RoundTrip.{Run-decode-encode}
use kobako.Transport.Request.{
  UnknownTag, unknown_tag, Downcall, eval, run_entry, yield, compile, unknown_down, Upcall, call,
  unknown_up, read_tag, unknown, downcall_arm, compile_arm, read_downcall, decode_downcall,
  encode_downcall, upcall_arm, read_upcall, decode_upcall, encode_upcall,
}

-- `UnknownTag::new` makes no other.
pub record IsUnknownTag (t : UnknownTag) : Type 0 where
  pub unassigned : is_assigned t.number ≡ false

abbrev pub IsDowncall : Downcall → Type 0
IsDowncall (eval source) = Unit {0}
IsDowncall (run_entry r) = IsText r.entrypoint
IsDowncall (yield frame args) = frame < 2 ^ 32
IsDowncall compile = Unit {0}
IsDowncall (unknown_down t body) = IsUnknownTag t

abbrev pub IsUpcall : Upcall → Type 0
IsUpcall (call c) = IsCall c
IsUpcall (unknown_up t body) = IsUnknownTag t

Reads-tag : (t : ℕ) → (t == Tag.invalid) ≡ false → Reads read_tag (t ∷ []) t
unfolding read_tag
Reads-tag t h = Reads-bind_last _ (Reads-u8 t) (rw h (Reads-pure t))

-- An unassigned tag is none of those that a request names.
record IsOther (t : ℕ) : Type 0 where
  invalid : (t == Tag.invalid) ≡ false
  eval : (t == Tag.eval) ≡ false
  run : (t == Tag.run) ≡ false
  yield : (t == Tag.yield) ≡ false
  call : (t == Tag.call) ≡ false
  compile : (t == Tag.compile) ≡ false

unassigned-IsOther : (t : ℕ) → is_assigned t ≡ false → IsOther t
unfolding is_assigned
unassigned-IsOther t h = ground arith

unknown-unassigned : (t : UnknownTag) → IsUnknownTag t → unknown t.number ≡ ok t
unfolding unknown unknown_tag
unknown-unassigned t h = rw h.unassigned

abbrev down_body : Downcall → List ℕ
down_body (eval source) = source
down_body (run_entry r) = Run.encode r
down_body (yield frame args) = to_be_bytes frame ++ args
down_body compile = []
down_body (unknown_down t body) = body

abbrev down_tag : Downcall → ℕ
down_tag (eval source) = Tag.eval
down_tag (run_entry r) = Tag.run
down_tag (yield frame args) = Tag.yield
down_tag compile = Tag.compile
down_tag (unknown_down t body) = t.number

encode-down_body : (d : Downcall) → encode_downcall d ≡ down_tag d ∷ down_body d
unfolding encode_downcall
encode-down_body (eval source) = simp writes
encode-down_body (run_entry r) = simp writes
encode-down_body (yield frame args) = simp writes
encode-down_body compile = simp writes
encode-down_body (unknown_down t body) = simp writes

down_tag-valid : (d : Downcall) → IsDowncall d → (down_tag d == Tag.invalid) ≡ false
down_tag-valid (unknown_down t body) h = (unassigned-IsOther t.number h.unassigned).invalid
down_tag-valid (eval source) h = refl
down_tag-valid _ h = refl

Ends-downcall_arm :
    (d : Downcall)
    → IsDowncall d
    → length (down_body d) < 2 ^ 63
    → Ends (downcall_arm (down_tag d) (down_body d)) (down_body d) d
unfolding downcall_arm
Ends-downcall_arm (eval source) h fits = Ends-pure _ source
Ends-downcall_arm (run_entry r) h fits =
    Ends-bind _ (Reads-lift (Run-decode-encode r h fits)) (Ends-pure _ _)
Ends-downcall_arm (yield frame args) h fits =
    Ends-bind _ (Reads-u32 frame h) (Ends-remaining _ (Ends-pure _ args))
Ends-downcall_arm compile h fits = unfold compile_arm in Ends-pure compile []
Ends-downcall_arm (unknown_down t body) h fits =
    let o = unassigned-IsOther t.number h.unassigned in
    rw (o.eval, o.run, o.yield, o.compile)
      (Ends-bind _ (Reads-lift (unknown-unassigned t h)) (Ends-pure _ body))

-- Decoding what a Downcall encodes to gives it back, on every request, where a Run's entrypoint is
-- UTF-8 below 2 ^ 32 bytes, a frame is a u32, an unknown request's tag is one that the registry has
-- not assigned, and the message fits a slice.
pub Downcall-decode-encode :
    (d : Downcall)
    → IsDowncall d
    → length (encode_downcall d) < 2 ^ 63
    → decode_downcall (encode_downcall d) ≡ ok d
unfolding decode_downcall
Downcall-decode-encode d h fits =
    rw (encode-down_body d) (run-Ends ends (rw (encode-down_body d) at fits))
  where
    shorter : length (down_body d) < 2 ^ 63
    shorter = omega (arith, ap length (encode-down_body d))

    ends : Ends read_downcall (down_tag d ∷ down_body d) d
    ends =
        Ends-bind _ (Reads-tag (down_tag d) (down_tag-valid d h))
          (Ends-remaining _ (Ends-downcall_arm d h shorter))

abbrev up_body : Upcall → List ℕ
up_body (call c) = Call.encode c
up_body (unknown_up t body) = body

abbrev up_tag : Upcall → ℕ
up_tag (call c) = Tag.call
up_tag (unknown_up t body) = t.number

encode-up_body : (u : Upcall) → encode_upcall u ≡ up_tag u ∷ up_body u
unfolding encode_upcall
encode-up_body (call c) = simp writes
encode-up_body (unknown_up t body) = simp writes

up_tag-valid : (u : Upcall) → IsUpcall u → (up_tag u == Tag.invalid) ≡ false
up_tag-valid (unknown_up t body) h = (unassigned-IsOther t.number h.unassigned).invalid
up_tag-valid (call c) h = refl

Ends-upcall_arm :
    (u : Upcall)
    → IsUpcall u
    → length (up_body u) < 2 ^ 63
    → Ends (upcall_arm (up_tag u) (up_body u)) (up_body u) u
unfolding upcall_arm
Ends-upcall_arm (call c) h fits =
    Ends-bind _ (Reads-lift (Call-decode-encode c h fits)) (Ends-pure _ _)
Ends-upcall_arm (unknown_up t body) h fits =
    let o = unassigned-IsOther t.number h.unassigned in
    rw o.call (Ends-bind _ (Reads-lift (unknown-unassigned t h)) (Ends-pure _ body))

-- Decoding what an Upcall encodes to gives it back, where a Call is well formed, an unknown
-- request's tag is one that the registry has not assigned, and the message fits a slice.
pub Upcall-decode-encode :
    (u : Upcall)
    → IsUpcall u
    → length (encode_upcall u) < 2 ^ 63
    → decode_upcall (encode_upcall u) ≡ ok u
unfolding decode_upcall
Upcall-decode-encode u h fits =
    rw (encode-up_body u) (run-Ends ends (rw (encode-up_body u) at fits))
  where
    shorter : length (up_body u) < 2 ^ 63
    shorter = omega (arith, ap length (encode-up_body u))

    ends : Ends read_upcall (up_tag u ∷ up_body u) u
    ends =
        Ends-bind _ (Reads-tag (up_tag u) (up_tag-valid u h))
          (Ends-remaining _ (Ends-upcall_arm u h shorter))
