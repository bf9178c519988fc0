-- ===== src/Transport/Preamble/Frames.antt =====
-- What decoding makes of any list of framed records: the fold of `take_record` over them.
use kobako.Common.{
  ℕ, ◌≤◌, ◌<◌, ◌^◌, ◌≡◌, sym, ◌∙◌, Bool, true, false, List, [], ◌∷◌, ◌++◌, append-nil, arith,
  length, length-append, ltb, Result, ok, err, ok-injective, All, inl, inr,
}
use kobako.Common.Outcomes
use kobako.Common.Outcomes.{map_ok, ok_inv, err_inv, Result-cases}
use kobako.Common.Words.{to_be_bytes}
use kobako.Transport.Bytes.{DecodeError, Writer, into_bytes, ◌▸◌, u8, bytes, u32, as_u32, fresh}
use kobako.Transport.Bytes.Parses.{
  Reads, Ends, Fails, Fails-bind, Fails-first, Fails-lift, Fails-remaining, run-Fails, Ends-bind,
  Ends-remaining, Ends-last, Ends-finish, Ends-pure, Reads-lift, Reads-pure, Reads-bind, run-Ends,
}
use kobako.Transport.Bytes.Fields.{Fits, block, Reads-u8, Reads-u32, Reads-bytes}
use kobako.Transport.Bytes.Writes.{writes, into_bytes-bytes, as_u32_fits}
use kobako.Transport.Preamble.Records.{Slots, empty, take_record}
use kobako.Transport.Preamble.{
  Entry, criticality, read_criticality, read_records, read_preamble, assemble, write_entries,
  decode,
}

-- The records one after the other, up to the first that is refused.
unfoldable pub absorb : List Entry → Slots → Result Slots DecodeError
absorb [] slots = ok slots
absorb (e ∷ es) slots =
    Outcomes.◌>>=◌ (take_record e.is_critical e.kind e.body slots) λ filled. absorb es filled

abbrev pub entry_layout : Entry → List ℕ
entry_layout e = criticality e.is_critical ∷ e.kind ∷ block e.body

abbrev pub entries_layout : List Entry → List ℕ
entries_layout [] = []
entries_layout (e ∷ es) = entry_layout e ++ entries_layout es

abbrev pub records_layout : List Entry → List ℕ
records_layout es = to_be_bytes (length es) ++ entries_layout es

pub record AreFramed (es : List Entry) : Type 0 where
  pub count : length es < 2 ^ 32
  pub bodies : All (λ e. Fits e.body) es

Reads-criticality : (b : Bool) → Reads read_criticality (criticality b ∷ []) b
unfolding read_criticality
Reads-criticality true = Reads-bind _ (Reads-u8 1) (Reads-pure true)
Reads-criticality false = Reads-bind _ (Reads-u8 0) (Reads-pure false)

Reads-records :
    (es : List Entry) (slots : Slots) {final : Slots}
    → All (λ e. Fits e.body) es
    → absorb es slots ≡ ok final
    → Reads (read_records (length es) slots) (entries_layout es) final
unfolding read_records absorb
Reads-records [] slots h p = rw (ok-injective p) (Reads-pure _)
Reads-records (e ∷ es) slots (he, hes) p =
    let (filled, taken, rest) =
      ok_inv (absorb es) (take_record e.is_critical e.kind e.body slots) p in
    Reads-bind _ (Reads-criticality e.is_critical) (
      Reads-bind _ (Reads-u8 e.kind) (
        Reads-bind _ (Reads-bytes e.body he)
          (Reads-bind _ (Reads-lift taken) (Reads-records es filled hes rest))))

Fails-records :
    (es : List Entry) (slots : Slots) {x : DecodeError}
    → All (λ e. Fits e.body) es
    → absorb es slots ≡ err x
    → Fails (read_records (length es) slots) (entries_layout es) x
unfolding read_records absorb
Fails-records [] slots h p = cc
Fails-records (e ∷ es) slots (he, hes) p = Fails-bind _ (Reads-criticality e.is_critical) (
    Fails-bind _ (Reads-u8 e.kind) (
      Fails-bind _ (Reads-bytes e.body he)
        (elim (err_inv (absorb es) (take_record e.is_critical e.kind e.body slots) p) [
          | inl refused ↦ Fails-first _ (Fails-lift (entries_layout es) refused)
          | inr (filled, taken, rest) ↦
              Fails-bind _ (Reads-lift taken) (Fails-records es filled hes rest)
        ])))

length-entries : (es : List Entry) → length es ≤ length (entries_layout es)
length-entries [] = omega arith
length-entries (e ∷ es) =
    omega (arith, length-entries es, length-append (entry_layout e) (entries_layout es))

enough_records : (es : List Entry) → ltb (length (entries_layout es)) (length es) ≡ false
enough_records es = ground (arith, length-entries es)

module _ (es : List Entry) (h : AreFramed es) where
  Ends-preamble :
      {final : Slots}
      → absorb es empty ≡ ok final
      → Ends read_preamble (records_layout es) (assemble final)
  unfolding read_preamble
  Ends-preamble {final} p = Ends-bind _ (Reads-u32 (length es) h.count) (
      Ends-remaining _ (
        rw (enough_records es) (
          Ends-last _ (Reads-records es empty h.bodies p)
            (Ends-finish _ (Ends-pure (assemble final) [])))))

  Fails-preamble :
      {x : DecodeError} → absorb es empty ≡ err x → Fails read_preamble (records_layout es) x
  unfolding read_preamble
  Fails-preamble p = Fails-bind _ (Reads-u32 (length es) h.count) (
      Fails-remaining _
        (rw (enough_records es) (Fails-first _ (Fails-records es empty h.bodies p))))

  decode-frames :
      length (records_layout es) < 2 ^ 63
      → decode (records_layout es) ≡ map_ok assemble (absorb es empty)
  unfolding decode
  decode-frames fits = elim (Result-cases (absorb es empty)) [
    | inl (final, p) ↦ rw p (run-Ends (Ends-preamble p) fits)
    | inr (x, p) ↦ rw p (run-Fails (Fails-preamble p) fits)
  ]

into_bytes-write_entries :
    (w : Writer) (es : List Entry)
    → All (λ e. Fits e.body) es
    → into_bytes (write_entries es w) ≡ into_bytes w ++ entries_layout es
into_bytes-write_entries w [] h = sym (append-nil (into_bytes w))
into_bytes-write_entries w (e ∷ es) (he, hes) =
    into_bytes-write_entries (w ▸ u8 (criticality e.is_critical) ▸ u8 e.kind ▸ bytes e.body) es hes
    ∙ simp (writes, into_bytes-bytes, he)

-- The message that the source writes for a list of records.
abbrev pub framed : List Entry → List ℕ
framed es = into_bytes (write_entries es (u32 (as_u32 (length es)) fresh))

pub framed-layout : (es : List Entry) → AreFramed es → framed es ≡ records_layout es
framed-layout es h =
    simp (into_bytes-write_entries, h.bodies, writes, as_u32_fits (length es) h.count)

-- A message of records, whatever their kinds and bodies, decodes to what `take_record` makes of them
-- one after the other from empty slots, or to the error of the first that is refused, where their
-- number and each body's length are below 2 ^ 32 and the message fits a slice.
pub Preamble-decode-records :
    (es : List Entry)
    → AreFramed es
    → length (framed es) < 2 ^ 63
    → decode (framed es) ≡ map_ok assemble (absorb es empty)
Preamble-decode-records es h fits =
    rw (framed-layout es h) (decode-frames es h (rw (framed-layout es h) at fits))
