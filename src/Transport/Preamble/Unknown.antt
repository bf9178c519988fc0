-- ===== src/Transport/Preamble/Unknown.antt =====
-- A record of a kind that this reader does not know.
use kobako.Common.{
  ℕ, ◌<◌, ◌^◌, ◌≡◌, ◌≢◌, false, List, ◌∷◌, ◌++◌, arith, length, ◌==◌, if◌then◌else◌, Result, err,
}
use kobako.Common.Outcomes.{map_ok}
use kobako.Transport.Bytes.{DecodeError}
use kobako.Transport.Tag
use kobako.Transport.Tag.{is_assigned}
use kobako.Transport.Preamble.Records.{Slots, empty, take_record, other_message, unknown_critical}
use kobako.Transport.Preamble.{Preamble, Entry, entries, assemble, decode}
use kobako.Transport.Preamble.Frames.{absorb, AreFramed, framed, Preamble-decode-records}
use kobako.Transport.Preamble.RoundTrip.{absorb-append, IsPreamble, absorb-entries}

-- What is made of such a record `e`, where `skipped` is made of the message without it.
abbrev pub judged {ℓ} : {A : Type ℓ} → Entry → Result A DecodeError → Result A DecodeError
judged e skipped =
    if is_assigned e.kind
    then err other_message
    else if e.is_critical
    then err unknown_critical
    else skipped

eq_false : (a b : ℕ) → a ≢ b → (a == b) ≡ false
eq_false a b h = ground arith

module _ (e : Entry) (b : e.kind ≢ Tag.bindings) (s : e.kind ≢ Tag.snippets)
    (f : e.kind ≢ Tag.flag) where
  absorb-judged :
      (fs : List Entry) (slots : Slots) → absorb (e ∷ fs) slots ≡ judged e (absorb fs slots)
  unfolding absorb take_record
  absorb-judged fs slots =
      rw
        (eq_false e.kind Tag.bindings b, eq_false e.kind Tag.snippets s, eq_false e.kind Tag.flag f)
        (ground arith)

  map-judged :
      (r : Result Slots DecodeError) → map_ok assemble (judged e r) ≡ judged e (map_ok assemble r)
  map-judged r = ground arith

-- Behind the records of a Preamble, a record of none of the three kinds is refused where its kind is
-- assigned to another message, and where it is critical; otherwise the message decodes as the one
-- without it does. Counts and lengths are below 2 ^ 32, and the messages fit a slice.
pub Preamble-decode-unknown :
    (p : Preamble) (e : Entry) (fs : List Entry)
    → IsPreamble p
    → e.kind ≢ Tag.bindings
    → e.kind ≢ Tag.snippets
    → e.kind ≢ Tag.flag
    → AreFramed (entries p ++ e ∷ fs)
    → AreFramed (entries p ++ fs)
    → length (framed (entries p ++ e ∷ fs)) < 2 ^ 63
    → length (framed (entries p ++ fs)) < 2 ^ 63
    → decode (framed (entries p ++ e ∷ fs)) ≡ judged e (decode (framed (entries p ++ fs)))
Preamble-decode-unknown p e fs h b s f long short fits_long fits_short =
    rw
      (
        Preamble-decode-records _ long fits_long,
        Preamble-decode-records _ short fits_short,
        absorb-append (entries p) (e ∷ fs) empty,
        absorb-append (entries p) fs empty,
        absorb-entries p h,
        absorb-judged e b s f,
      )
      (map-judged e b s f _)
