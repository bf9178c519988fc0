-- ===== src/Transport/Preamble/RoundTrip.antt =====
-- A decoded Preamble is the one that was encoded.
use kobako.Common.{
  ℕ, ◌<◌, ◌^◌, ◌≡◌, refl, Option, none, some, List, [], ◌∷◌, ◌++◌, append-nil, append_assoc, arith,
  length, ok, All, inl, inr,
}
use kobako.Common.Outcomes.{◌>>=◌, Result-cases}
use kobako.Transport.Bytes.Fields.{IsText, Fits}
use kobako.Transport.Bytes.Texts.{IsTexts}
use kobako.Transport.Preamble.Bodies.{Bindings, Snippet, Snippets, Flag}
use kobako.Transport.Preamble.Bodies.RoundTrip.{
  AreSnippets, bindings_decode-encode, snippets_decode-encode, flag_decode-encode,
}
use kobako.Transport.Preamble.Records.{Slots, empty, once, take_record}
use kobako.Transport.Preamble.{
  Preamble, Entry, entries, bindings_entry, snippets_entry, flag_entries, or_default, decode,
  encode,
}
use kobako.Transport.Preamble.Frames.{absorb, AreFramed, framed, Preamble-decode-records}

pub record IsFlag (f : Flag) : Type 0 where
  pub name : IsText f.name
  pub value : IsText f.value

pub record IsPreamble (p : Preamble) : Type 0 where
  pub paths : IsTexts p.bindings.paths
  pub snippets : AreSnippets p.snippets
  pub flags : All IsFlag p.flags
  pub framed : AreFramed (entries p)

pub absorb-append :
    (es fs : List Entry) (s : Slots) → absorb (es ++ fs) s ≡ (absorb es s >>= absorb fs)
unfolding absorb
absorb-append [] fs s = refl
absorb-append (e ∷ es) fs s = elim (Result-cases (take_record e.is_critical e.kind e.body s)) [
  | inl (filled, p) ↦ rw p (absorb-append es fs filled)
  | inr (x, p) ↦ rw p
]

absorb-flags :
    (fs : List Flag) (s : Slots)
    → All IsFlag fs
    → All (λ e. Fits e.body) (flag_entries fs)
    → absorb (flag_entries fs) s ≡ ok (record s { flags = s.flags ++ fs })
unfolding absorb take_record
absorb-flags [] s h fit = rw append-nil
absorb-flags (f ∷ fs) s (hf, hfs) (fit, fits) = rw (
  flag_decode-encode f hf.name hf.value (omega arith),
  absorb-flags fs (record s { flags = s.flags ++ f ∷ [] }) hfs fits,
  append_assoc,
)

abbrev paths_slot : List (List ℕ) → Option Bindings
paths_slot [] = none
paths_slot (x ∷ xs) = some (record { paths = x ∷ xs })

abbrev entries_slot : List Snippet → Option Snippets
entries_slot [] = none
entries_slot (x ∷ xs) = some (record { entries = x ∷ xs })

absorb-bindings :
    (paths : List (List ℕ))
    → IsTexts paths
    → All (λ e. Fits e.body) (bindings_entry (record { paths = paths }))
    → absorb (bindings_entry (record { paths = paths })) empty
      ≡ ok (record empty { bindings = paths_slot paths })
unfolding absorb take_record once
absorb-bindings [] h fit = refl
absorb-bindings (x ∷ xs) h fit =
    rw (bindings_decode-encode (record { paths = x ∷ xs }) h (omega (arith, fit.0)))

absorb-snippets :
    (es : List Snippet) (b : Option Bindings)
    → AreSnippets (record { entries = es })
    → All (λ e. Fits e.body) (snippets_entry (record { entries = es }))
    → absorb (snippets_entry (record { entries = es })) (record empty { bindings = b })
      ≡ ok (record empty { bindings = b; snippets = entries_slot es })
unfolding absorb take_record once
absorb-snippets [] b h fit = refl
absorb-snippets (x ∷ xs) b h fit =
    rw (snippets_decode-encode (record { entries = x ∷ xs }) h (omega (arith, fit.0)))

All-append : (P : Entry → Type 0) (xs ys : List Entry) → All P (xs ++ ys) → All P xs × All P ys
All-append P [] ys h = (tt, h)
All-append P (x ∷ xs) ys (hx, h) = let (l, r) = All-append P xs ys h in ((hx, l), r)

pub absorb-entries :
    (p : Preamble)
    → IsPreamble p
    → absorb (entries p) empty
      ≡ ok (record {
        bindings = paths_slot p.bindings.paths;
        snippets = entries_slot p.snippets.entries;
        flags = p.flags;
      })
absorb-entries p h =
    let fitting = λ (e : Entry). Fits e.body in
    let (fb, fr) = All-append fitting (bindings_entry p.bindings) _ h.framed.bodies in
    let (fs, ff) = All-append fitting (snippets_entry p.snippets) _ fr in
    rw
      (
        absorb-append (bindings_entry p.bindings),
        absorb-bindings p.bindings.paths h.paths fb,
        absorb-append (snippets_entry p.snippets),
        absorb-snippets p.snippets.entries _ h.snippets fs,
      )
      (absorb-flags p.flags _ h.flags ff)

assemble_bindings :
    (paths : List (List ℕ))
    → or_default (paths_slot paths) (record { paths = [] }) ≡ record { paths = paths }
assemble_bindings [] = refl
assemble_bindings (x ∷ xs) = refl

assemble_snippets :
    (es : List Snippet)
    → or_default (entries_slot es) (record { entries = [] }) ≡ record { entries = es }
assemble_snippets [] = refl
assemble_snippets (x ∷ xs) = refl

encode-framed : (p : Preamble) → encode p ≡ framed (entries p)
unfolding encode
encode-framed p = refl

-- Decoding what a Preamble encodes to gives it back, though empty bindings and snippets are left
-- out: where its texts are UTF-8, every length and count is below 2 ^ 32, and the message fits a
-- slice.
pub Preamble-decode-encode :
    (p : Preamble) → IsPreamble p → length (encode p) < 2 ^ 63 → decode (encode p) ≡ ok p
Preamble-decode-encode p h fits = rw (
  encode-framed,
  Preamble-decode-records (entries p) h.framed (rw encode-framed at fits),
  absorb-entries p h,
  assemble_bindings,
  assemble_snippets,
)
