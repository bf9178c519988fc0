-- ===== src/Transport/Preamble/Bodies/RoundTrip.antt =====
-- The body of a record decodes to what it was encoded from.
use kobako.Common.{
  ℕ, ◌+◌, ◌*◌, ◌/◌, ◌≤◌, ◌<◌, ◌^◌, ◌≡◌, ap, sym, ◌∙◌, false, List, [], ◌∷◌, ◌++◌, append-nil,
  append_assoc, arith, length, length-append, ltb, ok, All,
}
use kobako.Common.Words.{to_be_bytes, length-to_be_bytes}
use kobako.Transport.Bytes.{pure, ◌>>=◌, Writer, into_bytes}
use kobako.Transport.Bytes.Parses.{
  Reads, Ends, Ends-bind, Ends-last, Ends-finish, Ends-pure, Reads-pure, Reads-bind,
  Reads-bind_last, Ends-remaining, run-Ends,
}
use kobako.Transport.Bytes.Fields.{
  IsText, Fits, block, listing, Reads-u8, Reads-u32, Reads-bytes, Reads-text,
}
use kobako.Transport.Bytes.Writes.{writes, into_bytes-bytes, as_u32_fits}
use kobako.Transport.Bytes.Texts.{IsTexts, Reads-text_list, into_bytes-texts}
use kobako.Transport.Preamble.Bodies.{
  Bindings, Snippet, source, bytecode, snippet_source, snippet_bytecode, Snippets, Flag,
  read_bindings, decode_bindings, encode_bindings, read_snippet, read_entries, read_snippets,
  decode_snippets, write_snippet, write_snippets, encode_snippets, read_flag, decode_flag,
  encode_flag,
}

-- Bindings, whose paths are texts.
pub bindings_decode-encode :
    (b : Bindings)
    → IsTexts b.paths
    → length (encode_bindings b) < 2 ^ 63
    → decode_bindings (encode_bindings b) ≡ ok b
unfolding decode_bindings
bindings_decode-encode b h fits = rw layout (run-Ends ends (rw layout at fits))
  where
    layout : encode_bindings b ≡ listing b.paths
    layout = unfold encode_bindings in simp (writes, into_bytes-texts, h)

    ends : Ends read_bindings (listing b.paths) b
    ends =
        unfold read_bindings in
        Ends-last _ (Reads-text_list b.paths h) (Ends-finish _ (Ends-pure b []))

abbrev pub IsSnippet : Snippet → Type 0
IsSnippet (source name body) = IsText name × IsText body
IsSnippet (bytecode body) = Fits body

abbrev snippet_layout : Snippet → List ℕ
snippet_layout (source name body) = snippet_source ∷ (block name ++ block body)
snippet_layout (bytecode body) = snippet_bytecode ∷ block body

abbrev entries_layout : List Snippet → List ℕ
entries_layout [] = []
entries_layout (e ∷ es) = snippet_layout e ++ entries_layout es

pub record AreSnippets (s : Snippets) : Type 0 where
  pub count : length s.entries < 2 ^ 32
  pub each : All IsSnippet s.entries

into_bytes-write_snippet :
    (w : Writer) (e : Snippet)
    → IsSnippet e
    → into_bytes (write_snippet e w) ≡ into_bytes w ++ snippet_layout e
unfolding write_snippet
into_bytes-write_snippet w (source name body) (hn, hb) =
    simp (writes, into_bytes-bytes, hn.fits, hb.fits)
into_bytes-write_snippet w (bytecode body) h = simp (writes, into_bytes-bytes, h)

into_bytes-write_snippets :
    (w : Writer) (es : List Snippet)
    → All IsSnippet es
    → into_bytes (write_snippets es w) ≡ into_bytes w ++ entries_layout es
unfolding write_snippets
into_bytes-write_snippets w [] h = sym (append-nil (into_bytes w))
into_bytes-write_snippets w (e ∷ es) (he, hes) =
    into_bytes-write_snippets (write_snippet e w) es hes
    ∙ ap (λ l. l ++ entries_layout es) (into_bytes-write_snippet w e he)
    ∙ append_assoc (into_bytes w) (snippet_layout e) (entries_layout es)

Reads-snippet : (e : Snippet) → IsSnippet e → Reads read_snippet (snippet_layout e) e
unfolding read_snippet
Reads-snippet (source name body) (hn, hb) =
    Reads-bind _ (Reads-u8 snippet_source)
      (Reads-bind _ (Reads-text name hn) (Reads-bind_last _ (Reads-text body hb) (Reads-pure _)))
Reads-snippet (bytecode body) h =
    Reads-bind _ (Reads-u8 snippet_bytecode) (Reads-bind_last _ (Reads-bytes body h) (Reads-pure _))

Reads-entries :
    (es : List Snippet) → All IsSnippet es → Reads (read_entries (length es)) (entries_layout es) es
unfolding read_entries
Reads-entries [] h = Reads-pure []
Reads-entries (e ∷ es) (he, hes) =
    Reads-bind (λ x. read_entries (length es) >>= λ xs. pure (x ∷ xs)) (Reads-snippet e he)
      (Reads-bind_last (λ xs. pure (e ∷ xs)) (Reads-entries es hes) (Reads-pure (e ∷ es)))

length-snippet : (e : Snippet) → 5 ≤ length (snippet_layout e)
length-snippet (source name body) = omega (
  arith,
  length-append (block name) (block body),
  length-append (to_be_bytes (length name)) name,
  length-to_be_bytes (length name),
)
length-snippet (bytecode body) =
    omega (arith, length-append (to_be_bytes (length body)) body, length-to_be_bytes (length body))

length-entries : (es : List Snippet) → length es * 5 ≤ length (entries_layout es)
length-entries [] = omega arith
length-entries (e ∷ es) = omega (
  arith,
  length-snippet e,
  length-entries es,
  length-append (snippet_layout e) (entries_layout es),
)

entries_enough :
    (es : List Snippet) → ltb (length (entries_layout es) / (1 + 4)) (length es) ≡ false
entries_enough es = ground (arith, length-entries es)

Ends-snippets :
    (s : Snippets)
    → AreSnippets s
    → Ends read_snippets (to_be_bytes (length s.entries) ++ entries_layout s.entries) s
unfolding read_snippets
Ends-snippets s h = Ends-bind _ (Reads-u32 (length s.entries) h.count) (
    Ends-remaining _ (
      rw (entries_enough s.entries)
        (Ends-last _ (Reads-entries s.entries h.each) (Ends-finish _ (Ends-pure s [])))))

encode_snippets-layout :
    (s : Snippets)
    → AreSnippets s
    → encode_snippets s ≡ to_be_bytes (length s.entries) ++ entries_layout s.entries
unfolding encode_snippets
encode_snippets-layout s h =
    simp (writes, into_bytes-write_snippets, h.each, as_u32_fits (length s.entries) h.count)

-- Snippets, whose names and sources are texts.
pub snippets_decode-encode :
    (s : Snippets)
    → AreSnippets s
    → length (encode_snippets s) < 2 ^ 63
    → decode_snippets (encode_snippets s) ≡ ok s
unfolding decode_snippets
snippets_decode-encode s h fits =
    rw (encode_snippets-layout s h)
      (run-Ends (Ends-snippets s h) (rw (encode_snippets-layout s h) at fits))

pub flag_decode-encode :
    (f : Flag)
    → IsText f.name
    → IsText f.value
    → length (encode_flag f) < 2 ^ 63
    → decode_flag (encode_flag f) f.critical ≡ ok f
unfolding decode_flag
flag_decode-encode f hn hv fits = rw layout (run-Ends ends (rw layout at fits))
  where
    layout : encode_flag f ≡ block f.name ++ block f.value
    layout = unfold encode_flag in simp (writes, into_bytes-bytes, hn.fits, hv.fits)

    ends : Ends (read_flag f.critical) (block f.name ++ block f.value) f
    ends =
        unfold read_flag in
        Ends-bind _ (Reads-text f.name hn)
          (Ends-last _ (Reads-text f.value hv) (Ends-finish _ (Ends-pure f [])))
