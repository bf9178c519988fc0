-- ===== src/Transport/Preamble/Bodies.antt =====
-- crates/kobako-transport/src/envelope/preamble.rs: the bodies of the records.
pub mod RoundTrip
use kobako.Common.{
  ℕ, zero, suc, ◌+◌, ◌/◌, ◌%◌, Bool, List, [], ◌∷◌, length, ltb, ◌==◌, if◌then◌else◌, Result,
}
use kobako.Transport.Bytes.{
  DecodeError, Read, pure, fail, ◌>>=◌, ◌>>◌, run, read_u8, read_u32, read_bytes, read_text,
  read_text_list, remaining, finish, Writer, fresh, ◌▸◌, u8, u32, bytes, list, as_u32, into_bytes,
}

abbrev pub snippet_source : ℕ
snippet_source = 0

abbrev pub snippet_bytecode : ℕ
snippet_bytecode = 1

pub record Bindings : Type 0 where
  pub paths : List (List ℕ)

pub data Snippet : Type 0 where
  source : List ℕ → List ℕ → Snippet
  bytecode : List ℕ → Snippet

pub record Snippets : Type 0 where
  pub entries : List Snippet

pub record Flag : Type 0 where
  pub name : List ℕ
  pub value : List ℕ
  pub critical : Bool

unfoldable pub read_bindings : Read Bindings
read_bindings = do paths ← read_text_list; finish; pure (record { paths = paths })

unfoldable pub decode_bindings : List ℕ → Result Bindings DecodeError
unfolding read_bindings
decode_bindings bs = run read_bindings bs

unfoldable pub encode_bindings : Bindings → List ℕ
encode_bindings b = into_bytes (fresh ▸ list b.paths)

abbrev pub too_many_entries : DecodeError
too_many_entries = record { message = "Preamble snippets declare more entries than they hold" }

abbrev pub bad_snippet_kind : DecodeError
bad_snippet_kind = record { message = "Preamble snippet kind must be 0 or 1" }

unfoldable pub read_snippet : Read Snippet
read_snippet = do
  kind ← read_u8
  if kind == snippet_source
      then (do name ← read_text; body ← read_text; pure (source name body))
      else if kind == snippet_bytecode
      then (do body ← read_bytes; pure (bytecode body))
      else fail bad_snippet_kind

unfoldable pub read_entries : ℕ → Read (List Snippet)
read_entries zero = pure []
read_entries (suc count) = do entry ← read_snippet; rest ← read_entries count; pure (entry ∷ rest)

unfoldable pub read_snippets : Read Snippets
read_snippets = do
  count ← read_u32
  left ← remaining
  entries ←
      (if ltb (length left / (1 + 4)) count then fail too_many_entries else read_entries count)
  finish
  pure (record { entries = entries })

unfoldable pub decode_snippets : List ℕ → Result Snippets DecodeError
unfolding read_snippets read_entries read_snippet
decode_snippets bs = run read_snippets bs

unfoldable pub write_snippet : Snippet → Writer → Writer
write_snippet (source name body) w = w ▸ u8 snippet_source ▸ bytes name ▸ bytes body
write_snippet (bytecode body) w = w ▸ u8 snippet_bytecode ▸ bytes body

unfoldable pub write_snippets : List Snippet → Writer → Writer
unfolding write_snippet
write_snippets [] w = w
write_snippets (e ∷ es) w = write_snippets es (write_snippet e w)

unfoldable pub encode_snippets : Snippets → List ℕ
unfolding write_snippets
encode_snippets s = into_bytes (fresh ▸ u32 (as_u32 (length s.entries)) ▸ write_snippets s.entries)

unfoldable pub read_flag : Bool → Read Flag
read_flag is_critical = do
  name ← read_text
  value ← read_text
  finish
  pure (record { name = name; value = value; critical = is_critical })

unfoldable pub decode_flag : List ℕ → Bool → Result Flag DecodeError
unfolding read_flag
decode_flag bs is_critical = run (read_flag is_critical) bs

unfoldable pub encode_flag : Flag → List ℕ
encode_flag f = into_bytes (fresh ▸ bytes f.name ▸ bytes f.value)
