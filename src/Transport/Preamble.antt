-- ===== src/Transport/Preamble.antt =====
-- crates/kobako-transport/src/envelope/preamble.rs: what an invocation reads before its entry runs.
pub mod Bodies
pub mod Records
pub mod RoundTrip
pub mod Frames
pub mod Unknown
use kobako.Common.{
  ℕ, zero, suc, Bool, true, false, Option, none, some, List, [], ◌∷◌, ◌++◌, length, ltb, ◌==◌,
  if◌then◌else◌, Result, ◌%◌,
}
use kobako.Transport.Bytes.{
  DecodeError, Read, pure, fail, lift, ◌>>=◌, ◌>>◌, run, read_u8, read_u32, read_bytes, remaining,
  finish, Writer, fresh, ◌▸◌, u8, u32, bytes, as_u32, into_bytes,
}
use kobako.Transport.Tag
use kobako.Transport.Tag.{is_assigned}
use kobako.Transport.Preamble.Bodies.{
  Bindings, Snippets, Flag, encode_bindings, encode_snippets, encode_flag, decode_bindings,
  decode_snippets, decode_flag,
}
use kobako.Transport.Preamble.Records.{Slots, empty, once, take_record}

abbrev pub advisory : ℕ
advisory = 0

abbrev pub critical : ℕ
critical = 1

pub record Preamble : Type 0 where
  pub bindings : Bindings
  pub snippets : Snippets
  pub flags : List Flag

abbrev pub too_many_records : DecodeError
too_many_records = record { message = "Preamble declares more records than it holds" }

abbrev pub bad_criticality : DecodeError
bad_criticality = record { message = "Preamble criticality must be 0 or 1" }

unfoldable pub read_criticality : Read Bool
read_criticality = do
  c ← read_u8
  if c == advisory then pure false else if c == critical then pure true else fail bad_criticality

-- `for _ in 0..count`, over the slots filled so far
unfoldable pub read_records : ℕ → Slots → Read Slots
read_records zero slots = pure slots
read_records (suc count) slots = do
  is_critical ← read_criticality
  kind ← read_u8
  body ← read_bytes
  filled ← lift (take_record is_critical kind body slots)
  read_records count filled

-- `unwrap_or_default`
abbrev pub or_default {ℓ} : {A : Type ℓ} → Option A → A → A
or_default none d = d
or_default (some a) d = a

abbrev pub assemble : Slots → Preamble
assemble s = record {
  bindings = or_default s.bindings (record { paths = [] });
  snippets = or_default s.snippets (record { entries = [] });
  flags = s.flags;
}

unfoldable pub read_preamble : Read Preamble
read_preamble = do
  count ← read_u32
  left ← remaining
  slots ← (if ltb (length left) count then fail too_many_records else read_records count empty)
  finish
  pure (assemble slots)

unfoldable pub decode : List ℕ → Result Preamble DecodeError
unfolding read_preamble read_records read_criticality take_record once is_assigned decode_bindings
    decode_snippets decode_flag
decode bs = run read_preamble bs

pub record Entry : Type 0 where
  pub is_critical : Bool
  pub kind : ℕ
  pub body : List ℕ

abbrev pub bindings_entry : Bindings → List Entry
bindings_entry record_of = elim record_of.paths [
  | [] ↦ []
  | p ∷ ps ↦
      record { is_critical = true; kind = Tag.bindings; body = encode_bindings record_of } ∷ []
]

abbrev pub snippets_entry : Snippets → List Entry
snippets_entry s = elim s.entries [
  | [] ↦ []
  | e ∷ es ↦ record { is_critical = true; kind = Tag.snippets; body = encode_snippets s } ∷ []
]

abbrev pub flag_entries : List Flag → List Entry
flag_entries [] = []
flag_entries (f ∷ fs) =
    record { is_critical = f.critical; kind = Tag.flag; body = encode_flag f } ∷ flag_entries fs

abbrev pub entries : Preamble → List Entry
entries p = bindings_entry p.bindings ++ (snippets_entry p.snippets ++ flag_entries p.flags)

abbrev pub criticality : Bool → ℕ
criticality true = critical
criticality false = advisory

abbrev pub write_entries : List Entry → Writer → Writer
write_entries [] w = w
write_entries (e ∷ es) w =
    write_entries es (w ▸ u8 (criticality e.is_critical) ▸ u8 e.kind ▸ bytes e.body)

unfoldable pub encode : Preamble → List ℕ
unfolding encode_bindings encode_snippets encode_flag
encode p =
    let records = entries p in
    into_bytes (fresh ▸ u32 (as_u32 (length records)) ▸ write_entries records)
