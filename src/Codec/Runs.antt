-- ===== src/Codec/Runs.antt =====
-- Runs of the codec on small inputs.
pub mod Wide
use kobako.Common.{
  ℕ, ◌+◌, ◌≤◌, ◌≡◌, ◌↔◌, refl, arith, Bool, true, Option, none, some, List, [], ◌∷◌, ◌++◌, codes,
  length, Result, ok, err,
}
use kobako.Common.Utf8.{is_utf8}
use kobako.Common.Words.{to_be_bytes, from_be_bytes}
use kobako.Codec.Values.{
  pos, negsuc, Value, nil, bool, int, uint, float, str, bin, array, map, handle, Items, no_items,
  item, Pairs, no_pairs, pair, Error, truncated, invalid_handle, too_deep, malformed,
  max_nesting_depth,
}
use kobako.Codec.Values.{sym as symbol}
use kobako.Codec.Decoder.{
  Decoder, new, with_value_budget, read_value, read_sole_value, read_value_from, read_one,
  read_marked, read_array_body, read_items, read_map_body, read_pairs, read_ext,
}
use kobako.Codec.Encoder
use kobako.Codec.Encoder.{write_value_at}
use kobako.Codec.Sizes.{size, depth}
use kobako.Codec.Legal.{IsLegal}
use kobako.Codec.Limits.{read_value-Within}
use kobako.Codec.Limits.Costs.{Paid}
use kobako.Codec.RoundTrip.{Value-decode-encode}
use kobako.Codec.RoundTrip.Reading.{Affords}
use kobako.Codec.RoundTrip.Sendable.{IsSendable, normal}
use kobako.Codec.Payload.{Arguments, frame, decode_within}
use kobako.Codec.Payload
use kobako.Codec.Payload.RoundTrip.{normal_arguments, Arguments-decode-encode, decode_within_iff}
use kobako.Codec.Runs.Wide.{wide, wide-IsRmp}

-- `[-1, 5, { k: "x" }, #7]`, the 5 as a UInt
abbrev sample : Value
sample = array (
    item (int (negsuc 0)) (
      item (uint 5) (
        item (map (pair (symbol (codes "k")) (str (codes "x")) no_pairs))
          (item (handle 7) no_items))))

sample-IsSendable : IsSendable sample
unfolding IsSendable is_utf8
sample-IsSendable = (
  omega arith,
  (
    omega arith,
    (
      omega arith,
      ((omega arith, ((refl, omega arith), (refl, omega arith), tt)), (omega arith, tt)),
    ),
  ),
)

sample-depth : depth sample ≤ max_nesting_depth
unfolding depth
sample-depth = omega arith

sample-size : size sample ≡ 7
unfolding size
sample-size = refl

Value-decode-encode_example :
    (bytes : List ℕ) × (Encoder.encode wide sample ≡ ok bytes)
    × (read_sole_value wide (with_value_budget (some 7) (new bytes)) ≡ ok (normal sample))
Value-decode-encode_example =
    Value-decode-encode wide sample (some 7) wide-IsRmp sample-depth sample-IsSendable
      (omega (arith, sample-size))

-- `[nil, 3]` in the narrow forms, under a budget of four values.
abbrev short : Decoder
short = record { input = 0x92 ∷ 0xc0 ∷ 0x03 ∷ []; pos = 0; budget = some 4 }

abbrev two : Value
two = array (item nil (item (int (pos 3)) no_items))

short_read :
    read_value wide short
    ≡ ok (two, record { input = 0x92 ∷ 0xc0 ∷ 0x03 ∷ []; pos = 3; budget = some 1 })
unfolding read_value read_value_from read_one read_marked read_array_body read_items
short_read = refl

over_budget :
    read_sole_value wide (with_value_budget (some 2) (new (0x92 ∷ 0xc0 ∷ 0x03 ∷ [])))
    ≡ err (malformed "payload holds more values than its budget")
unfolding read_sole_value with_value_budget new read_value_from read_one read_marked read_array_body
    read_items
over_budget = refl

zero_handle : read_sole_value wide (new (0xd6 ∷ 1 ∷ 0 ∷ 0 ∷ 0 ∷ 0 ∷ [])) ≡ err invalid_handle
unfolding read_sole_value new read_value_from read_one read_marked read_ext from_be_bytes
zero_handle = refl

read_value-Within_example :
    (depth two ≤ max_nesting_depth) × IsLegal two × Paid (some 4) (size two) (some 1)
read_value-Within_example =
    read_value-Within wide short
      (record { input = 0x92 ∷ 0xc0 ∷ 0x03 ∷ []; pos = 3; budget = some 1 }) two short_read

abbrev forced : Arguments
forced = record { args = item (int (pos 1)) no_items; kwargs = (codes "force", bool true) ∷ [] }

forced-IsSendable : IsSendable (frame forced)
unfolding IsSendable is_utf8
forced-IsSendable = (
  omega arith,
  ((omega arith, (omega arith, tt)), ((omega arith, ((refl, omega arith), tt, tt)), tt)),
)

forced-depth : depth (frame forced) ≤ max_nesting_depth
unfolding depth
forced-depth = omega arith

Arguments-decode-encode_example :
    (bytes : List ℕ) × (Payload.encode wide forced ≡ ok bytes)
    × (decode_within wide bytes none ≡ ok (normal_arguments forced))
Arguments-decode-encode_example =
    Arguments-decode-encode wide forced none wide-IsRmp forced-depth forced-IsSendable tt

abbrev no_arguments : Arguments
no_arguments = record { args = no_items; kwargs = [] }

decode_within_iff_example :
    (decode_within wide (0x92 ∷ 0x90 ∷ 0x80 ∷ []) none ≡ ok no_arguments) ↔ (
      read_sole_value wide (with_value_budget none (new (0x92 ∷ 0x90 ∷ 0x80 ∷ [])))
      ≡ ok (frame no_arguments))
decode_within_iff_example = decode_within_iff wide (0x92 ∷ 0x90 ∷ 0x80 ∷ []) none no_arguments

empty_payload : decode_within wide (0x92 ∷ 0x90 ∷ 0x80 ∷ []) none ≡ ok no_arguments
unfolding decode_within read_sole_value with_value_budget new read_value_from read_one read_marked
    read_array_body read_items read_map_body read_pairs
empty_payload = refl
