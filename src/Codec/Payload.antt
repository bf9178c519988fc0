-- ===== src/Codec/Payload.antt =====
-- crates/kobako-codec/src/msgpack/payload.rs: the arguments of an invocation.
pub mod RoundTrip
use kobako.Common.{ℕ, Option, none, List, [], ◌∷◌, Result, ok, err}
use kobako.Common.Outcomes.{◌>>=◌}
use kobako.Codec.Values.{
  Value, array, map, Items, no_items, item, Pairs, no_pairs, pair, Error, malformed,
}
use kobako.Codec.Values.{sym as symbol}
use kobako.Codec.Rmp.{Rmp}
use kobako.Codec.Decoder.{new, with_value_budget, read_sole_value}
use kobako.Codec.Encoder

pub record Arguments : Type 0 where
  pub args : Items
  pub kwargs : List (List ℕ × Value)

abbrev pub bad_frame : Error
bad_frame = malformed "an invocation payload must be a 2-element array of args and kwargs"

abbrev pub bad_args : Error
bad_args = malformed "payload args must be an array"

abbrev pub bad_keys : Error
bad_keys = malformed "payload kwargs keys must be Symbol (ext 0x00)"

abbrev pub bad_kwargs : Error
bad_kwargs = malformed "payload kwargs must be a map"

abbrev pub symbol_pairs : List (List ℕ × Value) → Pairs
symbol_pairs [] = no_pairs
symbol_pairs ((name, v) ∷ rest) = pair (symbol name) v (symbol_pairs rest)

-- The array that the payload is.
abbrev pub frame : Arguments → Value
frame a = array (item (array a.args) (item (map (symbol_pairs a.kwargs)) no_items))

unfoldable pub encode : Rmp → Arguments → Result (List ℕ) Error
encode rmp a = Encoder.encode rmp (frame a)

unfoldable pub split_frame : Value → Result (Value × Value) Error
split_frame (array (item args (item kwargs no_items))) = ok (args, kwargs)
split_frame _ = err bad_frame

unfoldable pub args_of : Value → Result Items Error
args_of (array items) = ok items
args_of _ = err bad_args

unfoldable pub named : Pairs → Result (List (List ℕ × Value)) Error
named no_pairs = ok []
named (pair (symbol name) v ps) = do rest ← named ps; ok ((name, v) ∷ rest)
named _ = err bad_keys

unfoldable pub kwargs_of : Value → Result (List (List ℕ × Value)) Error
unfolding named
kwargs_of (map pairs) = named pairs
kwargs_of _ = err bad_kwargs

-- What is made of the sole value of the payload.
unfoldable pub arguments_of : Value → Result Arguments Error
unfolding split_frame args_of kwargs_of
arguments_of v = do
  (args_value, kwargs_value) ← split_frame v
  args ← args_of args_value
  kwargs ← kwargs_of kwargs_value
  ok (record { args = args; kwargs = kwargs })

unfoldable pub decode_within : Rmp → List ℕ → Option ℕ → Result Arguments Error
unfolding arguments_of
decode_within rmp bytes budget = do
  v ← read_sole_value rmp (with_value_budget budget (new bytes))
  arguments_of v

unfoldable pub decode : Rmp → List ℕ → Result Arguments Error
unfolding decode_within
decode rmp bytes = decode_within rmp bytes none
