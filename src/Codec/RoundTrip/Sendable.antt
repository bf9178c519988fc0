-- ===== src/Codec/RoundTrip/Sendable.antt =====
-- The values that the encoder takes, and what the decoder makes of them.
use kobako.Common.{◌^◌, ◌≤◌, ◌<◌, ◌≡◌, true, length}
use kobako.Common.Utf8.{is_utf8}
use kobako.Codec.Values.{
  Value, nil, bool, int, uint, float, str, bin, array, map, handle, Items, no_items, item, Pairs,
  no_pairs, pair, max_handle_id, count_items, count_pairs,
}
use kobako.Codec.Values.{sym as symbol}
use kobako.Codec.Rmp.Laws.{IsI64}
use kobako.Codec.Decoder.{of_u64}

-- Numbers in the range of their type, text in UTF-8, lengths that a u32 holds, legal Handle ids.
unfoldable mutual
  pub IsSendable : Value → Type 0
  IsSendable nil = Unit {0}
  IsSendable (bool b) = Unit {0}
  IsSendable (int z) = IsI64 z
  IsSendable (uint n) = n < 2 ^ 64
  IsSendable (float f) = f < 2 ^ 64
  IsSendable (str s) = (is_utf8 s ≡ true) × (length s < 2 ^ 32)
  IsSendable (bin s) = length s < 2 ^ 32
  IsSendable (array vs) = (count_items vs < 2 ^ 32) × AreSendableItems vs
  IsSendable (map ps) = (count_pairs ps < 2 ^ 32) × AreSendablePairs ps
  IsSendable (symbol name) = (is_utf8 name ≡ true) × (length name < 2 ^ 32)
  IsSendable (handle id) = (1 ≤ id) × (id ≤ max_handle_id)

  pub AreSendableItems : Items → Type 0
  AreSendableItems no_items = Unit {0}
  AreSendableItems (item v vs) = IsSendable v × AreSendableItems vs

  pub AreSendablePairs : Pairs → Type 0
  AreSendablePairs no_pairs = Unit {0}
  AreSendablePairs (pair k v ps) = IsSendable k × IsSendable v × AreSendablePairs ps

-- The wire does not tell a UInt that an i64 holds from an Int, and the decoder answers the Int.
unfoldable mutual
  unfolding of_u64

  pub normal : Value → Value
  normal nil = nil
  normal (bool b) = bool b
  normal (int z) = int z
  normal (uint n) = of_u64 n
  normal (float f) = float f
  normal (str s) = str s
  normal (bin s) = bin s
  normal (array vs) = array (normal_items vs)
  normal (map ps) = map (normal_pairs ps)
  normal (symbol name) = symbol name
  normal (handle id) = handle id

  pub normal_items : Items → Items
  normal_items no_items = no_items
  normal_items (item v vs) = item (normal v) (normal_items vs)

  pub normal_pairs : Pairs → Pairs
  normal_pairs no_pairs = no_pairs
  normal_pairs (pair k v ps) = pair (normal k) (normal v) (normal_pairs ps)
