-- ===== src/Codec/Legal.antt =====
-- The values that the wire can carry: text is UTF-8, and a Handle id is one that can be issued.
use kobako.Common.{◌≤◌, ◌≡◌, true}
use kobako.Common.Utf8.{is_utf8}
use kobako.Codec.Values.{
  Value, nil, bool, int, uint, float, str, bin, array, map, handle, Items, no_items, item, Pairs,
  no_pairs, pair, max_handle_id,
}
use kobako.Codec.Values.{sym as symbol}

unfoldable mutual
  pub IsLegal : Value → Type 0
  IsLegal nil = Unit {0}
  IsLegal (bool b) = Unit {0}
  IsLegal (int z) = Unit {0}
  IsLegal (uint n) = Unit {0}
  IsLegal (float f) = Unit {0}
  IsLegal (str s) = is_utf8 s ≡ true
  IsLegal (bin s) = Unit {0}
  IsLegal (array vs) = AreLegalItems vs
  IsLegal (map ps) = AreLegalPairs ps
  IsLegal (symbol name) = is_utf8 name ≡ true
  IsLegal (handle id) = (1 ≤ id) × (id ≤ max_handle_id)

  pub AreLegalItems : Items → Type 0
  AreLegalItems no_items = Unit {0}
  AreLegalItems (item v vs) = IsLegal v × AreLegalItems vs

  pub AreLegalPairs : Pairs → Type 0
  AreLegalPairs no_pairs = Unit {0}
  AreLegalPairs (pair k v ps) = IsLegal k × IsLegal v × AreLegalPairs ps
