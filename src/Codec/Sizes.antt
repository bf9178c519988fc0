-- ===== src/Codec/Sizes.antt =====
-- How many values a Value holds, counted as the budget counts them, and how deep it is.
use kobako.Common.{ℕ, suc, ◌+◌}
use Prim.Native.Nat.{max}
use kobako.Codec.Values.{
  Value, nil, bool, int, uint, float, str, bin, array, map, handle, Items, no_items, item, Pairs,
  no_pairs, pair,
}
use kobako.Codec.Values.{sym as symbol}

unfoldable mutual
  pub size : Value → ℕ
  size nil = 1
  size (bool b) = 1
  size (int z) = 1
  size (uint n) = 1
  size (float f) = 1
  size (str s) = 1
  size (bin s) = 1
  size (array vs) = suc (size_items vs)
  size (map ps) = suc (size_pairs ps)
  size (symbol name) = 1
  size (handle id) = 1

  pub size_items : Items → ℕ
  size_items no_items = 0
  size_items (item v vs) = size v + size_items vs

  pub size_pairs : Pairs → ℕ
  size_pairs no_pairs = 0
  size_pairs (pair k v ps) = size k + size v + size_pairs ps

unfoldable mutual
  pub depth : Value → ℕ
  depth nil = 0
  depth (bool b) = 0
  depth (int z) = 0
  depth (uint n) = 0
  depth (float f) = 0
  depth (str s) = 0
  depth (bin s) = 0
  depth (array vs) = depth_items vs
  depth (map ps) = depth_pairs ps
  depth (symbol name) = 0
  depth (handle id) = 0

  -- The levels that the members of a list need, below the list.
  pub depth_items : Items → ℕ
  depth_items no_items = 0
  depth_items (item v vs) = max (suc (depth v)) (depth_items vs)

  pub depth_pairs : Pairs → ℕ
  depth_pairs no_pairs = 0
  depth_pairs (pair k v ps) = max (max (suc (depth k)) (suc (depth v))) (depth_pairs ps)
