-- ===== src/Codec/Encoder.antt =====
-- crates/kobako-codec/src/msgpack/codec/encoder.rs. The buffer is what is written so far; `encode`
-- drops it with an error. As in the decoder, `levels` is `MAX_NESTING_DEPTH + 1 - depth`.
use kobako.Common.{
  ℕ, zero, suc, ◌+◌, ◌^◌, List, [], ◌++◌, ◌||◌, length, ltb, ◌==◌, if◌then◌else◌, Result, ok, err,
  ok_or,
}
use kobako.Common.Outcomes.{◌>>=◌}
use kobako.Common.Words.{to_be_bytes}
use kobako.Codec.Values.{
  Value, nil, bool, int, uint, float, str, bin, array, map, sym, handle, Items, no_items, item,
  Pairs, no_pairs, pair, Error, truncated, invalid_handle, payload_too_large, ext_symbol,
  ext_handle, max_handle_id, max_nesting_depth, too_deep, count_items, count_pairs,
}
use kobako.Codec.Rmp.{Rmp, Writes}

-- A write of `rmp`, with its error mapped.
abbrev pub written : Writes → List ℕ → Result (List ℕ) Error
written w buf = ok_or (w buf) truncated

-- `u32::try_from(len)`
abbrev pub checked_u32 : ℕ → Result ℕ Error
checked_u32 n = if ltb n (2 ^ 32) then ok n else err payload_too_large

module _ (rmp : Rmp) where
  open rmp use {
    write_nil, write_bool, write_sint, write_uint, write_f64, write_str, write_bin, write_array_len,
    write_map_len, write_ext_meta,
  }

  unfoldable pub write_sym : List ℕ → List ℕ → Result (List ℕ) Error
  write_sym name buf = do
    len ← checked_u32 (length name)
    head ← written (write_ext_meta len ext_symbol) buf
    ok (head ++ name)

  unfoldable pub write_handle : ℕ → List ℕ → Result (List ℕ) Error
  write_handle id buf =
      if id == 0 || ltb max_handle_id id
      then err invalid_handle
      else (do head ← written (write_ext_meta 4 ext_handle) buf; ok (head ++ to_be_bytes id))

  unfoldable mutual
    unfolding write_sym write_handle

    pub write_value_at : Value → ℕ → List ℕ → Result (List ℕ) Error
    write_value_at v zero buf = err too_deep
    write_value_at nil (suc levels) buf = written write_nil buf
    write_value_at (bool b) (suc levels) buf = written (write_bool b) buf
    write_value_at (int z) (suc levels) buf = written (write_sint z) buf
    write_value_at (uint n) (suc levels) buf = written (write_uint n) buf
    write_value_at (float f) (suc levels) buf = written (write_f64 f) buf
    write_value_at (str s) (suc levels) buf = written (write_str s) buf
    write_value_at (bin s) (suc levels) buf = written (write_bin s) buf
    write_value_at (array vs) (suc levels) buf = do
      len ← checked_u32 (count_items vs)
      head ← written (write_array_len len) buf
      write_items vs levels head
    write_value_at (map ps) (suc levels) buf = do
      len ← checked_u32 (count_pairs ps)
      head ← written (write_map_len len) buf
      write_pairs ps levels head
    write_value_at (sym name) (suc levels) buf = write_sym name buf
    write_value_at (handle id) (suc levels) buf = write_handle id buf

    pub write_items : Items → ℕ → List ℕ → Result (List ℕ) Error
    write_items no_items levels buf = ok buf
    write_items (item v vs) levels buf = do
      next ← write_value_at v levels buf
      write_items vs levels next

    pub write_pairs : Pairs → ℕ → List ℕ → Result (List ℕ) Error
    write_pairs no_pairs levels buf = ok buf
    write_pairs (pair k v ps) levels buf = do
      key ← write_value_at k levels buf
      next ← write_value_at v levels key
      write_pairs ps levels next

  -- `Encoder::encode`
  unfoldable pub encode : Value → Result (List ℕ) Error
  encode v = write_value_at v (max_nesting_depth + 1) []
