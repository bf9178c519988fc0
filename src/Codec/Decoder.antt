-- ===== src/Codec/Decoder.antt =====
-- crates/kobako-codec/src/msgpack/codec/decoder.rs. A reader takes the cursor and the budget and
-- returns them beside its result; they are dropped with an error, after which no caller reads on.
-- The source's `depth` is counted from the other end: `levels` is `MAX_NESTING_DEPTH + 1 - depth`, so
-- that the test for `depth > MAX_NESTING_DEPTH` is the test for 0, and the recursion ends by itself.
use kobako.Common.{
  ℕ, zero, suc, ◌+◌, ◌-◌, ◌^◌, Bool, true, false, Option, none, some, List, [], ◌∷◌, ◌||◌, length,
  take, drop, ltb, leb, ◌==◌, if◌then◌else◌, Result, ok, err,
}
use kobako.Common.Words.{from_be_bytes}
use kobako.Common.Utf8.{is_utf8}
use kobako.Codec.Values.{
  pos, Value, nil, bool, int, uint, float, str, bin, array, map, sym, handle, Items, no_items, item,
  Pairs, no_pairs, pair, Error, truncated, invalid_type, utf8, invalid_handle, malformed,
  ext_symbol, ext_handle, max_handle_id, max_nesting_depth, too_deep,
}
use kobako.Codec.Rmp.{Marker, Rmp, ReadsData, ValueReadError, from_value_read_error}

pub record Cursor : Type 0 where
  pub bytes : List ℕ
  pub budget : Option ℕ

abbrev pub Read {ℓ} : Type ℓ → Type ℓ
Read A = Cursor → Result (A × Cursor) Error

module _ {ℓ} {A : Type ℓ} where
  abbrev pub pure : A → Read A
  pure a c = ok (a, c)

  abbrev pub fail : Error → Read A
  fail e c = err e

abbrev pub and_then {ℓ κ} :
    {A : Type ℓ} {B : Type κ} → Result (A × Cursor) Error → (A → Read B) → Result (B × Cursor) Error
and_then (ok (a, c)) f = f a c
and_then (err e) f = err e

infixl 5 ◌>>=◌
unfoldable pub ◌>>=◌ {ℓ κ} : {A : Type ℓ} {B : Type κ} → Read A → (A → Read B) → Read B
◌>>=◌ m f c = and_then (m c) f

-- A number read by `rmp`, with the `?` behind it.
abbrev pub answered {ℓ} :
    {A : Type ℓ} → Cursor → Result (A × List ℕ) ValueReadError → Result (A × Cursor) Error
answered c (ok (a, rest)) = ok (a, record c { bytes = rest })
answered c (err e) = err (from_value_read_error e)

abbrev pub data_of {ℓ} : {A : Type ℓ} → ReadsData A → Read A
data_of r c = answered c (r c.bytes)

unfoldable pub take_bytes : ℕ → Read (List ℕ)
take_bytes n c =
    if ltb (length c.bytes) n
    then err truncated
    else ok (take n c.bytes, record c { bytes = drop n c.bytes })

unfoldable pub read_str_body : ℕ → Read Value
unfolding take_bytes ◌>>=◌
read_str_body len = do bytes ← take_bytes len; if is_utf8 bytes then pure (str bytes) else fail utf8

unfoldable pub read_bin_body : ℕ → Read Value
unfolding take_bytes ◌>>=◌
read_bin_body len = do bytes ← take_bytes len; pure (bin bytes)

-- `cursor[0]`, where there is one
unfoldable pub read_type : Read ℕ
read_type c = elim c.bytes [ [] ↦ err truncated | ty ∷ rest ↦ ok (ty, record c { bytes = rest }) ]

unfoldable pub read_symbol : ℕ → Read Value
unfolding take_bytes ◌>>=◌
read_symbol len = do
  payload ← take_bytes len
  if is_utf8 payload then pure (sym payload) else fail utf8

unfoldable pub read_handle : ℕ → Read Value
unfolding take_bytes ◌>>=◌
read_handle len =
    if len == 4
    then (do
      payload ← take_bytes 4
      let id = from_be_bytes payload
      if id == 0 || ltb max_handle_id id then fail invalid_handle else pure (handle id))
    else fail invalid_handle

-- The cast of the type byte to an i8 keeps 0 and 1 apart from every other byte.
unfoldable pub read_ext : ℕ → Read Value
unfolding read_type read_symbol read_handle ◌>>=◌
read_ext len = do
  ty ← read_type
  if ty == ext_symbol
      then read_symbol len
      else if ty == ext_handle
      then read_handle len
      else fail invalid_type

-- The loops of `read_array_body` and `read_map_body`; `deeper` reads a value one level down.
unfoldable pub read_items : Read Value → ℕ → Read Items
unfolding ◌>>=◌
read_items deeper zero = pure no_items
read_items deeper (suc len) = do v ← deeper; vs ← read_items deeper len; pure (item v vs)

unfoldable pub read_pairs : Read Value → ℕ → Read Pairs
unfolding ◌>>=◌
read_pairs deeper zero = pure no_pairs
read_pairs deeper (suc len) = do
  k ← deeper
  v ← deeper
  ps ← read_pairs deeper len
  pure (pair k v ps)

unfoldable pub read_array_body : Read Value → ℕ → Read Value
unfolding ◌>>=◌
read_array_body deeper len = do vs ← read_items deeper len; pure (array vs)

unfoldable pub read_map_body : Read Value → ℕ → Read Value
unfolding ◌>>=◌
read_map_body deeper len = do ps ← read_pairs deeper len; pure (map ps)

-- `n <= i64::MAX as u64`
unfoldable pub of_u64 : ℕ → Value
of_u64 n = if leb n (2 ^ 63 - 1) then int (pos n) else uint n

-- `checked_sub(1)`
unfoldable pub spend_one : Read (Unit {0})
spend_one c = elim c.budget [
  | none ↦ ok (tt, c)
  | some zero ↦ err (malformed "payload holds more values than its budget")
  | some (suc left) ↦ ok (tt, record c { budget = some left })
]

abbrev pub found : Cursor → Option (Marker × List ℕ) → Result (Marker × Cursor) Error
found c none = err truncated
found c (some (m, rest)) = ok (m, record c { bytes = rest })

module _ (rmp : Rmp) where
  open rmp use {
    read_marker, read_data_u8, read_data_u16, read_data_u32, read_data_u64, read_data_i8,
    read_data_i16, read_data_i32, read_data_i64, read_data_f32, read_data_f64, widen,
  }

  unfoldable pub marker : Read Marker
  marker c = found c (read_marker c.bytes)

  -- The arms of the `match`.
  unfoldable pub read_marked : Read Value → Marker → Read Value
  unfolding ◌>>=◌
  read_marked deeper Marker.null = pure nil
  read_marked deeper Marker.true_ = pure (bool true)
  read_marked deeper Marker.false_ = pure (bool false)
  read_marked deeper (Marker.fix_pos n) = pure (int (pos n))
  read_marked deeper (Marker.fix_neg z) = pure (int z)
  read_marked deeper Marker.u8 = do n ← data_of read_data_u8; pure (int (pos n))
  read_marked deeper Marker.u16 = do n ← data_of read_data_u16; pure (int (pos n))
  read_marked deeper Marker.u32 = do n ← data_of read_data_u32; pure (int (pos n))
  read_marked deeper Marker.u64 = do n ← data_of read_data_u64; pure (of_u64 n)
  read_marked deeper Marker.i8 = do z ← data_of read_data_i8; pure (int z)
  read_marked deeper Marker.i16 = do z ← data_of read_data_i16; pure (int z)
  read_marked deeper Marker.i32 = do z ← data_of read_data_i32; pure (int z)
  read_marked deeper Marker.i64 = do z ← data_of read_data_i64; pure (int z)
  read_marked deeper Marker.f32 = do f ← data_of read_data_f32; pure (float (widen f))
  read_marked deeper Marker.f64 = do f ← data_of read_data_f64; pure (float f)
  read_marked deeper (Marker.fix_str len) = read_str_body len
  read_marked deeper Marker.str8 = do len ← data_of read_data_u8; read_str_body len
  read_marked deeper Marker.str16 = do len ← data_of read_data_u16; read_str_body len
  read_marked deeper Marker.str32 = do len ← data_of read_data_u32; read_str_body len
  read_marked deeper Marker.bin8 = do len ← data_of read_data_u8; read_bin_body len
  read_marked deeper Marker.bin16 = do len ← data_of read_data_u16; read_bin_body len
  read_marked deeper Marker.bin32 = do len ← data_of read_data_u32; read_bin_body len
  read_marked deeper (Marker.fix_array len) = read_array_body deeper len
  read_marked deeper Marker.array16 = do len ← data_of read_data_u16; read_array_body deeper len
  read_marked deeper Marker.array32 = do len ← data_of read_data_u32; read_array_body deeper len
  read_marked deeper (Marker.fix_map len) = read_map_body deeper len
  read_marked deeper Marker.map16 = do len ← data_of read_data_u16; read_map_body deeper len
  read_marked deeper Marker.map32 = do len ← data_of read_data_u32; read_map_body deeper len
  read_marked deeper Marker.fix_ext1 = read_ext 1
  read_marked deeper Marker.fix_ext2 = read_ext 2
  read_marked deeper Marker.fix_ext4 = read_ext 4
  read_marked deeper Marker.fix_ext8 = read_ext 8
  read_marked deeper Marker.fix_ext16 = read_ext 16
  read_marked deeper Marker.ext8 = do len ← data_of read_data_u8; read_ext len
  read_marked deeper Marker.ext16 = do len ← data_of read_data_u16; read_ext len
  read_marked deeper Marker.ext32 = do len ← data_of read_data_u32; read_ext len
  read_marked deeper Marker.reserved = fail invalid_type

  unfoldable pub read_one : Read Value → Read Value
  unfolding spend_one marker ◌>>=◌
  read_one deeper = do spent ← spend_one; m ← marker; read_marked deeper m

  unfoldable pub read_value_from : ℕ → Read Value
  read_value_from zero c = err too_deep
  read_value_from (suc levels) c = read_one (read_value_from levels) c

-- `Decoder`: `pos` is where the last whole value ended.
pub record Decoder : Type 0 where
  pub input : List ℕ
  pub pos : ℕ
  pub budget : Option ℕ

unfoldable pub new : List ℕ → Decoder
new input = record { input = input; pos = 0; budget = none }

unfoldable pub with_value_budget : Option ℕ → Decoder → Decoder
with_value_budget budget d = record d { budget = budget }

unfoldable pub is_at_end : Decoder → Bool
is_at_end d = leb (length d.input) d.pos

unfoldable pub resume : Decoder → Result (Value × Cursor) Error → Result (Value × Decoder) Error
resume d (err e) = err e
resume d (ok (v, c)) = ok (v, record d { pos = length d.input - length c.bytes; budget = c.budget })

unfoldable pub read_value : Rmp → Decoder → Result (Value × Decoder) Error
unfolding resume
read_value rmp d = resume d (
    read_value_from rmp (max_nesting_depth + 1)
      (record { bytes = drop d.pos d.input; budget = d.budget }))

abbrev pub sole : Result (Value × Decoder) Error → Result Value Error
sole (err e) = err e
sole (ok (v, d)) =
    if is_at_end d then ok v else err (malformed "trailing bytes after the payload value")

unfoldable pub read_sole_value : Rmp → Decoder → Result Value Error
unfolding read_value is_at_end
read_sole_value rmp d = sole (read_value rmp d)
