-- ===== src/Codec/Rmp.antt =====
-- The third-party crate `rmp`, as a parameter: the functions of it that the codec calls, on a cursor
-- or a buffer that they take and return, and what they are documented to do. A write error is `none`.
pub mod Laws
use kobako.Common.{
  ℕ, ◌+◌, ◌^◌, ◌<◌, ◌≤◌, ◌≡◌, Bool, true, false, Option, none, some, List, [], ◌∷◌, ◌++◌, length,
  Result, ok, err,
}
use kobako.Codec.Values.{ℤ, pos, negsuc, Error, truncated, invalid_type}

-- The arms of the decoder's `match`, which name every marker.
pub data Marker : Type 0 where
  null true_ false_ : Marker
  fix_pos : ℕ → Marker
  fix_neg : ℤ → Marker
  u8 u16 u32 u64 i8 i16 i32 i64 f32 f64 : Marker
  fix_str : ℕ → Marker
  str8 str16 str32 bin8 bin16 bin32 : Marker
  fix_array : ℕ → Marker
  array16 array32 : Marker
  fix_map : ℕ → Marker
  map16 map32 : Marker
  fix_ext1 fix_ext2 fix_ext4 fix_ext8 fix_ext16 ext8 ext16 ext32 reserved : Marker

pub data ValueReadError : Type 0 where
  invalid_marker_read invalid_data_read type_mismatch : ValueReadError

-- `impl From<ValueReadError<E>> for Error`
unfoldable pub from_value_read_error : ValueReadError → Error
from_value_read_error invalid_marker_read = truncated
from_value_read_error invalid_data_read = truncated
from_value_read_error type_mismatch = invalid_type

-- A reader of numbers takes the cursor and answers the number and the cursor behind it.
abbrev pub ReadsData {ℓ} : Type ℓ → Type ℓ
ReadsData A = List ℕ → Result (A × List ℕ) ValueReadError

abbrev pub Writes : Type 0
Writes = List ℕ → Option (List ℕ)

-- `widen` is the cast of an f32 to an f64, on bit patterns.
pub record Rmp : Type 0 where
  pub read_marker : List ℕ → Option (Marker × List ℕ)
  pub read_data_u8 : ReadsData ℕ
  pub read_data_u16 : ReadsData ℕ
  pub read_data_u32 : ReadsData ℕ
  pub read_data_u64 : ReadsData ℕ
  pub read_data_i8 : ReadsData ℤ
  pub read_data_i16 : ReadsData ℤ
  pub read_data_i32 : ReadsData ℤ
  pub read_data_i64 : ReadsData ℤ
  pub read_data_f32 : ReadsData ℕ
  pub read_data_f64 : ReadsData ℕ
  pub widen : ℕ → ℕ
  pub write_nil : Writes
  pub write_bool : Bool → Writes
  pub write_sint : ℤ → Writes
  pub write_uint : ℕ → Writes
  pub write_f64 : ℕ → Writes
  pub write_str : List ℕ → Writes
  pub write_bin : List ℕ → Writes
  pub write_array_len : ℕ → Writes
  pub write_map_len : ℕ → Writes
  pub write_ext_meta : ℕ → ℕ → Writes
