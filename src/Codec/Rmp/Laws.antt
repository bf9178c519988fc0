-- ===== src/Codec/Rmp/Laws.antt =====
-- What the documentation of `rmp` says that the codec relies on: a writer appends a marker, the data
-- of that marker and the contents, in one of the forms that MessagePack has for the value, and the
-- readers read markers and data back and leave what is behind them.
use kobako.Common.{ℕ, ◌^◌, ◌<◌, ◌≡◌, Bool, true, false, some, List, [], ◌∷◌, ◌++◌, length, ok}
use kobako.Codec.Values.{ℤ, pos, negsuc}
use kobako.Codec.Rmp.{Marker, Rmp, ReadsData, Writes}

-- A reader gives `a` for `dt`, whatever is behind it.
pub record Gives {A : Type 0} (read : ReadsData A) (dt : List ℕ) (a : A) : Type 0 where
  pub gives : (rest : List ℕ) → read (dt ++ rest) ≡ ok (a, rest)

abbrev pub IsI64 : ℤ → Type 0
IsI64 (pos n) = n < 2 ^ 63
IsI64 (negsuc n) = n < 2 ^ 63

module _ (r : Rmp) (m : Marker) (dt : List ℕ) where
  -- The forms of an unsigned number.
  pub data Unsigned (n : ℕ) : Type 0 where
    fix_pos : m ≡ Marker.fix_pos n → dt ≡ [] → n < 2 ^ 7 → Unsigned n
    u8 : m ≡ Marker.u8 → Gives r.read_data_u8 dt n → n < 2 ^ 8 → Unsigned n
    u16 : m ≡ Marker.u16 → Gives r.read_data_u16 dt n → n < 2 ^ 16 → Unsigned n
    u32 : m ≡ Marker.u32 → Gives r.read_data_u32 dt n → n < 2 ^ 32 → Unsigned n
    u64 : m ≡ Marker.u64 → Gives r.read_data_u64 dt n → n < 2 ^ 64 → Unsigned n

  -- The forms of a signed number, those of an unsigned one for a natural number among them.
  pub data Signed (z : ℤ) : Type 0 where
    fix_neg : m ≡ Marker.fix_neg z → dt ≡ [] → Signed z
    i8 : m ≡ Marker.i8 → Gives r.read_data_i8 dt z → Signed z
    i16 : m ≡ Marker.i16 → Gives r.read_data_i16 dt z → Signed z
    i32 : m ≡ Marker.i32 → Gives r.read_data_i32 dt z → Signed z
    i64 : m ≡ Marker.i64 → Gives r.read_data_i64 dt z → Signed z
    natural : (n : ℕ) → z ≡ pos n → Unsigned n → Signed z

  pub data StrLen (n : ℕ) : Type 0 where
    fix : m ≡ Marker.fix_str n → dt ≡ [] → StrLen n
    u8 : m ≡ Marker.str8 → Gives r.read_data_u8 dt n → StrLen n
    u16 : m ≡ Marker.str16 → Gives r.read_data_u16 dt n → StrLen n
    u32 : m ≡ Marker.str32 → Gives r.read_data_u32 dt n → StrLen n

  pub data BinLen (n : ℕ) : Type 0 where
    u8 : m ≡ Marker.bin8 → Gives r.read_data_u8 dt n → BinLen n
    u16 : m ≡ Marker.bin16 → Gives r.read_data_u16 dt n → BinLen n
    u32 : m ≡ Marker.bin32 → Gives r.read_data_u32 dt n → BinLen n

  pub data ArrayLen (n : ℕ) : Type 0 where
    fix : m ≡ Marker.fix_array n → dt ≡ [] → ArrayLen n
    u16 : m ≡ Marker.array16 → Gives r.read_data_u16 dt n → ArrayLen n
    u32 : m ≡ Marker.array32 → Gives r.read_data_u32 dt n → ArrayLen n

  pub data MapLen (n : ℕ) : Type 0 where
    fix : m ≡ Marker.fix_map n → dt ≡ [] → MapLen n
    u16 : m ≡ Marker.map16 → Gives r.read_data_u16 dt n → MapLen n
    u32 : m ≡ Marker.map32 → Gives r.read_data_u32 dt n → MapLen n

  pub data ExtLen (n : ℕ) : Type 0 where
    one : m ≡ Marker.fix_ext1 → dt ≡ [] → n ≡ 1 → ExtLen n
    two : m ≡ Marker.fix_ext2 → dt ≡ [] → n ≡ 2 → ExtLen n
    four : m ≡ Marker.fix_ext4 → dt ≡ [] → n ≡ 4 → ExtLen n
    eight : m ≡ Marker.fix_ext8 → dt ≡ [] → n ≡ 8 → ExtLen n
    sixteen : m ≡ Marker.fix_ext16 → dt ≡ [] → n ≡ 16 → ExtLen n
    u8 : m ≡ Marker.ext8 → Gives r.read_data_u8 dt n → ExtLen n
    u16 : m ≡ Marker.ext16 → Gives r.read_data_u16 dt n → ExtLen n
    u32 : m ≡ Marker.ext32 → Gives r.read_data_u32 dt n → ExtLen n

  pub data Nil : Type 0 where
    null : m ≡ Marker.null → dt ≡ [] → Nil

  pub data Truth (b : Bool) : Type 0 where
    yes_ : b ≡ true → m ≡ Marker.true_ → dt ≡ [] → Truth b
    no_ : b ≡ false → m ≡ Marker.false_ → dt ≡ [] → Truth b

  pub data Double (f : ℕ) : Type 0 where
    f64 : m ≡ Marker.f64 → Gives r.read_data_f64 dt f → Double f

-- A write of a marker that reads back, its data in one of the forms, and the contents behind it.
pub record Head (r : Rmp) (Form : Marker → List ℕ → Type 0) (w : Writes) (contents : List ℕ)
    : Type 0 where
  pub mark : List ℕ
  pub dt : List ℕ
  pub m : Marker
  pub marks : (rest : List ℕ) → r.read_marker (mark ++ rest) ≡ some (m, rest)
  pub form : Form m dt
  pub appends : (buf : List ℕ) → w buf ≡ some (buf ++ (mark ++ (dt ++ contents)))

pub record IsRmp (r : Rmp) : Type 0 where
  pub nil : Head r (Nil r) r.write_nil []
  pub bool : (b : Bool) → Head r (λ m dt. Truth r m dt b) (r.write_bool b) []
  pub sint : (z : ℤ) → IsI64 z → Head r (λ m dt. Signed r m dt z) (r.write_sint z) []
  pub uint : (n : ℕ) → n < 2 ^ 64 → Head r (λ m dt. Unsigned r m dt n) (r.write_uint n) []
  pub double : (f : ℕ) → f < 2 ^ 64 → Head r (λ m dt. Double r m dt f) (r.write_f64 f) []
  pub str :
      (s : List ℕ) → length s < 2 ^ 32 → Head r (λ m dt. StrLen r m dt (length s)) (r.write_str s) s
  pub bin :
      (s : List ℕ) → length s < 2 ^ 32 → Head r (λ m dt. BinLen r m dt (length s)) (r.write_bin s) s
  pub array_len : (n : ℕ) → n < 2 ^ 32 → Head r (λ m dt. ArrayLen r m dt n) (r.write_array_len n) []
  pub map_len : (n : ℕ) → n < 2 ^ 32 → Head r (λ m dt. MapLen r m dt n) (r.write_map_len n) []
  pub ext_meta :
      (n ty : ℕ)
      → n < 2 ^ 32
      → ty < 2 ^ 7
      → Head r (λ m dt. ExtLen r m dt n) (r.write_ext_meta n ty) (ty ∷ [])
