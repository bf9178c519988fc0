-- ===== src/Codec/Runs/Wide.antt =====
-- A MessagePack that reads every marker and always writes the widest form of a number or a length.
use kobako.Common.{
  ℕ, ◌-◌, ◌/◌, ◌%◌, ◌^◌, ◌<◌, ◌≡◌, refl, ap, ◌∙◌, false, Bool, true, Option, none, some, List, [],
  ◌∷◌, ◌++◌, length, take, drop, ltb, subst, ◌==◌, if◌then◌else◌, Result, ok, err, arith,
  length-append, take-append_left, drop-append_left,
}
use kobako.Common.Words.{from_be_bytes, to_be_bytes, from_be_bytes-to_be_bytes, length-to_be_bytes}
use kobako.Codec.Values.{ℤ, pos, negsuc}
use kobako.Codec.Rmp.{Marker, ValueReadError, Rmp, ReadsData, Writes}
use kobako.Codec.Rmp.Laws
use kobako.Codec.Rmp.Laws.{Gives, IsI64, Head, IsRmp}

-- The markers from 0xc0 to 0xdf, by their lower five bits.
abbrev named_marker : ℕ → Marker
named_marker b =
    if b == 0
    then Marker.null
    else if b == 2
    then Marker.false_
    else if b == 3
    then Marker.true_
    else if b == 4
    then Marker.bin8
    else if b == 5
    then Marker.bin16
    else if b == 6
    then Marker.bin32
    else if b == 7
    then Marker.ext8
    else if b == 8
    then Marker.ext16
    else if b == 9
    then Marker.ext32
    else if b == 10
    then Marker.f32
    else if b == 11
    then Marker.f64
    else if b == 12
    then Marker.u8
    else if b == 13
    then Marker.u16
    else if b == 14
    then Marker.u32
    else if b == 15
    then Marker.u64
    else if b == 16
    then Marker.i8
    else if b == 17
    then Marker.i16
    else if b == 18
    then Marker.i32
    else if b == 19
    then Marker.i64
    else if b == 20
    then Marker.fix_ext1
    else if b == 21
    then Marker.fix_ext2
    else if b == 22
    then Marker.fix_ext4
    else if b == 23
    then Marker.fix_ext8
    else if b == 24
    then Marker.fix_ext16
    else if b == 25
    then Marker.str8
    else if b == 26
    then Marker.str16
    else if b == 27
    then Marker.str32
    else if b == 28
    then Marker.array16
    else if b == 29
    then Marker.array32
    else if b == 30
    then Marker.map16
    else if b == 31
    then Marker.map32
    else Marker.reserved

abbrev marker_of : ℕ → Marker
marker_of b =
    if ltb b 0x80
    then Marker.fix_pos b
    else if ltb b 0x90
    then Marker.fix_map (b - 0x80)
    else if ltb b 0xa0
    then Marker.fix_array (b - 0x90)
    else if ltb b 0xc0
    then Marker.fix_str (b - 0xa0)
    else if ltb b 0xe0
    then named_marker (b - 0xc0)
    else Marker.fix_neg (negsuc (255 - b))

abbrev first_marker : List ℕ → Option (Marker × List ℕ)
first_marker [] = none
first_marker (b ∷ rest) = some (marker_of b, rest)

abbrev word : ℕ → ReadsData ℕ
word width bytes =
    if ltb (length bytes) width
    then err ValueReadError.invalid_data_read
    else ok (from_be_bytes (take width bytes), drop width bytes)

-- Two's complement of a width of `bits`.
abbrev signed : ℕ → ℕ → ℤ
signed bits n = if ltb n (2 ^ (bits - 1)) then pos n else negsuc (2 ^ bits - 1 - n)

abbrev as_signed : ℕ → Result (ℕ × List ℕ) ValueReadError → Result (ℤ × List ℕ) ValueReadError
as_signed bits (err e) = err e
as_signed bits (ok (n, rest)) = ok (signed bits n, rest)

abbrev signed_word : ℕ → ℕ → ReadsData ℤ
signed_word width bits bytes = as_signed bits (word width bytes)

abbrev pattern_of : ℤ → ℕ
pattern_of (pos n) = n
pattern_of (negsuc n) = 2 ^ 64 - 1 - n

abbrev word64 : ℕ → List ℕ
word64 n = to_be_bytes (n / 2 ^ 32) ++ to_be_bytes (n % 2 ^ 32)

abbrev emit : ℕ → List ℕ → List ℕ → Writes
emit b dt contents buf = some (buf ++ ((b ∷ []) ++ (dt ++ contents)))

abbrev pub wide : Rmp
wide = record {
  read_marker = first_marker;
  read_data_u8 = word 1;
  read_data_u16 = word 2;
  read_data_u32 = word 4;
  read_data_u64 = word 8;
  read_data_i8 = signed_word 1 8;
  read_data_i16 = signed_word 2 16;
  read_data_i32 = signed_word 4 32;
  read_data_i64 = signed_word 8 64;
  read_data_f32 = word 4;
  read_data_f64 = word 8;
  widen = λ f. f;
  write_nil = emit 0xc0 [] [];
  write_bool = λ b. emit (if b then 0xc3 else 0xc2) [] [];
  write_sint = λ z. emit 0xd3 (word64 (pattern_of z)) [];
  write_uint = λ n. emit 0xcf (word64 n) [];
  write_f64 = λ f. emit 0xcb (word64 f) [];
  write_str = λ s. emit 0xdb (to_be_bytes (length s)) s;
  write_bin = λ s. emit 0xc6 (to_be_bytes (length s)) s;
  write_array_len = λ n. emit 0xdd (to_be_bytes n) [];
  write_map_len = λ n. emit 0xdf (to_be_bytes n) [];
  write_ext_meta = λ n ty. emit 0xc9 (to_be_bytes n) (ty ∷ []);
}

word-bytes :
    (width : ℕ) (dt rest : List ℕ)
    → length dt ≡ width
    → word width (dt ++ rest) ≡ ok (from_be_bytes dt, rest)
word-bytes width dt rest e =
    subst (λ n. word n (dt ++ rest) ≡ ok (from_be_bytes dt, rest)) e
      (rw (enough, take-append_left dt rest, drop-append_left dt rest) refl)
  where
    enough : ltb (length (dt ++ rest)) (length dt) ≡ false
    enough = ground (arith, length-append dt rest)

gives32 : (n : ℕ) → n < 2 ^ 32 → Gives (word 4) (to_be_bytes n) n
gives32 n h = record {
  gives = λ rest.
      word-bytes 4 (to_be_bytes n) rest (length-to_be_bytes n)
      ∙ ap (λ k. ok (k, rest)) (from_be_bytes-to_be_bytes n h);
}

from_be_bytes-word64 : (n : ℕ) → n < 2 ^ 64 → from_be_bytes (word64 n) ≡ n
unfolding from_be_bytes to_be_bytes
from_be_bytes-word64 n h = omega arith

length-word64 : (n : ℕ) → length (word64 n) ≡ 8
length-word64 n = omega (
  arith,
  length-append (to_be_bytes (n / 2 ^ 32)) (to_be_bytes (n % 2 ^ 32)),
  length-to_be_bytes (n / 2 ^ 32),
  length-to_be_bytes (n % 2 ^ 32),
)

gives64 : (n : ℕ) → n < 2 ^ 64 → Gives (word 8) (word64 n) n
gives64 n h = record {
  gives = λ rest.
      word-bytes 8 (word64 n) rest (length-word64 n)
      ∙ ap (λ k. ok (k, rest)) (from_be_bytes-word64 n h);
}

signed-pattern : (z : ℤ) → IsI64 z → (pattern_of z < 2 ^ 64) × (signed 64 (pattern_of z) ≡ z)
signed-pattern (pos n) h = (omega arith, ground arith)
signed-pattern (negsuc n) h = (omega arith, ground arith)

Gives-i64 : (z : ℤ) → IsI64 z → Gives (signed_word 8 64) (word64 (pattern_of z)) z
Gives-i64 z h = record {
  gives = λ rest.
      ap (as_signed 64) ((gives64 (pattern_of z) (signed-pattern z h).0).gives rest)
      ∙ ap (λ k. ok (k, rest)) (signed-pattern z h).1;
}

truth : (b : Bool) → Head wide (λ m dt. Laws.Truth wide m dt b) (wide.write_bool b) []
truth true = record {
  mark = 0xc3 ∷ [];
  dt = [];
  m = Marker.true_;
  marks = λ rest. refl;
  form = Laws.Truth.yes_ refl refl refl;
  appends = λ buf. refl;
}
truth false = record {
  mark = 0xc2 ∷ [];
  dt = [];
  m = Marker.false_;
  marks = λ rest. refl;
  form = Laws.Truth.no_ refl refl refl;
  appends = λ buf. refl;
}

pub wide-IsRmp : IsRmp wide
wide-IsRmp = record {
  nil = record {
    mark = 0xc0 ∷ [];
    dt = [];
    m = Marker.null;
    marks = λ rest. refl;
    form = Laws.Nil.null refl refl;
    appends = λ buf. refl;
  };
  bool = truth;
  sint = λ z h. record {
    mark = 0xd3 ∷ [];
    dt = word64 (pattern_of z);
    m = Marker.i64;
    marks = λ rest. refl;
    form = Laws.Signed.i64 refl (Gives-i64 z h);
    appends = λ buf. refl;
  };
  uint = λ n h. record {
    mark = 0xcf ∷ [];
    dt = word64 n;
    m = Marker.u64;
    marks = λ rest. refl;
    form = Laws.Unsigned.u64 refl (gives64 n h) h;
    appends = λ buf. refl;
  };
  double = λ f h. record {
    mark = 0xcb ∷ [];
    dt = word64 f;
    m = Marker.f64;
    marks = λ rest. refl;
    form = Laws.Double.f64 refl (gives64 f h);
    appends = λ buf. refl;
  };
  str = λ s h. record {
    mark = 0xdb ∷ [];
    dt = to_be_bytes (length s);
    m = Marker.str32;
    marks = λ rest. refl;
    form = Laws.StrLen.u32 refl (gives32 (length s) h);
    appends = λ buf. refl;
  };
  bin = λ s h. record {
    mark = 0xc6 ∷ [];
    dt = to_be_bytes (length s);
    m = Marker.bin32;
    marks = λ rest. refl;
    form = Laws.BinLen.u32 refl (gives32 (length s) h);
    appends = λ buf. refl;
  };
  array_len = λ n h. record {
    mark = 0xdd ∷ [];
    dt = to_be_bytes n;
    m = Marker.array32;
    marks = λ rest. refl;
    form = Laws.ArrayLen.u32 refl (gives32 n h);
    appends = λ buf. refl;
  };
  map_len = λ n h. record {
    mark = 0xdf ∷ [];
    dt = to_be_bytes n;
    m = Marker.map32;
    marks = λ rest. refl;
    form = Laws.MapLen.u32 refl (gives32 n h);
    appends = λ buf. refl;
  };
  ext_meta = λ n ty h k. record {
    mark = 0xc9 ∷ [];
    dt = to_be_bytes n;
    m = Marker.ext32;
    marks = λ rest. refl;
    form = Laws.ExtLen.u32 refl (gives32 n h);
    appends = λ buf. refl;
  };
}
