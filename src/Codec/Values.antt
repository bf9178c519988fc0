-- ===== src/Codec/Values.antt =====
-- crates/kobako-codec/src/msgpack: codec.rs, codec/value.rs and codec/error.rs, the values of the wire
-- and the ways in which bytes can be wrong. A Float is the bit pattern of its f64.
use kobako.Common.{ℕ, suc, Bool, List, String}

-- A signed integer; `negsuc n` is -(n + 1).
pub data ℤ : Type 0 where
  pos : ℕ → ℤ
  negsuc : ℕ → ℤ

-- `Vec<Value>` and `Vec<(Value, Value)>` are the lists `Items` and `Pairs` of the block.
mutual
  pub data Value : Type 0 where
    nil : Value
    bool : Bool → Value
    int : ℤ → Value
    uint : ℕ → Value
    float : ℕ → Value
    str : List ℕ → Value
    bin : List ℕ → Value
    array : Items → Value
    map : Pairs → Value
    sym : List ℕ → Value
    handle : ℕ → Value

  pub data Items : Type 0 where
    no_items : Items
    item : Value → Items → Items

  pub data Pairs : Type 0 where
    no_pairs : Pairs
    pair : Value → Value → Pairs → Pairs

pub data Error : Type 0 where
  truncated invalid_type utf8 invalid_handle payload_too_large : Error
  malformed : String → Error

abbrev pub ext_symbol : ℕ
ext_symbol = 0

abbrev pub ext_handle : ℕ
ext_handle = 1

abbrev pub max_handle_id : ℕ
max_handle_id = 0x7fff_ffff

abbrev pub max_nesting_depth : ℕ
max_nesting_depth = 128

abbrev pub too_deep : Error
too_deep = malformed "nesting exceeds maximum depth"

-- `len` of the two lists
abbrev pub count_items : Items → ℕ
count_items no_items = 0
count_items (item v vs) = suc (count_items vs)

abbrev pub count_pairs : Pairs → ℕ
count_pairs no_pairs = 0
count_pairs (pair k v ps) = suc (count_pairs ps)
