-- ===== src/Transport/Abi/Packing.antt =====
-- The packed answer holds its two halves.
use kobako.Common.{ℕ, ◌<◌, ◌^◌, ◌≡◌, arith}
use kobako.Transport.Abi.{pack_ptr_len, unpack_ptr_len}

-- A pointer and a length below 2 ^ 32 pack into a u64 and unpack to themselves; a u64 unpacks to two
-- u32s that pack to it.
pub unpack-pack :
    (ptr len packed : ℕ)
    → ptr < 2 ^ 32
    → len < 2 ^ 32
    → packed < 2 ^ 64
    → (unpack_ptr_len (pack_ptr_len ptr len) ≡ (ptr, len))
      × (pack_ptr_len ptr len < 2 ^ 64)
      × (pack_ptr_len (unpack_ptr_len packed).0 (unpack_ptr_len packed).1 ≡ packed)
      × ((unpack_ptr_len packed).0 < 2 ^ 32)
      × ((unpack_ptr_len packed).1 < 2 ^ 32)
unfolding pack_ptr_len unpack_ptr_len
unpack-pack ptr len packed hp hl h =
    (ground arith, omega arith, omega arith, omega arith, omega arith)
