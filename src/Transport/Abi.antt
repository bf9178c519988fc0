-- ===== src/Transport/Abi.antt =====
-- crates/kobako-transport/src/abi.rs: the sizes both sides agree on, and the packed answer.
pub mod Packing
use kobako.Common.{ℕ, ◌+◌, ◌*◌, ◌/◌, ◌%◌, ◌^◌}

abbrev pub abi_version : ℕ
abi_version = 5

abbrev pub frame_len_size : ℕ
frame_len_size = 4

abbrev pub max_dispatch_payload : ℕ
max_dispatch_payload = 16 * 1024 * 1024

abbrev pub max_frame_len : ℕ
max_frame_len = 64 * 1024 * 1024

-- `((ptr as u64) << 32) | (len as u64)`: `len` is below 2 ^ 32, so the bits are disjoint and `|`
-- is `+`.
unfoldable pub pack_ptr_len : ℕ → ℕ → ℕ
pack_ptr_len ptr len = ptr * 2 ^ 32 % 2 ^ 64 + len

unfoldable pub unpack_ptr_len : ℕ → ℕ × ℕ
unpack_ptr_len packed = (packed / 2 ^ 32 % 2 ^ 32, packed % 2 ^ 32)
