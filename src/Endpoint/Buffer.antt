-- ===== src/Endpoint/Buffer.antt =====
-- crates/kobako-runtime/src/endpoint/buffer.rs: buffers handed over in guest memory. The instance is a
-- parameter: its memory, the store through its slice, and its allocator, which may run guest code.
pub mod RoundTrip
use kobako.Common.{
  ℕ, ◌+◌, ◌%◌, ◌^◌, ◌≡◌, Option, none, some, List, [], ◌++◌, length, take, drop, ltb, ◌==◌, String,
  if◌then◌else◌, Result, ok, err,
}
use kobako.Transport.Abi.{max_dispatch_payload, unpack_ptr_len}

abbrev pub runtime_incompatible : String
runtime_incompatible =
    "the Sandbox runtime is incompatible; rebuild it against the kobako version in use"

abbrev pub sandbox_runtime_not_kobako : String
sandbox_runtime_not_kobako = "the loaded Wasm module is not a Kobako-compatible runtime"

-- What `GuestInstance` gives of an Engine: `none` names an export that the module does not have.
pub record GuestInstance (G F : Type 0) : Type 0 where
  pub memory : G → Option (List ℕ)
  pub store : List ℕ → G → G
  pub alloc : ℕ → G → Option (Result ℕ F) × G

pub data WriteError (F : Type 0) : Type 0 where
  too_large out_of_memory out_of_bounds : WriteError F
  incompatible : String → WriteError F
  trapped : F → WriteError F

pub data ReadError : Type 0 where
  too_large out_of_bounds : ReadError

-- The cap is below `i32::MAX`; the conversion's own refusal has the same words.
unfoldable pub checked_payload_len : ℕ → Result ℕ String
checked_payload_len len =
    if ltb max_dispatch_payload len
    then err "payload exceeds the 16 MiB limit"
    else if ltb len (2 ^ 31)
    then ok len
    else err "payload exceeds the 16 MiB limit"

-- The range as its two ends; `checked_add` refuses what passes a usize.
unfoldable pub guest_buffer_range : ℕ → ℕ → ℕ → Result (ℕ × ℕ) String
guest_buffer_range ptr len mem_size =
    if ltb (ptr + len) (2 ^ 64)
    then (if ltb mem_size (ptr + len)
        then err "range exceeds Sandbox memory size"
        else ok (ptr, ptr + len))
    else err "ptr + len overflow"

-- `memory[range].copy_from_slice(bytes)`, for bytes as long as the range
abbrev pub splice : List ℕ → ℕ × ℕ → List ℕ → List ℕ
splice memory range bytes = take range.0 memory ++ (bytes ++ drop range.1 memory)

unfoldable pub read_buffer : List ℕ → ℕ → ℕ → Result (List ℕ) ReadError
unfolding guest_buffer_range
read_buffer data_ ptr len =
    if ltb max_dispatch_payload len
    then err ReadError.too_large
    else elim (guest_buffer_range ptr len (length data_)) [
      | err message ↦ err ReadError.out_of_bounds
      | ok range ↦ ok (take len (drop range.0 data_))
    ]

unfoldable pub unpack_guest_buffer : ℕ → ℕ × ℕ
unfolding unpack_ptr_len
unpack_guest_buffer packed = unpack_ptr_len packed

module _ {G F : Type 0} (guest : GuestInstance G F) where
  -- The last lines of `alloc_and_write`, from the second borrow of the memory on.
  unfoldable pub write_at : ℕ → List ℕ → G → Result ℕ (WriteError F) × G
  unfolding guest_buffer_range
  write_at ptr bytes g = elim (guest.memory g) [
    | none ↦ (err (incompatible sandbox_runtime_not_kobako), g)
    | some memory ↦ elim (guest_buffer_range ptr (length bytes) (length memory)) [
      | err message ↦ (err WriteError.out_of_bounds, g)
      | ok range ↦ (ok ptr, guest.store (splice memory range bytes) g)
    ]
  ]

  -- What the allocator answered.
  unfoldable pub place : List ℕ → Option (Result ℕ F) × G → Result ℕ (WriteError F) × G
  unfolding write_at
  place bytes (none, g) = (err (incompatible runtime_incompatible), g)
  place bytes (some (err fault), g) = (err (trapped fault), g)
  place bytes (some (ok ptr), g) = if ptr == 0 then (err out_of_memory, g) else write_at ptr bytes g

  unfoldable pub alloc_and_write : List ℕ → G → Result ℕ (WriteError F) × G
  unfolding checked_payload_len place
  alloc_and_write bytes g = elim (checked_payload_len (length bytes)) [
    | err message ↦ (err WriteError.too_large, g)
    | ok len ↦ elim (guest.memory g) [
      | none ↦ (err (incompatible sandbox_runtime_not_kobako), g)
      | some memory ↦ place bytes (guest.alloc (len % 2 ^ 32) g)
    ]
  ]
