-- ===== src/Transport/Call.antt =====
-- crates/kobako-transport/src/envelope/call.rs: one dispatch invitation.
pub mod RoundTrip
pub mod Canonical
use kobako.Common.{ℕ, Bool, true, false, List, [], ◌∷◌, ◌==◌, if◌then◌else◌, Result}
use kobako.Transport.Bytes.{
  DecodeError, Read, pure, fail, ◌>>=◌, run, read_u8, read_u32, read_text, remaining, Writer, fresh,
  ◌▸◌, u8, u32, bytes, remainder, into_bytes,
}

abbrev pub kind_path : ℕ
kind_path = 0

abbrev pub kind_handle : ℕ
kind_handle = 1

pub data Target : Type 0 where
  path : List ℕ → Target
  handle : ℕ → Target

pub record Call : Type 0 where
  pub target : Target
  pub method : List ℕ
  pub block_given : Bool
  pub payload : List ℕ

abbrev pub bad_kind : DecodeError
bad_kind = record { message = "Call kind must be 0 (path) or 1 (handle)" }

abbrev pub handle_sentinel : DecodeError
handle_sentinel = record { message = "Call target Handle id 0 is the invalid sentinel" }

abbrev pub bad_block_given : DecodeError
bad_block_given = record { message = "Call block_given must be 0 or 1" }

-- The kind byte and the routing field behind it.
unfoldable pub read_target : Read Target
read_target = do
  kind ← read_u8
  if kind == kind_path
      then (do s ← read_text; pure (path s))
      else if kind == kind_handle
      then (do id ← read_u32; pure (handle id))
      else fail bad_kind

unfoldable pub refuse_sentinel : Target → Read Target
refuse_sentinel (path s) = pure (path s)
refuse_sentinel (handle id) = if id == 0 then fail handle_sentinel else pure (handle id)

unfoldable pub read_block_given : Read Bool
read_block_given = do
  b ← read_u8
  if b == 0 then pure false else if b == 1 then pure true else fail bad_block_given

unfoldable pub read_call : Read Call
read_call = do
  kind ← read_target
  target ← refuse_sentinel kind
  method ← read_text
  block_given ← read_block_given
  payload ← remaining
  pure (record { target = target; method = method; block_given = block_given; payload = payload })

unfoldable pub decode : List ℕ → Result Call DecodeError
unfolding read_call read_target refuse_sentinel read_block_given
decode bs = run read_call bs

-- `u8::from(bool)`
abbrev pub from_bool : Bool → ℕ
from_bool true = 1
from_bool false = 0

abbrev pub write_target : Target → Writer → Writer
write_target (path s) w = w ▸ u8 kind_path ▸ bytes s
write_target (handle id) w = w ▸ u8 kind_handle ▸ u32 id

unfoldable pub encode : Call → List ℕ
encode c = into_bytes (
    fresh
    ▸ write_target c.target
    ▸ bytes c.method
    ▸ u8 (from_bool c.block_given)
    ▸ remainder c.payload)
