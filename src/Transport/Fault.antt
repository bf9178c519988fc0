-- ===== src/Transport/Fault.antt =====
-- crates/kobako-transport/src/envelope/fault.rs: the host refusing or failing a Call.
pub mod RoundTrip
use kobako.Common.{ℕ, Option, none, some, List, ◌==◌, bytes_eq, codes, if◌then◌else◌}
use kobako.Transport.Bytes.{
  Read, pure, ◌>>=◌, ◌>>◌, read_u8, read_text, skip_unknown_fields, Writer, ◌▸◌, u8, bytes,
}

abbrev pub kind_runtime : ℕ
kind_runtime = 0

abbrev pub kind_argument : ℕ
kind_argument = 1

abbrev pub kind_undefined : ℕ
kind_undefined = 2

abbrev pub kind_internal : ℕ
kind_internal = 3

abbrev pub kind_block : ℕ
kind_block = 4

pub data FaultKind : Type 0 where
  runtime argument undefined internal block : FaultKind

unfoldable pub tag : FaultKind → ℕ
tag runtime = kind_runtime
tag argument = kind_argument
tag undefined = kind_undefined
tag internal = kind_internal
tag block = kind_block

unfoldable pub from_tag : ℕ → FaultKind
from_tag t =
    if t == kind_runtime
    then runtime
    else if t == kind_argument
    then argument
    else if t == kind_internal
    then internal
    else if t == kind_block
    then block
    else undefined

unfoldable pub name : FaultKind → List ℕ
name runtime = codes "runtime"
name argument = codes "argument"
name undefined = codes "undefined"
name internal = codes "internal"
name block = codes "block"

unfoldable pub from_name : List ℕ → Option FaultKind
from_name n =
    if bytes_eq n (codes "runtime")
    then some runtime
    else if bytes_eq n (codes "argument")
    then some argument
    else if bytes_eq n (codes "undefined")
    then some undefined
    else if bytes_eq n (codes "internal")
    then some internal
    else if bytes_eq n (codes "block")
    then some block
    else none

pub record Fault : Type 0 where
  pub kind : FaultKind
  pub message : List ℕ

-- Whatever follows the fields that this reader knows is skipped.
unfoldable pub read : Read Fault
read = do
  t ← read_u8
  message ← read_text
  skip_unknown_fields
  pure (record { kind = from_tag t; message = message })

unfoldable pub write : Fault → Writer → Writer
write f w = w ▸ u8 (tag f.kind) ▸ bytes f.message
