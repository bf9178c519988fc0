-- ===== src/Transport/Preamble/Records.antt =====
-- crates/kobako-transport/src/envelope/preamble.rs: what one record adds to those read before it.
use kobako.Common.{
  ℕ, Bool, Option, none, some, List, [], ◌∷◌, ◌++◌, ◌==◌, if◌then◌else◌, Result, ok, err,
}
use kobako.Common.Outcomes.{◌>>=◌}
use kobako.Transport.Bytes.{DecodeError}
use kobako.Transport.Tag
use kobako.Transport.Tag.{is_assigned}
use kobako.Transport.Preamble.Bodies.{
  Bindings, Snippets, Flag, decode_bindings, decode_snippets, decode_flag,
}

-- The three variables of the loop.
pub record Slots : Type 0 where
  pub bindings : Option Bindings
  pub snippets : Option Snippets
  pub flags : List Flag

abbrev pub empty : Slots
empty = record { bindings = none; snippets = none; flags = [] }

abbrev pub repeated : DecodeError
repeated = record { message = "Preamble repeats a record that appears once" }

abbrev pub other_message : DecodeError
other_message = record { message = "Preamble record kind is assigned to another message" }

abbrev pub unknown_critical : DecodeError
unknown_critical = record {
  message = "Preamble carries a critical record of a kind this reader does not know";
}

-- `once`: the slot with the value in it, refused where it held one
unfoldable pub once {ℓ} : {A : Type ℓ} → Option A → A → Result (Option A) DecodeError
once none v = ok (some v)
once (some w) v = err repeated

unfoldable pub take_record : Bool → ℕ → List ℕ → Slots → Result Slots DecodeError
take_record critical kind body slots =
    if kind == Tag.bindings
    then (do
      b ← decode_bindings body
      slot ← once slots.bindings b
      ok (record slots { bindings = slot }))
    else if kind == Tag.snippets
    then (do
      s ← decode_snippets body
      slot ← once slots.snippets s
      ok (record slots { snippets = slot }))
    else if kind == Tag.flag
    then (do f ← decode_flag body critical; ok (record slots { flags = slots.flags ++ f ∷ [] }))
    else if is_assigned kind
    then err other_message
    else if critical
    then err unknown_critical
    else ok slots
