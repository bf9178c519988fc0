-- ===== src/Endpoint/MemoryCap.antt =====
-- crates/kobako-runtime/src/endpoint/memory_cap.rs: the growth that one invocation is charged for.
pub mod Peak
use kobako.Common.{
  ℕ, ◌-◌, Bool, true, false, Option, none, some, List, [], ◌∷◌, ltb, if◌then◌else◌, Result, ok, err,
}

pub record MemoryCap : Type 0 where
  pub memory_limit : Option ℕ
  pub baseline : ℕ
  pub cap_active : Bool
  pub peak : ℕ

pub record MemoryLimitExceeded : Type 0 where
  pub desired : ℕ
  pub limit : ℕ

unfoldable pub new : Option ℕ → MemoryCap
new limit = record { memory_limit = limit; baseline = 0; cap_active = false; peak = 0 }

unfoldable pub activate : ℕ → MemoryCap → MemoryCap
activate baseline c = record c { baseline = baseline; cap_active = true; peak = 0 }

unfoldable pub deactivate : MemoryCap → MemoryCap
deactivate c = record c { cap_active = false }

-- `if let Some(limit)` with the test inside it
abbrev pub passes : Option ℕ → ℕ → Option ℕ
passes none delta = none
passes (some limit) delta = if ltb limit delta then some limit else none

-- `saturating_sub` is the subtraction of ℕ. An error leaves the cap as it was.
unfoldable pub charge : ℕ → MemoryCap → Result (Unit {0}) MemoryLimitExceeded × MemoryCap
charge desired c =
    if c.cap_active
    then (let delta = desired - c.baseline in
        elim (passes c.memory_limit delta) [
          | some limit ↦ (err (record { desired = desired; limit = limit }), c)
          | none ↦ (ok tt, if ltb c.peak delta then record c { peak = delta } else c)
        ])
    else (ok tt, c)

-- The growths that an Engine asks for one after the other.
unfoldable pub charge_each : List ℕ → MemoryCap → MemoryCap
charge_each [] c = c
charge_each (desired ∷ rest) c = charge_each rest (charge desired c).1
