-- ===== src/Endpoint/MemoryCap/Peak.antt =====
-- The reported peak.
use kobako.Common.{
  ℕ, ◌-◌, ◌≤◌, ◌≡◌, refl, sym, subst, Bool, true, Option, none, some, List, [], ◌∷◌, arith, leb,
  if◌then◌else◌,
}
use Prim.Native.Nat.{max}
use kobako.Endpoint.MemoryCap.{MemoryCap, activate, charge, charge_each}

-- Whether a growth of `delta` bytes is within the limit.
abbrev pub admits : Option ℕ → ℕ → Bool
admits none delta = true
admits (some limit) delta = leb delta limit

-- The largest admitted growth past `baseline`, or 0.
abbrev pub largest : Option ℕ → ℕ → List ℕ → ℕ
largest limit baseline [] = 0
largest limit baseline (d ∷ ds) =
    max (if admits limit (d - baseline) then d - baseline else 0) (largest limit baseline ds)

record Charged (d : ℕ) (c c' : MemoryCap) : Type 0 where
  limit : c'.memory_limit ≡ c.memory_limit
  baseline : c'.baseline ≡ c.baseline
  active : c'.cap_active ≡ true
  peak : c'.peak ≡ max c.peak (if admits c.memory_limit (d - c.baseline) then d - c.baseline else 0)

charge-active : (d : ℕ) (c : MemoryCap) → c.cap_active ≡ true → Charged d c (charge d c).1
unfolding charge
charge-active d c h = record {
  limit = ground arith;
  baseline = ground arith;
  active = ground arith;
  peak = ground arith;
}

charge_each-peak :
    (ds : List ℕ) (c : MemoryCap)
    → c.cap_active ≡ true
    → (charge_each ds c).peak ≡ max c.peak (largest c.memory_limit c.baseline ds)
unfolding charge_each
charge_each-peak [] c h = omega arith
charge_each-peak (d ∷ ds) c h =
    let one = charge-active d c h in
    let later : (charge_each ds (charge d c).1).peak
        ≡ max (charge d c).1.peak (largest c.memory_limit c.baseline ds) =
      rw (one.limit, one.baseline) at (charge_each-peak ds (charge d c).1 one.active) in
    omega (arith, later, one.peak)

largest-le : (limit baseline : ℕ) (ds : List ℕ) → largest (some limit) baseline ds ≤ limit
largest-le limit baseline [] = omega arith
largest-le limit baseline (d ∷ ds) = ground (arith, largest-le limit baseline ds)

abbrev pub IsBelow : Option ℕ → ℕ → Type 0
IsBelow none peak = Unit {0}
IsBelow (some limit) peak = peak ≤ limit

below : (limit : Option ℕ) (baseline : ℕ) (ds : List ℕ) → IsBelow limit (largest limit baseline ds)
below none baseline ds = tt
below (some limit) baseline ds = largest-le limit baseline ds

-- After a cap is armed, whatever an earlier invocation left in it, and growths are charged one after
-- the other, its peak is the largest of those that the limit admits, measured from the baseline and 0
-- if there is none; under a limit it never passes it.
pub peak-charge_each :
    (c : MemoryCap) (baseline : ℕ) (ds : List ℕ)
    → ((charge_each ds (activate baseline c)).peak ≡ largest c.memory_limit baseline ds)
      × IsBelow c.memory_limit (charge_each ds (activate baseline c)).peak
unfolding activate
peak-charge_each c baseline ds =
    (whole, subst (IsBelow c.memory_limit) (sym whole) (below c.memory_limit baseline ds))
  where
    whole : (charge_each ds (activate baseline c)).peak ≡ largest c.memory_limit baseline ds
    whole = omega (arith, charge_each-peak ds (activate baseline c) refl)
