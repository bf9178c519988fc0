-- ===== src/Endpoint/Runs.antt =====
-- Runs of the host's side of the ABI on small inputs.
mod Upcalls
mod Invocations
use kobako.Common.{ℕ, ◌+◌, ◌≡◌, ◌≢◌, refl, arith, false, some, List, [], ◌∷◌, length, take, ltb, ok}
use kobako.Endpoint.MemoryCap.{MemoryCap, activate, charge_each}
use kobako.Endpoint.MemoryCap.Peak.{largest, IsBelow, peak-charge_each}
use kobako.Endpoint.Capture.{pipe_capacity, clip_capture, clip_capture-pipe_capacity}
use kobako.Endpoint.Buffer.{GuestInstance, splice, read_buffer, alloc_and_write}
use kobako.Endpoint.Buffer.RoundTrip.{IsGuest, read_buffer-alloc_and_write, alloc_and_write-fits}

abbrev four_bytes : List ℕ
four_bytes = 65 ∷ 66 ∷ 67 ∷ 68 ∷ []

abbrev two_bytes : List ℕ
two_bytes = 65 ∷ 66 ∷ []

abbrev used_cap : MemoryCap
used_cap = record { memory_limit = some 100; baseline = 3; cap_active = false; peak = 77 }

-- Growths of 60, 110 and 40 past the baseline: the second is refused.
peak-charge_each_example :
    ((charge_each (1060 ∷ 1110 ∷ 1040 ∷ []) (activate 1000 used_cap)).peak
      ≡ largest (some 100) 1000 (1060 ∷ 1110 ∷ 1040 ∷ []))
    × IsBelow (some 100) (charge_each (1060 ∷ 1110 ∷ 1040 ∷ []) (activate 1000 used_cap)).peak
peak-charge_each_example = peak-charge_each used_cap 1000 (1060 ∷ 1110 ∷ 1040 ∷ [])

largest_is_60 : largest (some 100) 1000 (1060 ∷ 1110 ∷ 1040 ∷ []) ≡ 60
largest_is_60 = refl

clip_capture-pipe_capacity_example :
    clip_capture (take (pipe_capacity (some 2)) four_bytes) (some 2)
    ≡ (take 2 four_bytes, ltb 2 (length four_bytes))
clip_capture-pipe_capacity_example = clip_capture-pipe_capacity four_bytes 2 (omega arith)

-- An instance that is its memory, with a buffer at address 2.
abbrev flat : GuestInstance (List ℕ) (List ℕ)
flat = record { memory = λ g. some g; store = λ new g. new; alloc = λ len g. (some (ok 2), g) }

flat-IsGuest : IsGuest flat
flat-IsGuest = record { memory-store = λ g old new e same. refl }

abbrev blank : List ℕ
blank = 0 ∷ 0 ∷ 0 ∷ 0 ∷ 0 ∷ []

abbrev filled : List ℕ
filled = 0 ∷ 0 ∷ 65 ∷ 66 ∷ 0 ∷ []

flat_write : alloc_and_write flat two_bytes blank ≡ (ok 2, filled)
unfolding alloc_and_write
flat_write = refl

read_buffer-alloc_and_write_example :
    (◌≢◌ {A = ℕ} 2 0)
    × ((memory : List ℕ) × (flat.memory filled ≡ some memory)
        × (read_buffer memory 2 (length two_bytes) ≡ ok two_bytes))
read_buffer-alloc_and_write_example =
    read_buffer-alloc_and_write flat flat-IsGuest two_bytes blank filled 2 flat_write
