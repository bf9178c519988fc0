-- ===== src/Common/Utf8.antt =====
-- `core::str::from_utf8`: the standard library's test of a byte string, as the automaton of the
-- well-formed UTF-8 sequences (no overlong form, no surrogate, nothing past U+10FFFF).
use Prim.Native.Nat.{ℕ, zero, suc}
use mathlib.Core.Path.{◌≡◌, refl}
use mathlib.Core.Bool.{Bool, true, false, ◌&&◌}
use mathlib.Core.List.{List, [], ◌∷◌}
use mathlib.Core.Option.{Option, none, some}
use kobako.Common.Tests.{ltb, leb, ◌==◌, if◌then◌else◌, codes}

-- At a boundary, or inside a sequence: the next byte lies in a range and `n` more follow it.
pub data State : Type 0 where
  boundary : State
  inside : ℕ → ℕ → ℕ → State

between : ℕ → ℕ → ℕ → Bool
between lo hi b = leb lo b && leb b hi

lead : ℕ → Option State
unfolding between
lead b =
    if ltb b 0x80
    then some boundary
    else if between 0xc2 0xdf b
    then some (inside 0x80 0xbf 0)
    else if b == 0xe0
    then some (inside 0xa0 0xbf 1)
    else if b == 0xed
    then some (inside 0x80 0x9f 1)
    else if between 0xe1 0xef b
    then some (inside 0x80 0xbf 1)
    else if b == 0xf0
    then some (inside 0x90 0xbf 2)
    else if between 0xf1 0xf3 b
    then some (inside 0x80 0xbf 2)
    else if b == 0xf4
    then some (inside 0x80 0x8f 2)
    else none

after : ℕ → State
after zero = boundary
after (suc n) = inside 0x80 0xbf n

step : State → ℕ → Option State
unfolding lead after
step boundary b = lead b
step (inside lo hi n) b = if between lo hi b then some (after n) else none

scan : State → List ℕ → Bool
unfolding step
scan boundary [] = true
scan (inside lo hi n) [] = false
scan s (b ∷ bs) = elim (step s b) [ none ↦ false | some t ↦ scan t bs ]

unfoldable pub is_utf8 : List ℕ → Bool
unfolding scan
is_utf8 bs = scan boundary bs

ascii_is_utf8 : is_utf8 (codes "MyService::KV") ≡ true
unfolding is_utf8
ascii_is_utf8 = refl

euro_is_utf8 : is_utf8 (0xe2 ∷ 0x82 ∷ 0xac ∷ []) ≡ true
unfolding is_utf8
euro_is_utf8 = refl

surrogate_is_refused : is_utf8 (0xed ∷ 0xa0 ∷ 0x80 ∷ []) ≡ false
unfolding is_utf8
surrogate_is_refused = refl

truncated_is_refused : is_utf8 (0xe2 ∷ 0x82 ∷ []) ≡ false
unfolding is_utf8
truncated_is_refused = refl
