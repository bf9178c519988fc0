-- ===== src/Common/Words.antt =====
-- Big-endian integers of two, four and eight bytes.
use Prim.Native.Nat.{ℕ, ◌+◌, ◌*◌, ◌/◌, ◌%◌, ◌^◌, ◌<◌}
use mathlib.Core.Path.{◌≡◌}
use mathlib.Core.List.{List, [], ◌∷◌, foldl}
use native.Mathlib.Omega.{arith}
use kobako.Common.Lists.{length}

abbrev pub IsByte : ℕ → Type 0
IsByte b = b < 256

-- `from_be_bytes`, for a slice of any width
unfoldable pub from_be_bytes : List ℕ → ℕ
from_be_bytes = foldl (λ acc b. acc * 256 + b) 0

-- `u32::to_be_bytes`
unfoldable pub to_be_bytes : ℕ → List ℕ
to_be_bytes n = (n / 2 ^ 24 % 256) ∷ (n / 2 ^ 16 % 256) ∷ (n / 2 ^ 8 % 256) ∷ (n % 256) ∷ []

pub length-to_be_bytes : (n : ℕ) → length (to_be_bytes n) ≡ 4
unfolding to_be_bytes
length-to_be_bytes n = omega arith

pub from_be_bytes-to_be_bytes : (n : ℕ) → n < 2 ^ 32 → from_be_bytes (to_be_bytes n) ≡ n
unfolding to_be_bytes from_be_bytes
from_be_bytes-to_be_bytes n h = omega arith

pub from_be_bytes-lt :
    (a b c d : ℕ)
    → IsByte a
    → IsByte b
    → IsByte c
    → IsByte d
    → from_be_bytes (a ∷ b ∷ c ∷ d ∷ []) < 2 ^ 32
unfolding from_be_bytes
from_be_bytes-lt a b c d ha hb hc hd = omega arith

pub to_be_bytes-from_be_bytes :
    (a b c d : ℕ)
    → IsByte a
    → IsByte b
    → IsByte c
    → IsByte d
    → to_be_bytes (from_be_bytes (a ∷ b ∷ c ∷ d ∷ [])) ≡ a ∷ b ∷ c ∷ d ∷ []
unfolding to_be_bytes from_be_bytes
to_be_bytes-from_be_bytes a b c d ha hb hc hd = λ i. top i ∷ second i ∷ third i ∷ last i ∷ []
  where
    word : ℕ
    word = (((0 + a) * 256 + b) * 256 + c) * 256 + d

    top : word / 2 ^ 24 % 256 ≡ a
    top = omega arith

    second : word / 2 ^ 16 % 256 ≡ b
    second = omega arith

    third : word / 2 ^ 8 % 256 ≡ c
    third = omega arith

    last : word % 256 ≡ d
    last = omega arith
