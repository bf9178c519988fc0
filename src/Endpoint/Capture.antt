-- ===== src/Endpoint/Capture.antt =====
-- crates/kobako-runtime/src/endpoint/capture.rs: the size of an output pipe and the clipping of what
-- was captured. A usize has 64 bits.
use kobako.Common.{
  ℕ, ◌+◌, ◌-◌, ◌^◌, ◌≤◌, ◌<◌, ◌≡◌, refl, sym, ap, Bool, true, false, Option, none, some, List, [],
  arith, length, take, length-take, ltb, if◌then◌else◌, ◌∷◌, Bool-cases, inl, inr,
}
use Prim.Native.Nat.{min, zero, suc}

abbrev pub usize_max : ℕ
usize_max = 2 ^ 64 - 1

unfoldable pub pipe_capacity : Option ℕ → ℕ
pipe_capacity (some limit) = min (limit + 1) usize_max
pipe_capacity none = usize_max

-- `truncate`, where the guard holds
unfoldable pub clip_capture : List ℕ → Option ℕ → List ℕ × Bool
clip_capture raw (some limit) =
    if ltb limit (length raw) then (take limit raw, true) else (raw, false)
clip_capture raw none = (raw, false)

take-all : {A : Type 0} (n : ℕ) (xs : List A) → length xs ≤ n → take n xs ≡ xs
take-all zero [] h = refl
take-all zero (x ∷ xs) h = absurd (omega arith)
take-all (suc n) [] h = refl
take-all (suc n) (x ∷ xs) h = ap (λ l. x ∷ l) (take-all n xs (omega arith))

take-take : {A : Type 0} (m n : ℕ) (xs : List A) → m ≤ n → take m (take n xs) ≡ take m xs
take-take zero n xs h = refl
take-take (suc m) zero xs h = absurd (omega arith)
take-take (suc m) (suc n) [] h = refl
take-take (suc m) (suc n) (x ∷ xs) h = ap (λ l. x ∷ l) (take-take m n xs (omega arith))

-- Under a limit below the greatest usize, what is reported of an output through its pipe is the
-- output cut at the limit, marked exactly where the output was longer, although the pipe keeps only
-- one byte more than the limit.
pub clip_capture-pipe_capacity :
    (output : List ℕ) (limit : ℕ)
    → limit < usize_max
    → clip_capture (take (pipe_capacity (some limit)) output) (some limit)
      ≡ (take limit output, ltb limit (length output))
unfolding pipe_capacity clip_capture
clip_capture-pipe_capacity output limit h = elim (Bool-cases (ltb limit (length output))) [
  | inl long ↦
      rw (long, longer long, take-take limit (min (limit + 1) usize_max) output (omega arith))
  | inr short ↦
      rw (short, take-all (min (limit + 1) usize_max) output (fits short), short)
        (ap (λ l. (l, false)) (sym (take-all limit output (ground (arith, short)))))
]
  where
    longer :
        ltb limit (length output) ≡ true
        → ltb limit (length (take (min (limit + 1) usize_max) output)) ≡ true
    longer e = ground (arith, length-take (min (limit + 1) usize_max) output)

    fits : ltb limit (length output) ≡ false → length output ≤ min (limit + 1) usize_max
    fits e = ground arith
