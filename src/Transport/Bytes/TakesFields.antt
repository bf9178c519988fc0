-- ===== src/Transport/Bytes/TakesFields.antt =====
-- What the fields of a message say of the bytes that they took.
use kobako.Common.{
  ℕ, ◌+◌, ◌<◌, ◌^◌, ◌≡◌, refl, sym, ap, ◌∙◌, subst, true, List, [], ◌∷◌, ◌++◌, append-nil, arith,
  length, length-take, length-drop, drop, drop-drop, take-append-drop, All-take, All-drop, ◌==◌,
  ==_iff, All,
}
use mathlib.Core.Path.{ap₂}
use kobako.Common.Words.{
  IsByte, to_be_bytes, from_be_bytes, from_be_bytes-lt, to_be_bytes-from_be_bytes,
}
use kobako.Common.Utf8.{is_utf8}
use kobako.Transport.Bytes.{
  Reader, rest_of, read_u8, read_exact, read_u32, read_bytes, read_text, not_utf8,
}
use kobako.Transport.Bytes.Cursor.{Cut, read_exact_inv, read_u8_inv}
use kobako.Transport.Bytes.Fields.{block, Fits, IsText}
use kobako.Transport.Bytes.Takes.{
  Took, Takes, Takes-weaken, Takes-pure, Takes-fail, Takes-if, Takes-bind,
}

abbrev pub IsOne : ℕ → List ℕ → Type 0
IsOne b t = (t ≡ b ∷ []) × IsByte b

-- A byte that was tested against `k`.
pub tagged :
    {b : ℕ} {t : List ℕ} (k : ℕ) (l : List ℕ) → IsOne b t → (b == k) ≡ true → t ++ l ≡ k ∷ l
tagged {b} k l h p = rw (h.0, (==_iff b k).0 p)

pub Takes-u8 : Takes read_u8 IsOne
Takes-u8 = record {
  at = λ r c b v next e.
      let k = read_u8_inv r next v e in
      let known = subst (All IsByte) k.first b in
      subst (Took IsOne r v) (sym k.moved) (record {
        taken = v ∷ [];
        split = k.first;
        holds = (refl, known.0);
        valid = record { within = k.enough; fits = c.fits };
        bytes = known.1;
      });
}

abbrev pub IsExact : ℕ → List ℕ → List ℕ → Type 0
IsExact len s t = (t ≡ s) × (length s ≡ len) × All IsByte s

pub Takes-IsExact : (len : ℕ) → Takes (read_exact len) (IsExact len)
unfolding rest_of
Takes-IsExact len = record {
  at = λ r c b s next e.
      let k = read_exact_inv len r next s e in
      subst (Took (IsExact len) r s) (sym k.moved) (record {
        taken = s;
        split =
            sym (take-append-drop len (drop r.pos r.bytes))
            ∙ ap (λ l. l ++ drop len (drop r.pos r.bytes)) (sym k.cut)
            ∙ ap (λ l. s ++ l) (drop-drop r.pos len (r.pos + len) r.bytes refl);
        holds = (
          refl,
          length_cut r s k,
          subst (All IsByte) (sym k.cut) (All-take IsByte len (drop r.pos r.bytes) b),
        );
        valid = record { within = k.enough; fits = c.fits };
        bytes =
            subst (All IsByte) (drop-drop r.pos len (r.pos + len) r.bytes refl)
              (All-drop IsByte len (drop r.pos r.bytes) b);
      });
}
  where
    length_cut : (r : Reader) (s : List ℕ) {next : Reader} → Cut len r s next → length s ≡ len
    length_cut r s k = omega (
      arith,
      ap length k.cut,
      length-take len (drop r.pos r.bytes),
      length-drop r.pos r.bytes,
      k.enough,
    )

abbrev pub IsWord : ℕ → List ℕ → Type 0
IsWord n t = (t ≡ to_be_bytes n) × (n < 2 ^ 32)

IsWord-of_four : (s : List ℕ) → length s ≡ 4 → All IsByte s → IsWord (from_be_bytes s) s
IsWord-of_four (a ∷ b ∷ c ∷ d ∷ []) h (ha, (hb, (hc, (hd, _)))) =
    (sym (to_be_bytes-from_be_bytes a b c d ha hb hc hd), from_be_bytes-lt a b c d ha hb hc hd)
IsWord-of_four s h _ = absurd (omega arith)

pub Takes-u32 : Takes read_u32 IsWord
unfolding read_u32
Takes-u32 = Takes-bind _ (Takes-IsExact 4) λ s t h.
    Takes-pure (from_be_bytes s)
      (subst (IsWord (from_be_bytes s)) (sym (append-nil t ∙ h.0)) (IsWord-of_four s h.1 h.2))

abbrev pub IsBlock : List ℕ → List ℕ → Type 0
IsBlock s t = (t ≡ block s) × Fits s

pub Takes-bytes : Takes read_bytes IsBlock
unfolding read_bytes
Takes-bytes = Takes-bind _ Takes-u32 λ len t h. Takes-weaken (Takes-IsExact len) λ s u k. (
  ap₂ (λ (x y : List ℕ). x ++ y) (h.0 ∙ ap to_be_bytes (sym k.1)) k.0,
  subst (λ n. n < 2 ^ 32) (sym k.1) h.1,
)

abbrev pub IsTextBlock : List ℕ → List ℕ → Type 0
IsTextBlock s t = (t ≡ block s) × IsText s

pub Takes-text : Takes read_text IsTextBlock
unfolding read_text
Takes-text = Takes-bind _ Takes-bytes λ s t h.
    Takes-if (is_utf8 s) _ _
      (λ u. Takes-pure s (append-nil t ∙ h.0, record { utf8 = u; fits = h.1 }))
      (λ _. Takes-fail not_utf8)
