-- ===== src/Codec/RoundTrip/Writing.antt =====
-- What the encoder writes behind a head.
use kobako.Common.{
  ℕ, suc, ◌^◌, ◌≤◌, ◌<◌, ◌≡◌, refl, ap, ◌∙◌, false, List, [], ◌∷◌, ◌++◌, append_assoc, length,
  lt→ltb, ltb, ◌==◌, ◌||◌, arith, Result, ok, ok_or,
}
use kobako.Common.Outcomes.{◌>>=◌}
use kobako.Common.Words.{to_be_bytes}
use kobako.Codec.Values.{
  array, map, sym as symbol, handle, Items, Pairs, Error, truncated, count_items, count_pairs,
  ext_symbol, ext_handle, max_handle_id,
}
use kobako.Codec.Rmp.{Marker, Rmp, Writes}
use kobako.Codec.Rmp.Laws.{Head}
use kobako.Codec.Encoder.{
  written, checked_u32, write_sym, write_handle, write_value_at, write_items, write_pairs,
}

module _ {r : Rmp} {Form : Marker → List ℕ → Type 0} {w : Writes} {contents : List ℕ}
    (h : Head r Form w contents) where
  -- The whole of what was written where `more` is written behind the head.
  headed : (buf : List ℕ) → written w buf ≡ ok (buf ++ (h.mark ++ (h.dt ++ contents)))
  headed buf = ap (λ o. ok_or o truncated) (h.appends buf)

  behind :
      (buf more : List ℕ)
      → (buf ++ (h.mark ++ (h.dt ++ contents))) ++ more
        ≡ buf ++ (h.mark ++ (h.dt ++ (contents ++ more)))
  behind buf more = simp (append_assoc)

-- A length that a u32 holds, its head, and the members.
counted_writes :
    {r : Rmp} {Form : Marker → List ℕ → Type 0} (n : ℕ) (w : ℕ → Writes) {contents : List ℕ}
    (h : Head r Form (w n) contents) (members : List ℕ → Result (List ℕ) Error) (bytes buf : List ℕ)
    → n < 2 ^ 32
    → ((b : List ℕ) → members b ≡ ok (b ++ bytes))
    → (checked_u32 n >>= λ len. written (w len) buf >>= members)
      ≡ ok (buf ++ (h.mark ++ (h.dt ++ (contents ++ bytes))))
counted_writes n w {contents} h members bytes buf fits hm =
    ap (λ c. c >>= λ len. written (w len) buf >>= members) (checked n fits)
    ∙ ap (λ c. c >>= members) (headed h buf)
    ∙ hm (buf ++ (h.mark ++ (h.dt ++ contents)))
    ∙ ap ok (behind h buf bytes)
  where
    checked : (n : ℕ) → n < 2 ^ 32 → checked_u32 n ≡ ok n
    checked n lt = rw (lt→ltb n (2 ^ 32) lt)

module _ (r : Rmp) (levels : ℕ) where
  pub writes_array :
      {Form : Marker → List ℕ → Type 0} (vs : Items)
      (h : Head r Form (r.write_array_len (count_items vs)) []) (bytes buf : List ℕ)
      → count_items vs < 2 ^ 32
      → ((b : List ℕ) → write_items r vs levels b ≡ ok (b ++ bytes))
      → write_value_at r (array vs) (suc levels) buf ≡ ok (buf ++ (h.mark ++ (h.dt ++ bytes)))
  unfolding write_value_at
  writes_array vs h bytes buf fits hm =
      counted_writes (count_items vs) r.write_array_len h (write_items r vs levels) bytes buf fits
        hm

  pub writes_map :
      {Form : Marker → List ℕ → Type 0} (ps : Pairs)
      (h : Head r Form (r.write_map_len (count_pairs ps)) []) (bytes buf : List ℕ)
      → count_pairs ps < 2 ^ 32
      → ((b : List ℕ) → write_pairs r ps levels b ≡ ok (b ++ bytes))
      → write_value_at r (map ps) (suc levels) buf ≡ ok (buf ++ (h.mark ++ (h.dt ++ bytes)))
  unfolding write_value_at
  writes_map ps h bytes buf fits hm =
      counted_writes (count_pairs ps) r.write_map_len h (write_pairs r ps levels) bytes buf fits hm

  pub writes_symbol :
      {Form : Marker → List ℕ → Type 0} (s : List ℕ)
      (h : Head r Form (r.write_ext_meta (length s) ext_symbol) (ext_symbol ∷ [])) (buf : List ℕ)
      → length s < 2 ^ 32
      → write_value_at r (symbol s) (suc levels) buf
        ≡ ok (buf ++ (h.mark ++ (h.dt ++ ((ext_symbol ∷ []) ++ s))))
  unfolding write_value_at write_sym
  writes_symbol s h buf fits =
      counted_writes (length s) (λ n. r.write_ext_meta n ext_symbol) h (λ b. ok (b ++ s)) s buf fits
        (λ b. refl)

  pub writes_handle :
      {Form : Marker → List ℕ → Type 0} (id : ℕ)
      (h : Head r Form (r.write_ext_meta 4 ext_handle) (ext_handle ∷ [])) (buf : List ℕ)
      → 1 ≤ id
      → id ≤ max_handle_id
      → write_value_at r (handle id) (suc levels) buf
        ≡ ok (buf ++ (h.mark ++ (h.dt ++ ((ext_handle ∷ []) ++ to_be_bytes id))))
  unfolding write_value_at write_handle
  writes_handle id h buf lo hi = rw legal (
      ap (λ c. c >>= λ b. ok (b ++ to_be_bytes id)) (headed h buf)
      ∙ ap ok (behind h buf (to_be_bytes id)))
    where
      legal : (id == 0 || ltb max_handle_id id) ≡ false
      legal = ground arith

-- Two members written one after the other.
pub writes_both :
    (first second : List ℕ → Result (List ℕ) Error) (e₁ e₂ buf : List ℕ)
    → ((b : List ℕ) → first b ≡ ok (b ++ e₁))
    → ((b : List ℕ) → second b ≡ ok (b ++ e₂))
    → (first buf >>= second) ≡ ok (buf ++ (e₁ ++ e₂))
writes_both first second e₁ e₂ buf h k =
    ap (λ c. c >>= second) (h buf) ∙ k (buf ++ e₁) ∙ ap ok (append_assoc buf e₁ e₂)
