-- ===== src/Codec/Limits/Leaves.antt =====
-- The values that hold no other, behind their markers.
use kobako.Common.{
  ℕ, suc, ◌+◌, ◌≤◌, ◌≡◌, refl, subst, true, List, arith, ok, if◌then◌else◌, ltb, leb, ◌^◌, ◌-◌,
  ◌==◌, ◌||◌, Bool-cases, inl, inr,
}
use kobako.Common.Words.{from_be_bytes}
use kobako.Common.Utf8.{is_utf8}
use kobako.Codec.Values.{
  Value, str, bin, handle, Error, invalid_type, utf8, invalid_handle, max_handle_id, ext_symbol,
  ext_handle,
}
use kobako.Codec.Values.{sym as symbol}
use kobako.Codec.Rmp.{ReadsData}
use kobako.Codec.Decoder.{
  Cursor, Read, pure, fail, ◌>>=◌, data_of, take_bytes, read_str_body, read_bin_body, read_type,
  read_symbol, read_handle, read_ext, of_u64,
}
use kobako.Codec.Sizes.{size, depth}
use kobako.Codec.Legal.{IsLegal}
use kobako.Codec.Limits.Costs.{
  Paid, Bounded, Bounded-bind, Bounded-pure, Bounded-fail, Bounded-if, Bounded-data, Bounded-take,
  Bounded-type,
}

-- A value behind its marker, for which one was paid before.
unfoldable pub Behind : ℕ → Value → ℕ → Type 0
unfolding size depth IsLegal
Behind levels v n = (suc n ≡ size v) × (depth v ≤ levels) × IsLegal v

-- What a value that holds no other is behind its marker.
unfoldable pub IsFlat : ℕ → Value → Type 0
unfolding size depth IsLegal
IsFlat levels v = (size v ≡ 1) × (depth v ≡ 0) × IsLegal v

module _ (levels : ℕ) where
  pub after_free :
      {A : Type 0} (m : Read A) (f : A → Read Value)
      → Bounded m (λ a n. n ≡ 0)
      → ((a : A) → Bounded (f a) (Behind levels))
      → Bounded (m >>= f) (Behind levels)
  after_free m f hm hf =
      Bounded-bind m f (λ a n. n ≡ 0) (Behind levels) hm
        (λ a n e. record { at = λ c c' b p. shifted a n e c c' b p })
    where
      shifted :
          (a : _) (n : ℕ)
          → n ≡ 0
          → (c c' : Cursor) (b : Value) → f a c ≡ ok (b, c')
          → (k : ℕ) × Paid c.budget k c'.budget × Behind levels b (n + k)
      shifted a n e c c' b p =
          let (k, paid, q) = (hf a).at c c' b p in
          let same : k ≡ n + k = omega arith in (k, paid, subst (Behind levels b) same q)

  pub scalar : (v : Value) → IsFlat levels v → Bounded (pure v) (Behind levels)
  unfolding IsFlat Behind
  scalar v h = Bounded-pure v (Behind levels) (omega arith, omega arith, h.2)

  text :
      (v : List ℕ → Value) (len : ℕ) (x : Error)
      → ((s : List ℕ) → is_utf8 s ≡ true → IsFlat levels (v s))
      → (s : List ℕ) → Bounded (if is_utf8 s then pure (v s) else fail x) (Behind levels)
  text v len x h s = elim (Bool-cases (is_utf8 s)) [
    | inl e ↦ rw e (scalar (v s) (h s e))
    | inr e ↦ rw e (Bounded-fail x (Behind levels))
  ]

  pub Bounded-str : (len : ℕ) → Bounded (read_str_body len) (Behind levels)
  unfolding read_str_body IsFlat size depth IsLegal
  Bounded-str len =
      after_free (take_bytes len) _ (Bounded-take len) (text str len utf8 (λ s e. (refl, refl, e)))

  pub Bounded-bin : (len : ℕ) → Bounded (read_bin_body len) (Behind levels)
  unfolding read_bin_body IsFlat size depth IsLegal
  Bounded-bin len =
      after_free (take_bytes len) _ (Bounded-take len) (λ s. scalar (bin s) (refl, refl, tt))

  Bounded-symbol : (len : ℕ) → Bounded (read_symbol len) (Behind levels)
  unfolding read_symbol IsFlat size depth IsLegal
  Bounded-symbol len =
      after_free (take_bytes len) _ (Bounded-take len)
        (text symbol len utf8 (λ s e. (refl, refl, e)))

  legal_id :
      (id : ℕ)
      → Bounded
          (if id == 0 || ltb max_handle_id id then fail invalid_handle else pure (handle id))
          (Behind levels)
  unfolding IsFlat size depth IsLegal
  legal_id id = elim (Bool-cases (id == 0 || ltb max_handle_id id)) [
    | inl e ↦ rw e (Bounded-fail invalid_handle (Behind levels))
    | inr e ↦ rw e (scalar (handle id) (refl, refl, (ground arith, ground arith)))
  ]

  Bounded-handle : (len : ℕ) → Bounded (read_handle len) (Behind levels)
  unfolding read_handle
  Bounded-handle len =
      Bounded-if (len == 4) _ _ (Behind levels)
        (after_free (take_bytes 4) _ (Bounded-take 4) (λ payload. legal_id (from_be_bytes payload)))
        (Bounded-fail invalid_handle (Behind levels))

  pub Bounded-ext : (len : ℕ) → Bounded (read_ext len) (Behind levels)
  unfolding read_ext
  Bounded-ext len = after_free read_type _ Bounded-type (λ ty.
      Bounded-if (ty == ext_symbol) _ _ (Behind levels) (Bounded-symbol len) (
        Bounded-if (ty == ext_handle) _ _ (Behind levels) (Bounded-handle len)
          (Bounded-fail invalid_type (Behind levels))))

  pub counted :
      (r : ReadsData ℕ) (f : ℕ → Read Value)
      → ((n : ℕ) → Bounded (f n) (Behind levels))
      → Bounded (data_of r >>= f) (Behind levels)
  counted r f hf = after_free (data_of r) f (Bounded-data r) hf

  pub number :
      {A : Type 0} (r : ReadsData A) (v : A → Value)
      → ((a : A) → IsFlat levels (v a))
      → Bounded (data_of r >>= λ a. pure (v a)) (Behind levels)
  number r v hv = after_free (data_of r) _ (Bounded-data r) (λ a. scalar (v a) (hv a))

  pub of_u64-IsFlat : (n : ℕ) → IsFlat levels (of_u64 n)
  unfolding IsFlat of_u64 size depth IsLegal
  of_u64-IsFlat n = elim (Bool-cases (leb n (2 ^ 63 - 1))) [
    | inl e ↦ rw e (refl, refl, tt)
    | inr e ↦ rw e (refl, refl, tt)
  ]
