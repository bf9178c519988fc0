-- ===== src/Codec/RoundTrip/Forms.antt =====
-- What the decoder makes of each form in which `rmp` writes a value.
use kobako.Common.{
  ℕ, ◌-◌, ◌^◌, ◌≤◌, ◌<◌, ◌≡◌, refl, subst, Bool, true, false, List, [], ◌∷◌, ◌++◌, append-nil,
  arith, length, ltb, ◌==◌, ◌||◌, le→leb,
}
use kobako.Common.Words.{to_be_bytes, from_be_bytes-to_be_bytes, length-to_be_bytes}
use kobako.Common.Utf8.{is_utf8}
use kobako.Codec.Values.{
  ℤ, pos, Value, nil, bool, int, float, str, bin, handle, max_handle_id, ext_symbol, ext_handle,
}
use kobako.Codec.Values.{sym as symbol}
use kobako.Codec.Rmp.{Marker, Rmp, ReadsData}
use kobako.Codec.Rmp.Laws
use kobako.Codec.Rmp.Laws.{
  Gives, Unsigned, Signed, StrLen, BinLen, ArrayLen, MapLen, ExtLen, Nil, Truth, Double, IsI64,
}
use kobako.Codec.Decoder.{
  Read, pure, ◌>>=◌, data_of, take_bytes, read_str_body, read_bin_body, read_type, read_symbol,
  read_handle, read_ext, of_u64, read_array_body, read_map_body, read_marked,
}
use kobako.Codec.RoundTrip.Reading.{
  Reads, Reads-pure, Reads-data, Reads-free, Reads-eq, Reads-bind, Reads-take,
}

-- The last action of a chain.
last :
    {A B : Type 0} {m : Read A} (f : A → Read B) {e : List ℕ} {a : A} {b : B} {n : ℕ}
    → Reads m e a n
    → Reads (f a) [] b 0
    → Reads (m >>= f) e b n
last f {e} {n} hm hf = Reads-eq refl (append-nil e) refl (omega arith) (Reads-bind f hm hf)

-- An action behind one that pays nothing.
then_ :
    {A B : Type 0} {m : Read A} (f : A → Read B) {e₁ e₂ : List ℕ} {a : A} {b : B} {n : ℕ}
    → Reads m e₁ a 0
    → Reads (f a) e₂ b n
    → Reads (m >>= f) (e₁ ++ e₂) b n
then_ f hm hf = Reads-eq refl refl refl (omega arith) (Reads-bind f hm hf)

pub Reads-str : (s : List ℕ) → is_utf8 s ≡ true → Reads (read_str_body (length s)) s (str s) 0
unfolding read_str_body
Reads-str s u = last _ (Reads-take s) (rw u (Reads-pure (str s)))

pub Reads-bin : (s : List ℕ) → Reads (read_bin_body (length s)) s (bin s) 0
unfolding read_bin_body
Reads-bin s = last _ (Reads-take s) (Reads-pure (bin s))

Reads-type : (ty : ℕ) → Reads read_type (ty ∷ []) ty 0
unfolding read_type
Reads-type ty = Reads-free (λ rest b. refl)

pub Reads-symbol :
    (s : List ℕ)
    → is_utf8 s ≡ true
    → Reads (read_ext (length s)) ((ext_symbol ∷ []) ++ s) (symbol s) 0
unfolding read_ext read_symbol
Reads-symbol s u =
    then_ _ (Reads-type ext_symbol) (last _ (Reads-take s) (rw u (Reads-pure (symbol s))))

pub Reads-handle :
    (id : ℕ)
    → 1 ≤ id
    → id ≤ max_handle_id
    → Reads (read_ext 4) ((ext_handle ∷ []) ++ to_be_bytes id) (handle id) 0
unfolding read_ext read_handle
Reads-handle id lo hi = then_ _ (Reads-type ext_handle) (
    last _
      (subst (λ n. Reads (take_bytes n) (to_be_bytes id) (to_be_bytes id) 0) (length-to_be_bytes id)
        (Reads-take (to_be_bytes id)))
      (rw (from_be_bytes-to_be_bytes id (omega arith), legal) (Reads-pure (handle id))))
  where
    legal : (id == 0 || ltb max_handle_id id) ≡ false
    legal = ground arith

module _ (r : Rmp) (deeper : Read Value) (m : Marker) (dt : List ℕ) where
  -- A form whose marker the decoder answers with `k`, and one that reads a number first.
  fixed :
      {k : Read Value} {m' : Marker} {contents : List ℕ} {v : Value} {n : ℕ}
      → m ≡ m'
      → dt ≡ []
      → read_marked r deeper m' ≡ k
      → Reads k contents v n
      → Reads (read_marked r deeper m) (dt ++ contents) v n
  fixed {contents} p q k h = rw (p, q, k) h

  numbered :
      {A : Type 0} {read : ReadsData A} {m' : Marker} {contents : List ℕ} {v : Value} {n : ℕ}
      {a : A} (f : A → Read Value)
      → m ≡ m'
      → Gives read dt a
      → read_marked r deeper m' ≡ (data_of read >>= f)
      → Reads (f a) contents v n
      → Reads (read_marked r deeper m) (dt ++ contents) v n
  numbered f p g k h = rw (p, k) (then_ f (Reads-data g) h)

  pub Reads-StrLen :
      (s : List ℕ)
      → is_utf8 s ≡ true
      → StrLen r m dt (length s)
      → Reads (read_marked r deeper m) (dt ++ s) (str s) 0
  unfolding read_marked
  Reads-StrLen s u (Laws.StrLen.fix p q) = fixed p q refl (Reads-str s u)
  Reads-StrLen s u (Laws.StrLen.u8 p g) = numbered read_str_body p g refl (Reads-str s u)
  Reads-StrLen s u (Laws.StrLen.u16 p g) = numbered read_str_body p g refl (Reads-str s u)
  Reads-StrLen s u (Laws.StrLen.u32 p g) = numbered read_str_body p g refl (Reads-str s u)

  pub Reads-BinLen :
      (s : List ℕ) → BinLen r m dt (length s) → Reads (read_marked r deeper m) (dt ++ s) (bin s) 0
  unfolding read_marked
  Reads-BinLen s (Laws.BinLen.u8 p g) = numbered read_bin_body p g refl (Reads-bin s)
  Reads-BinLen s (Laws.BinLen.u16 p g) = numbered read_bin_body p g refl (Reads-bin s)
  Reads-BinLen s (Laws.BinLen.u32 p g) = numbered read_bin_body p g refl (Reads-bin s)

  -- The members of an array and of a map are read by `deeper`.
  pub Reads-ArrayLen :
      {len : ℕ} {contents : List ℕ} {v : Value} {n : ℕ}
      → Reads (read_array_body deeper len) contents v n
      → ArrayLen r m dt len
      → Reads (read_marked r deeper m) (dt ++ contents) v n
  unfolding read_marked
  Reads-ArrayLen h (Laws.ArrayLen.fix p q) = fixed p q refl h
  Reads-ArrayLen h (Laws.ArrayLen.u16 p g) = numbered (read_array_body deeper) p g refl h
  Reads-ArrayLen h (Laws.ArrayLen.u32 p g) = numbered (read_array_body deeper) p g refl h

  pub Reads-MapLen :
      {len : ℕ} {contents : List ℕ} {v : Value} {n : ℕ}
      → Reads (read_map_body deeper len) contents v n
      → MapLen r m dt len
      → Reads (read_marked r deeper m) (dt ++ contents) v n
  unfolding read_marked
  Reads-MapLen h (Laws.MapLen.fix p q) = fixed p q refl h
  Reads-MapLen h (Laws.MapLen.u16 p g) = numbered (read_map_body deeper) p g refl h
  Reads-MapLen h (Laws.MapLen.u32 p g) = numbered (read_map_body deeper) p g refl h

  pub Reads-ExtLen :
      {len : ℕ} {contents : List ℕ} {v : Value}
      → Reads (read_ext len) contents v 0
      → ExtLen r m dt len
      → Reads (read_marked r deeper m) (dt ++ contents) v 0
  unfolding read_marked
  Reads-ExtLen h (Laws.ExtLen.one p q e) = fixed p q refl (rw e at h)
  Reads-ExtLen h (Laws.ExtLen.two p q e) = fixed p q refl (rw e at h)
  Reads-ExtLen h (Laws.ExtLen.four p q e) = fixed p q refl (rw e at h)
  Reads-ExtLen h (Laws.ExtLen.eight p q e) = fixed p q refl (rw e at h)
  Reads-ExtLen h (Laws.ExtLen.sixteen p q e) = fixed p q refl (rw e at h)
  Reads-ExtLen h (Laws.ExtLen.u8 p g) = numbered read_ext p g refl h
  Reads-ExtLen h (Laws.ExtLen.u16 p g) = numbered read_ext p g refl h
  Reads-ExtLen h (Laws.ExtLen.u32 p g) = numbered read_ext p g refl h

  pub Reads-Nil : Nil r m dt → Reads (read_marked r deeper m) (dt ++ []) nil 0
  unfolding read_marked
  Reads-Nil (Laws.Nil.null p q) = fixed p q refl (Reads-pure nil)

  pub Reads-Truth :
      (b : Bool) → Truth r m dt b → Reads (read_marked r deeper m) (dt ++ []) (bool b) 0
  unfolding read_marked
  Reads-Truth b (Laws.Truth.yes_ e p q) = rw e (fixed p q refl (Reads-pure (bool true)))
  Reads-Truth b (Laws.Truth.no_ e p q) = rw e (fixed p q refl (Reads-pure (bool false)))

  pub Reads-Double :
      (f : ℕ) → Double r m dt f → Reads (read_marked r deeper m) (dt ++ []) (float f) 0
  unfolding read_marked
  Reads-Double f (Laws.Double.f64 p g) = numbered _ p g refl (Reads-pure (float f))

  -- A number that an i64 holds decodes to an Int, however it was written.
  small : (n : ℕ) → n < 2 ^ 63 → of_u64 n ≡ int (pos n)
  unfolding of_u64
  small n h = rw (le→leb n (2 ^ 63 - 1) (omega arith))

  pub Reads-Unsigned :
      (n : ℕ) → Unsigned r m dt n → Reads (read_marked r deeper m) (dt ++ []) (of_u64 n) 0
  unfolding read_marked
  Reads-Unsigned n (Laws.Unsigned.fix_pos p q h) =
      rw (small n (omega arith)) (fixed p q refl (Reads-pure (int (pos n))))
  Reads-Unsigned n (Laws.Unsigned.u8 p g h) =
      rw (small n (omega arith))
        (numbered (λ i. pure (int (pos i))) p g refl (Reads-pure (int (pos n))))
  Reads-Unsigned n (Laws.Unsigned.u16 p g h) =
      rw (small n (omega arith))
        (numbered (λ i. pure (int (pos i))) p g refl (Reads-pure (int (pos n))))
  Reads-Unsigned n (Laws.Unsigned.u32 p g h) =
      rw (small n (omega arith))
        (numbered (λ i. pure (int (pos i))) p g refl (Reads-pure (int (pos n))))
  Reads-Unsigned n (Laws.Unsigned.u64 p g h) =
      numbered (λ i. pure (of_u64 i)) p g refl (Reads-pure (of_u64 n))

  pub Reads-Signed :
      (z : ℤ) → IsI64 z → Signed r m dt z → Reads (read_marked r deeper m) (dt ++ []) (int z) 0
  unfolding read_marked
  Reads-Signed z h (Laws.Signed.fix_neg p q) = fixed p q refl (Reads-pure (int z))
  Reads-Signed z h (Laws.Signed.i8 p g) = numbered (λ i. pure (int i)) p g refl (Reads-pure (int z))
  Reads-Signed z h (Laws.Signed.i16 p g) =
      numbered (λ i. pure (int i)) p g refl (Reads-pure (int z))
  Reads-Signed z h (Laws.Signed.i32 p g) =
      numbered (λ i. pure (int i)) p g refl (Reads-pure (int z))
  Reads-Signed z h (Laws.Signed.i64 p g) =
      numbered (λ i. pure (int i)) p g refl (Reads-pure (int z))
  Reads-Signed z h (Laws.Signed.natural n e u) = rw (e, ← small n (rw e at h)) (Reads-Unsigned n u)
