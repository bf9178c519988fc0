-- ===== src/Codec/Limits.antt =====
-- What the decoder's limits promise of any input and any `rmp`.
pub mod Costs
pub mod Leaves
use kobako.Common.{
  ℕ, zero, suc, ◌+◌, ◌≤◌, ◌<◌, ◌≡◌, refl, sym, ap, drop, subst, Bool, true, false, Option, none,
  some, List, arith, Result, ok, err, ok-injective, if◌then◌else◌, ltb, leb, ◌^◌, ◌-◌, ◌==◌, ◌||◌,
  Bool-cases, inl, inr,
}
use Prim.Native.Nat.{max}
use kobako.Common.Words.{from_be_bytes}
use kobako.Common.Utf8.{is_utf8}
use kobako.Codec.Values.{
  ℤ, pos, Value, nil, bool, int, uint, float, str, bin, array, map, handle, Items, no_items, item,
  Pairs, no_pairs, pair, Error, invalid_type, utf8, invalid_handle, too_deep, max_nesting_depth,
  max_handle_id, ext_symbol, ext_handle,
}
use kobako.Codec.Values.{sym as symbol}
use kobako.Codec.Rmp.{Marker, Rmp, ReadsData}
use kobako.Codec.Decoder.{
  Cursor, Read, pure, fail, ◌>>=◌, data_of, take_bytes, read_str_body, read_bin_body, read_type,
  read_symbol, read_handle, read_ext, read_items, read_pairs, read_array_body, read_map_body,
  of_u64, spend_one, marker, read_marked, read_one, read_value_from, Decoder, resume, read_value,
}
use kobako.Codec.Sizes.{size, size_items, size_pairs, depth, depth_items, depth_pairs}
use kobako.Codec.Legal.{IsLegal, AreLegalItems, AreLegalPairs}
use kobako.Codec.Limits.Leaves.{
  Behind, IsFlat, scalar, after_free, Bounded-str, Bounded-bin, Bounded-ext, counted, number,
  of_u64-IsFlat,
}
use kobako.Codec.Limits.Costs.{
  Paid, Bounded, Bounded-bind, Bounded-pure, Bounded-fail, Bounded-if, Bounded-free, Bounded-data,
  Bounded-take, Bounded-type,
}

-- A value with all that was paid.
pub record Within (levels : ℕ) (v : Value) (n : ℕ) : Type 0 where
  pub paid : n ≡ size v
  pub shallow : depth v < levels
  pub legal : IsLegal v

-- The same of the members of a list.
record WithinItems (levels : ℕ) (vs : Items) (n : ℕ) : Type 0 where
  paid : n ≡ size_items vs
  shallow : depth_items vs ≤ levels
  legal : AreLegalItems vs

record WithinPairs (levels : ℕ) (ps : Pairs) (n : ℕ) : Type 0 where
  paid : n ≡ size_pairs ps
  shallow : depth_pairs ps ≤ levels
  legal : AreLegalPairs ps

module _ (levels : ℕ) where
  Bounded-spend : Bounded spend_one (λ u n. n ≡ 1)
  unfolding spend_one
  Bounded-spend = record { at = λ c c' u e. (1, spent c.bytes c.budget c' u e, refl) }
    where
      spent :
          (bytes : List ℕ) (budget : Option ℕ) (c' : Cursor) (u : Unit {0})
          → spend_one (record { bytes = bytes; budget = budget }) ≡ ok (u, c')
          → Paid budget 1 c'.budget
      spent bytes none c' u e = subst (Paid none 1) (ap (λ r. r.1.budget) (ok-injective e)) tt
      spent bytes (some zero) c' u e = cc
      spent bytes (some (suc left)) c' u e =
          subst (Paid (some (suc left)) 1) (ap (λ r. r.1.budget) (ok-injective e)) (omega arith)

  module _ (deeper : Read Value) (h : Bounded deeper (Within levels)) where
    Bounded-items : (len : ℕ) → Bounded (read_items deeper len) (WithinItems levels)
    unfolding read_items size depth IsLegal
    Bounded-items zero =
        Bounded-pure no_items (WithinItems levels)
          (record { paid = refl; shallow = omega arith; legal = tt })
    Bounded-items (suc len) =
        Bounded-bind deeper _ (Within levels) (WithinItems levels) h (λ v n hv.
          Bounded-bind (read_items deeper len) _ (WithinItems levels)
            (λ vs k. WithinItems levels vs (n + k)) (Bounded-items len)
            (λ vs k hvs. Bounded-pure (item v vs) _ (record {
              paid = omega (arith, hv.paid, hvs.paid);
              shallow = omega (arith, hv.shallow, hvs.shallow);
              legal = (hv.legal, hvs.legal);
            })))

    Bounded-pairs : (len : ℕ) → Bounded (read_pairs deeper len) (WithinPairs levels)
    unfolding read_pairs size depth IsLegal
    Bounded-pairs zero =
        Bounded-pure no_pairs (WithinPairs levels)
          (record { paid = refl; shallow = omega arith; legal = tt })
    Bounded-pairs (suc len) =
        Bounded-bind deeper _ (Within levels) (WithinPairs levels) h (λ k i hk.
          Bounded-bind deeper _ (Within levels) (λ ps n. WithinPairs levels ps (i + n)) h
            (λ v j hv.
              Bounded-bind (read_pairs deeper len) _ (WithinPairs levels)
                (λ ps n. WithinPairs levels ps (i + (j + n))) (Bounded-pairs len)
                (λ ps n hps. Bounded-pure (pair k v ps) _ (record {
                  paid = omega (arith, hk.paid, hv.paid, hps.paid);
                  shallow = omega (arith, hk.shallow, hv.shallow, hps.shallow);
                  legal = (hk.legal, hv.legal, hps.legal);
                }))))

    Bounded-array : (len : ℕ) → Bounded (read_array_body deeper len) (Behind levels)
    unfolding read_array_body Behind size depth IsLegal
    Bounded-array len =
        Bounded-bind (read_items deeper len) _ (WithinItems levels) (Behind levels)
          (Bounded-items len)
          (λ vs n hvs. Bounded-pure (array vs) _ (omega (arith, hvs.paid), hvs.shallow, hvs.legal))

    Bounded-map : (len : ℕ) → Bounded (read_map_body deeper len) (Behind levels)
    unfolding read_map_body Behind size depth IsLegal
    Bounded-map len =
        Bounded-bind (read_pairs deeper len) _ (WithinPairs levels) (Behind levels)
          (Bounded-pairs len)
          (λ ps n hps. Bounded-pure (map ps) _ (omega (arith, hps.paid), hps.shallow, hps.legal))

    module _ (rmp : Rmp) where
      open rmp use {
        read_data_u8, read_data_u16, read_data_u32, read_data_u64, read_data_i8, read_data_i16,
        read_data_i32, read_data_i64, read_data_f32, read_data_f64, widen,
      }

      Bounded-marked : (m : Marker) → Bounded (read_marked rmp deeper m) (Behind levels)
      unfolding read_marked IsFlat size depth IsLegal
      Bounded-marked Marker.null = scalar levels nil (refl, refl, tt)
      Bounded-marked Marker.true_ = scalar levels (bool true) (refl, refl, tt)
      Bounded-marked Marker.false_ = scalar levels (bool false) (refl, refl, tt)
      Bounded-marked (Marker.fix_pos n) = scalar levels (int (pos n)) (refl, refl, tt)
      Bounded-marked (Marker.fix_neg z) = scalar levels (int z) (refl, refl, tt)
      Bounded-marked Marker.u8 =
          number levels read_data_u8 (λ n. int (pos n)) (λ n. (refl, refl, tt))
      Bounded-marked Marker.u16 =
          number levels read_data_u16 (λ n. int (pos n)) (λ n. (refl, refl, tt))
      Bounded-marked Marker.u32 =
          number levels read_data_u32 (λ n. int (pos n)) (λ n. (refl, refl, tt))
      Bounded-marked Marker.u64 = number levels read_data_u64 of_u64 (of_u64-IsFlat levels)
      Bounded-marked Marker.i8 = number levels read_data_i8 int (λ n. (refl, refl, tt))
      Bounded-marked Marker.i16 = number levels read_data_i16 int (λ n. (refl, refl, tt))
      Bounded-marked Marker.i32 = number levels read_data_i32 int (λ n. (refl, refl, tt))
      Bounded-marked Marker.i64 = number levels read_data_i64 int (λ n. (refl, refl, tt))
      Bounded-marked Marker.f32 =
          number levels read_data_f32 (λ f. float (widen f)) (λ f. (refl, refl, tt))
      Bounded-marked Marker.f64 = number levels read_data_f64 float (λ f. (refl, refl, tt))
      Bounded-marked (Marker.fix_str len) = Bounded-str levels len
      Bounded-marked Marker.str8 = counted levels read_data_u8 read_str_body (Bounded-str levels)
      Bounded-marked Marker.str16 = counted levels read_data_u16 read_str_body (Bounded-str levels)
      Bounded-marked Marker.str32 = counted levels read_data_u32 read_str_body (Bounded-str levels)
      Bounded-marked Marker.bin8 = counted levels read_data_u8 read_bin_body (Bounded-bin levels)
      Bounded-marked Marker.bin16 = counted levels read_data_u16 read_bin_body (Bounded-bin levels)
      Bounded-marked Marker.bin32 = counted levels read_data_u32 read_bin_body (Bounded-bin levels)
      Bounded-marked (Marker.fix_array len) = Bounded-array len
      Bounded-marked Marker.array16 =
          counted levels read_data_u16 (read_array_body deeper) Bounded-array
      Bounded-marked Marker.array32 =
          counted levels read_data_u32 (read_array_body deeper) Bounded-array
      Bounded-marked (Marker.fix_map len) = Bounded-map len
      Bounded-marked Marker.map16 = counted levels read_data_u16 (read_map_body deeper) Bounded-map
      Bounded-marked Marker.map32 = counted levels read_data_u32 (read_map_body deeper) Bounded-map
      Bounded-marked Marker.fix_ext1 = Bounded-ext levels 1
      Bounded-marked Marker.fix_ext2 = Bounded-ext levels 2
      Bounded-marked Marker.fix_ext4 = Bounded-ext levels 4
      Bounded-marked Marker.fix_ext8 = Bounded-ext levels 8
      Bounded-marked Marker.fix_ext16 = Bounded-ext levels 16
      Bounded-marked Marker.ext8 = counted levels read_data_u8 read_ext (Bounded-ext levels)
      Bounded-marked Marker.ext16 = counted levels read_data_u16 read_ext (Bounded-ext levels)
      Bounded-marked Marker.ext32 = counted levels read_data_u32 read_ext (Bounded-ext levels)
      Bounded-marked Marker.reserved = Bounded-fail invalid_type (Behind levels)

      Bounded-marker : Bounded (marker rmp) (λ m n. n ≡ 0)
      unfolding marker
      Bounded-marker = Bounded-free (marker rmp) (λ c c' m e. ground arith)

      Bounded-one : Bounded (read_one rmp deeper) (Within (suc levels))
      unfolding read_one Behind
      Bounded-one =
          Bounded-bind spend_one _ (λ u n. n ≡ 1) (Within (suc levels)) Bounded-spend
            (λ u i one.
              Bounded-bind (marker rmp) _ (λ m n. n ≡ 0) (λ v n. Within (suc levels) v (i + n))
                Bounded-marker
                (λ m j nothing. record {
                  at = λ c c' v e.
                      let (n, paid, q) = (Bounded-marked m).at c c' v e in
                      (
                        n,
                        paid,
                        record {
                          paid = omega (arith, q.0);
                          shallow = omega (arith, q.1);
                          legal = q.2;
                        },
                      );
                }))

Bounded-value_from : (rmp : Rmp) (levels : ℕ) → Bounded (read_value_from rmp levels) (Within levels)
unfolding read_value_from
Bounded-value_from rmp zero = Bounded-fail too_deep (Within zero)
Bounded-value_from rmp (suc levels) = record {
  at = (Bounded-one levels (read_value_from rmp levels) (Bounded-value_from rmp levels) rmp).at;
}

-- Whatever `rmp` makes of the bytes, a value that the decoder reads is at most 128 levels deep, its
-- texts are UTF-8 and its Handle ids between 1 and 2 ^ 31 - 1, and what is left of the budget is what
-- was there less one for each value in it, map keys included.
pub read_value-Within :
    (rmp : Rmp) (d d' : Decoder) (v : Value)
    → read_value rmp d ≡ ok (v, d')
    → (depth v ≤ max_nesting_depth) × IsLegal v × Paid d.budget (size v) d'.budget
unfolding read_value resume
read_value-Within rmp d d' v e = ended (read_value_from rmp (max_nesting_depth + 1) start) refl e
  where
    start : Cursor
    start = record { bytes = drop d.pos d.input; budget = d.budget }

    ended :
        (r : Result (Value × Cursor) Error)
        → read_value_from rmp (max_nesting_depth + 1) start ≡ r
        → resume d r ≡ ok (v, d')
        → (depth v ≤ max_nesting_depth) × IsLegal v × Paid d.budget (size v) d'.budget
    ended (err x) p q = cc
    ended (ok (w, c)) p q =
        let (n, paid, h) = (Bounded-value_from rmp (max_nesting_depth + 1)).at start c w p in
        let same : w ≡ v = ap (λ r. r.0) (ok-injective q) in
        let left : c.budget ≡ d'.budget = ap (λ r. r.1.budget) (ok-injective q) in
        rw (← same) (
          omega (arith, h.shallow),
          h.legal,
          rw (← left) (subst (λ k. Paid d.budget k c.budget) h.paid paid),
        )
