-- ===== src/Codec/RoundTrip.antt =====
-- Decoding what a Value encodes to.
pub mod Reading
pub mod Forms
pub mod Sendable
pub mod Writing
pub mod Heads
use kobako.Common.{
  ℕ, zero, suc, ◌+◌, ◌-◌, ◌^◌, ◌≤◌, ◌<◌, ◌≡◌, refl, sym, ap, ◌∙◌, subst, Bool, true, false, Option,
  none, some, List, [], ◌∷◌, ◌++◌, append-nil, append_assoc, arith, length, drop, leb, ltb, ◌==◌,
  ◌||◌, lt→ltb, length-append, Result, ok, err, ok_or, if◌then◌else◌,
}
use kobako.Common.Utf8.{is_utf8}
use kobako.Common.Words.{to_be_bytes}
use kobako.Codec.Values.{
  ℤ, Value, nil, bool, int, uint, float, str, bin, array, map, handle, Items, no_items, item, Pairs,
  no_pairs, pair, Error, malformed, truncated, ext_symbol, ext_handle, max_handle_id,
  max_nesting_depth, count_items, count_pairs,
}
use kobako.Codec.Values.{sym as symbol}
use kobako.Codec.Rmp.{Marker, Rmp, Writes}
use kobako.Codec.Rmp.Laws.{Head, IsRmp}
use kobako.Codec.Decoder.{
  Cursor, Read, pure, ◌>>=◌, spend_one, found, marker, read_marked, read_one, read_items,
  read_pairs, read_array_body, read_map_body, read_value_from, Decoder, new, with_value_budget,
  is_at_end, resume, sole, read_value, read_sole_value,
}
use kobako.Codec.Encoder.{
  written, checked_u32, write_sym, write_handle, write_value_at, write_items, write_pairs, encode,
}
use kobako.Codec.Sizes.{size, size_items, size_pairs, depth, depth_items, depth_pairs}
use kobako.Codec.RoundTrip.Reading.{
  Affords, less, at_bytes, Reads, Reads-pure, Reads-free, Reads-eq, Reads-bind,
}
use kobako.Codec.RoundTrip.Forms.{
  Reads-StrLen, Reads-BinLen, Reads-ArrayLen, Reads-MapLen, Reads-ExtLen, Reads-Nil, Reads-Truth,
  Reads-Double, Reads-Unsigned, Reads-Signed, Reads-symbol, Reads-handle,
}
use kobako.Codec.RoundTrip.Writing.{
  writes_array, writes_map, writes_symbol, writes_handle, writes_both,
}
use kobako.Codec.RoundTrip.Heads.{
  Coded, CodedItems, CodedPairs, behind_all, Coded-Head, Coded-array, Coded-map, Coded-symbol,
  Coded-handle,
}
use kobako.Codec.RoundTrip.Sendable.{
  IsSendable, AreSendableItems, AreSendablePairs, normal, normal_items, normal_pairs,
}

module _ (r : Rmp) (law : IsRmp r) where
  mutual
    unfolding depth size normal IsSendable write_value_at read_items read_pairs

    code : (v : Value) (levels : ℕ) → depth v < levels → IsSendable v → Coded r levels v
    code v zero d s = absurd (omega arith)
    code nil (suc levels) d s =
        let h = law.nil in
        Coded-Head r levels nil h (λ buf. refl)
          (Reads-Nil r (read_value_from r levels) h.m h.dt h.form) refl
    code (bool b) (suc levels) d s =
        let h = law.bool b in
        Coded-Head r levels (bool b) h (λ buf. refl)
          (Reads-Truth r (read_value_from r levels) h.m h.dt b h.form) refl
    code (int z) (suc levels) d s =
        let h = law.sint z s in
        Coded-Head r levels (int z) h (λ buf. refl)
          (Reads-Signed r (read_value_from r levels) h.m h.dt z s h.form) refl
    code (uint n) (suc levels) d s =
        let h = law.uint n s in
        Coded-Head r levels (uint n) h (λ buf. refl)
          (Reads-Unsigned r (read_value_from r levels) h.m h.dt n h.form) refl
    code (float f) (suc levels) d s =
        let h = law.double f s in
        Coded-Head r levels (float f) h (λ buf. refl)
          (Reads-Double r (read_value_from r levels) h.m h.dt f h.form) refl
    code (str t) (suc levels) d s =
        let h = law.str t s.1 in
        Coded-Head r levels (str t) h (λ buf. refl)
          (Reads-StrLen r (read_value_from r levels) h.m h.dt t s.0 h.form) refl
    code (bin t) (suc levels) d s =
        let h = law.bin t s in
        Coded-Head r levels (bin t) h (λ buf. refl)
          (Reads-BinLen r (read_value_from r levels) h.m h.dt t h.form) refl
    code (array vs) (suc levels) d s =
        Coded-array r levels vs law s.0 (code_items vs levels (omega arith) s.1)
    code (map ps) (suc levels) d s =
        Coded-map r levels ps law s.0 (code_pairs ps levels (omega arith) s.1)
    code (symbol t) (suc levels) d s = Coded-symbol r levels t law s.0 s.1
    code (handle id) (suc levels) d s = Coded-handle r levels id law s.0 s.1

    code_items :
        (vs : Items) (levels : ℕ)
        → depth_items vs ≤ levels
        → AreSendableItems vs
        → CodedItems r levels vs
    code_items no_items levels d s = record {
      bytes = [];
      writes = λ buf. ap ok (sym (append-nil buf));
      reads = Reads-pure no_items;
    }
    code_items (item v vs) levels d s =
        let one = code v levels (omega arith) s.0 in
        let rest = code_items vs levels (omega arith) s.1 in
        record {
          bytes = one.bytes ++ rest.bytes;
          writes = λ buf.
              writes_both (write_value_at r v levels) (write_items r vs levels) one.bytes rest.bytes
                buf one.writes rest.writes;
          reads = Reads-bind _ one.reads (
              behind_all (λ vs'. pure (item (normal v) vs')) rest.reads
                (Reads-pure (item (normal v) (normal_items vs))));
        }

    code_pairs :
        (ps : Pairs) (levels : ℕ)
        → depth_pairs ps ≤ levels
        → AreSendablePairs ps
        → CodedPairs r levels ps
    code_pairs no_pairs levels d s = record {
      bytes = [];
      writes = λ buf. ap ok (sym (append-nil buf));
      reads = Reads-pure no_pairs;
    }
    code_pairs (pair k v ps) levels d s =
        let key = code k levels (omega arith) s.0 in
        let one = code v levels (omega arith) s.1 in
        let rest = code_pairs ps levels (omega arith) s.2 in
        record {
          bytes = key.bytes ++ (one.bytes ++ rest.bytes);
          writes = λ buf.
              writes_both (write_value_at r k levels) _ key.bytes (one.bytes ++ rest.bytes) buf
                key.writes
                (λ b.
                  writes_both (write_value_at r v levels) (write_pairs r ps levels) one.bytes
                    rest.bytes b one.writes rest.writes);
          reads = Reads-eq refl refl refl (omega arith) (
              Reads-bind _ key.reads (
                Reads-bind _ one.reads (
                  behind_all (λ ps'. pure (pair (normal k) (normal v) ps')) rest.reads
                    (Reads-pure (pair (normal k) (normal v) (normal_pairs ps))))));
        }

-- Where `rmp` is as documented, the encoder takes every value that is at most 128 levels deep, whose
-- numbers are in range, texts in UTF-8, lengths below 2 ^ 32 and Handle ids legal; and the decoder,
-- under any budget that affords its values, reads the bytes back to it as the sole value, a UInt that
-- an i64 holds turned into the Int.
pub Value-decode-encode :
    (r : Rmp) (v : Value) (budget : Option ℕ)
    → IsRmp r
    → depth v ≤ max_nesting_depth
    → IsSendable v
    → Affords budget (size v)
    → (bytes : List ℕ) × (encode r v ≡ ok bytes)
      × (read_sole_value r (with_value_budget budget (new bytes)) ≡ ok (normal v))
unfolding encode read_sole_value with_value_budget new read_value resume is_at_end
Value-decode-encode r v budget law d s pays =
    let c = code r law v (max_nesting_depth + 1) (omega arith) s in (c.bytes, c.writes [], ended c)
  where
    at_end :
        (c : Coded r (max_nesting_depth + 1) v) → leb (length c.bytes) (length c.bytes - 0) ≡ true
    at_end c = ground arith

    all :
        (c : Coded r (max_nesting_depth + 1) v)
        → read_value_from r (max_nesting_depth + 1) (at_bytes c.bytes budget)
          ≡ ok (normal v, at_bytes [] (less budget (size v)))
    all c =
        ap (λ bs. read_value_from r (max_nesting_depth + 1) (at_bytes bs budget))
          (sym (append-nil c.bytes))
        ∙ c.reads.at [] budget pays

    ended :
        (c : Coded r (max_nesting_depth + 1) v)
        → read_sole_value r (with_value_budget budget (new c.bytes)) ≡ ok (normal v)
    ended c =
        ap (λ x. sole (resume (with_value_budget budget (new c.bytes)) x)) (all c) ∙ rw (at_end c)
