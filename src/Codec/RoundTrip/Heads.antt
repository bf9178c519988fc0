-- ===== src/Codec/RoundTrip/Heads.antt =====
-- What one value, array or map is written as and read from: its head, and the contents behind it.
use kobako.Common.{
  ℕ, zero, suc, ◌^◌, ◌≤◌, ◌<◌, ◌≡◌, refl, sym, ap, ◌∙◌, true, Option, none, some, List, [], ◌∷◌,
  ◌++◌, append-nil, arith, length, ok, ok_or,
}
use kobako.Common.Utf8.{is_utf8}
use kobako.Common.Words.{to_be_bytes}
use kobako.Codec.Values.{
  Value, array, map, handle, Items, Pairs, truncated, ext_symbol, ext_handle, max_handle_id,
  count_items, count_pairs,
}
use kobako.Codec.Values.{sym as symbol}
use kobako.Codec.Rmp.{Marker, Rmp, Writes}
use kobako.Codec.Rmp.Laws.{Head, IsRmp}
use kobako.Codec.Decoder.{
  Read, pure, ◌>>=◌, spend_one, found, marker, read_marked, read_one, read_items, read_pairs,
  read_array_body, read_map_body, read_value_from,
}
use kobako.Codec.Encoder.{written, write_value_at, write_items, write_pairs}
use kobako.Codec.Sizes.{size, size_items, size_pairs}
use kobako.Codec.RoundTrip.Reading.{
  Affords, less, at_bytes, Reads, Reads-pure, Reads-free, Reads-eq, Reads-bind,
}
use kobako.Codec.RoundTrip.Forms.{
  Reads-ArrayLen, Reads-MapLen, Reads-ExtLen, Reads-symbol, Reads-handle,
}
use kobako.Codec.RoundTrip.Writing.{writes_array, writes_map, writes_symbol, writes_handle}
use kobako.Codec.RoundTrip.Sendable.{normal, normal_items, normal_pairs}

Reads-spend : Reads spend_one [] tt 1
unfolding spend_one
Reads-spend = record { at = λ rest b h. spent rest b h }
  where
    spent :
        (rest : List ℕ) (b : Option ℕ)
        → Affords b 1
        → spend_one (at_bytes rest b) ≡ ok (tt, at_bytes rest (less b 1))
    spent rest none h = refl
    spent rest (some zero) h = absurd (omega arith)
    spent rest (some (suc b)) h = ap (λ n. ok (tt, at_bytes rest (some n))) (omega arith)

pub record Coded (r : Rmp) (levels : ℕ) (v : Value) : Type 0 where
  pub bytes : List ℕ
  pub writes : (buf : List ℕ) → write_value_at r v levels buf ≡ ok (buf ++ bytes)
  pub reads : Reads (read_value_from r levels) bytes (normal v) (size v)

pub record CodedItems (r : Rmp) (levels : ℕ) (vs : Items) : Type 0 where
  pub bytes : List ℕ
  pub writes : (buf : List ℕ) → write_items r vs levels buf ≡ ok (buf ++ bytes)
  pub reads :
      Reads
        (read_items (read_value_from r levels) (count_items vs))
        bytes
        (normal_items vs)
        (size_items vs)

pub record CodedPairs (r : Rmp) (levels : ℕ) (ps : Pairs) : Type 0 where
  pub bytes : List ℕ
  pub writes : (buf : List ℕ) → write_pairs r ps levels buf ≡ ok (buf ++ bytes)
  pub reads :
      Reads
        (read_pairs (read_value_from r levels) (count_pairs ps))
        bytes
        (normal_pairs ps)
        (size_pairs ps)

pub behind_all :
    {A B : Type 0} {m : Read A} (f : A → Read B) {e : List ℕ} {a : A} {v : B} {n : ℕ}
    → Reads m e a n
    → Reads (f a) [] v 0
    → Reads (m >>= f) e v n
behind_all f {e} {n} h k = Reads-eq refl (append-nil e) refl (omega arith) (Reads-bind f h k)

module _ (r : Rmp) (levels : ℕ) where
  -- A head that was written, its contents behind it.
  Reads-Head :
      {Form : Marker → List ℕ → Type 0} {w : Writes} {head : List ℕ} (contents : List ℕ) {v : Value}
      {n : ℕ} (h : Head r Form w head)
      → Reads (read_marked r (read_value_from r levels) h.m) (h.dt ++ contents) v n
      → Reads (read_value_from r (suc levels)) (h.mark ++ (h.dt ++ contents)) v (suc n)
  unfolding read_value_from read_one marker
  Reads-Head contents h k = record {
    at =
        (Reads-eq refl refl refl (omega arith) (
          Reads-bind (λ u. marker r >>= read_marked r (read_value_from r levels)) Reads-spend
            (Reads-bind (read_marked r (read_value_from r levels)) marked k))).at;
  }
    where
      marked : Reads (marker r) h.mark h.m 0
      marked = Reads-free (λ rest b. ap (found (at_bytes (h.mark ++ rest) b)) (h.marks rest))

  -- A value that is all head.
  pub Coded-Head :
      {Form : Marker → List ℕ → Type 0} {w : Writes} {contents : List ℕ} (v : Value)
      (h : Head r Form w contents)
      → ((buf : List ℕ) → write_value_at r v (suc levels) buf ≡ written w buf)
      → Reads (read_marked r (read_value_from r levels) h.m) (h.dt ++ contents) (normal v) 0
      → size v ≡ 1
      → Coded r (suc levels) v
  Coded-Head {w} {contents} v h wr k one = record {
    bytes = h.mark ++ (h.dt ++ contents);
    writes = λ buf. wr buf ∙ ap (λ o. ok_or o truncated) (h.appends buf);
    reads = Reads-eq refl refl refl (sym one) (Reads-Head contents h k);
  }

  pub Coded-array :
      (vs : Items)
      → IsRmp r
      → count_items vs < 2 ^ 32
      → CodedItems r levels vs
      → Coded r (suc levels) (array vs)
  unfolding size normal read_array_body
  Coded-array vs law fits c =
      let h = law.array_len (count_items vs) fits in
      record {
        bytes = h.mark ++ (h.dt ++ c.bytes);
        writes = λ buf. writes_array r levels vs h c.bytes buf fits c.writes;
        reads =
            Reads-Head c.bytes h
              (Reads-ArrayLen r (read_value_from r levels) h.m h.dt members h.form);
      }
    where
      members :
          Reads
            (read_array_body (read_value_from r levels) (count_items vs))
            c.bytes
            (array (normal_items vs))
            (size_items vs)
      members = behind_all (λ vs. pure (array vs)) c.reads (Reads-pure (array (normal_items vs)))

  pub Coded-map :
      (ps : Pairs)
      → IsRmp r
      → count_pairs ps < 2 ^ 32
      → CodedPairs r levels ps
      → Coded r (suc levels) (map ps)
  unfolding size normal read_map_body
  Coded-map ps law fits c =
      let h = law.map_len (count_pairs ps) fits in
      record {
        bytes = h.mark ++ (h.dt ++ c.bytes);
        writes = λ buf. writes_map r levels ps h c.bytes buf fits c.writes;
        reads =
            Reads-Head c.bytes h
              (Reads-MapLen r (read_value_from r levels) h.m h.dt members h.form);
      }
    where
      members :
          Reads
            (read_map_body (read_value_from r levels) (count_pairs ps))
            c.bytes
            (map (normal_pairs ps))
            (size_pairs ps)
      members = behind_all (λ ps. pure (map ps)) c.reads (Reads-pure (map (normal_pairs ps)))

  pub Coded-symbol :
      (s : List ℕ)
      → IsRmp r
      → is_utf8 s ≡ true
      → length s < 2 ^ 32
      → Coded r (suc levels) (symbol s)
  unfolding size normal
  Coded-symbol s law u fits =
      let h = law.ext_meta (length s) ext_symbol fits (omega arith) in
      record {
        bytes = h.mark ++ (h.dt ++ ((ext_symbol ∷ []) ++ s));
        writes = λ buf. writes_symbol r levels s h buf fits;
        reads =
            Reads-Head ((ext_symbol ∷ []) ++ s) h
              (Reads-ExtLen r (read_value_from r levels) h.m h.dt (Reads-symbol s u) h.form);
      }

  pub Coded-handle :
      (id : ℕ) → IsRmp r → 1 ≤ id → id ≤ max_handle_id → Coded r (suc levels) (handle id)
  unfolding size normal
  Coded-handle id law lo hi =
      let h = law.ext_meta 4 ext_handle (omega arith) (omega arith) in
      record {
        bytes = h.mark ++ (h.dt ++ ((ext_handle ∷ []) ++ to_be_bytes id));
        writes = λ buf. writes_handle r levels id h buf lo hi;
        reads =
            Reads-Head ((ext_handle ∷ []) ++ to_be_bytes id) h
              (Reads-ExtLen r (read_value_from r levels) h.m h.dt (Reads-handle id lo hi) h.form);
      }
