-- ===== src/Transport/Bytes/Writes.antt =====
-- What each method of the writer appends.
use kobako.Common.{
  ℕ, ◌%◌, ◌^◌, ◌<◌, ◌≡◌, refl, sym, ap, ◌∙◌, List, [], ◌∷◌, ◌++◌, append-nil, append_assoc, arith,
  length,
}
use kobako.Common.Words.{to_be_bytes}
use kobako.Transport.Bytes.{
  Writer, fresh, u8, u32, bytes, remainder, write_items, list, into_bytes, as_u32,
}
use kobako.Transport.Bytes.Fields.{block, blocks, listing, Fits}

pub into_bytes-fresh : into_bytes fresh ≡ []
unfolding into_bytes
into_bytes-fresh = refl

module _ (w : Writer) where
  pub into_bytes-u8 : (b : ℕ) → into_bytes (u8 b w) ≡ into_bytes w ++ b ∷ []
  unfolding into_bytes
  into_bytes-u8 b = refl

  pub into_bytes-u32 : (n : ℕ) → into_bytes (u32 n w) ≡ into_bytes w ++ to_be_bytes n
  unfolding into_bytes
  into_bytes-u32 n = refl

  pub into_bytes-remainder : (bs : List ℕ) → into_bytes (remainder bs w) ≡ into_bytes w ++ bs
  unfolding into_bytes
  into_bytes-remainder bs = refl

pub as_u32_fits : (n : ℕ) → n < 2 ^ 32 → as_u32 n ≡ n
as_u32_fits n h = omega arith

-- A length below 2 ^ 32 is written whole.
pub into_bytes-bytes :
    (w : Writer) (bs : List ℕ) → Fits bs → into_bytes (bytes bs w) ≡ into_bytes w ++ block bs
unfolding bytes into_bytes
into_bytes-bytes w bs h =
    rw (as_u32_fits (length bs) h) (append_assoc w.out (to_be_bytes (length bs)) bs)

abbrev pub AllFit : List (List ℕ) → Type 0
AllFit [] = Unit {0}
AllFit (x ∷ xs) = Fits x × AllFit xs

into_bytes-write_items :
    (w : Writer) (xs : List (List ℕ))
    → AllFit xs
    → into_bytes (write_items xs w) ≡ into_bytes w ++ blocks xs
unfolding write_items
into_bytes-write_items w [] h = sym (append-nil (into_bytes w))
into_bytes-write_items w (x ∷ xs) (hx, hxs) =
    into_bytes-write_items (bytes x w) xs hxs
    ∙ ap (λ l. l ++ blocks xs) (into_bytes-bytes w x hx)
    ∙ append_assoc (into_bytes w) (block x) (blocks xs)

-- A list whose length and items fit is written whole.
pub into_bytes-list :
    (w : Writer) (xs : List (List ℕ))
    → length xs < 2 ^ 32
    → AllFit xs
    → into_bytes (list xs w) ≡ into_bytes w ++ listing xs
unfolding list
into_bytes-list w xs h hs =
    into_bytes-write_items _ xs hs
    ∙ ap (λ l. l ++ blocks xs)
        (into_bytes-u32 w (as_u32 (length xs))
          ∙ ap (λ n. into_bytes w ++ to_be_bytes n) (as_u32_fits (length xs) h))
    ∙ append_assoc (into_bytes w) (to_be_bytes (length xs)) (blocks xs)

pub ruleset writes =
    (into_bytes-fresh, into_bytes-u8, into_bytes-u32, into_bytes-remainder, append_assoc)
