-- ===== src/Transport/Bytes/Cursor.antt =====
-- The cursor inside its slice, and what the primitives cut off the rest.
use kobako.Common.{
  ℕ, zero, suc, ◌+◌, ◌-◌, ◌^◌, ◌≤◌, ◌<◌, ◌≡◌, refl, sym, ap, ◌∙◌, some, none, List, [], ◌∷◌, ◌++◌,
  arith, length, length-append, length-drop, get_elem?, take, drop, drop-drop, take-append_left,
  drop-append_left, drop-length, le→leb, ok, err,
}
use kobako.Transport.Bytes.{
  Reader, checked_add, slice, read_u8, read_exact, rest_of, finish, past_last_field,
}

-- A slice holds at most `isize::MAX` bytes, and the cursor is inside it.
pub record IsCursor (r : Reader) : Type 0 where
  pub within : r.pos ≤ length r.bytes
  pub fits : length r.bytes < 2 ^ 63

pub finish_runs : (r : Reader) → IsCursor r → rest_of r ≡ [] → finish r ≡ ok (tt, r)
unfolding finish rest_of
finish_runs r c p = ground (arith, ap length p, length-drop r.pos r.bytes)

-- A `finish` that succeeds stays where it is, with nothing left.
pub finish_inv :
    (r next : Reader) {u : Unit {0}}
    → IsCursor r
    → finish r ≡ ok (u, next)
    → (next ≡ r) × (rest_of r ≡ [])
unfolding finish rest_of
finish_inv r next {u} c e = (ground arith, ground (arith, drop-length r.bytes))

pub finish_refuses :
    (r : Reader) (y : ℕ) (ys : List ℕ)
    → IsCursor r
    → rest_of r ≡ y ∷ ys
    → finish r ≡ err past_last_field
unfolding finish rest_of
finish_refuses r y ys c p = ground (arith, ap length p, length-drop r.pos r.bytes)

-- Cutting the next bytes off the rest, and what is left then.
pub get_elem?-past : (n : ℕ) (xs : List ℕ) → drop n xs ≡ [] → get_elem? xs n ≡ none
get_elem?-past zero [] e = refl
get_elem?-past zero (x ∷ xs) e = cc
get_elem?-past (suc n) [] e = refl
get_elem?-past (suc n) (x ∷ xs) e = get_elem?-past n xs e

get_elem?-drop :
    (n : ℕ) (xs : List ℕ) (y : ℕ) (ys : List ℕ) → drop n xs ≡ y ∷ ys → get_elem? xs n ≡ some y
get_elem?-drop zero xs y ys e = rw e
get_elem?-drop (suc n) [] y ys e = cc
get_elem?-drop (suc n) (x ∷ xs) y ys e = get_elem?-drop n xs y ys e

checked_add_fits : (a b : ℕ) → a + b < 2 ^ 64 → checked_add a b ≡ some (a + b)
unfolding checked_add
checked_add_fits a b h = ground arith

module _ (r : Reader) (s rest : List ℕ) (c : IsCursor r) (e : rest_of r ≡ s ++ rest) where
  pub room : r.pos + length s ≤ length r.bytes
  unfolding rest_of
  room = omega (arith, ap length e, length-drop r.pos r.bytes, length-append s rest)

  slice_runs : slice r.bytes r.pos (r.pos + length s) ≡ some s
  unfolding slice rest_of
  slice_runs =
      rw (le→leb r.pos (r.pos + length s) (omega arith), le→leb _ _ room)
        (ap some (
          ap (λ n. take n (drop r.pos r.bytes)) span
          ∙ ap (take (length s)) e
          ∙ take-append_left s rest))
    where
      span : r.pos + length s - r.pos ≡ length s
      span = omega arith

  pub read_exact_runs : read_exact (length s) r ≡ ok (s, record r { pos = r.pos + length s })
  unfolding read_exact
  read_exact_runs =
      ground (arith, checked_add_fits r.pos (length s) (omega (arith, room, c.fits)), slice_runs)

  pub rest_after : rest_of (record r { pos = r.pos + length s }) ≡ rest
  unfolding rest_of
  rest_after =
      sym (drop-drop r.pos (length s) _ r.bytes refl)
      ∙ ap (drop (length s)) e
      ∙ drop-append_left s rest

pub read_u8_runs :
    (r : Reader) (byte : ℕ) (rest : List ℕ)
    → rest_of r ≡ byte ∷ rest
    → read_u8 r ≡ ok (byte, record r { pos = r.pos + 1 })
unfolding read_u8 rest_of
read_u8_runs r byte rest e = rw (get_elem?-drop r.pos r.bytes byte rest e, read_u8)

-- What a successful cut returns, and where it ends.
pub record Cut (len : ℕ) (r : Reader) (s : List ℕ) (next : Reader) : Type 0 where
  pub cut : s ≡ take len (rest_of r)
  pub moved : next ≡ record r { pos = r.pos + len }
  pub enough : r.pos + len ≤ length r.bytes

pub read_exact_inv :
    (len : ℕ) (r next : Reader) (s : List ℕ) → read_exact len r ≡ ok (s, next) → Cut len r s next
unfolding read_exact checked_add slice rest_of
read_exact_inv len r next s e = record {
  cut = ground (arith, ap (λ n. take n (drop r.pos r.bytes)) span);
  moved = ground arith;
  enough = ground arith;
}
  where
    span : r.pos + len - r.pos ≡ len
    span = omega arith

drop-get_elem? :
    (n : ℕ) (xs : List ℕ) (y : ℕ) → get_elem? xs n ≡ some y → drop n xs ≡ y ∷ drop (suc n) xs
drop-get_elem? n [] y e = cc
drop-get_elem? zero (x ∷ xs) y e = cc
drop-get_elem? (suc n) (x ∷ xs) y e = drop-get_elem? n xs y e

get_elem?-in : (n : ℕ) (xs : List ℕ) {y : ℕ} → get_elem? xs n ≡ some y → n < length xs
get_elem?-in n [] e = cc
get_elem?-in zero (x ∷ xs) e = omega arith
get_elem?-in (suc n) (x ∷ xs) e = omega (arith, get_elem?-in n xs e)

-- Where `read_u8` succeeds, its byte is the next, and the cursor stands behind it.
pub record NextByte (r : Reader) (byte : ℕ) (next : Reader) : Type 0 where
  pub first : rest_of r ≡ byte ∷ rest_of (record r { pos = r.pos + 1 })
  pub moved : next ≡ record r { pos = r.pos + 1 }
  pub enough : r.pos + 1 ≤ length r.bytes

read_u8_found :
    (r next : Reader) (byte : ℕ)
    → read_u8 r ≡ ok (byte, next)
    → (get_elem? r.bytes r.pos ≡ some byte) × (next ≡ record r { pos = r.pos + 1 })
unfolding read_u8
read_u8_found r next byte e = (ground arith, ground arith)

pub read_u8_inv : (r next : Reader) (byte : ℕ) → read_u8 r ≡ ok (byte, next) → NextByte r byte next
unfolding rest_of
read_u8_inv r next byte e =
    let (found, moved) = read_u8_found r next byte e in
    record {
      first = drop-get_elem? r.pos r.bytes byte found ∙ ap (λ n. byte ∷ drop n r.bytes) one_more;
      moved = moved;
      enough = omega (arith, get_elem?-in r.pos r.bytes found);
    }
  where
    one_more : suc r.pos ≡ r.pos + 1
    one_more = omega arith
