-- ===== src/Transport/Bytes/Fields.antt =====
-- The rules for the fields of a message: integers, byte strings, texts and lists.
use kobako.Common.{
  ℕ, ◌+◌, ◌*◌, ◌/◌, ◌^◌, ◌≤◌, ◌<◌, ◌≡◌, refl, true, false, List, [], ◌∷◌, ◌++◌, append-nil, arith,
  length, length-append, ltb, if◌then◌else◌, All,
}
use kobako.Common.Words.{to_be_bytes, from_be_bytes, length-to_be_bytes, from_be_bytes-to_be_bytes}
use kobako.Common.Utf8.{is_utf8}
use kobako.Transport.Bytes.{
  Read, pure, fail, ◌>>=◌, read_u8, read_exact, read_u32, read_bytes, read_text, rest_of,
  read_times, read_list, not_utf8, malformed,
}
use kobako.Transport.Bytes.Cursor.{room, read_u8_runs, read_exact_runs, rest_after, get_elem?-past}
use kobako.Transport.Bytes.Parses.{
  Reads, Fails, Reads-pure, Reads-eq, Reads-bind, Reads-bind_last, Reads-remaining,
}

pub Reads-u8 : (byte : ℕ) → Reads read_u8 (byte ∷ []) byte
Reads-u8 byte = record {
  at = λ r rest c e. record {
    next = record r { pos = r.pos + 1 };
    runs = read_u8_runs r byte rest e;
    left = rest_after r (byte ∷ []) rest c e;
    valid = record { within = room r (byte ∷ []) rest c e; fits = c.fits };
  };
}

pub Reads-exact : (s : List ℕ) (len : ℕ) → length s ≡ len → Reads (read_exact len) s s
Reads-exact s len h = record {
  at = λ r rest c e. record {
    next = record r { pos = r.pos + length s };
    runs = rw (← h) (read_exact_runs r s rest c e);
    left = rest_after r s rest c e;
    valid = record { within = room r s rest c e; fits = c.fits };
  };
}

pub Fails-u8 : Fails read_u8 [] malformed
unfolding read_u8 rest_of
Fails-u8 = record { at = λ r c p. ground (arith, get_elem?-past r.pos r.bytes p) }

abbrev pub block : List ℕ → List ℕ
block s = to_be_bytes (length s) ++ s

abbrev pub Fits : List ℕ → Type 0
Fits s = length s < 2 ^ 32

pub Reads-u32 : (n : ℕ) → n < 2 ^ 32 → Reads read_u32 (to_be_bytes n) n
unfolding read_u32
Reads-u32 n h =
    rw (append-nil, from_be_bytes-to_be_bytes n h) at
      (Reads-bind (λ s. pure (from_be_bytes s)) (Reads-exact _ 4 (length-to_be_bytes n))
        (Reads-pure _))

pub Reads-bytes : (s : List ℕ) → Fits s → Reads read_bytes (block s) s
unfolding read_bytes
Reads-bytes s h = Reads-bind _ (Reads-u32 (length s) h) (Reads-exact s (length s) refl)

-- A text field: valid UTF-8 whose length the prefix can carry.
pub record IsText (s : List ℕ) : Type 0 where
  pub utf8 : is_utf8 s ≡ true
  pub fits : Fits s

checked : List ℕ → Read (List ℕ)
checked s = if is_utf8 s then pure s else fail not_utf8

checked-IsText : (s : List ℕ) → IsText s → checked s ≡ pure s
unfolding checked
checked-IsText s t = rw t.utf8

pub Reads-text : (s : List ℕ) → IsText s → Reads read_text (block s) s
unfolding read_text checked
Reads-text s t =
    Reads-bind_last checked (Reads-bytes s t.fits) (Reads-eq (checked-IsText s t) (Reads-pure s))

-- The items of a list, each behind its length.
abbrev pub blocks : List (List ℕ) → List ℕ
blocks [] = []
blocks (x ∷ xs) = block x ++ blocks xs

abbrev pub listing : List (List ℕ) → List ℕ
listing xs = to_be_bytes (length xs) ++ blocks xs

length-blocks : (xs : List (List ℕ)) → length xs * 4 ≤ length (blocks xs)
length-blocks [] = omega arith
length-blocks (x ∷ xs) = omega (
  arith,
  length-blocks xs,
  length-append (block x) (blocks xs),
  length-append (to_be_bytes (length x)) x,
  length-to_be_bytes (length x),
)

module _ (element : Read (List ℕ)) where
  Reads-times :
      (xs : List (List ℕ))
      → All (λ x. Reads element (block x) x) xs
      → Reads (read_times element (length xs)) (blocks xs) xs
  unfolding read_times
  Reads-times [] h = Reads-pure []
  Reads-times (x ∷ xs) (hx, hxs) =
      Reads-bind (λ y. read_times element (length xs) >>= λ ys. pure (y ∷ ys)) hx
        (Reads-bind_last (λ ys. pure (x ∷ ys)) (Reads-times xs hxs) (Reads-pure (x ∷ xs)))

  -- The count is at most a quarter of the bytes that follow.
  counted : ℕ → List ℕ → Read (List (List ℕ))
  counted count left =
      if ltb (length left / 4) count then fail malformed else read_times element count

  counted_enough :
      (xs : List (List ℕ)) (rest : List ℕ)
      → counted (length xs) (blocks xs ++ rest) ≡ read_times element (length xs)
  unfolding counted
  counted_enough xs rest = rw test
    where
      test : ltb (length (blocks xs ++ rest) / 4) (length xs) ≡ false
      test = ground (arith, length-blocks xs, length-append (blocks xs) rest)

  pub Reads-list :
      (xs : List (List ℕ))
      → length xs < 2 ^ 32
      → All (λ x. Reads element (block x) x) xs
      → Reads (read_list element) (listing xs) xs
  unfolding read_list counted
  Reads-list xs fits h = Reads-bind _ (Reads-u32 (length xs) fits) (
      Reads-remaining (counted (length xs))
        λ rest. Reads-eq (counted_enough xs rest) (Reads-times xs h))
