-- ===== src/Transport/Bytes.antt =====
-- crates/kobako-transport/src/envelope/bytes.rs: the reader's cursor and the writer's accumulator.
-- A `&mut Reader` method is an action of `Read`: it takes the reader and returns it beside its
-- result; after an error the source never reads on, so the reader is dropped there.
pub mod Cursor
pub mod Parses
pub mod Fields
pub mod Writes
pub mod Texts
pub mod Takes
pub mod TakesFields
use kobako.Common.{
  ℕ, zero, suc, ◌+◌, ◌-◌, ◌/◌, ◌%◌, ◌^◌, Bool, true, false, Option, none, some, List, [], ◌∷◌, ◌++◌,
  String, ◌&&◌, length, get_elem?, take, drop, ltb, leb, ◌==◌, if◌then◌else◌, Result, ok, err,
  ok_or,
}
use kobako.Common.Words.{from_be_bytes, to_be_bytes}
use kobako.Common.Utf8.{is_utf8}

-- The reason is the source's literal.
pub record DecodeError : Type 0 where
  pub message : String

abbrev pub malformed : DecodeError
malformed = record { message = "Envelope ended before its declared length" }

abbrev pub not_utf8 : DecodeError
not_utf8 = record { message = "Envelope text field is not valid UTF-8" }

abbrev pub past_last_field : DecodeError
past_last_field = record { message = "Envelope carries bytes past its last field" }

pub record Reader : Type 0 where
  pub bytes : List ℕ
  pub pos : ℕ

abbrev pub Read {ℓ} : Type ℓ → Type ℓ
Read A = Reader → Result (A × Reader) DecodeError

module _ {ℓ} {A : Type ℓ} where
  unfoldable pub pure : A → Read A
  pure a r = ok (a, r)

  unfoldable pub fail : DecodeError → Read A
  fail e r = err e

  unfoldable pub lift : Result A DecodeError → Read A
  lift (ok a) r = ok (a, r)
  lift (err e) r = err e

abbrev continue {ℓ κ} :
    {A : Type ℓ} {B : Type κ}
    → Result (A × Reader) DecodeError
    → (A → Read B)
    → Result (B × Reader) DecodeError
continue (ok (a, r)) f = f a r
continue (err e) f = err e

infixl 5 ◌>>=◌ ◌>>◌
unfoldable pub ◌>>=◌ {ℓ κ} : {A : Type ℓ} {B : Type κ} → Read A → (A → Read B) → Read B
◌>>=◌ m f r = continue (m r) f

abbrev pub ◌>>◌ {ℓ κ} : {A : Type ℓ} {B : Type κ} → Read A → Read B → Read B
m >> n = m >>= λ _. n

unfoldable pub new : List ℕ → Reader
new bytes = record { bytes = bytes; pos = 0 }

-- `usize` is 64 bits wide.
unfoldable pub checked_add : ℕ → ℕ → Option ℕ
checked_add a b = if ltb (a + b) (2 ^ 64) then some (a + b) else none

-- `bytes.get(start..end)`
unfoldable pub slice : List ℕ → ℕ → ℕ → Option (List ℕ)
slice bytes start end =
    if leb start end && leb end (length bytes)
    then some (take (end - start) (drop start bytes))
    else none

unfoldable pub read_u8 : Read ℕ
read_u8 r = elim (get_elem? r.bytes r.pos) [
  | none ↦ err malformed
  | some byte ↦ ok (byte, record r { pos = r.pos + 1 })
]

-- The steps that `read_u32` and `read_bytes` share: check the end, cut the slice, advance.
unfoldable pub read_exact : ℕ → Read (List ℕ)
read_exact len r = elim (checked_add r.pos len) [
  | none ↦ err malformed
  | some end ↦ elim (slice r.bytes r.pos end) [
    | none ↦ err malformed
    | some s ↦ ok (s, record r { pos = end })
  ]
]

unfoldable pub read_u32 : Read ℕ
read_u32 = do s ← read_exact 4; pure (from_be_bytes s)

unfoldable pub read_bytes : Read (List ℕ)
read_bytes = do len ← read_u32; read_exact len

-- Text is its UTF-8 bytes.
unfoldable pub read_text : Read (List ℕ)
read_text = do s ← read_bytes; if is_utf8 s then pure s else fail not_utf8

-- Everything not yet consumed.
unfoldable pub rest_of : Reader → List ℕ
rest_of r = drop r.pos r.bytes

unfoldable pub remaining : Read (List ℕ)
remaining r = ok (rest_of r, r)

module _ {ℓ} {A : Type ℓ} where
  -- `for _ in 0..count { out.push(element(self)?) }`
  unfoldable pub read_times : Read A → ℕ → Read (List A)
  read_times element zero = pure []
  read_times element (suc count) = do x ← element; xs ← read_times element count; pure (x ∷ xs)

  unfoldable pub read_list : Read A → Read (List A)
  read_list element = do
    count ← read_u32
    left ← remaining
    if ltb (length left / 4) count then fail malformed else read_times element count

unfoldable pub read_text_list : Read (List (List ℕ))
read_text_list = read_list read_text

unfoldable pub read_bytes_list : Read (List (List ℕ))
read_bytes_list = read_list read_bytes

unfoldable pub skip_unknown_fields : Read (Unit {0})
skip_unknown_fields r = ok (tt, record r { pos = length r.bytes })

unfoldable pub finish : Read (Unit {0})
finish r = if r.pos == length r.bytes then ok (tt, r) else err past_last_field

-- A whole `decode`: an action run on a new reader, which is dropped at the end. To open `run` opens
-- the methods above.
abbrev value {ℓ} : {A : Type ℓ} → Result (A × Reader) DecodeError → Result A DecodeError
value (ok (a, r)) = ok a
value (err e) = err e

unfoldable pub run {ℓ} : {A : Type ℓ} → Read A → List ℕ → Result A DecodeError
unfolding new pure fail lift ◌>>=◌ checked_add slice read_u8 read_exact read_u32 read_bytes
    read_text is_utf8 from_be_bytes rest_of remaining read_times read_list read_text_list
    read_bytes_list skip_unknown_fields finish
run m bytes = value (m (new bytes))

-- `Writer`, whose methods take and return the accumulator.
pub record Writer : Type 0 where
  pub out : List ℕ

unfoldable pub fresh : Writer
fresh = record { out = [] }

-- `w.method(…)`
infixl 20 ◌▸◌
abbrev pub ◌▸◌ : Writer → (Writer → Writer) → Writer
w ▸ f = f w

unfoldable pub u8 : ℕ → Writer → Writer
u8 byte w = record { out = w.out ++ byte ∷ [] }

-- `value` is a `u32`, and wraps where the source casts to one.
unfoldable pub u32 : ℕ → Writer → Writer
u32 n w = record { out = w.out ++ to_be_bytes n }

abbrev pub as_u32 : ℕ → ℕ
as_u32 n = n % 2 ^ 32

unfoldable pub bytes : List ℕ → Writer → Writer
bytes bs w = let w' = u32 (as_u32 (length bs)) w in record { out = w'.out ++ bs }

unfoldable pub remainder : List ℕ → Writer → Writer
remainder bs w = record { out = w.out ++ bs }

unfoldable pub write_items : List (List ℕ) → Writer → Writer
write_items [] w = w
write_items (item ∷ items) w = write_items items (bytes item w)

unfoldable pub list : List (List ℕ) → Writer → Writer
list items w = write_items items (u32 (as_u32 (length items)) w)

-- To open it opens the methods above.
unfoldable pub into_bytes : Writer → List ℕ
unfolding to_be_bytes fresh u8 u32 bytes remainder write_items list
into_bytes w = w.out
