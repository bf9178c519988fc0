-- ===== src/Endpoint/Buffer/RoundTrip.antt =====
-- A buffer that the host wrote, and what it reads there.
use kobako.Common.{
  ℕ, ◌+◌, ◌%◌, ◌^◌, ◌≤◌, ◌<◌, ◌≡◌, ◌≢◌, refl, sym, ap, ◌∙◌, subst, true, false, Option, none, some,
  List, ◌++◌, arith, length, take, drop, length-append, length-take, length-drop, take-append_left,
  drop-append_left, ltb, ◌==◌, Bool-cases, inl, inr, ◌⊎◌, Result, ok, err, ok-injective, required,
  refused,
}
use kobako.Common.Outcomes.{Result-cases}
use kobako.Transport.Abi.{max_dispatch_payload}
use kobako.Endpoint.Buffer.{
  GuestInstance, WriteError, checked_payload_len, guest_buffer_range, splice, read_buffer, write_at,
  place, alloc_and_write,
}

pub Option-cases : {A : Type 0} (o : Option A) → (o ≡ none) ⊎ ((a : A) × (o ≡ some a))
Option-cases none = inl refl
Option-cases (some a) = inr (a, refl)

record InRange (ptr len size : ℕ) (range : ℕ × ℕ) : Type 0 where
  ends : range ≡ (ptr, ptr + len)
  inside : ptr + len ≤ size

guest_buffer_range-InRange :
    (ptr len size : ℕ) {range : ℕ × ℕ}
    → guest_buffer_range ptr len size ≡ ok range
    → InRange ptr len size range
unfolding guest_buffer_range
guest_buffer_range-InRange ptr len size e =
    let (fits, e1) = required (ltb (ptr + len) (2 ^ 64)) _ e in
    let (inside, e2) = refused (ltb size (ptr + len)) _ e1 in
    record { ends = sym (ok-injective e2); inside = ground arith }

module _ (memory bytes : List ℕ) (ptr : ℕ) (inside : ptr + length bytes ≤ length memory) where
  length-before : length (take ptr memory) ≡ ptr
  length-before = omega (arith, length-take ptr memory)

  length-splice : length (splice memory (ptr, ptr + length bytes) bytes) ≡ length memory
  length-splice = omega (
    arith,
    length-append (take ptr memory) (bytes ++ drop (ptr + length bytes) memory),
    length-append bytes (drop (ptr + length bytes) memory),
    length-drop (ptr + length bytes) memory,
    length-before,
  )

  take-drop-splice :
      take (length bytes) (drop ptr (splice memory (ptr, ptr + length bytes) bytes)) ≡ bytes
  take-drop-splice =
      ap (take (length bytes)) (
        subst
          (λ n.
            drop n (splice memory (ptr, ptr + length bytes) bytes)
            ≡ bytes ++ drop (ptr + length bytes) memory)
          length-before
          (drop-append_left (take ptr memory) (bytes ++ drop (ptr + length bytes) memory)))
      ∙ take-append_left bytes (drop (ptr + length bytes) memory)

-- Where the allocator's answer is written, the buffer reads back.
record Written {G F : Type 0} (guest : GuestInstance G F) (bytes : List ℕ) (ptr : ℕ) (g : G)
    : Type 0 where
  memory : List ℕ
  holds : guest.memory g ≡ some memory
  inside : guest_buffer_range ptr (length bytes) (length memory) ≡ ok (ptr, ptr + length bytes)
  content : take (length bytes) (drop ptr memory) ≡ bytes

-- A store through the slice of an instance's memory is seen by the next borrow of it.
pub record IsGuest {G F : Type 0} (guest : GuestInstance G F) : Type 0 where
  pub memory-store :
      (g : G) (old new : List ℕ)
      → guest.memory g ≡ some old
      → length new ≡ length old
      → guest.memory (guest.store new g) ≡ some new

module _ {G F : Type 0} where
  refusal :
      {x : WriteError F} {h g : G} {ptr : ℕ}
      → ◌≡◌ {A = Result ℕ (WriteError F) × G} (err x, h) (ok ptr, g)
      → ⊥
  refusal p = cc

module _ {G F : Type 0} (guest : GuestInstance G F) (lawful : IsGuest guest) where
  write_at-Written :
      (ptr : ℕ) (bytes : List ℕ) (g : G) {answer : ℕ} {g' : G}
      → write_at guest ptr bytes g ≡ (ok answer, g')
      → (answer ≡ ptr) × Written guest bytes ptr g'
  unfolding write_at
  write_at-Written ptr bytes g {answer} {g'} e = elim (Option-cases (guest.memory g)) [
    | inl none_there ↦ absurd (refusal (rw (write_at, none_there) at e))
    | inr (memory, there) ↦
        elim (Result-cases (guest_buffer_range ptr (length bytes) (length memory))) [
          | inr (message, out) ↦ absurd (refusal (rw (write_at, there, out) at e))
          | inl (range, within) ↦
              let r = guest_buffer_range-InRange ptr (length bytes) (length memory) within in
              let done = rw (write_at, there, within, r.ends) at e in
              let same = length-splice memory bytes ptr r.inside in
              (
                sym (ok-injective (ap (λ p. p.0) done)),
                subst (Written guest bytes ptr) (ap (λ p. p.1) done) (record {
                  memory = splice memory (ptr, ptr + length bytes) bytes;
                  holds = lawful.memory-store g memory _ there same;
                  inside = rw same (within ∙ ap ok r.ends);
                  content = take-drop-splice memory bytes ptr r.inside;
                }),
              )
        ]
  ]

  place-Written :
      (bytes : List ℕ) (answer : Option (Result ℕ F) × G) {ptr : ℕ} {g' : G}
      → place guest bytes answer ≡ (ok ptr, g')
      → (ptr ≢ 0) × Written guest bytes ptr g'
  unfolding place
  place-Written bytes (none, g) e = absurd (cc)
  place-Written bytes (some (err fault), g) e = absurd (cc)
  place-Written bytes (some (ok p), g) {ptr} {g'} e = elim (Bool-cases (p == 0)) [
    | inl zero_there ↦ absurd (refusal (rw (place, zero_there) at e))
    | inr nonzero ↦
        let (same, written) = write_at-Written p bytes g (rw (place, nonzero) at e) in
        (ground (arith, same), rw same written)
  ]

  alloc_and_write-Written :
      (bytes : List ℕ) (g : G) {ptr : ℕ} {g' : G}
      → alloc_and_write guest bytes g ≡ (ok ptr, g')
      → (length bytes ≤ max_dispatch_payload) × (ptr ≢ 0) × Written guest bytes ptr g'
  unfolding alloc_and_write checked_payload_len
  alloc_and_write-Written bytes g {ptr} {g'} e =
      elim (Bool-cases (ltb max_dispatch_payload (length bytes))) [
        | inl large ↦ absurd (refusal (rw (alloc_and_write, large) at e))
        | inr small ↦ elim (Option-cases (guest.memory g)) [
          | inl none_there ↦
              absurd (refusal (rw (alloc_and_write, small, short small, none_there) at e))
          | inr (memory, there) ↦
              let (nonzero, written) =
                place-Written bytes (guest.alloc (length bytes % 2 ^ 32) g)
                  (rw (alloc_and_write, small, short small, there) at e) in
              (ground arith, nonzero, written)
        ]
      ]
    where
      short : ltb max_dispatch_payload (length bytes) ≡ false → ltb (length bytes) (2 ^ 31) ≡ true
      short small = ground arith

-- When the host's write of a buffer into guest memory succeeds, the address is not 0, and the host
-- reads the same bytes back from that address and length: for an instance whose memory keeps what is
-- stored in it.
pub read_buffer-alloc_and_write :
    {G F : Type 0} (guest : GuestInstance G F) (lawful : IsGuest guest) (bytes : List ℕ) (g g' : G)
    (ptr : ℕ)
    → alloc_and_write guest bytes g ≡ (ok ptr, g')
    → (ptr ≢ 0)
      × ((memory : List ℕ) × (guest.memory g' ≡ some memory)
          × (read_buffer memory ptr (length bytes) ≡ ok bytes))
unfolding read_buffer
read_buffer-alloc_and_write guest lawful bytes g g' ptr e =
    let (small, nonzero, w) = alloc_and_write-Written guest lawful bytes g e in
    (nonzero, (w.memory, w.holds, rw (within small, w.inside) (ap ok w.content)))
  where
    within : length bytes ≤ max_dispatch_payload → ltb max_dispatch_payload (length bytes) ≡ false
    within h = ground arith

-- The write succeeds with the allocator's address, and stores the bytes there, where the instance has
-- a memory before and after the allocation, the bytes are no more than 16 MiB, and the allocator
-- answers an address of 32 bits that is not 0 and from which they fit its memory.
pub alloc_and_write-fits :
    {G F : Type 0} (guest : GuestInstance G F) (bytes before after : List ℕ) (g g' : G) (ptr : ℕ)
    → length bytes ≤ max_dispatch_payload
    → guest.memory g ≡ some before
    → guest.alloc (length bytes) g ≡ (some (ok ptr), g')
    → ptr ≢ 0
    → ptr < 2 ^ 32
    → guest.memory g' ≡ some after
    → ptr + length bytes ≤ length after
    → alloc_and_write guest bytes g
      ≡ (ok ptr, guest.store (splice after (ptr, ptr + length bytes) bytes) g')
unfolding guest_buffer_range alloc_and_write
alloc_and_write-fits guest bytes before after g g' ptr small here allocated nonzero narrow there
      fits =
    rw (
      alloc_and_write, checked_payload_len, within, short, here, whole, allocated, place, legal,
      write_at, there, room, inside,
    )
  where
    within : ltb max_dispatch_payload (length bytes) ≡ false
    within = ground arith

    short : ltb (length bytes) (2 ^ 31) ≡ true
    short = ground arith

    whole : length bytes % 2 ^ 32 ≡ length bytes
    whole = omega arith

    legal : (ptr == 0) ≡ false
    legal = ground arith

    room : ltb (ptr + length bytes) (2 ^ 64) ≡ true
    room = ground arith

    inside : ltb (length after) (ptr + length bytes) ≡ false
    inside = ground arith
