-- ===== src/Endpoint/Invoke/Stdin.antt =====
-- What the guest makes of its stdin.
use kobako.Common.{
  ℕ, ◌%◌, ◌^◌, ◌≤◌, ◌≡◌, refl, true, false, List, ◌++◌, arith, length, take, drop, ltb, ok,
}
use kobako.Common.Words.{from_be_bytes, from_be_bytes-to_be_bytes, to_be_bytes}
use kobako.Transport.Abi.{frame_len_size, max_dispatch_payload}
use kobako.Transport.Preamble
use kobako.Transport.Preamble.{Preamble}
use kobako.Transport.Preamble.RoundTrip.{IsPreamble, Preamble-decode-encode}
use kobako.Endpoint.Buffer.{checked_payload_len}
use kobako.Endpoint.Invoke.{stdin_content}

pub stdin_content-fits :
    (p : Preamble)
    → length (Preamble.encode p) ≤ max_dispatch_payload
    → stdin_content p ≡ ok (to_be_bytes (length (Preamble.encode p)) ++ Preamble.encode p)
unfolding stdin_content checked_payload_len
stdin_content-fits p small = rw (stdin_content, within, short, whole) refl
  where
    within : ltb max_dispatch_payload (length (Preamble.encode p)) ≡ false
    within = ground arith

    short : ltb (length (Preamble.encode p)) (2 ^ 31) ≡ true
    short = ground arith

    whole : length (Preamble.encode p) % 2 ^ 32 ≡ length (Preamble.encode p)
    whole = omega arith

module _ (n : ℕ) (body : List ℕ) where
  take-prefix : take frame_len_size (to_be_bytes n ++ body) ≡ to_be_bytes n
  unfolding to_be_bytes
  take-prefix = refl

  drop-prefix : drop frame_len_size (to_be_bytes n ++ body) ≡ body
  unfolding to_be_bytes
  drop-prefix = refl

-- A well-formed Preamble of at most 16 MiB is framed, and a guest that reads the four bytes of the
-- length finds exactly so many bytes behind them, which decode to the Preamble.
pub stdin_content-framed :
    (p : Preamble)
    → IsPreamble p
    → length (Preamble.encode p) ≤ max_dispatch_payload
    → (content : List ℕ) × (stdin_content p ≡ ok content)
      × (from_be_bytes (take frame_len_size content) ≡ length (drop frame_len_size content))
      × (Preamble.decode (drop frame_len_size content) ≡ ok p)
stdin_content-framed p h small = (
  _,
  stdin_content-fits p small,
  rw (take-prefix _ (Preamble.encode p), drop-prefix (length (Preamble.encode p)) _)
      (from_be_bytes-to_be_bytes _ (omega arith)),
  rw (drop-prefix _ (Preamble.encode p)) (Preamble-decode-encode p h (omega arith)),
)
