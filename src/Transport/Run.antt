-- ===== src/Transport/Run.antt =====
-- crates/kobako-transport/src/envelope/run.rs: which entrypoint to call, and its arguments.
pub mod RoundTrip
use kobako.Common.{ℕ, List, Result}
use kobako.Transport.Bytes.{
  DecodeError, Read, pure, ◌>>=◌, run, read_text, remaining, fresh, ◌▸◌, bytes, remainder,
  into_bytes,
}

pub record Run : Type 0 where
  pub entrypoint : List ℕ
  pub payload : List ℕ

unfoldable pub read_run : Read Run
read_run = do
  entrypoint ← read_text
  payload ← remaining
  pure (record { entrypoint = entrypoint; payload = payload })

unfoldable pub decode : List ℕ → Result Run DecodeError
unfolding read_run
decode bs = run read_run bs

unfoldable pub encode : Run → List ℕ
encode r = into_bytes (fresh ▸ bytes r.entrypoint ▸ remainder r.payload)
