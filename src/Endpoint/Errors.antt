-- ===== src/Endpoint/Errors.antt =====
-- crates/kobako-runtime/src/error.rs: how an invocation fails. Text is its UTF-8 bytes.
use kobako.Common.{ℕ, List}

pub data Trap : Type 0 where
  timeout memory_limit other : List ℕ → Trap

pub data SetupError : Type 0 where
  module_not_built dead intact : List ℕ → SetupError

pub data InvokeError : Type 0 where
  trap : Trap → InvokeError
  setup : SetupError → InvokeError
