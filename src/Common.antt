-- ===== src/Common.antt =====
-- Names that the modules share: the libraries', passed on, and those of the children below.
mod Tests
mod Lists
mod Clashes
pub mod Outcomes
pub mod Words
pub mod Utf8
pub use Tests.*
pub use Lists.*
pub use Clashes.*
pub use Outcomes.{Result, ok, err, ok_or, ok-injective, required, refused}
pub use Prim.Native.Nat.{ℕ, zero, suc, ◌+◌, ◌-◌, ◌*◌, ◌/◌, ◌%◌, ◌^◌, ◌≤◌, ◌<◌}
pub use mathlib.Core.Path.{◌≡◌, refl, sym, ap, ◌∙◌, subst}
pub use mathlib.Core.Logic.{◌≢◌, ◌↔◌, ◌⊎◌, inl, inr}
pub use mathlib.Core.Bool.{Bool, true, false, ◌&&◌, ◌||◌, not}
pub use mathlib.Core.Option.{Option, none, some}
pub use mathlib.Core.List.{List, [], ◌∷◌, ◌++◌, append-nil, append_assoc}
pub use native.Mathlib.Omega.{arith}
pub use Prim.Native.String.{String}
