-- ===== src/Base.antt =====
-- What the modules share: names of the libraries passed on, texts, outcomes and their laws.
mod Tests
mod Strings
mod Laws
mod Effects
mod Int
mod FilePaths
mod Invariants
pub use Tests.*
unfoldable pub use Strings.*
unfoldable pub use Laws.*
unfoldable pub use Effects.*
unfoldable pub use Int.*
unfoldable pub use FilePaths.*
pub use Invariants.*
pub use Prim.Native.Nat.{ℕ, zero, suc, ◌+◌, ◌-◌, ◌*◌, ◌/◌, ◌%◌, ◌^◌, ◌≤◌, ◌<◌}
pub use mathlib.Core.Path.{◌≡◌, refl, sym, ap, ◌∙◌}
pub use mathlib.Core.Logic.{◌≢◌, ◌↔◌, ◌⊎◌, inl, inr}
pub use mathlib.Core.Bool.{Bool, true, false, not, ◌&&◌, ◌||◌}
pub use mathlib.Core.Option.{Option, none, some}
pub use mathlib.Core.List.{List, [], ◌∷◌, ◌++◌, map, append_assoc, append-nil}
pub use native.Mathlib.Omega.{arith}
