-- ===== src/Base.antt =====
-- The names that the other modules share: the libraries', passed on, and those of the children.
-- A text is the list of its bytes; where the source folds the case of a text, the model folds the
-- 26 ASCII letters.
mod Tests
mod Texts
mod Lists
mod Results
pub mod Dict
pub mod Int
pub mod Paths
pub mod Order
pub mod Split
pub use Tests.*
unfoldable pub use Texts.*
pub use Lists.*
pub use Results.*
unfoldable pub use native.Mathlib.Decide.{ℕ_discrete}
pub use Prim.Native.Nat.{ℕ, zero, suc, ◌+◌, ◌-◌, ◌*◌, ◌/◌, ◌%◌, ◌^◌, ◌≤◌, ◌<◌, bit_and}
pub use Prim.Native.String.{String}
pub use mathlib.Core.Path.{◌≡◌, refl, sym, ap, ◌∙◌}
pub use mathlib.Core.Logic.{◌≢◌, ◌↔◌, ◌⊎◌, inl, inr}
pub use mathlib.Core.Bool.{Bool, true, false, ◌&&◌, ◌||◌, not}
pub use mathlib.Core.Option.{Option, none, some}
pub use mathlib.Core.List.{List, [], ◌∷◌, ◌++◌, append-nil, append_assoc}
pub use native.Mathlib.Omega.{arith}
