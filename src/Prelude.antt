-- ===== src/Prelude.antt =====
-- The names that the other modules share: those of the libraries in use, passed on, and those of
-- the children. `Prelude.Map` stands for Go's maps.
mod Tests
mod Lists
mod Equality
mod Bytes
pub mod Int
pub mod Map
pub mod Entries
pub use Tests.*
unfoldable pub use Lists.*
unfoldable pub use Equality.*
pub use Bytes.*
pub use Int.*
pub use Prim.Native.Nat.{ℕ, zero, suc, ◌+◌, ◌-◌, ◌*◌, ◌/◌, ◌%◌, ◌^◌, ◌≤◌, ◌<◌}
pub use mathlib.Core.Path.{◌≡◌, refl, sym, ap, ap₂, subst, ◌∙◌}
pub use mathlib.Core.Logic.{◌≢◌, ◌↔◌, ◌⊎◌, inl, inr}
pub use mathlib.Core.Bool.{Bool, true, false, not, ◌&&◌, ◌||◌}
pub use mathlib.Core.Option.{Option, none, some}
pub use mathlib.Core.List.{List, [], ◌∷◌, ◌++◌, map, append-nil, append_assoc}
pub use native.Mathlib.Omega.{arith}
