-- ===== src/Common.antt =====
-- What the modules of every crate share: the libraries' names, passed on, tests on the native
-- numbers, results with `?`, lists with membership by recursion, and machine words.
mod Tests
mod Results
mod Lists
mod Members
mod Least
mod Bytes
mod Tables
pub use Tests.*
unfoldable pub use Tests.{string_discrete}
pub use Results.*
pub use Lists.*
pub use Members.*
pub use Least.*
pub use Bytes.*
pub use Tables.*
unfoldable pub use Bytes.{to_le_bytes, from_le_bytes}
pub use Prim.Native.Nat.{ℕ, zero, suc, ◌+◌, ◌-◌, ◌*◌, ◌/◌, ◌%◌, ◌^◌, ◌≤◌, ◌<◌, min}
pub use Prim.Native.String.{String, len, count, slice}
pub use mathlib.Core.Path.{◌≡◌, refl, sym, ap, ap₂, ◌∙◌, subst}
pub use mathlib.Core.Logic.{◌≢◌, ◌↔◌, ◌⊎◌, inl, inr, ite, if_pos, if_neg}
pub use mathlib.Core.Bool.{Bool, true, false, not, ◌&&◌, ◌||◌}
pub use mathlib.Core.Option.{Option, none, some}
pub use mathlib.Core.List.{List, [], ◌∷◌, ◌++◌, map}
pub use native.Mathlib.Omega.{arith}
unfoldable pub use native.Mathlib.Decide.{ℕ_discrete}
