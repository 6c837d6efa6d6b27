-- ===== src/Base.antt =====
-- The names that the other modules share: the libraries', passed on, and those of the children.
mod Tests
mod Lists
mod Results
pub mod Text
pub mod Maps
pub mod Distinct
pub mod Sort
pub mod Int
pub mod Growth
pub mod Cover
pub mod Patterns
pub mod Paths
pub mod Items
pub use Tests.*
unfoldable pub use Lists.{all, any, take}
pub use Lists.*
unfoldable pub use Results.{for_each, ◌>>=◌, ◌>>◌}
pub use Results.*
unfoldable pub use Text.{◌==◌, less}
pub use Text.{Bytes, ==_iff, ==_refl, ==_ne, codes, Bytes-set}
unfoldable pub use Maps.{lookup, contains, has_key, insert}
pub use Maps.{Dict, keys, values, has_key-contains, lookup-insert, contains-mem, mem-contains}
pub use Prim.Native.Nat.{ℕ, zero, suc, ◌+◌, ◌-◌, ◌*◌, ◌/◌, ◌%◌, ◌^◌, ◌≤◌, ◌<◌}
pub use mathlib.Core.Path.{◌≡◌, refl, sym, ap, subst, ◌∙◌}
pub use mathlib.Core.Logic.{◌≢◌, ◌↔◌, ◌⊎◌, inl, inr, ◌∨₁◌}
pub use mathlib.Core.Bool.{Bool, true, false, not, ◌&&◌, ◌||◌}
pub use mathlib.Core.Option.{Option, none, some}
pub use mathlib.Core.List.{List, [], ◌∷◌, ◌++◌, map, Mem, Nodup, Perm}
pub use native.Mathlib.Omega.{arith}
