-- ===== src/Base.antt =====
-- The names that every module shares: the libraries', passed on, and those of the children.
mod Tests
mod Bytes
mod Lists
mod Maps
mod Words
mod Results
pub mod Options
pub mod Files
pub use Tests.*
unfoldable pub use Bytes.{◌==◌, lt_text, has_prefix, contains, cut}
pub use Bytes.{Text, codes, ==_iff, ==_refl}
pub use Lists.*
unfoldable pub use Maps.{lookup, insert, member, add_member}
pub use Bytes.Order.*
pub use Maps.{HasNoRepeats, add_member-HasNoRepeats, Map, lookup-insert, member-add_member}
pub use Words.*
pub use Results.*
pub use Bytes.Cut.*
unfoldable pub use Bytes.CutLast.{cut_last}
pub use Bytes.CutLast.{cut_last-append, Joins, cut_last-Joins}
pub use Prim.Native.Nat.{ℕ, zero, suc, ◌+◌, ◌-◌, ◌*◌, ◌/◌, ◌%◌, ◌^◌, ◌≤◌, ◌<◌}
pub use mathlib.Core.Path.{◌≡◌, refl, sym, ap, ◌∙◌}
pub use mathlib.Core.Logic.{◌≢◌, ◌↔◌, ◌⊎◌, inl, inr}
pub use mathlib.Core.Bool.{Bool, true, false, not, ◌&&◌, ◌||◌}
pub use mathlib.Core.Option.{Option, none, some}
pub use mathlib.Core.List.{List, [], ◌∷◌, ◌++◌, map, foldl}
pub use native.Mathlib.Omega.{arith}
