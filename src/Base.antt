-- ===== src/Base.antt =====
-- The names that the other modules share: the library's, passed on, and those of the children
-- below, which model the parts of Go's language and standard library that the program uses.
mod Tests
mod Panics
mod Lists
mod Text
mod Maps
mod Numbers
pub use Tests.*
pub use Panics.*
pub use Lists.*
unfoldable pub use Text.{
  equal, has_prefix, contains, replace_all, split, split_n2, join, to_lower, trim, trim_space,
}
pub use Text.{
  Bytes, bytes, equal_iff, equal_refl, is_empty, nonempty, Free, split-Free, split-append,
  split_n2-Free, split_n2-append, is_space, trim-All,
}
unfoldable pub use Maps.{lookup, insert, delete}
pub use Maps.{Map, has_key, get_string, lookup-insert, lookup-delete}
unfoldable pub use Numbers.{itoa}
pub use Prim.Native.Nat.{ℕ, zero, suc, ◌+◌, ◌-◌, ◌*◌, ◌/◌, ◌%◌, ◌^◌, ◌≤◌, ◌<◌}
pub use Prim.Native.String.{String}
pub use mathlib.Core.Path.{◌≡◌, refl, sym, ap, subst, ◌∙◌}
pub use mathlib.Core.Logic.{◌≢◌, ◌↔◌, ◌⊎◌, inl, inr}
pub use mathlib.Core.Bool.{Bool, true, false, not, ◌&&◌, ◌||◌}
pub use mathlib.Core.Option.{Option, none, some}
pub use mathlib.Core.List.{List, [], ◌∷◌, ◌++◌, map}
pub use native.Mathlib.Omega.{arith}
