-- ===== src/Prelude.antt =====
-- The names that the other modules share: the libraries', passed on, and those of the children.
pub mod Tests
pub mod Lists
pub mod Sort
pub mod Grouping
pub mod Runs
pub mod Flat
pub use Tests.*
pub use Lists.*
pub use Flat.{flat_map-append, mem-flat_map, mem-flat_map_inv, chunk-within}
unfoldable pub use Flat.{flat_map, chunks}
pub use Sort.{
  Order, in_order, mem-sort, mem-sort_of, sort-perm, AtMost, IsDescending, AtLeast, IsAscending,
  larger_first, smaller_first, sort-IsDescending, sort-IsAscending,
}
unfoldable pub use Sort.{sort}
pub use Prim.Native.Nat.{ℕ, zero, suc, ◌+◌, ◌-◌, ◌*◌, ◌/◌, ◌%◌, ◌^◌, ◌≤◌, ◌<◌}
pub use mathlib.Core.Path.{◌≡◌, refl, sym, ap, ◌∙◌}
pub use mathlib.Core.Logic.{◌≢◌, ◌↔◌, ◌⊎◌, inl, inr}
pub use mathlib.Core.Bool.{Bool, true, false, not, ◌&&◌, ◌||◌}
pub use mathlib.Core.Option.{Option, none, some}
pub use mathlib.Core.List.{List, [], ◌∷◌, ◌++◌, map, Memᴰ, Permᴰ}
pub use native.Mathlib.Omega.{arith}
