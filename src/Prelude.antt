-- ===== src/Prelude.antt =====
-- The names that the other modules share: the libraries', passed on, and those of the children.
mod Tests
mod Lists
mod Results
mod Texts
mod Maps
mod Int
mod Sort
mod Sorters
mod Sets
mod Keys
mod TextOrder
pub use Tests.*
pub use Lists.*
pub use Results.*
unfoldable pub use Texts.{text_beq, has_prefix}
unfoldable pub use Maps.{lookup, insert, delete}
pub use Texts.*
pub use Maps.*
unfoldable pub use Int.{to_int64, digits, unsigned, parse_int, atoi_or_zero}
pub use Int.*
unfoldable pub use Sort.{insert_sorted, sort_by, text_lt}
pub use Sort.*
pub use Sorters.{StrictWeakOrder, Sorter, insertion}
unfoldable pub use Sets.{has}
pub use Sets.*
pub use Keys.*
pub use TextOrder.*
pub use Prim.Native.Nat.{ℕ, zero, suc, ◌+◌, ◌-◌, ◌*◌, ◌/◌, ◌%◌, ◌^◌, ◌≤◌, ◌<◌}
pub use mathlib.Core.Path.{◌≡◌, refl, sym, ap, ◌∙◌, subst}
pub use mathlib.Core.Logic.{◌≢◌, ◌↔◌, ◌⊎◌, inl, inr}
pub use mathlib.Core.Bool.{Bool, true, false, not, ◌&&◌, ◌||◌}
pub use mathlib.Core.Option.{Option, none, some}
pub use mathlib.Core.List.{List, [], ◌∷◌, ◌++◌, map, reverse, foldl, append_assoc, append-nil}
pub use native.Mathlib.Omega.{arith}
