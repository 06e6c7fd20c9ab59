-- ===== src/Prelude.antt =====
-- The names that the other modules share: those of the libraries, passed on, and those of the
-- children: Boolean tests, lists over native numbers, dictionaries in insertion order, results.
mod Tests
mod Lists
mod Dict
mod Predicates
mod NewKeys
pub use Tests.*
pub use Lists.*
pub use Predicates.*
pub use NewKeys.*
unfoldable pub use Dict.{lookup, erase, put, evict, move_to_end}
pub use Dict.{
  keys, lookup-erase, lookup-put, lookup-move_to_end, length-erase-le, length-put-le,
  length-evict-le, lookup-evict_last, erase_absent, put_absent, lookup-append,
  length-move_to_end-le, lookup-All, All-erase, All-put, All-move_to_end, All-evict, evict_small,
}
pub use Prim.Native.Nat.{ℕ, zero, suc, ◌+◌, ◌-◌, ◌*◌, ◌/◌, ◌%◌, ◌^◌, ◌≤◌, ◌<◌, min, max}
pub use mathlib.Core.Path.{◌≡◌, refl, sym, ap, ap₂, ◌∙◌, fun_ext, subst}
pub use mathlib.Core.Logic.{◌≢◌, ◌↔◌, ◌⊎◌, inl, inr}
pub use mathlib.Core.Bool.{Bool, true, false, not, ◌&&◌, ◌||◌}
pub use mathlib.Core.Option.{Option, none, some}
pub use mathlib.Core.List.{List, [], ◌∷◌, ◌++◌, map, append-nil, append_assoc}
pub use native.Mathlib.Omega.{arith}
