-- ===== src/Prelude.antt =====
-- The names that every module shares: those of the libraries, passed on, and those of the children
-- for tests, failures, lists, filters, dictionaries and texts.
pub mod Tests
pub mod Errors
pub mod Lists
pub mod Filter
pub mod Maps
pub mod Kept
pub mod Text
pub mod Decimal
pub mod Hex
pub mod Int
pub use Prim.Native.Nat.{ℕ, zero, suc, ◌+◌, ◌-◌, ◌*◌, ◌/◌, ◌%◌, ◌^◌, ◌≤◌, ◌<◌, min}
pub use Prim.Native.String.{String}
pub use mathlib.Core.Path.{◌≡◌, refl, sym, ap, ◌∙◌}
pub use mathlib.Core.Logic.{◌≢◌, ◌↔◌, ◌⊎◌, inl, inr}
pub use mathlib.Core.Bool.{Bool, true, false, ◌&&◌, ◌||◌, not}
pub use mathlib.Core.Option.{Option, none, some}
pub use mathlib.Core.List.{List, [], ◌∷◌, ◌++◌, map, Mem, Nodup}
pub use native.Mathlib.Omega.{arith}
pub use text.Mathlib.Text.{starts_with}
pub use text.Mathlib.TextEquality.{eq_iff}
pub use text.Mathlib.TextPositions.{eq_refl}
pub use mathlib.Core.List.{append_assoc, append-nil}
pub use Tests.*
pub use Errors.*
unfoldable pub use Lists.{All, length, any, every, find, select}
pub use Lists.{length-append, length-map, find-test, not-mem_of_any-false, Nodup-snoc, All-snoc}
pub use Filter.{All-select, All-any, All-unit, All-map, All-shown}
unfoldable pub use Maps.{Dict, lookup, insert, values, update_values}
pub use Maps.{lookup-insert, lookup-insert_self, lookup-update_values}
