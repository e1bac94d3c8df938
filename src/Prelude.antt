-- ===== src/Prelude.antt =====
-- The names that every other module shares: the libraries', passed on, and those of the children:
-- Boolean tests on the native numbers (Tests), lists indexed by them (Lists), bytes and words of the
-- Rust program (Text).
mod Tests
mod Lists
mod Text
mod White
mod Tables
pub mod Errno
pub use Tests.*
pub use Lists.*
unfoldable pub use Text.*
unfoldable pub use White.*
unfoldable pub use Tables.*
pub use Prim.Native.Nat.{ℕ, zero, suc, ◌+◌, ◌-◌, ◌*◌, ◌/◌, ◌%◌, ◌^◌, ◌≤◌, ◌<◌, min, bit_and}
pub use mathlib.Core.Path.{◌≡◌, refl, sym, ap, ◌∙◌, subst}
pub use mathlib.Core.Logic.{◌≢◌, ◌↔◌, ◌⊎◌, inl, inr}
pub use mathlib.Core.Bool.{Bool, true, false, ◌&&◌, ◌||◌, not}
pub use mathlib.Core.Option.{Option, none, some}
pub use mathlib.Core.List.{List, [], ◌∷◌, ◌++◌, map, map-append, append_assoc, append-nil}
pub use native.Mathlib.Omega.{arith}
