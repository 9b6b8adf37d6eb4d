-- ===== src/Base.antt =====
-- Names, operators and lemmas that the models of all files share. Nothing here is about one file
-- of the repository.
mod Tests
mod Lists
pub mod Flow
mod Outcomes
mod Text
pub mod Bytes
pub mod Bits
pub mod Decimal
pub mod Utf8
pub mod Trim
pub mod Loop
pub use Tests.*
pub use Lists.*
pub use Flow.*
pub use Outcomes.*
pub use Text.*
pub use Prim.Native.Nat.{ℕ, zero, suc, ◌+◌, ◌-◌, ◌*◌, ◌/◌, ◌%◌, ◌^◌, ◌≤◌, ◌<◌, min, max, bit_and}
pub use Prim.Native.String.{String}
pub use mathlib.Core.Path.{◌≡◌, refl, sym, ap, ◌∙◌}
pub use mathlib.Core.Logic.{◌≢◌, ◌↔◌, ◌⊎◌, inl, inr}
pub use mathlib.Core.Bool.{Bool, true, false, not, ◌&&◌, ◌||◌}
pub use mathlib.Core.Option.{Option, none, some}
pub use mathlib.Core.List.{List, [], ◌∷◌, ◌++◌, map, flat_map, append-nil, append_assoc}
pub use native.Mathlib.Omega.{arith}
