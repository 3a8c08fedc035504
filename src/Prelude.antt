-- ===== src/Prelude.antt =====
-- The names that the other modules share: the libraries', passed on, and those of the children.
mod Tests
mod Lists
pub mod Bits
mod Outcome
pub use Tests.*
unfoldable pub use Lists.{retain}
pub use Lists.*
unfoldable pub use Outcome.{get_slice, index, slice, slice_from}
pub use Outcome.{
  IoKind, would_block, interrupted, unexpected_eof, other_kind, Error, io, nix, invalid_property,
  invalid_data, Result, ok, err, panic, ◌>>=◌, ◌>>◌, guard, ok_or, Result-cases, Yields,
  Yields-bind, Yields-guard, Yields-if, Yields-map, index_lem, slice_lem, slice_from_lem,
  index-append, slice-append, slice_from-append,
}
pub use Prim.Native.Nat.{
  ℕ, zero, suc, ◌+◌, ◌-◌, ◌*◌, ◌/◌, ◌%◌, ◌^◌, ◌≤◌, ◌<◌, min, max, bit_and, bit_or, bit_xor,
}
pub use mathlib.Core.Path.{◌≡◌, refl, sym, ap, ◌∙◌}
pub use mathlib.Core.Logic.{◌≢◌, ◌↔◌, ◌⊎◌, inl, inr}
pub use mathlib.Core.Bool.{Bool, true, false, not, ◌&&◌, ◌||◌}
pub use mathlib.Core.Option.{Option, none, some}
pub use mathlib.Core.List.{List, [], ◌∷◌, ◌++◌, append-nil, append_assoc}
pub use native.Mathlib.Omega.{arith}
