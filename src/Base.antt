-- ===== src/Base.antt =====
-- The names that the other modules share: the libraries', passed on, and those of the children
-- below (Boolean tests, lists over the native numbers, signed integers, texts).
mod Tests
mod Lists
mod Int
mod Text
mod Partial
mod Maps
mod Bytes
mod Bits
pub use Tests.*
pub use Lists.*
pub use Int.*
pub use Text.*
pub use Partial.*
pub use Bytes.*
pub use Bits.*
unfoldable pub use Maps.{fetch, store, fetch_at, store_at}
pub use Maps.{Dict, NatDict, fetch-store, fetch_at-store_at, length-store_at, or_zero}
pub use Prim.Native.Nat.{
  ℕ, zero, suc, ◌+◌, ◌-◌, ◌*◌, ◌/◌, ◌%◌, ◌^◌, ◌≤◌, ◌<◌, min, max, Ordering, bit_and, bit_or,
}
pub use Prim.Native.String.{String, compare as compare_text}
pub use mathlib.Core.Path.{◌≡◌, refl, sym, ap, ap₂, ◌∙◌, subst}
pub use mathlib.Core.Logic.{◌≢◌, ◌↔◌, ◌⊎◌, inl, inr}
pub use mathlib.Core.Bool.{Bool, true, false, not, ◌&&◌, ◌||◌}
pub use mathlib.Core.Option.{Option, none, some}
pub use mathlib.Core.List.{List, [], ◌∷◌, ◌++◌, map, reverse, append_assoc, append-nil}
pub use native.Mathlib.Omega.{arith}
pub use text.Mathlib.Text.{◌==◌ as str_eq}
pub use text.Mathlib.TextEquality.{eq_iff}
pub use text.Mathlib.TextPositions.{eq_refl}
unfoldable pub use native.Mathlib.Decide.{dec_lt, dec_le, ℕ_discrete}
