-- ===== src/Base.antt =====
-- The names that the other modules share: the libraries', passed on, and those of the children.
mod Tests
mod Lists
mod Order
mod Maps
mod Sort
mod Ascents
mod Intersect
mod Bags
mod Results
mod Words
pub use Tests.*
pub use Lists.*
unfoldable pub use Order.{str_compare}
pub use Order.{Ord, same, Str, nat_ord, str_ord, str_eq, same_iff, str_eq_iff}
pub use Maps.*
pub use Sort.*
pub use Ascents.*
pub use Intersect.*
pub use Bags.*
pub use Results.*
pub use Words.{long_of_bits, bits_of_long, little_endian, bit_xor-shift}
pub use Prim.Native.Nat.{ℕ, zero, suc, ◌+◌, ◌-◌, ◌*◌, ◌/◌, ◌%◌, ◌^◌, ◌≤◌, ◌<◌, Ordering, min}
pub use mathlib.Core.Path.{◌≡◌, refl, sym, ap, ap₂, subst, ◌∙◌}
pub use mathlib.Core.Logic.{◌≢◌, ◌↔◌, ◌⊎◌, inl, inr}
pub use mathlib.Core.Bool.{Bool, true, false, not, ◌&&◌, ◌||◌}
pub use mathlib.Core.Option.{Option, none, some}
pub use mathlib.Core.List.{List, [], ◌∷◌, ◌++◌, map, append-nil, append_assoc}
pub use native.Mathlib.Omega.{arith}
