-- ===== src/Common.antt =====
-- The names that the other modules share: those of the libraries, passed on, and the helpers of
-- the children: Boolean tests, lists, byte strings, keyed maps, and stable sorting.
mod Tests
mod Lists
pub mod Text
pub mod Maps
pub mod Snapshots
pub mod Statistics
pub mod Sorting
pub mod Sums
pub use Tests.*
pub use Lists.*
pub use Prim.Native.Nat.{ℕ, zero, suc, ◌+◌, ◌-◌, ◌*◌, ◌/◌, ◌%◌, ◌^◌, ◌≤◌, ◌<◌, min, max}
pub use mathlib.Core.Path.{◌≡◌, refl, sym, ap, ap₂, subst, ◌∙◌, ◌≡⟨◌⟩◌, ◌∎}
pub use mathlib.Core.Logic.{
  ◌≢◌, ◌↔◌, ◌⊎◌, inl, inr, ◌∨₁◌, ite, dite, if_pos, if_neg, ∥∥₁_elim, ∥∥₁_map,
}
pub use mathlib.Core.Bool.{Bool, true, false, ◌&&◌, ◌||◌, not}
pub use mathlib.Core.Option.{Option, none, some}
pub use mathlib.Core.List.{
  List, [], ◌∷◌, ◌++◌, map, filter, foldl, Mem, Perm, Nodup, Pairwise, Sublist,
}
pub use native.Mathlib.Omega.{arith}
unfoldable pub use native.Mathlib.Decide.{dec_lt, dec_le, ℕ_discrete}
