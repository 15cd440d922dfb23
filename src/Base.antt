-- ===== src/Base.antt =====
-- The names that every component shares: those of the libraries, passed on, and the helpers of the
-- modules below (tests, tables, machine words, outcomes).
mod Tests
mod Lists
mod Words
mod Returns
unfoldable pub use Tests.*
pub use Words.*
pub use Returns.*
pub use Prim.Native.Nat.{ℕ, zero, suc, ◌+◌, ◌-◌, ◌*◌, ◌/◌, ◌%◌, ◌^◌, ◌≤◌, ◌<◌}
pub use mathlib.Core.Path.{◌≡◌, refl, sym, ap, ◌∙◌, subst, subst⁻¹, ap₂}
pub use mathlib.Core.Logic.{◌≢◌, ◌↔◌, ◌⊎◌, inl, inr}
pub use mathlib.Core.Bool.{Bool, true, false, not, ◌&&◌, ◌||◌}
pub use mathlib.Core.Option.{Option, none, some}
pub use mathlib.Core.List.{List, [], ◌∷◌, ◌++◌, map}
pub use native.Mathlib.Omega.{arith}
unfoldable pub use Lists.*
unfoldable pub use native.Mathlib.Decide.{ℕ_discrete}
