-- ===== src/Base.antt =====
-- What the other modules share: names of the libraries, passed on, and those of the children:
-- Boolean tests, lists over the native numbers, texts as lists of code points, and Go maps.
mod Tests
mod Lists
mod Texts
mod Decimal
mod Strings
pub mod Dict
pub use Tests.*
pub use Lists.*
unfoldable pub use Texts.*
unfoldable pub use Decimal.*
unfoldable pub use Strings.*
pub use Prim.Native.Nat.{ℕ, zero, suc, ◌+◌, ◌-◌, ◌*◌, ◌/◌, ◌%◌, ◌^◌, ◌≤◌, ◌<◌}
pub use Prim.Native.String.{String}
pub use mathlib.Core.Path.{◌≡◌, refl, sym, ap, subst, ◌∙◌, ◌≡⟨◌⟩◌, ◌∎}
pub use mathlib.Core.Logic.{◌≢◌, ◌↔◌, ◌⊎◌, inl, inr}
pub use mathlib.Core.Bool.{Bool, true, false, not, ◌&&◌, ◌||◌}
pub use mathlib.Core.Option.{Option, none, some}
pub use mathlib.Core.List.{List, [], ◌∷◌, ◌++◌, map, map-append, append-nil, append_assoc}
pub use native.Mathlib.Omega.{arith}

-- Appending, as equations from left to right.
pub ruleset list_laws = (append-nil, append_assoc, map-append)
