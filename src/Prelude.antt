-- ===== src/Prelude.antt =====
-- The names that the other modules share: the libraries', passed on, and those of the children.
pub mod Tests
pub mod Lists
pub mod Words
pub mod Text
pub mod Chars
pub mod Decimal
pub mod Framing
pub use Tests.*
pub use Lists.*
pub use Words.*
pub use Text.{ℤ, pos, negsuc, Bytes, codes, bytes_eq_iff, Eq, nat_eq, bytes_equality}
unfoldable pub use Text.{bytes_eq}
pub use Chars.{is_digit, to_lower}
unfoldable pub use Chars.{digits, from_chars, break_at, break_at_last, lines}
pub use Prim.Native.Nat.{ℕ, zero, suc, ◌+◌, ◌-◌, ◌*◌, ◌/◌, ◌%◌, ◌^◌, ◌≤◌, ◌<◌, min, max}
pub use mathlib.Core.Path.{◌≡◌, refl, sym, subst, ap, ap₂, ◌∙◌, ◌≡⟨◌⟩◌, ◌∎}
pub use mathlib.Core.Logic.{◌≢◌, ◌↔◌, ◌⊎◌, inl, inr}
pub use mathlib.Core.Bool.{Bool, true, false, not, ◌&&◌, ◌||◌}
pub use mathlib.Core.Option.{Option, none, some}
pub use mathlib.Core.List.{List, [], ◌∷◌, ◌++◌, map, append_assoc, append-nil}
pub use native.Mathlib.Omega.{arith}
pub use native.Mathlib.Nat.{mod-eq_of_lt}
pub use native.Mathlib.Numerals.{add-one}
