-- ===== src/Prelude.antt =====
-- The names that the modules of the development share: the libraries', passed on, with Boolean
-- tests, lists over the native numbers, machine words, text and signed integers in the children.
mod Tests
mod Lists
mod Word
mod Strings
pub mod Int
pub mod I64
pub mod Dict
pub mod Result
pub mod Decimal
pub mod DecimalLaws
pub use Tests.*
pub use Lists.*
pub use Word.*
pub use Strings.{
  Text, codes, text_eq, text_eq_iff, strip_prefix, starts_with, contains, utf8_len, is_empty,
  is_whitespace, ascii_lower, to_ascii_lowercase, as_bytes,
}
unfoldable pub use Word.{ones, count_ones}
unfoldable pub use Strings.{trim}
pub use Prim.Native.Nat.{ℕ, zero, suc, ◌+◌, ◌-◌, ◌*◌, ◌/◌, ◌%◌, ◌^◌, ◌≤◌, ◌<◌}
pub use mathlib.Core.Path.{◌≡◌, refl, sym, ap, ◌∙◌}
pub use mathlib.Core.Logic.{◌≢◌, ◌↔◌, ◌⊎◌, inl, inr}
pub use mathlib.Core.Bool.{Bool, true, false, ◌&&◌, ◌||◌, not}
pub use mathlib.Core.Option.{Option, none, some}
pub use mathlib.Core.List.{List, [], ◌∷◌, ◌++◌, map}
pub use native.Mathlib.Omega.{arith}
