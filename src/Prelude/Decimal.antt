-- ===== src/Prelude/Decimal.antt =====
-- The decimal text of integers, as `{}` of `format!` writes it. Twenty digits are enough for 64
-- bits.
use Prim.Native.Nat.{ℕ, zero, suc, ◌+◌, ◌/◌, ◌%◌}
use mathlib.Core.List.{List, [], ◌∷◌, ◌++◌}
use conxian_nexus.Prelude.Tests.{ltb, if◌then◌else◌}
use conxian_nexus.Prelude.Int.{ℤ, pos, negsuc}

unfoldable pub digits_text : ℕ → ℕ → List ℕ
digits_text zero n = []
digits_text (suc fuel) n =
    let rest = digits_text fuel (n / 10) in
    if ltb n 10 then (48 + n) ∷ [] else rest ++ (48 + n % 10) ∷ []

unfoldable pub show_ℕ : ℕ → List ℕ
unfolding digits_text
show_ℕ n = digits_text 20 n

unfoldable pub show_ℤ : ℤ → List ℕ
unfolding show_ℕ
show_ℤ (pos n) = show_ℕ n
show_ℤ (negsuc n) = b'-' ∷ show_ℕ (suc n)
